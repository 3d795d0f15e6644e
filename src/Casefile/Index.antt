-- ===== src/Casefile/Index.antt =====
-- The index of open Cases by fingerprint: what a write of a Case and a delete of an entry keep.
use rootforge.Prelude.{
  ◌≡◌, refl, sym, ap, ◌∙◌, true, false, inl, inr, none, some, arith, Bool-cases,
}
use mathlib.Core.Bool.{false≢true}
use mathlib.Core.Option.{some-injective}
use rootforge.Text.{Text, text_eq, text_eq_sound, text_eq_iff}
use rootforge.Dict.{lookup, insert, delete}
use rootforge.Dict.Laws.{lookup-insert, lookup-delete, lookup-insert_self, lookup-insert_ne}
use rootforge.Incident.{is_open}
use rootforge.Casefile.{Case, Cases}

-- Each entry of the index names a Case of its fingerprint, and each open Case is in the index.
pub record IsIndexed (s : Cases) : Type 0 where
  pub names :
      (print id : Text)
      → lookup print s.open_by_print ≡ some id
      → (c : Case) × (lookup id s.by_id ≡ some c) × (c.incident.fingerprint ≡ print)
  pub finds :
      (id : Text) (c : Case)
      → lookup id s.by_id ≡ some c
      → is_open c.incident ≡ true
      → lookup c.incident.fingerprint s.open_by_print ≡ some id

-- So two open Cases of one fingerprint are one Case.
pub one_open_case :
    (s : Cases) (id other : Text) (c d : Case)
    → IsIndexed s
    → lookup id s.by_id ≡ some c
    → lookup other s.by_id ≡ some d
    → is_open c.incident ≡ true
    → is_open d.incident ≡ true
    → c.incident.fingerprint ≡ d.incident.fingerprint
    → id ≡ other
one_open_case s id other c d x hc hd oc od same = some-injective id other (
    sym (x.finds id c hc oc)
    ∙ ap (λ (k : Text). lookup k s.open_by_print) same
    ∙ x.finds other d hd od)

-- A Case with a new identifier, whose fingerprint is not in the index.
pub insert-IsIndexed :
    (s : Cases) (id print : Text) (c : Case)
    → IsIndexed s
    → lookup id s.by_id ≡ none
    → lookup print s.open_by_print ≡ none
    → c.incident.fingerprint ≡ print
    → IsIndexed
        (record { by_id = insert id c s.by_id; open_by_print = insert print id s.open_by_print })
insert-IsIndexed s id print c x fresh free same = record {
  names = λ key found h. elim (Bool-cases (text_eq print key)) [
    | inl y ↦
        let is_id : some id ≡ some found =
          sym (lookup-insert print key id s.open_by_print ∙ rw y refl) ∙ h in
        (
          c,
          ap (λ (k : Text). lookup k (insert id c s.by_id)) (sym (some-injective id found is_id))
              ∙ lookup-insert_self id c s.by_id,
          same ∙ text_eq_sound print key y,
        )
    | inr n ↦
        let old = sym (lookup-insert_ne print key id s.open_by_print n) ∙ h in
        let (e, there, keyed) = x.names key found old in
        (
          e,
          lookup-insert id found c s.by_id ∙ ground (arith, text_eq_iff id found, there, fresh),
          keyed,
        )
  ];
  finds = λ found e h opened. elim (Bool-cases (text_eq id found)) [
    | inl y ↦
        let is_c : c ≡ e =
          some-injective c e (sym (lookup-insert id found c s.by_id ∙ rw y refl) ∙ h) in
        ap (λ (k : Text). lookup k (insert print id s.open_by_print))
          (ap (λ (z : Case). z.incident.fingerprint) (sym is_c) ∙ same)
        ∙ lookup-insert_self print id s.open_by_print
        ∙ ap some (text_eq_sound id found y)
    | inr n ↦
        let old = x.finds found e (sym (lookup-insert_ne id found c s.by_id n) ∙ h) opened in
        lookup-insert print e.incident.fingerprint id s.open_by_print
        ∙ ground (arith, text_eq_iff print e.incident.fingerprint, old, free)
  ];
}

-- A Case that is written again with its fingerprint and its status.
pub update-IsIndexed :
    (s : Cases) (id : Text) (old new : Case)
    → IsIndexed s
    → lookup id s.by_id ≡ some old
    → new.incident.fingerprint ≡ old.incident.fingerprint
    → is_open new.incident ≡ is_open old.incident
    → IsIndexed (record s { by_id = insert id new s.by_id })
update-IsIndexed s id old new x there same opened = record {
  names = λ key found h.
      let (e, known, keyed) = x.names key found h in
      elim (Bool-cases (text_eq id found)) [
        | inl y ↦
            let is_old : old ≡ e = some-injective old e (
              sym there ∙ ap (λ (k : Text). lookup k s.by_id) (text_eq_sound id found y) ∙ known) in
            (
              new,
              lookup-insert id found new s.by_id ∙ rw y refl,
              same ∙ ap (λ (z : Case). z.incident.fingerprint) is_old ∙ keyed,
            )
        | inr n ↦ (e, lookup-insert_ne id found new s.by_id n ∙ known, keyed)
      ];
  finds = λ found e h yes. elim (Bool-cases (text_eq id found)) [
    | inl y ↦
        let is_new : new ≡ e =
          some-injective new e (sym (lookup-insert id found new s.by_id ∙ rw y refl) ∙ h) in
        ap (λ (k : Text). lookup k s.open_by_print)
          (ap (λ (z : Case). z.incident.fingerprint) (sym is_new) ∙ same)
        ∙ x.finds id old there (sym opened ∙ ap (λ (z : Case). is_open z.incident) is_new ∙ yes)
        ∙ ap some (text_eq_sound id found y)
    | inr n ↦ x.finds found e (sym (lookup-insert_ne id found new s.by_id n) ∙ h) yes
  ];
}

-- An entry whose Case is not open.
pub delete-IsIndexed :
    (s : Cases) (print id : Text) (c : Case)
    → IsIndexed s
    → lookup print s.open_by_print ≡ some id
    → lookup id s.by_id ≡ some c
    → is_open c.incident ≡ false
    → IsIndexed (record s { open_by_print = delete print s.open_by_print })
delete-IsIndexed s print id c x entry there closed = record {
  names =
      λ key found h. x.names key found (ground (arith, lookup-delete print key s.open_by_print, h));
  finds = λ found e h opened.
      lookup-delete print e.incident.fingerprint s.open_by_print
      ∙ elim (Bool-cases (text_eq print e.incident.fingerprint)) [
        | inl y ↦
            let at_print = text_eq_sound print e.incident.fingerprint y in
            let same : found ≡ id = some-injective found id (
              sym (x.finds found e h opened)
              ∙ ap (λ (k : Text). lookup k s.open_by_print) (sym at_print)
              ∙ entry) in
            let is_c : e ≡ c =
              some-injective e c (sym h ∙ ap (λ (k : Text). lookup k s.by_id) same ∙ there) in
            absurd
              (false≢true (sym closed ∙ ap (λ (z : Case). is_open z.incident) (sym is_c) ∙ opened))
        | inr n ↦ rw n (x.finds found e h opened)
      ];
}
