-- ===== src/Casefile/Dedupe.antt =====
-- What ApplyEvent does to the index of open Cases.
use rootforge.Prelude.{
  ◌≡◌, refl, sym, ap, ◌∙◌, Bool, true, false, inl, inr, Option, none, some, arith, Bool-cases,
  Option-cases,
}
use mathlib.Core.Path.{subst}
use rootforge.Text.{Text, text_eq_refl}
use rootforge.Clock.{Time}
use rootforge.Dict.{Dict, lookup, delete}
use rootforge.Dict.Laws.{lookup-delete}
use rootforge.Failure.{Error, ok, Result-cases}
use rootforge.Platform.{Platform}
use rootforge.Text.Lower.{LowersWide}
use rootforge.Trigger.{Event, fingerprint, normalize}
use rootforge.Trigger.Normal.{fingerprint-normalize}
use rootforge.Incident.{
  Incident, new_incident, first_incident, apply, occurred, is_open, clone_incident,
}
use rootforge.Incident.Apply.{new_incident-ok, apply_normal-Applied}
use rootforge.Casefile.{
  Case, Cases, IdGenerator, clone_case, new_case, revise, case_at, fresh_id, create_case,
  extend_case, apply_event,
}
use rootforge.Casefile.Index.{IsIndexed, insert-IsIndexed, update-IsIndexed, delete-IsIndexed}

fresh_id-ok :
    (generate : IdGenerator) (now : Time) (by_id : Dict Case) (id : Text)
    → fresh_id generate now by_id ≡ ok id
    → lookup id by_id ≡ none
unfolding fresh_id
fresh_id-ok generate now by_id id h = ground arith

abbrev SameKey : Incident → Incident → Type 0
SameKey i j = (j.fingerprint ≡ i.fingerprint) × (is_open j ≡ is_open i)

occurred-SameKey : (p : Platform) (i : Incident) (e : Event) → SameKey i (occurred p e i)
unfolding occurred is_open
occurred-SameKey p i e = (refl, refl)

apply-SameKey :
    (p : Platform) (i j : Incident) (event : Event) (changed : Bool)
    → apply p (some i) event ≡ ok (j, changed)
    → SameKey i j
unfolding apply
apply-SameKey p i j event changed h =
    elim (apply_normal-Applied p i (normalize p event) j changed h) [
      | inl a ↦ subst (SameKey i) (sym a.1) (refl, refl)
      | inr a ↦ subst (SameKey i) (sym a.1) (occurred-SameKey p i (normalize p event))
    ]

module _ (p : Platform) (laws : LowersWide p.lower_wide) where
  new_incident_print :
      (event : Event) (i : Incident)
      → new_incident p event ≡ ok i
      → i.fingerprint ≡ fingerprint p event
  new_incident_print event i h =
      let (_, is_first) = new_incident-ok p event i h in
      ap (λ (j : Incident). j.fingerprint) is_first
      ∙ unfold first_incident in fingerprint-normalize p laws event

  create_case-IsIndexed :
      (event : Event) (now : Time) (generate : IdGenerator) (s : Cases)
      → IsIndexed s
      → lookup (fingerprint p event) s.open_by_print ≡ none
      → IsIndexed (create_case p event now generate s).0
  unfolding create_case
  create_case-IsIndexed event now generate s x free = elim (Result-cases (new_incident p event)) [
    | inl (e, q) ↦ rw (q, create_case) x
    | inr (i, q) ↦
        rw (q, create_case)
          (elim (Result-cases (fresh_id generate now s.by_id)) [
            | inl (e, r) ↦ rw r x
            | inr (id, r) ↦ rw r (
                insert-IsIndexed s id (fingerprint p event) (clone_case (new_case id now i)) x
                  (fresh_id-ok generate now s.by_id id r) free
                  (unfold clone_case new_case clone_incident in new_incident_print event i q))
          ])
  ]

  extend_case-IsIndexed :
      (event : Event) (now : Time) (id : Text) (current : Case) (s : Cases)
      → IsIndexed s
      → lookup id s.by_id ≡ some current
      → IsIndexed (extend_case p event now id current s).0
  unfolding extend_case
  extend_case-IsIndexed event now id current s x there =
      elim (Result-cases (apply p (some current.incident) event)) [
        | inl (e, q) ↦ rw (q, extend_case) x
        | inr ((i, false), q) ↦ rw (q, extend_case) x
        | inr ((i, true), q) ↦
            let (same, opened) = apply-SameKey p current.incident i event true q in
            rw (q, extend_case)
              (update-IsIndexed s id current (clone_case (revise now i current)) x there
                (unfold clone_case revise clone_incident in same)
                (unfold clone_case revise clone_incident is_open in unfold is_open in opened))
      ]

  case_at_lem : (id : Text) (m : Dict Case) (c : Case) → lookup id m ≡ some c → case_at id m ≡ c
  unfolding case_at
  case_at_lem id m c h = rw h refl

  -- ApplyEvent of the process-local store keeps the index of open Cases exact: every entry names a
  -- Case of its fingerprint, and every open Case is found under its fingerprint. It holds whatever
  -- the Event is and whether the call succeeds; lower-casing a string that is not ASCII keeps it
  -- trimmed and is idempotent.
  pub apply_event-IsIndexed :
      (ctx : Option Error) (event : Event) (now : Time) (generate : IdGenerator) (s : Cases)
      → IsIndexed s
      → IsIndexed (apply_event p ctx event now generate s).0
  unfolding apply_event
  apply_event-IsIndexed (some e) event now generate s x = x
  apply_event-IsIndexed none event now generate s x =
      let print = fingerprint p event in
      elim (Option-cases (lookup print s.open_by_print)) [
        | inl q ↦ rw (q, apply_event) (create_case-IsIndexed event now generate s x q)
        | inr (id, q) ↦
            let (c, there, _) = x.names print id q in
            rw (q, apply_event)
              (rw (case_at_lem id s.by_id c there) (elim (Bool-cases (is_open c.incident)) [
                | inl y ↦ rw y (extend_case-IsIndexed event now id c s x there)
                | inr n ↦ rw n (
                    create_case-IsIndexed event now generate
                      (record s { open_by_print = delete print s.open_by_print })
                      (delete-IsIndexed s print id c x q there n)
                      (lookup-delete print print s.open_by_print ∙ rw (text_eq_refl print) refl))
              ]))
      ]
