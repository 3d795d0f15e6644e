-- ===== src/Outbox/Exclusive.antt =====
-- LeaseNext takes a task that is due, the earliest of them, and nobody else gets it while the lease
-- runs.
use rootforge.Prelude.{
  ℕ, ◌+◌, ◌≡◌, ◌≢◌, ◌<◌, refl, sym, ap, ◌∙◌, inl, inr, true, false, ◌||◌, Option, none, some, List,
  [], ◌∷◌, arith, ◌==◌, if_rule, All, Bool-cases,
}
use mathlib.Core.Option.{some-injective}
use mathlib.Core.Bool.{false≢true}
use rootforge.Prelude.Int.{pos}
use rootforge.Text.{Text, is_empty, text_eq_iff, text_eq_refl, trim_space}
use rootforge.Clock.{Time}
use rootforge.Dict.{Dict, lookup, insert, copy, values}
use rootforge.Dict.Laws.{lookup-insert_self}
use rootforge.Dict.Keyed.{find, UniqueKeys, find-values, values-UniqueKeys}
use rootforge.Failure.{Error, Result, ok, err}
use rootforge.Platform.{Codec}
use rootforge.JsonFile.{Directory, Answers}
use rootforge.Sort.{insert_by, sort_by}
use rootforge.Sort.Order.{Ascending, sort_by-Ascending, sort_by-All}
use rootforge.Investigation.{Task}
use rootforge.Outbox.{
  InvestigationOutbox, OutboxDiskState, Reply, lease_next, lease_first, lease_to, eligible,
  eligible_tasks, task_less,
}
use rootforge.Outbox.Lease.{eligible_tasks-All, task_less-StrictWeak}
use rootforge.Outbox.Invariant.{IsValid, task_key, Entries-OwnKey}
use rootforge.Outbox.Effects.{commit-ok}

module _ {κ} (P : Task → Type κ) where
  All-insert_by : (t : Task) (ts : List Task) → All P (insert_by task_less t ts) → P t × All P ts
  unfolding insert_by
  All-insert_by t [] h = h
  All-insert_by t (u ∷ us) h = elim (Bool-cases (task_less t u)) [
    | inl e ↦ rw (e, insert_by) at h
    | inr e ↦
        let k : P u × All P (insert_by task_less t us) = rw (e, insert_by) at h in
        let (p, ps) = All-insert_by t us k.1 in (p, (k.0, ps))
  ]

  All-sort_by : (ts : List Task) → All P (sort_by task_less ts) → All P ts
  unfolding sort_by
  All-sort_by [] h = h
  All-sort_by (t ∷ ts) h =
      let (p, ps) = All-insert_by t (sort_by task_less ts) h in (p, All-sort_by ts ps)

  All-eligible_tasks :
      (now : Time) (ts : List Task)
      → All P (eligible_tasks now ts)
      → All (λ t. eligible now t ≡ true → P t) ts
  unfolding eligible_tasks
  All-eligible_tasks now [] h = tt
  All-eligible_tasks now (t ∷ ts) h = elim (Bool-cases (eligible now t)) [
    | inl e ↦
        let k : P t × All P (eligible_tasks now ts) = rw (e, eligible_tasks) at h in
        (λ _. k.0, All-eligible_tasks now ts k.1)
    | inr e ↦ ((λ y. absurd (cc (e, y))), All-eligible_tasks now ts (rw (e, eligible_tasks) at h))
  ]

found_later :
    (t : Task) (ts us : List Task)
    → find task_key t.id ts ≡ none
    → All (λ u. find task_key u.id ts ≡ some u) us
    → All (λ u. find task_key u.id (t ∷ ts) ≡ some u) us
unfolding find
found_later t ts [] f h = tt
found_later t ts (u ∷ us) f h = (
  ground (
    arith,
    text_eq_iff t.id u.id,
    h.0,
    λ (e : t.id ≡ u.id). ap (λ (k : Text). find task_key k ts) e,
  ),
  found_later t ts us f h.1,
)

found_own : (ts : List Task) → UniqueKeys task_key ts → All (λ t. find task_key t.id ts ≡ some t) ts
found_own [] u = tt
found_own (t ∷ ts) u =
    (unfold find in rw (text_eq_refl t.id), found_later t ts ts u.0 (found_own ts u.1))

-- The task that a lease was taken of: it is in the Outbox and due, and no task that is due comes
-- before it.
pub record Chosen (now : Time) (tasks : Dict Task) (t : Task) : Type 0 where
  pub present : lookup t.id tasks ≡ some t
  pub due : eligible now t ≡ true
  pub least : All (λ u. eligible now u ≡ true → task_less u t ≡ false) (values tasks)

module _ (sha256 : Text → Text) where
  present_All :
      (tasks : Dict Task)
      → IsValid sha256 tasks
      → All (λ t. lookup t.id tasks ≡ some t) (values tasks)
  present_All tasks v =
      let own = Entries-OwnKey sha256 tasks v.stored in
      go (values tasks) (found_own (values tasks) (values-UniqueKeys task_key tasks own v.distinct))
    where
      go :
          (ts : List Task)
          → All (λ t. find task_key t.id (values tasks) ≡ some t) ts
          → All (λ t. lookup t.id tasks ≡ some t) ts
      go [] h = tt
      go (t ∷ ts) h = (
        sym (find-values task_key t.id tasks (Entries-OwnKey sha256 tasks v.stored)) ∙ h.0,
        go ts h.1,
      )

  abbrev Head : Time → Dict Task → List Task → Type 0
  Head now tasks [] = Unit
  Head now tasks (t ∷ ts) = Chosen now tasks t

  not_self : (t : Task) → task_less t t ≡ false
  not_self t = elim (Bool-cases (task_less t t)) [
    | inl e ↦ task_less-StrictWeak.asymmetric t t e
    | inr e ↦ e
  ]

  sorted-Head :
      (now : Time) (tasks : Dict Task)
      → IsValid sha256 tasks
      → Head now tasks (sort_by task_less (eligible_tasks now (values tasks)))
  sorted-Head now tasks v =
      let due = eligible_tasks now (values tasks) in
      go (sort_by task_less due)
        (sort_by-All (λ t. (eligible now t ≡ true) × (lookup t.id tasks ≡ some t)) task_less due
          (eligible_tasks-All (λ t. lookup t.id tasks ≡ some t) now (values tasks)
            (present_All tasks v)))
        (sort_by-Ascending task_less-StrictWeak due)
        (λ t h.
          All-eligible_tasks (λ u. task_less u t ≡ false) now (values tasks)
            (All-sort_by (λ u. task_less u t ≡ false) due h))
    where
      go :
          (ts : List Task)
          → All (λ t. (eligible now t ≡ true) × (lookup t.id tasks ≡ some t)) ts
          → Ascending task_less-StrictWeak ts
          → ((t : Task)
              → All (λ u. task_less u t ≡ false) ts
              → All (λ u. eligible now u ≡ true → task_less u t ≡ false) (values tasks))
          → Head now tasks ts
      go [] h s k = tt
      go (t ∷ ts) h s k = record { present = h.0.1; due = h.0.0; least = k t (not_self t, s.0) }

  module _ (codec : Codec OutboxDiskState) where
    -- A lease was taken of a task at `now`.
    abbrev pub Takes : Text → Time → ℕ → Result Text → InvestigationOutbox → Reply Task → Type 0
    Takes owner now duration token o r =
        (t : Task)
        → r.result ≡ ok t
        → (first : Task) × Chosen now o.tasks first
          × ((drawn : Text) × (token ≡ ok drawn)
              × (t ≡ lease_to (trim_space owner) drawn now duration first))
          × (r.outbox.tasks ≡ insert t.id t (copy o.tasks))

    lease_first-Takes :
        (owner : Text) (token : Result Text) (now : Time) (n : ℕ) (a : Answers)
        (o : InvestigationOutbox) (d : Directory) (ts : List Task)
        → Head now o.tasks ts
        → Takes owner now n token o (lease_first codec (trim_space owner) token now n a o d ts)
    unfolding lease_first
    lease_first-Takes owner token now n a o d [] h = λ t e. absurd (cc e)
    lease_first-Takes owner (err c) now n a o d (first ∷ ts) h = λ t e. absurd (cc e)
    lease_first-Takes owner (ok drawn) now n a o d (first ∷ ts) h = λ t e.
        let taken = lease_to (trim_space owner) drawn now n first in
        let (value, tasks) =
          commit-ok codec a o d (insert taken.id taken (copy o.tasks)) taken t e in
        (
          first,
          h,
          (drawn, refl, value),
          tasks ∙ ap (λ (u : Task). insert u.id u (copy o.tasks)) (sym value),
        )

    -- What LeaseNext chose and wrote, in the words of its code.
    pub lease_next-Takes :
        (ctx : Option Error) (owner : Text) (now : Time) (n : ℕ) (token : Result Text) (a : Answers)
        (o : InvestigationOutbox) (d : Directory)
        → IsValid sha256 o.tasks
        → Takes owner now n token o (lease_next codec ctx owner now (pos n) token a o d)
    unfolding lease_next
    lease_next-Takes (some c) owner now n token a o d v = λ t e. absurd (cc e)
    lease_next-Takes none owner now n token a o d v =
        if_rule (Takes owner now n token o) (is_empty (trim_space owner) || n == 0) _ _
          (λ _ t e. absurd (cc e))
          λ _.
            lease_first-Takes owner token now n a o d
              (sort_by task_less (eligible_tasks now (values o.tasks))) (sorted-Head now o.tasks v)

    id-lease_to :
        (owner drawn : Text) (now : Time) (n : ℕ) (first : Task)
        → (lease_to owner drawn now n first).id ≡ first.id
    unfolding lease_to
    id-lease_to owner drawn now n first = refl

    held_not_due :
        (owner drawn : Text) (now later : Time) (n : ℕ) (first : Task)
        → later.instant < now.instant + n
        → eligible later (lease_to owner drawn now n first) ≡ false
    unfolding eligible lease_to
    held_not_due owner drawn now later n first h = ground arith

    -- While a lease runs, LeaseNext gives its task to nobody else: if one LeaseNext returned `t` at
    -- `now` and left valid tasks, and the next one, before the lease of `t` has run out, returns
    -- `u`, then `u` is another task.
    pub lease_next-exclusive :
        (owner other : Text) (now later : Time) (n m : ℕ) (token second : Result Text)
        (a b : Answers) (o : InvestigationOutbox) (d e : Directory) (t u : Task)
        → IsValid sha256 o.tasks
        → (let r = lease_next codec none owner now (pos n) token a o d in
            (r.result ≡ ok t)
            × IsValid sha256 r.outbox.tasks
            × ((lease_next codec none other later (pos m) second b r.outbox e).result ≡ ok u))
        → later.instant < now.instant + n
        → t.id ≢ u.id
    lease_next-exclusive owner other now later n m token second a b o d e t u v (leases, w, again)
          soon same =
        let r = lease_next codec none owner now (pos n) token a o d in
        let (first, chosen, (drawn, _, is_t), tasks) =
          lease_next-Takes none owner now n token a o d v t leases in
        let (next, chosen', (drawn', _, is_u), _) =
          lease_next-Takes none other later m second b r.outbox e w u again in
        let id_u : next.id ≡ t.id = sym (
          same
          ∙ ap (λ (x : Task). x.id) is_u
          ∙ id-lease_to (trim_space other) drawn' later m next) in
        let here : lookup t.id r.outbox.tasks ≡ some t =
          ap (lookup t.id) tasks ∙ lookup-insert_self t.id t (copy o.tasks) in
        let is_next : next ≡ t =
          some-injective next t
            (sym chosen'.present ∙ ap (λ (k : Text). lookup k r.outbox.tasks) id_u ∙ here) in
        false≢true (
          sym (held_not_due (trim_space owner) drawn now later n first soon)
          ∙ ap (eligible later) (sym (is_next ∙ is_t))
          ∙ chosen'.due)
