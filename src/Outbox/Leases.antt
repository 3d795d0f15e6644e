-- ===== src/Outbox/Leases.antt =====
-- LeaseNext of internal/storage/local/outbox.go: which task it leases, and how long its token is good
-- for in Complete and Retry.
use rootforge.Prelude.{
  ℕ, ◌+◌, ◌≡◌, ◌≢◌, ◌≤◌, refl, sym, ap, ◌∙◌, ◌⊎◌, inl, inr, Option, none, some, All, All-weaken,
  arith, if◌then◌else◌,
}
use mathlib.Core.Bool.{false≢true}
use rootforge.Prelude.Int.{pos}
use rootforge.Text.{Text, text_eq, text_eq_refl, trim_space}
use rootforge.Clock.{Time}
use rootforge.Dict.{Dict, lookup, insert, values}
use rootforge.Dict.Laws.{lookup-insert}
use rootforge.Dict.Copy.{copy_lem}
use rootforge.Failure.{Error, Result, ok, lease_conflict}
use rootforge.Platform.{Codec}
use rootforge.JsonFile.{Directory, Answers}
use rootforge.Investigation.{Task}
use rootforge.Outbox.{
  InvestigationOutbox, OutboxDiskState, Reply, refuse, lease_next, complete, retry,
}
use rootforge.Outbox.Invariant.{IsValid}
use rootforge.Outbox.Exclusive.{lease_next-Takes}
use rootforge.Outbox.Effects.{stale_lease}
use rootforge.Outbox.Terms.{
  IsDue, ComesBefore, leased_again, eligible-IsDue, task_less-ComesBefore, lease_to-leased_again,
}

-- The task is in the Outbox and due, and no task that is due comes before it.
pub record FirstDue (now : Time) (tasks : Dict Task) (t : Task) : Type 0 where
  pub present : lookup t.id tasks ≡ some t
  pub due : IsDue now t
  pub least : All (λ u. IsDue now u → ¬ (ComesBefore u t)) (values tasks)

-- What a LeaseNext that returns a task did.
abbrev pub Leases : Text → Time → ℕ → Result Text → InvestigationOutbox → Reply Task → Type 0
Leases owner now duration token o r =
    (t : Task)
    → r.result ≡ ok t
    → (first : Task) × FirstDue now o.tasks first
      × ((drawn : Text) × (token ≡ ok drawn)
          × (t ≡ leased_again (trim_space owner) drawn now duration first))
      × ((k : Text)
          → lookup k r.outbox.tasks ≡ (if text_eq t.id k then some t else lookup k o.tasks))

-- The error of a cancelled context, or else the conflict.
abbrev pub refusal : Option Error → Error
refusal none = lease_conflict
refusal (some cancelled) = cancelled

module _ (sha256 : Text → Text) (codec : Codec OutboxDiskState) where
  -- If LeaseNext, over valid tasks, returns a task, that is a task of the Outbox which was due:
  -- pending with an available time that has come, or leased with a lease that has run out. No task
  -- that is due comes before it in (available time, identifier). It is now leased to the trimmed
  -- owner under the drawn token from now on for the duration, at its present revision and with one
  -- more attempt; the Outbox holds it in place of the old one, and no other task changes.
  pub lease_next-Leases :
      (ctx : Option Error) (owner : Text) (now : Time) (n : ℕ) (token : Result Text) (a : Answers)
      (o : InvestigationOutbox) (d : Directory)
      → IsValid sha256 o.tasks
      → Leases owner now n token o (lease_next codec ctx owner now (pos n) token a o d)
  lease_next-Leases ctx owner now n token a o d v t e =
      let (first, chosen, (drawn, is, leases), tasks) =
        lease_next-Takes sha256 codec ctx owner now n token a o d v t e in
      (
        first,
        record {
          present = chosen.present;
          due = (eligible-IsDue now first).0 chosen.due;
          least =
              All-weaken _ _ (values o.tasks)
                (λ u h due before. false≢true (
                  sym (h ((eligible-IsDue now u).1 due))
                  ∙ (task_less-ComesBefore u first).1 before))
                chosen.least;
        },
        (drawn, is, leases ∙ lease_to-leased_again (trim_space owner) drawn now n first),
        λ k.
            ap (lookup k) tasks
            ∙ ap (λ (m : Dict Task). lookup k (insert t.id t m)) (copy_lem o.tasks v.distinct)
            ∙ lookup-insert t.id k t o.tasks,
      )

  -- After LeaseNext, over valid tasks, returned a task, neither Complete nor Retry of that task does
  -- anything once the duration of the lease is over, nor under any other token than the one that
  -- was returned with the task: both answer ErrLeaseConflict, or the error of a cancelled context.
  pub lease_next-stale :
      (owner : Text) (now : Time) (n : ℕ) (token : Result Text) (a : Answers)
      (o : InvestigationOutbox) (d : Directory) (t : Task)
      → IsValid sha256 o.tasks
      → (lease_next codec none owner now (pos n) token a o d).result ≡ ok t
      → (ctx : Option Error) (other : Text) (later available : Time) (failure : Text) (b : Answers)
        (e : Directory)
      → (other ≢ t.lease_token) ⊎ (now.instant + n ≤ later.instant)
      → let o' = (lease_next codec none owner now (pos n) token a o d).outbox in
        (complete codec ctx t.id other later b o' e ≡ refuse o' e (refusal ctx))
        × (retry codec ctx t.id other later available failure b o' e ≡ refuse o' e (refusal ctx))
  lease_next-stale owner now n token a o d t v leases (some c) other later available failure b e
        stale =
      (unfold complete in refl, unfold retry in refl)
  lease_next-stale owner now n token a o d t v leases none other later available failure b e stale =
      let o' = (lease_next codec none owner now (pos n) token a o d).outbox in
      let (first, chosen, (drawn, is, again), tasks) =
        lease_next-Leases none owner now n token a o d v t leases in
      let until : t.lease_until.instant ≡ now.instant + n =
        ap (λ (u : Task). u.lease_until.instant) again in
      stale_lease codec t.id other later available failure b o' e t
        (tasks t.id ∙ rw (text_eq_refl t.id) refl)
        (elim stale [
          | inl ne ↦ inl (λ same. ne (sym same))
          | inr over ↦ inr (omega (arith, until, over))
        ])
