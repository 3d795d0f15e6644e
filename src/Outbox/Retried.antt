-- ===== src/Outbox/Retried.antt =====
-- What Retry leaves of a task.
use rootforge.Prelude.{
  ℕ, ◌≡◌, ◌≤◌, refl, ap, ◌∙◌, Option, some, none, [], ◌∷◌, zero, suc, arith, if◌then◌else◌, length,
  take,
}
use rootforge.Text.{Text, text_eq, trim_space}
use rootforge.Clock.{Time}
use rootforge.Dict.{lookup, insert, copy, Distinct}
use rootforge.Dict.Laws.{lookup-insert}
use rootforge.Dict.Copy.{copy_lem}
use rootforge.Failure.{Error, Result, ok, err}
use rootforge.Platform.{Codec}
use rootforge.JsonFile.{Directory, Answers}
use rootforge.Investigation.{Task}
use rootforge.Outbox.{
  InvestigationOutbox, OutboxDiskState, Reply, commit, retry, with_lease, give_back, owned_lease,
  truncate,
}
use rootforge.Outbox.Effects.{commit-ok}
use rootforge.Outbox.Terms.{
  HeldLease, pending_again, owned_lease-HeldLease, give_back-pending_again,
}

take_whole : (n : ℕ) (s : Text) → length s ≤ n → take n s ≡ s
take_whole zero [] h = refl
take_whole zero (b ∷ s) h = absurd (omega (arith, h))
take_whole (suc n) [] h = refl
take_whole (suc n) (b ∷ s) h = ap (λ (r : Text). b ∷ r) (take_whole n s (omega (arith, h)))

truncate-take : (s : Text) (n : ℕ) → truncate s n ≡ take n s
unfolding truncate
truncate-take s n = ground (arith, take_whole n s)

module _ (codec : Codec OutboxDiskState) where
  abbrev pub Retried : Text → Text → Time → Time → Text → InvestigationOutbox → Reply Unit → Type 0
  Retried id token now available failure o r =
      r.result ≡ ok tt
      → (t : Task) × HeldLease id token now o.tasks t
        × ((k : Text)
            → lookup k r.outbox.tasks ≡ (
                if text_eq id k
                then some (pending_again available (take 2048 (trim_space failure)) now t)
                else lookup k o.tasks))

  -- A Retry that succeeds, over a map of tasks without repeated keys, was called with the token of a
  -- lease that has not run out. The task is pending again from the time that was asked for, with no
  -- lease, with the first 2048 bytes of the trimmed failure text and its other fields unchanged. No
  -- other task changes.
  pub retry-Retried :
      (ctx : Option Error) (id token : Text) (now available : Time) (failure : Text) (a : Answers)
      (o : InvestigationOutbox) (d : Directory)
      → Distinct o.tasks
      → Retried id token now available failure o
          (retry codec ctx id token now available failure a o d)
  unfolding retry
  retry-Retried (some c) id token now available failure a o d distinct = λ h. absurd (cc h)
  retry-Retried none id token now available failure a o d distinct =
      go (owned_lease id token now o.tasks) refl
    where
      go :
          (r : Result Task)
          → owned_lease id token now o.tasks ≡ r
          → Retried id token now available failure o (
              with_lease r o d λ current.
                let again = give_back available (truncate (trim_space failure) 2048) now current in
                commit codec a o d (insert id again (copy o.tasks)) tt)
      go (err e) owned h = absurd (cc h)
      go (ok t) owned h =
          let failed = truncate (trim_space failure) 2048 in
          (
            t,
            owned_lease-HeldLease id token now o.tasks t owned,
            λ k. rw (commit-ok codec a o d _ tt tt h).1 (
                rw (copy_lem o.tasks distinct) (
                  lookup-insert id k (give_back available failed now t) o.tasks
                  ∙ ap (λ (again : Task). if text_eq id k then some again else lookup k o.tasks)
                      (give_back-pending_again available failed now t
                        ∙ ap (λ (x : Text). pending_again available x now t)
                            (truncate-take (trim_space failure) 2048)))),
          )
