-- ===== src/Outbox/Finish.antt =====
-- What Complete leaves of a task.
use rootforge.Prelude.{
  ◌≡◌, refl, ap, ◌∙◌, Bool, true, false, Option, none, some, ltb, if◌then◌else◌,
}
use rootforge.Text.{Text, text_eq}
use rootforge.Clock.{Time}
use rootforge.Dict.{Dict, lookup, insert, delete, copy, Distinct}
use rootforge.Dict.Laws.{lookup-insert, lookup-delete}
use rootforge.Dict.Copy.{copy_lem}
use rootforge.Failure.{Error, Result, ok, err}
use rootforge.Platform.{Codec}
use rootforge.JsonFile.{Directory, Answers}
use rootforge.Investigation.{Task}
use rootforge.Outbox.{
  InvestigationOutbox, OutboxDiskState, Reply, commit, complete, with_lease, give_back, owned_lease,
}
use rootforge.Outbox.Effects.{commit-ok}
use rootforge.Outbox.Terms.{
  HeldLease, pending_again, owned_lease-HeldLease, give_back-pending_again,
}

-- The task that is left after its lease at an older revision: none, if no later one is known.
abbrev pub left_over : Time → Task → Option Task
left_over now t =
    if ltb t.leased_revision t.case_revision
    then some (pending_again now t.last_error now t)
    else none

module _ (codec : Codec OutboxDiskState) where
  abbrev pub Finished : Text → Text → Time → InvestigationOutbox → Reply Unit → Type 0
  Finished id token now o r =
      r.result ≡ ok tt
      → (t : Task) × HeldLease id token now o.tasks t
        × ((k : Text)
            → lookup k r.outbox.tasks
              ≡ (if text_eq id k then left_over now t else lookup k o.tasks))

  lookup_next :
      (id k : Text) (b : Bool) (again : Task) (tasks : Dict Task)
      → lookup k (if b then insert id again tasks else delete id tasks)
        ≡ (if text_eq id k then (if b then some again else none) else lookup k tasks)
  lookup_next id k true again tasks = lookup-insert id k again tasks
  lookup_next id k false again tasks = lookup-delete id k tasks

  -- A Complete that succeeds, over a map of tasks without repeated keys, was called with the token
  -- of a lease that has not run out. It removes the task, unless a later revision of the Case became
  -- known since the task was leased: then the task is pending again from now on, at that revision,
  -- with no lease and its other fields unchanged. No other task changes.
  pub complete-Finished :
      (ctx : Option Error) (id token : Text) (now : Time) (a : Answers) (o : InvestigationOutbox)
      (d : Directory)
      → Distinct o.tasks
      → Finished id token now o (complete codec ctx id token now a o d)
  unfolding complete
  complete-Finished (some c) id token now a o d distinct = λ h. absurd (cc h)
  complete-Finished none id token now a o d distinct = go (owned_lease id token now o.tasks) refl
    where
      go :
          (r : Result Task)
          → owned_lease id token now o.tasks ≡ r
          → Finished id token now o (
              with_lease r o d λ current.
                let next = copy o.tasks in
                let again = give_back now current.last_error now current in
                commit codec a o d
                  (if ltb current.leased_revision current.case_revision
                    then insert id again next
                    else delete id next)
                  tt)
      go (err e) owned h = absurd (cc h)
      go (ok t) owned h = (
        t,
        owned_lease-HeldLease id token now o.tasks t owned,
        λ k. rw (commit-ok codec a o d _ tt tt h).1 (
            rw (copy_lem o.tasks distinct) (
              lookup_next id k (ltb t.leased_revision t.case_revision)
                (give_back now t.last_error now t) o.tasks
              ∙ ap
                  (λ (again : Task).
                    if text_eq id k
                    then (if ltb t.leased_revision t.case_revision then some again else none)
                    else lookup k o.tasks)
                  (give_back-pending_again now t.last_error now t))),
      )
