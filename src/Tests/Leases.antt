-- ===== src/Tests/Leases.antt =====
-- Leases of two due tasks, and what their holders can do afterwards.
use rootforge.Prelude.{
  ℕ, ◌≤◌, ◌≡◌, All, take, inl, ◌≢◌, refl, sym, none, some, [], ◌∷◌, inr, true, false, arith,
  if◌then◌else◌,
}
use mathlib.Core.Path.{subst}
use rootforge.Prelude.Int.{pos}
use rootforge.Text.{
  Text, text, text_eq, is_empty, hex_encode, trim_space, trim_left, trim_right, strip,
}
use rootforge.Clock.{zero_time}
use rootforge.Dict.{Dict, lookup, insert, delete, copy, copy_into, values, Distinct}
use rootforge.Failure.{Result, ok}
use rootforge.Sort.{sort_by}
use rootforge.JsonFile.{write_json_atomic}
use rootforge.Investigation.{Task}
use rootforge.Outbox.{
  InvestigationOutbox, Reply, commit, persist, disk_state, task_less_by_id, task_less, eligible,
  eligible_tasks, lease_first, owned_lease, refuse, ensure_pending, lease_next, complete, retry,
  task_id, new_task, lease_to,
}
use rootforge.Outbox.Invariant.{
  IsValid, Stored, IsValid-nil, IsValid-insert-copy, new_task-Stored, leased-Stored,
}
use rootforge.Outbox.Ensure.{Ensured, ensure_pending-Ensured}
use rootforge.Outbox.Retried.{retry-Retried}
use rootforge.Outbox.{give_back, clear_lease, truncate}
use rootforge.Outbox.Finish.{complete-Finished, left_over}
use rootforge.Outbox.Exclusive.{lease_next-Takes, lease_next-exclusive}
use rootforge.Outbox.Terms.{HeldLease, IsDue, pending_again, leased_again}
use rootforge.Outbox.Leases.{FirstDue, refusal, lease_next-Leases, lease_next-stale}
use rootforge.Outbox.Progress.{IsDated, HasDates, insert-copy-HasDates, lease_next_returns}
use rootforge.Tests.Codec.{sample_codec}
use rootforge.Tests.Sample.{sample_sha256, sample_time, sample_path, works}

abbrev first_task : Task
first_task = new_task (task_id sample_sha256 (text "c")) (text "c") 2 (sample_time 1)

abbrev second_task : Task
second_task = new_task (task_id sample_sha256 (text "e")) (text "e") 1 (sample_time 2)

abbrev two_tasks : Dict Task
two_tasks = insert first_task.id first_task (copy (insert second_task.id second_task (copy [])))

abbrev two : InvestigationOutbox
two = record { path = sample_path; tasks = two_tasks }

text_given : (is_empty (text "c") ≡ false) × (is_empty (text "e") ≡ false)
unfolding is_empty
text_given = (refl, refl)

first_task-Stored : Stored sample_sha256 first_task.id first_task
unfolding new_task
first_task-Stored =
    new_task-Stored sample_sha256 (text "c") 2 (sample_time 1) text_given.0 (omega arith) refl

second_task-Stored : Stored sample_sha256 second_task.id second_task
unfolding new_task
second_task-Stored =
    new_task-Stored sample_sha256 (text "e") 1 (sample_time 2) text_given.1 (omega arith) refl

two_tasks-IsValid : IsValid sample_sha256 two_tasks
two_tasks-IsValid = IsValid-insert-copy sample_sha256 first_task.id first_task _ first_task-Stored (
    IsValid-insert-copy sample_sha256 second_task.id second_task _ second_task-Stored
      (IsValid-nil sample_sha256))

-- A later revision.
ensure_pending-Ensured_example :
    Ensured sample_sha256
      (text "c")
      3
      two_tasks
      (ensure_pending sample_sha256 sample_codec none
        (text "c")
        3
        (sample_time 4)
        works
        two
        []).outbox.tasks
      (record first_task { case_revision = 3; updated_at = sample_time 4 })
unfolding ensure_pending commit persist write_json_atomic lookup insert delete copy copy_into
    new_task is_empty task_id hex_encode text_eq disk_state sort_by values task_less_by_id
ensure_pending-Ensured_example =
    ensure_pending-Ensured sample_sha256 sample_codec none (text "c") 3 (sample_time 4) works two []
      two_tasks-IsValid.distinct _ true refl

-- The first task under a lease at its older revision, which ran from 3 to 12.
abbrev held_task : Task
held_task = record (lease_to (text "w") (text "k") (sample_time 3) 9 first_task) {
  case_revision = 3;
}

abbrev held : InvestigationOutbox
held = record {
  path = sample_path;
  tasks = (held_task.id, held_task) ∷ (second_task.id, second_task) ∷ [];
}

abbrev completed : Reply Unit
completed = complete sample_codec none held_task.id (text "k") (sample_time 5) works held []

held-Distinct : Distinct held.tasks
unfolding lookup text_eq new_task task_id lease_to hex_encode
held-Distinct = (refl, (refl, tt))

complete-Finished_example :
    (t : Task) × HeldLease held_task.id (text "k") (sample_time 5) held.tasks t
    × ((k : Text)
        → lookup k completed.outbox.tasks
          ≡ (if text_eq held_task.id k then left_over (sample_time 5) t else lookup k held.tasks))
unfolding complete owned_lease commit persist write_json_atomic lookup insert delete copy copy_into
    new_task lease_to is_empty task_id hex_encode text_eq disk_state sort_by values task_less_by_id
complete-Finished_example =
    complete-Finished sample_codec none held_task.id (text "k") (sample_time 5) works held []
      held-Distinct refl

abbrev leasing : Reply Task
leasing =
    lease_next sample_codec none (text " w") (sample_time 3) (pos 9) (ok (text "k")) works two []

abbrev leased_first : Task
leased_first = lease_to (text "w") (text "k") (sample_time 3) 9 first_task

leasing_first : leasing.result ≡ ok leased_first
unfolding lease_next lease_first eligible_tasks eligible task_less trim_space trim_left trim_right
    strip commit persist write_json_atomic lookup insert delete copy copy_into new_task lease_to
    is_empty task_id hex_encode text_eq disk_state sort_by values task_less_by_id
leasing_first = refl

lease_next-Leases_example :
    (first : Task) × FirstDue (sample_time 3) two_tasks first
    × ((drawn : Text) × (Result.ok (text "k") ≡ ok drawn)
        × (leased_first ≡ leased_again (trim_space (text " w")) drawn (sample_time 3) 9 first))
    × ((k : Text)
        → lookup k leasing.outbox.tasks
          ≡ (if text_eq leased_first.id k then some leased_first else lookup k two_tasks))
lease_next-Leases_example =
    lease_next-Leases sample_sha256 sample_codec none (text " w") (sample_time 3) 9 (ok (text "k"))
      works two [] two_tasks-IsValid leased_first leasing_first

-- The lease is over at 12.
lease_next-stale_example :
    (complete sample_codec none leased_first.id (text "k") (sample_time 12) works leasing.outbox []
      ≡ refuse leasing.outbox [] (refusal none))
    × (retry sample_codec none leased_first.id
          (text "k")
          (sample_time 12)
          (sample_time 20)
          (text "f")
          works
          leasing.outbox
          []
        ≡ refuse leasing.outbox [] (refusal none))
lease_next-stale_example =
    lease_next-stale sample_sha256 sample_codec (text " w") (sample_time 3) 9 (ok (text "k")) works
      two [] leased_first two_tasks-IsValid leasing_first none (text "k") (sample_time 12)
      (sample_time 20) (text "f") works [] (inr (omega arith))

abbrev leasing_again : Reply Task
leasing_again =
    lease_next sample_codec none (text "v") (sample_time 4) (pos 9) (ok (text "l")) works
      leasing.outbox []

abbrev leased_second : Task
leased_second = lease_to (text "v") (text "l") (sample_time 4) 9 second_task

leasing_second : leasing_again.result ≡ ok leased_second
unfolding lease_next lease_first eligible_tasks eligible task_less trim_space trim_left trim_right
    strip commit persist write_json_atomic lookup insert delete copy copy_into new_task lease_to
    is_empty task_id hex_encode text_eq disk_state sort_by values task_less_by_id
leasing_second = refl

leased_first-Stored : Stored sample_sha256 first_task.id leased_first
leased_first-Stored =
    leased-Stored sample_sha256 first_task.id (text "w") (text "k") (sample_time 3) 9 first_task
      (unfold is_empty in refl) (unfold is_empty in refl) (omega arith) first_task-Stored

leasing-IsValid : IsValid sample_sha256 leasing.outbox.tasks
leasing-IsValid =
    let (_, _, _, tasks) =
      lease_next-Takes sample_sha256 sample_codec none (text " w") (sample_time 3) 9 (ok (text "k"))
        works two [] two_tasks-IsValid leased_first leasing_first in
    subst (IsValid sample_sha256) (sym tasks) (
      IsValid-insert-copy sample_sha256 leased_first.id leased_first two_tasks
        (unfold lease_to in leased_first-Stored) two_tasks-IsValid)

lease_next-exclusive_example : leased_first.id ≢ leased_second.id
lease_next-exclusive_example =
    lease_next-exclusive sample_sha256 sample_codec (text " w") (text "v") (sample_time 3)
      (sample_time 4) 9 9 (ok (text "k")) (ok (text "l")) works works two [] [] leased_first
      leased_second two_tasks-IsValid (leasing_first, leasing-IsValid, leasing_second) (omega arith)

abbrev retried : Reply Unit
retried =
    retry sample_codec none held_task.id (text "k") (sample_time 5) (sample_time 20) (text " f")
      works held []

retry-Retried_example :
    (t : Task) × HeldLease held_task.id (text "k") (sample_time 5) held.tasks t
    × ((k : Text)
        → lookup k retried.outbox.tasks ≡ (
            if text_eq held_task.id k
            then some (
                pending_again
                  (sample_time 20)
                  (take 2048 (trim_space (text " f")))
                  (sample_time 5)
                  t)
            else lookup k held.tasks))
unfolding retry owned_lease give_back clear_lease truncate trim_space trim_left trim_right strip
    commit persist write_json_atomic lookup insert delete copy copy_into new_task lease_to is_empty
    task_id hex_encode text_eq disk_state sort_by values task_less_by_id
retry-Retried_example =
    retry-Retried sample_codec none held_task.id (text "k") (sample_time 5) (sample_time 20)
      (text " f") works held [] held-Distinct refl

first-IsDue : (lookup first_task.id two_tasks ≡ some first_task) × IsDue (sample_time 3) first_task
unfolding lookup insert copy copy_into new_task task_id hex_encode text_eq
first-IsDue = (refl, inl (refl, omega arith))

sample_time-IsDated : (n : ℕ) → n ≤ 100 → IsDated (sample_time n)
sample_time-IsDated n h = record {
  in_utc = refl;
  from_year_1 = omega arith;
  to_year_9999 = omega (arith, h);
}

zero_time-IsDated : IsDated zero_time
zero_time-IsDated = record { in_utc = refl; from_year_1 = omega arith; to_year_9999 = omega arith }

new_task-HasDates :
    (id case_id : Text) (revision n : ℕ)
    → n ≤ 100
    → HasDates (new_task id case_id revision (sample_time n))
unfolding new_task
new_task-HasDates id case_id revision n h =
    let now = sample_time-IsDated n h in
    record { available = now; until = zero_time-IsDated; created = now; updated = now }

two_tasks-HasDates : All HasDates (values two_tasks)
unfolding values
two_tasks-HasDates =
    insert-copy-HasDates first_task.id first_task (insert second_task.id second_task (copy []))
      (new_task-HasDates _ _ 2 1 (omega arith))
      (insert-copy-HasDates second_task.id second_task [] (new_task-HasDates _ _ 1 2 (omega arith))
        tt)

owner_named : is_empty (trim_space (text " w")) ≡ false
unfolding is_empty trim_space trim_left trim_right strip
owner_named = refl

lease_next_returns_example :
    (leased : Task) × ((lease_next sample_codec none
        (text " w")
        (sample_time 3)
        (pos 9)
        (ok (text "k"))
        works
        two
        []).result
      ≡ ok leased)
lease_next_returns_example =
    lease_next_returns sample_codec (λ s h. (_, refl)) (text " w") (sample_time 3) 9 (text "k")
      works two [] first_task.id first_task first-IsDue.0 first-IsDue.1 owner_named (omega arith)
      (record {
        create = refl;
        chmod = refl;
        write = refl;
        sync = refl;
        close = refl;
        rename = refl;
      })
      two_tasks-HasDates (omega arith) (omega arith)
