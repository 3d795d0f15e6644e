-- ===== src/Outbox.antt =====
-- internal/storage/local/outbox.go: InvestigationOutbox, the durable queue of investigation tasks.
-- A method takes the error of its context, its arguments, the answers of the file system and, where
-- the code draws one, the random token; it returns the object, the directory and its result. The
-- mutex makes each method one step.
pub mod Check
pub mod Plain
pub mod Invariant
pub mod Lease
pub mod Durable
pub mod Reopen
pub mod History
pub mod Ensure
pub mod Exclusive
pub mod Finish
pub mod Retried
pub mod Effects
pub mod Progress
pub mod Terms
pub mod Leases
use rootforge.Prelude.{
  ℕ, zero, suc, ◌+◌, ◌%◌, ◌^◌, ◌≡◌, Bool, true, false, not, ◌&&◌, ◌||◌, Option, none, some, List,
  [], ◌∷◌, ◌++◌, ltb, leb, ◌==◌, if◌then◌else◌, length, take,
}
use rootforge.Prelude.Int.{ℤ, pos, negsuc}
use rootforge.Text.{Text, text, text_eq, text_lt, is_empty, trim_space, hex_encode}
use rootforge.Clock.{Time, zero_time, utc, is_zero, before, after, same_instant, add}
use rootforge.Dict.{Dict, lookup, insert, delete, values, copy}
use rootforge.Sort.{sort_by}
use rootforge.Failure.{
  Error, Result, ok, err, no_task, task_not_found, lease_conflict, incomplete_request,
  task_id_collision, missing_field, incomplete_timestamps, foreign_task_id, unsupported_status,
  incomplete_lease, lease_while_pending, unsupported_version, duplicate_id, ◌>>=◌,
}
use rootforge.Platform.{Codec}
use rootforge.JsonFile.{
  Directory, Answers, Attempt, write_json_atomic, read_json_file, ensure_data_directory,
}
use rootforge.Investigation.{Task, TaskStatus, pending, leased, other_status}

abbrev pub outbox_state_version : ℕ
outbox_state_version = 1

pub record OutboxDiskState : Type 0 where
  pub version : ℕ
  pub tasks : List Task

pub record InvestigationOutbox : Type 0 where
  pub path : Text
  pub tasks : Dict Task

-- What a method leaves and returns.
pub record Reply (R : Type 0) : Type 0 where
  pub outbox : InvestigationOutbox
  pub directory : Directory
  pub result : Result R

abbrev pub refuse : {R : Type 0} → InvestigationOutbox → Directory → Error → Reply R
refuse o d e = record { outbox = o; directory = d; result = err e }

abbrev pub is_leased : TaskStatus → Bool
is_leased leased = true
is_leased _ = false

abbrev pub is_pending : TaskStatus → Bool
is_pending pending = true
is_pending _ = false

unfoldable pub task_less_by_id : Task → Task → Bool
unfolding text_lt
task_less_by_id left right = text_lt left.id right.id

-- The order in which tasks are leased.
unfoldable pub task_less : Task → Task → Bool
unfolding text_lt
task_less left right =
    if same_instant left.available_at right.available_at
    then text_lt left.id right.id
    else before left.available_at right.available_at

unfoldable pub eligible : Time → Task → Bool
eligible now t =
    (is_pending t.status && not (after t.available_at now))
    || (is_leased t.status && not (after t.lease_until now))

unfoldable pub eligible_tasks : Time → List Task → List Task
unfolding eligible
eligible_tasks now [] = []
eligible_tasks now (t ∷ ts) =
    let rest = eligible_tasks now ts in if eligible now t then t ∷ rest else rest

unfoldable pub clear_lease : Task → Task
clear_lease t = record t {
  lease_owner = [];
  lease_token = [];
  lease_until = zero_time;
  leased_revision = 0;
}

unfoldable pub truncate : Text → ℕ → Text
truncate value maximum = if leb (length value) maximum then value else take maximum value

-- `if err != nil { return err }` after ownedLease.
abbrev pub with_lease :
    {R : Type 0} → Result Task → InvestigationOutbox → Directory → (Task → Reply R) → Reply R
with_lease (err e) o d f = refuse o d e
with_lease (ok current) o d f = f current

-- The task that EnsurePending creates.
unfoldable pub new_task : Text → Text → ℕ → Time → Task
new_task id case_id revision now = record {
  id = id;
  case_id = case_id;
  case_revision = revision;
  status = pending;
  attempts = 0;
  available_at = utc now;
  lease_owner = [];
  lease_token = [];
  lease_until = zero_time;
  leased_revision = 0;
  last_error = [];
  created_at = utc now;
  updated_at = utc now;
}

-- The writes by which Complete and Retry give a task back: status, available time, error, the
-- cleared lease and the update time.
unfoldable pub give_back : Time → Text → Time → Task → Task
unfolding clear_lease
give_back available failure now t =
    record (clear_lease
      (record t { status = pending; available_at = utc available; last_error = failure })) {
        updated_at = utc now;
      }

-- The fields that LeaseNext writes.
unfoldable pub lease_to : Text → Text → Time → ℕ → Task → Task
lease_to owner token now duration t = record t {
  status = leased;
  attempts = (t.attempts + 1) % 2 ^ 32;
  lease_owner = owner;
  lease_token = token;
  lease_until = add (utc now) duration;
  leased_revision = t.case_revision;
  updated_at = utc now;
}

-- o.tasks[id] with the checks of ownedLease.
unfoldable pub owned_lease : Text → Text → Time → Dict Task → Result Task
unfolding lookup is_empty text_eq
owned_lease id token now tasks = elim (lookup id tasks) [
  | none ↦ err task_not_found
  | some current ↦
      if not (is_leased current.status)
        || is_empty token
        || not (text_eq current.lease_token token)
        || not (after current.lease_until now)
      then err lease_conflict
      else ok current
]

-- What the state file holds: the tasks in the order of their identifiers.
unfoldable pub disk_state : Dict Task → OutboxDiskState
unfolding sort_by values task_less_by_id
disk_state tasks = record {
  version = outbox_state_version;
  tasks = sort_by task_less_by_id (values tasks);
}

module _ (codec : Codec OutboxDiskState) where
  unfoldable pub persist : Answers → Text → Dict Task → Directory → Attempt
  unfolding disk_state write_json_atomic
  persist a path tasks d = write_json_atomic a path (codec.encode (disk_state tasks)) d

  -- `if err := o.persist(next); err != nil { return err }; o.tasks = next; return value`.
  unfoldable pub commit :
      {R : Type 0} → Answers → InvestigationOutbox → Directory → Dict Task → R → Reply R
  unfolding persist
  commit a o d next value =
      let w = persist a o.path next d in
      elim w.outcome [
        | some e ↦ record { outbox = o; directory = w.now; result = err e }
        | none ↦ record { outbox = record o { tasks = next }; directory = w.now; result = ok value }
      ]

  unfoldable pub lease_first :
      Text
      → Result Text
      → Time
      → ℕ
      → Answers
      → InvestigationOutbox
      → Directory
      → List Task
      → Reply Task
  lease_first owner token now duration a o d [] = refuse o d no_task
  lease_first owner (err e) now duration a o d (first ∷ others) = refuse o d e
  lease_first owner (ok token) now duration a o d (first ∷ others) =
      let taken = lease_to owner token now duration first in
      commit a o d (insert taken.id taken (copy o.tasks)) taken

  -- LeaseNext; `token` is what randomLeaseToken returns.
  unfoldable pub lease_next :
      Option Error
      → Text
      → Time
      → ℤ
      → Result Text
      → Answers
      → InvestigationOutbox
      → Directory
      → Reply Task
  lease_next (some cancelled) owner now duration token a o d = refuse o d cancelled
  lease_next none owner now (negsuc n) token a o d = refuse o d incomplete_request
  lease_next none owner now (pos n) token a o d =
      let who = trim_space owner in
      if is_empty who || n == 0
      then refuse o d incomplete_request
      else lease_first who token now n a o d
          (sort_by task_less (eligible_tasks now (values o.tasks)))

  -- Complete.
  unfoldable pub complete :
      Option Error → Text → Text → Time → Answers → InvestigationOutbox → Directory → Reply Unit
  complete (some cancelled) id token now a o d = refuse o d cancelled
  complete none id token now a o d = with_lease (owned_lease id token now o.tasks) o d λ current.
      let next = copy o.tasks in
      let again = give_back now current.last_error now current in
      commit a o d
        (if ltb current.leased_revision current.case_revision
          then insert id again next
          else delete id next)
        tt

  -- Retry.
  unfoldable pub retry :
      Option Error
      → Text
      → Text
      → Time
      → Time
      → Text
      → Answers
      → InvestigationOutbox
      → Directory
      → Reply Unit
  retry (some cancelled) id token now available failure a o d = refuse o d cancelled
  retry none id token now available failure a o d =
      with_lease (owned_lease id token now o.tasks) o d λ current.
        let again = give_back available (truncate (trim_space failure) 2048) now current in
        commit a o d (insert id again (copy o.tasks)) tt

module _ (sha256 : Text → Text) where
  unfoldable pub task_id : Text → Text
  unfolding hex_encode
  task_id case_id =
      text "INV-"
      ++ hex_encode (take 16 (sha256 (text "rootforge-investigation-v1" ++ (0 ∷ case_id))))

  unfoldable pub validate_task : Task → Option Error
  unfolding task_id is_empty text_eq
  validate_task t =
      if is_empty t.id || is_empty t.case_id || t.case_revision == 0
      then some missing_field
      else if is_zero t.created_at || is_zero t.updated_at || is_zero t.available_at
      then some incomplete_timestamps
      else if not (text_eq t.id (task_id t.case_id))
      then some foreign_task_id
      else if not (is_pending t.status) && not (is_leased t.status)
      then some unsupported_status
      else if is_leased t.status
      then (if is_empty t.lease_token
            || is_empty t.lease_owner
            || is_zero t.lease_until
            || t.leased_revision == 0
            || ltb t.case_revision t.leased_revision
          then some incomplete_lease
          else none)
      else if not (is_empty t.lease_token)
          || not (is_empty t.lease_owner)
          || not (is_zero t.lease_until)
          || not (t.leased_revision == 0)
      then some lease_while_pending
      else none

  -- The loop of OpenInvestigationOutbox over the stored tasks.
  unfoldable pub load_tasks : Dict Task → List Task → Result (Dict Task)
  load_tasks tasks [] = ok tasks
  load_tasks tasks (t ∷ ts) = elim (validate_task t) [
    | some e ↦ err e
    | none ↦ elim (lookup t.id tasks) [
      | some _ ↦ err duplicate_id
      | none ↦ load_tasks (insert t.id t tasks) ts
    ]
  ]

  module _ (codec : Codec OutboxDiskState) where
    -- `path` is the joined name of the state file below the directory that was made.
    unfoldable pub open_investigation_outbox :
        Text → Result Text → Option Error → Text → Directory → Result InvestigationOutbox
    unfolding ensure_data_directory read_json_file load_tasks
    open_investigation_outbox name made open_error path d = ensure_data_directory name made >>= λ _.
        read_json_file codec.decode open_error path d >>= λ found. elim found [
          | none ↦ ok (record { path = path; tasks = [] })
          | some state ↦
              if state.version == outbox_state_version
              then (load_tasks [] state.tasks >>= λ tasks.
                  ok (record { path = path; tasks = tasks }))
              else err unsupported_version
        ]

    -- EnsurePending.
    unfoldable pub ensure_pending :
        Option Error
        → Text
        → ℕ
        → Time
        → Answers
        → InvestigationOutbox
        → Directory
        → Reply (Task × Bool)
    ensure_pending (some cancelled) case_id revision now a o d = refuse o d cancelled
    ensure_pending none case_id revision now a o d =
        let id = task_id case_id in
        let next = copy o.tasks in
        let created = new_task id case_id revision now in
        if is_empty case_id || revision == 0
        then refuse o d incomplete_request
        else elim (lookup id o.tasks) [
          | some current ↦
              let updated = record current { case_revision = revision; updated_at = utc now } in
              if not (text_eq current.case_id case_id)
              then refuse o d task_id_collision
              else if leb revision current.case_revision
              then record { outbox = o; directory = d; result = ok (current, false) }
              else commit codec a o d (insert id updated next) (updated, true)
          | none ↦ commit codec a o d (insert id created next) (created, true)
        ]

-- List.
unfoldable pub list : Option Error → InvestigationOutbox → Result (List Task)
unfolding sort_by task_less_by_id values
list (some cancelled) o = err cancelled
list none o = ok (sort_by task_less_by_id (values o.tasks))
