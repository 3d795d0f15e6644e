-- ===== src/Tests/Codec.antt =====
-- A codec of the task state that gives back what it encoded, for the concrete runs. A text field is
-- written with its bytes moved up by one, so that 0 can end it.
use rootforge.Prelude.{ℕ, zero, suc, ◌≡◌, refl, ap, ◌∙◌, List, [], ◌∷◌}
use rootforge.Text.{Text}
use rootforge.Clock.{Time}
use rootforge.Failure.{Result, ok, err, unsupported_version}
use rootforge.Platform.{Codec, IsFaithful}
use rootforge.Investigation.{Task, TaskStatus, pending, leased, other_status}
use rootforge.Outbox.{OutboxDiskState}
use rootforge.Outbox.Plain.{IsPlainState}

abbrev push : ℕ → List Text → List Text
push c [] = (c ∷ []) ∷ []
push c (s ∷ ss) = (c ∷ s) ∷ ss

abbrev unpack : Text → List Text
unpack [] = []
unpack (zero ∷ r) = [] ∷ unpack r
unpack (suc c ∷ r) = push c (unpack r)

abbrev written : Text → Text → Text
written [] r = 0 ∷ r
written (c ∷ s) r = suc c ∷ written s r

abbrev pack : List Text → Text
pack [] = []
pack (s ∷ ss) = written s (pack ss)

unpack-written : (s r : Text) → unpack (written s r) ≡ s ∷ unpack r
unpack-written [] r = refl
unpack-written (c ∷ s) r = ap (push c) (unpack-written s r)

unpack-pack : (ss : List Text) → unpack (pack ss) ≡ ss
unpack-pack [] = refl
unpack-pack (s ∷ ss) =
    unpack-written s (pack ss) ∙ ap (λ (rest : List Text). s ∷ rest) (unpack-pack ss)

abbrev status_field : TaskStatus → Text
status_field pending = 0 ∷ []
status_field leased = 1 ∷ []
status_field (other_status s) = 2 ∷ s

abbrev field_status : Text → TaskStatus
field_status (zero ∷ s) = pending
field_status (suc zero ∷ s) = leased
field_status (suc (suc n) ∷ s) = other_status s
field_status [] = pending

abbrev time_field : Time → Text
time_field t = t.instant ∷ t.zone ∷ []

abbrev field_time : Text → Time
field_time (i ∷ z ∷ _) = record { instant = i; zone = z }
field_time _ = record { instant = 0; zone = 0 }

abbrev field_number : Text → ℕ
field_number (n ∷ _) = n
field_number [] = 0

abbrev task_fields : List Task → List Text
task_fields [] = []
task_fields (t ∷ ts) =
    t.id
    ∷ t.case_id
    ∷ (t.case_revision ∷ [])
    ∷ status_field t.status
    ∷ (t.attempts ∷ [])
    ∷ time_field t.available_at
    ∷ t.lease_owner
    ∷ t.lease_token
    ∷ time_field t.lease_until
    ∷ (t.leased_revision ∷ [])
    ∷ t.last_error
    ∷ time_field t.created_at
    ∷ time_field t.updated_at
    ∷ task_fields ts

abbrev fields_tasks : List Text → List Task
fields_tasks
      (id ∷ case_id ∷ revision ∷ status ∷ attempts ∷ available ∷ owner ∷ token ∷ until ∷ held
        ∷ failure ∷ created ∷ updated ∷ rest) =
    record {
      id = id;
      case_id = case_id;
      case_revision = field_number revision;
      status = field_status status;
      attempts = field_number attempts;
      available_at = field_time available;
      lease_owner = owner;
      lease_token = token;
      lease_until = field_time until;
      leased_revision = field_number held;
      last_error = failure;
      created_at = field_time created;
      updated_at = field_time updated;
    }
    ∷ fields_tasks rest
fields_tasks _ = []

field_status-status_field : (s : TaskStatus) → field_status (status_field s) ≡ s
field_status-status_field pending = refl
field_status-status_field leased = refl
field_status-status_field (other_status s) = refl

fields_tasks-task_fields : (ts : List Task) → fields_tasks (task_fields ts) ≡ ts
fields_tasks-task_fields [] = refl
fields_tasks-task_fields (t ∷ ts) = λ i.
    (record t { status = field_status-status_field t.status i }) ∷ fields_tasks-task_fields ts i

abbrev state_of : List Text → Result OutboxDiskState
state_of (v ∷ rest) = ok (record { version = field_number v; tasks = fields_tasks rest })
state_of [] = err unsupported_version

abbrev encode_state : OutboxDiskState → Text
encode_state s = pack ((s.version ∷ []) ∷ task_fields s.tasks)

abbrev pub sample_codec : Codec OutboxDiskState
sample_codec = record {
  encode = λ s. ok (encode_state s);
  decode = λ bytes. state_of (unpack bytes);
}

decode-encode : (s : OutboxDiskState) → state_of (unpack (encode_state s)) ≡ ok s
decode-encode s =
    ap state_of (unpack-pack ((s.version ∷ []) ∷ task_fields s.tasks))
    ∙ ap (λ (ts : List Task). ok (record { version = s.version; tasks = ts }))
        (fields_tasks-task_fields s.tasks)

pub sample_codec-IsFaithful : IsFaithful sample_codec IsPlainState
sample_codec-IsFaithful = record {
  round_trip = λ s bytes plain h.
      ap (λ (b : Text). state_of (unpack b)) {x = bytes} {y = encode_state s} (cc h)
      ∙ decode-encode s;
}
