-- ===== src/Tests/Requests.antt =====
-- An Event through the intake and a Case through the HTTP handler, over the process-local store.
use rootforge.Prelude.{◌≡◌, refl, none, some, [], ◌∷◌, true, Bool, All}
use rootforge.Text.{
  text, text_eq, is_empty, hex_encode, trim_space, trim_left, trim_right, strip, to_lower, is_ascii,
  lower_byte, join,
}
use rootforge.Dict.{lookup, insert, copy, copy_into, values}
use rootforge.Sort.{sort_by}
use rootforge.Failure.{Result, ok}
use rootforge.JsonFile.{write_json_atomic}
use rootforge.Trigger.{
  Event, normalize, validate, problems, fingerprint, fingerprint_parts, clone, clone_attributes,
}
use rootforge.Incident.{new_incident, first_incident, clone_incident}
use rootforge.Casefile.{
  Case, Cases, Store, IdGenerator, apply_event, create_case, fresh_id, get_case, clone_case,
  new_case, list_pending_investigation, pending_cases, record_event, service_get, new_memory_store,
}
use rootforge.Outbox.{ensure_pending, commit, persist, disk_state, task_less_by_id, task_id}
use rootforge.Intake.{
  CaseService, Intake, Recorded, record_and_schedule, schedule, reconcile_pending, reconcile_listed,
  reconcile,
}
use rootforge.Intake.Schedule.{Covered, record_and_schedule-Covered, reconcile_pending-Covered}
use rootforge.HttpApi.{IncidentEvent, get_case_by_path}
use rootforge.HttpApi.Answers.{FoundAs, get_case_by_path-get_case}
use rootforge.Tests.Codec.{sample_codec}
use rootforge.Tests.Sample.{
  sample_sha256, sample_platform, sample_event, sample_time, empty_outbox, works,
}

abbrev memory_store : Store Cases Unit
memory_store = record {
  apply_to = λ ctx event now generate world s. apply_event sample_platform ctx event now generate s;
  get_from = get_case;
  pending_of = list_pending_investigation;
}

abbrev names : IdGenerator
names now = ok (text "C")

abbrev memory_service : CaseService Cases Unit
memory_service = record {
  record_event = λ ctx event world s.
      record_event sample_platform memory_store ctx event (sample_time 7) names world s;
  get = service_get sample_platform memory_store;
  list_pending = list_pending_investigation;
}

abbrev nothing_yet : Intake Cases
nothing_yet = record { cases = new_memory_store; outbox = empty_outbox; directory = [] }

abbrev first_case : Case
first_case =
    new_case (text "C") (sample_time 7)
      (first_incident sample_platform (normalize sample_platform sample_event))

abbrev after_event : Intake Cases × Recorded
after_event =
    record_and_schedule sample_sha256 sample_codec memory_service none sample_event tt
      (sample_time 8) works nothing_yet

first_case_stored : after_event.1.stored ≡ some (first_case, true)
unfolding record_and_schedule schedule record_event apply_event create_case fresh_id new_incident
    first_incident clone_incident clone_case new_case normalize validate problems trim_space
    trim_left trim_right strip to_lower is_ascii lower_byte is_empty fingerprint fingerprint_parts
    join hex_encode text_eq lookup insert copy copy_into clone clone_attributes ensure_pending
    commit persist disk_state sort_by values task_less_by_id write_json_atomic
first_case_stored = refl

first_case_scheduled : after_event.1.failure ≡ none
unfolding record_and_schedule schedule record_event apply_event create_case fresh_id new_incident
    first_incident clone_incident clone_case new_case normalize validate problems trim_space
    trim_left trim_right strip to_lower is_ascii lower_byte is_empty fingerprint fingerprint_parts
    join hex_encode text_eq lookup insert copy copy_into clone clone_attributes ensure_pending
    commit persist disk_state sort_by values task_less_by_id write_json_atomic
first_case_scheduled = refl

record_and_schedule-Covered_example : Covered sample_sha256 after_event.0.outbox.tasks first_case
record_and_schedule-Covered_example =
    record_and_schedule-Covered sample_sha256 sample_codec memory_service none sample_event tt
      (sample_time 8) works nothing_yet first_case true tt first_case_stored first_case_scheduled

-- The Outbox was lost, and the Case was not.
abbrev one_case : Cases
one_case = record {
  by_id = (text "C", first_case) ∷ [];
  open_by_print = (first_case.incident.fingerprint, text "C") ∷ [];
}

abbrev lost : Intake Cases
lost = record { cases = one_case; outbox = empty_outbox; directory = [] }

reconcile_pending-Covered_example :
    All
      (Covered sample_sha256
        (reconcile_pending sample_sha256 sample_codec memory_service none
          (λ id. (sample_time 9, works))
          lost).outbox.tasks)
      (first_case ∷ [])
unfolding list_pending_investigation pending_cases sort_by values clone_case clone_incident clone
    clone_attributes new_case first_incident normalize copy copy_into insert reconcile_pending
    reconcile_listed reconcile ensure_pending commit persist disk_state task_less_by_id
    write_json_atomic trim_space trim_left trim_right strip to_lower is_ascii lower_byte is_empty
    lookup text_eq task_id hex_encode
reconcile_pending-Covered_example =
    reconcile_pending-Covered sample_sha256 sample_codec memory_service none
      (λ id. (sample_time 9, works)) lost (first_case ∷ []) tt refl refl

abbrev request : IncidentEvent
request = record {
  event_id = text "1";
  type = text "oom";
  source = text "k";
  occurred_at = sample_time 5;
  observed_at = sample_time 6;
  environment = text "p";
  service = text "a";
  node = [];
  workload = [];
  container = [];
  severity = text "high";
  dedupe_key = [];
  attributes = none;
}

abbrev record_in_memory : Event → Cases → Cases × Result (Case × Bool)
record_in_memory event s = memory_service.record_event none event tt s

get_case_by_path-get_case_example :
    FoundAs none (trim_space (text " C")) (lookup (trim_space (text " C")) one_case.by_id) (
      get_case_by_path
        (λ id. service_get sample_platform memory_store none id one_case)
        (text " C"))
get_case_by_path-get_case_example =
    get_case_by_path-get_case sample_platform memory_store (λ s. s) one_case none (text " C")
      (λ id. refl) (λ e h. absurd (cc h))
