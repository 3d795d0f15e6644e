-- ===== src/Tests/Stores.antt =====
-- Two Events of one scope delivered to the durable store, and to the process-local one.
use rootforge.Prelude.{◌≡◌, refl, true, none, some, [], ◌∷◌, List}
use rootforge.Text.{
  text, text_eq, is_empty, hex_encode, trim_space, trim_left, trim_right, strip, to_lower, is_ascii,
  lower_byte, join,
}
use rootforge.Dict.{lookup, insert, delete, copy, copy_into, values}
use rootforge.Sort.{sort_by}
use rootforge.Failure.{ok, err, directory_required}
use rootforge.Platform.{Codec}
use rootforge.JsonFile.{write_json_atomic}
use rootforge.Trigger.{
  normalize, validate, problems, fingerprint, fingerprint_parts, clone, clone_attributes,
}
use rootforge.Incident.{
  Incident, new_incident, first_incident, clone_incident, apply, apply_normal, same_scope,
  known_event, replayed, occurred, is_open,
}
use rootforge.Casefile.{
  Case, IdGenerator, apply_event, fresh_id, clone_case, new_case, revise, case_at, case_less,
  new_memory_store,
}
use rootforge.Casefile.Index.{IsIndexed}
use rootforge.Casefile.Dedupe.{apply_event-IsIndexed}
use rootforge.CaseStore.{
  CaseDiskState, Durable, apply_durable, apply_to_copy, copied, clone_cases, clone_cases_into,
  create_durable, extend_durable, commit_cases, persist, disk_state,
}
use rootforge.CaseStore.Refines.{Refines, apply_durable-Refines}
use rootforge.CaseStore.Deliver.{Delivery, deliver, no_cases-IsGood, deliver-OneOpenCase}
use rootforge.Tests.Sample.{
  sample_platform, sample_platform-LowersWide, sample_event, sample_time, sample_path, works,
}

-- A codec that writes the number of a format.
abbrev sample_cases : Codec CaseDiskState
sample_cases = record {
  encode = λ s. ok (s.version ∷ []);
  decode = λ bytes. err directory_required;
}

abbrev no_cases : Durable
no_cases = record {
  store = record { path = sample_path; cases = new_memory_store };
  directory = [];
}

abbrev names : IdGenerator
names now = ok (text "C")

abbrev first_delivery : Delivery
first_delivery = record {
  event = sample_event;
  now = sample_time 7;
  context = none;
  generate = names;
  answers = works;
}

abbrev deliveries : List Delivery
deliveries =
    first_delivery ∷ (record first_delivery { event = record sample_event { id = text "2" } }) ∷ []

apply_event-IsIndexed_example :
    IsIndexed
      (apply_event sample_platform none sample_event (sample_time 7) names new_memory_store).0
apply_event-IsIndexed_example =
    apply_event-IsIndexed sample_platform sample_platform-LowersWide none sample_event
      (sample_time 7) names new_memory_store no_cases-IsGood.indexed

apply_durable-Refines_example :
    Refines no_cases
      (apply_durable sample_platform sample_cases none sample_event
        (sample_time 7)
        names
        works
        no_cases)
      (apply_event sample_platform none sample_event (sample_time 7) names new_memory_store)
apply_durable-Refines_example =
    apply_durable-Refines sample_platform sample_cases works no_cases none sample_event
      (sample_time 7) names no_cases-IsGood.cloned

abbrev first_summary : Incident
first_summary = first_incident sample_platform (normalize sample_platform sample_event)

abbrev last_case : Case
last_case =
    revise (sample_time 7)
      (occurred sample_platform (normalize sample_platform (record sample_event { id = text "2" }))
        first_summary)
      (new_case (text "C") (sample_time 7) first_summary)

last_case_stored :
    lookup (text "C") (deliver sample_platform sample_cases deliveries no_cases).store.cases.by_id
    ≡ some last_case
unfolding deliver apply_durable apply_to_copy copied clone_cases clone_cases_into create_durable
    extend_durable commit_cases persist disk_state write_json_atomic fresh_id clone_case new_case
    revise case_at clone_incident new_incident first_incident apply apply_normal same_scope
    known_event replayed occurred is_open normalize validate problems trim_space trim_left
    trim_right strip to_lower is_ascii lower_byte is_empty fingerprint fingerprint_parts join
    hex_encode text_eq lookup insert delete copy copy_into clone clone_attributes values sort_by
    case_less
last_case_stored = refl

last_case_open : is_open last_case.incident ≡ true
unfolding is_open revise occurred first_incident
last_case_open = refl

deliver-OneOpenCase_example : text "C" ≡ text "C"
deliver-OneOpenCase_example =
    deliver-OneOpenCase sample_platform sample_cases sample_platform-LowersWide deliveries no_cases
      (text "C") (text "C") last_case last_case no_cases-IsGood last_case_stored last_case_stored
      last_case_open last_case_open refl
