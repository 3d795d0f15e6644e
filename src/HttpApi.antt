-- ===== src/HttpApi.antt =====
-- internal/transport/httpapi/handler.go and api/v1alpha1/types.go: the HTTP handlers over a Case
-- service, and what they show of a Case. Reading and writing JSON and the routing are net/http's
-- and encoding/json's: a request enters as what the decoder returned, and message texts are left
-- out of the error envelope.
pub mod Answers
use rootforge.Prelude.{
  ℕ, ◌≡◌, Bool, true, false, not, Option, none, some, List, [], ◌∷◌, if◌then◌else◌, length,
}
use rootforge.Text.{Text, text, trim_space}
use rootforge.Clock.{Time}
use rootforge.Dict.{Dict}
use rootforge.Failure.{
  Error, Result, ok, err, event_id_conflict, event_scope_conflict, not_found, wrapped,
}
use rootforge.Platform.{Platform}
use rootforge.Trigger.{Event, normalize, validate}
use rootforge.Incident.{
  Status, pending_investigation, investigating, resolved, closed, other_status,
}
use rootforge.Casefile.{Case}

pub record IncidentEvent : Type 0 where
  pub event_id : Text
  pub type : Text
  pub source : Text
  pub occurred_at : Time
  pub observed_at : Time
  pub environment : Text
  pub service : Text
  pub node : Text
  pub workload : Text
  pub container : Text
  pub severity : Text
  pub dedupe_key : Text
  pub attributes : Option (Dict Text)

pub record IncidentSummary : Type 0 where
  pub type : Text
  pub status : Text
  pub environment : Text
  pub service : Text
  pub node : Text
  pub workload : Text
  pub container : Text
  pub severity : Text
  pub first_occurred_at : Time
  pub last_occurred_at : Time
  pub event_count : ℕ

-- v1alpha1.Case.
pub record ApiCase : Type 0 where
  pub id : Text
  pub revision : ℕ
  pub created_at : Time
  pub updated_at : Time
  pub incident : IncidentSummary

pub record EventAccepted : Type 0 where
  pub created : Bool
  pub case : ApiCase

pub data Body : Type 0 where
  healthy : Body
  accepted : EventAccepted → Body
  api_case : ApiCase → Body
  -- v1alpha1.Error, by its code
  api_error : Text → Body

pub record Response : Type 0 where
  pub status : ℕ
  pub body : Body

-- The string of a Status.
abbrev pub status_text : Status → Text
status_text pending_investigation = text "pending_investigation"
status_text investigating = text "investigating"
status_text resolved = text "resolved"
status_text closed = text "closed"
status_text (other_status s) = s

unfoldable pub to_api_case : Case → ApiCase
to_api_case c = record {
  id = c.id;
  revision = c.revision;
  created_at = c.created_at;
  updated_at = c.updated_at;
  incident = record {
    type = c.incident.type;
    status = status_text c.incident.status;
    environment = c.incident.environment;
    service = c.incident.service;
    node = c.incident.node;
    workload = c.incident.workload;
    container = c.incident.container;
    severity = c.incident.severity;
    first_occurred_at = c.incident.first_occurred_at;
    last_occurred_at = c.incident.last_occurred_at;
    event_count = length c.incident.events;
  };
}

unfoldable pub to_event : IncidentEvent → Event
to_event input = record {
  id = input.event_id;
  type = input.type;
  source = input.source;
  occurred_at = input.occurred_at;
  observed_at = input.observed_at;
  environment = input.environment;
  service = input.service;
  node = input.node;
  workload = input.workload;
  container = input.container;
  severity = input.severity;
  dedupe_key = input.dedupe_key;
  attributes = input.attributes;
}

-- What the second Decode of ensureEOF found.
pub data Trailing : Type 0 where
  end_of_body more_json broken_json : Trailing

abbrev pub ensure_eof : Trailing → Bool
ensure_eof end_of_body = true
ensure_eof _ = false

-- errors.Is against the two conflicts of a Case, and against ErrNotFound.
abbrev pub is_conflict : Error → Bool
is_conflict event_id_conflict = true
is_conflict event_scope_conflict = true
is_conflict (wrapped e) = is_conflict e
is_conflict _ = false

abbrev pub is_not_found : Error → Bool
is_not_found not_found = true
is_not_found (wrapped e) = is_not_found e
is_not_found _ = false

abbrev pub write_api_error : ℕ → Text → Response
write_api_error status code = record { status = status; body = api_error code }

unfoldable pub health : Response
health = record { status = 200; body = healthy }

unfoldable pub answer_recorded : Result (Case × Bool) → Response
answer_recorded (ok (stored, created)) = record {
  status = 202;
  body = accepted (record { created = created; case = to_api_case stored });
}
answer_recorded (err e) =
    if is_conflict e
    then write_api_error 409 (text "event_conflict")
    else write_api_error 500 (text "internal_error")

-- What the handlers need of a service (`caseService`) over the states `S`: a service call returns
-- the Case and whether it was created, or an error.
module _ {S : Type 0} (p : Platform) (record_event : Event → S → S × Result (Case × Bool)) where
  -- acceptEvent: the decoded body, or the decoder's error, and what followed it.
  unfoldable pub accept_event : Result IncidentEvent → Trailing → S → S × Response
  accept_event (err e) trailing s = (s, write_api_error 400 (text "invalid_json"))
  accept_event (ok input) trailing s =
      let event = to_event input in
      let (s', recorded) = record_event event s in
      if not (ensure_eof trailing)
      then (s, write_api_error 400 (text "invalid_json"))
      else elim (validate (normalize p event)) [
        | some problem ↦ (s, write_api_error 400 (text "invalid_event"))
        | none ↦ (s', answer_recorded recorded)
      ]

unfoldable pub answer_found : Result Case → Response
answer_found (ok c) = record { status = 200; body = api_case (to_api_case c) }
answer_found (err e) =
    if is_not_found e
    then write_api_error 404 (text "case_not_found")
    else write_api_error 500 (text "internal_error")

module _ (get : Text → Result Case) where
  -- getCase, of the path value.
  unfoldable pub get_case_by_path : Text → Response
  get_case_by_path path_value = answer_found (get (trim_space path_value))
