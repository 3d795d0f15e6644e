-- ===== src/HttpApi/Answers.antt =====
-- Which status each request gets.
use mathlib.Core.Bool.{false≢true}
use rootforge.Prelude.{
  ◌≡◌, ◌≢◌, refl, sym, ◌∙◌, ◌⊎◌, inl, inr, Bool, true, false, Option, none, some, [], length,
  length-map, Bool-cases,
}
use rootforge.Text.{Text, text, trim_space, is_empty, is_empty_iff}
use rootforge.Dict.{lookup}
use rootforge.Failure.{Error, Result, ok, err, not_found}
use rootforge.Platform.{Platform}
use rootforge.Trigger.{Event, normalize, validate, clone}
use rootforge.Incident.{
  Status, pending_investigation, investigating, resolved, closed, other_status, clone_incident,
}
use rootforge.Casefile.{Case, Cases, Store, service_get, get_case, clone_case}
use rootforge.HttpApi.{
  IncidentEvent, ApiCase, Response, accepted, api_case, api_error, to_api_case, to_event, Trailing,
  end_of_body, status_text, is_conflict, is_not_found, get_case_by_path, answer_found,
}

-- The words of the API for a Status.
abbrev pub status_word : Status → Text
status_word pending_investigation = text "pending_investigation"
status_word investigating = text "investigating"
status_word resolved = text "resolved"
status_word closed = text "closed"
status_word (other_status s) = s

-- What a client sees of a Case: all of it but the Events, of which it sees the number.
pub record Shows (c : Case) (a : ApiCase) : Type 0 where
  pub id : a.id ≡ c.id
  pub revision : a.revision ≡ c.revision
  pub created : a.created_at ≡ c.created_at
  pub updated : a.updated_at ≡ c.updated_at
  pub type : a.incident.type ≡ c.incident.type
  pub status : a.incident.status ≡ status_word c.incident.status
  pub environment : a.incident.environment ≡ c.incident.environment
  pub service : a.incident.service ≡ c.incident.service
  pub node : a.incident.node ≡ c.incident.node
  pub workload : a.incident.workload ≡ c.incident.workload
  pub container : a.incident.container ≡ c.incident.container
  pub severity : a.incident.severity ≡ c.incident.severity
  pub first : a.incident.first_occurred_at ≡ c.incident.first_occurred_at
  pub last : a.incident.last_occurred_at ≡ c.incident.last_occurred_at
  pub count : a.incident.event_count ≡ length c.incident.events

status_text_lem : (s : Status) → status_text s ≡ status_word s
status_text_lem pending_investigation = refl
status_text_lem investigating = refl
status_text_lem resolved = refl
status_text_lem closed = refl
status_text_lem (other_status s) = refl

-- A clone shows the same.
clone_case-Shows : (c : Case) → Shows c (to_api_case (clone_case c))
unfolding to_api_case clone_case clone_incident
clone_case-Shows c = record {
  id = refl;
  revision = refl;
  created = refl;
  updated = refl;
  type = refl;
  status = status_text_lem c.incident.status;
  environment = refl;
  service = refl;
  node = refl;
  workload = refl;
  container = refl;
  severity = refl;
  first = refl;
  last = refl;
  count = length-map c.incident.events clone;
}

-- The answer to an Event that was handed to the service.
abbrev pub Answered : Result (Case × Bool) → Response → Type 0
Answered (ok (c, created)) r =
    (r.status ≡ 202)
    × (a : ApiCase) × (r.body ≡ accepted (record { created = created; case = a }))
    × Shows c a
Answered (err e) r =
    ((is_conflict e ≡ true) × (r.status ≡ 409) × (r.body ≡ api_error (text "event_conflict")))
    ⊎ ((is_conflict e ≡ false) × (r.status ≡ 500) × (r.body ≡ api_error (text "internal_error")))

-- Why a body is no Event: it does not decode, or it goes on after the Event.
abbrev pub IsBroken : Result IncidentEvent → Trailing → Type 0
IsBroken decoded trailing =
    ((e : Error) × (decoded ≡ err e))
    ⊎ ((input : IncidentEvent) × (decoded ≡ ok input) × (trailing ≢ end_of_body))

module _ {S : Type 0} (p : Platform) (record_event : Event → S → S × Result (Case × Bool)) where
  -- The request was refused for a reason and nothing was done; or its Event was recorded and
  -- answered.
  abbrev pub Handled : Result IncidentEvent → Trailing → S → S × Response → Type 0
  Handled decoded trailing s r =
      (IsBroken decoded trailing
        × (r.0 ≡ s)
        × (r.1.status ≡ 400)
        × (r.1.body ≡ api_error (text "invalid_json")))
      ⊎ ((input : IncidentEvent) × (decoded ≡ ok input)
          × (trailing ≡ end_of_body)
          × (((problem : Error) × (validate (normalize p (to_event input)) ≡ some problem)
                × (r.0 ≡ s)
                × (r.1.status ≡ 400)
                × (r.1.body ≡ api_error (text "invalid_event")))
              ⊎ ((validate (normalize p (to_event input)) ≡ none)
                  × (r.0 ≡ (record_event (to_event input) s).0)
                  × Answered (record_event (to_event input) s).1 r.1)))

-- The answer of getCase, of a Case that is there or is not.
abbrev pub FoundAs : Option Error → Text → Option Case → Response → Type 0
FoundAs ctx id found r =
    ((r.status ≡ 404)
      × (r.body ≡ api_error (text "case_not_found"))
      × ((id ≡ []) ⊎ ((ctx ≡ none) × (found ≡ none))))
    ⊎ ((c : Case) × (ctx ≡ none)
        × (id ≢ [])
        × (found ≡ some c)
        × (r.status ≡ 200)
        × (a : ApiCase) × (r.body ≡ api_case a)
        × Shows c a)
    ⊎ ((cancelled : Error) × (ctx ≡ some cancelled)
        × (id ≢ [])
        × (r.status ≡ 500)
        × (r.body ≡ api_error (text "internal_error")))

get_case-FoundAs :
    (ctx : Option Error) (id : Text) (cases : Cases)
    → ((e : Error) → ctx ≡ some e → is_not_found e ≡ false)
    → id ≢ []
    → FoundAs ctx id (lookup id cases.by_id) (answer_found (get_case ctx id cases))
unfolding answer_found get_case
get_case-FoundAs (some e) id cases other given =
    let not_missing = other e refl in rw not_missing (inr (inr (e, refl, given, refl, refl)))
get_case-FoundAs none id cases other given = go (lookup id cases.by_id)
  where
    go :
        (o : Option Case)
        → FoundAs none id o
            (answer_found (elim o [ none ↦ err not_found | some c ↦ ok (clone_case c) ]))
    go none = inl (refl, refl, inr (refl, refl))
    go (some c) =
        inr (inl (c, refl, given, refl, refl, to_api_case (clone_case c), refl, clone_case-Shows c))

-- getCase, over the Case service and a store that reads the maps of a Case store, answers 404 if the
-- trimmed identifier is empty or, under a context that is not cancelled, is no Case's, and 200 with
-- all that the API shows of that Case if it is one's. Under a cancelled context, whose error is not
-- ErrNotFound, it answers 500 to every other identifier than the empty one.
pub get_case_by_path-get_case :
    {S World : Type 0} (p : Platform) (store : Store S World) (cases : S → Cases) (s : S)
    (ctx : Option Error) (path_value : Text)
    → ((id : Text) → store.get_from ctx id s ≡ get_case ctx id (cases s))
    → ((e : Error) → ctx ≡ some e → is_not_found e ≡ false)
    → let id = trim_space path_value in
      FoundAs ctx id
        (lookup id (cases s).by_id)
        (get_case_by_path (λ k. service_get p store ctx k s) path_value)
unfolding get_case_by_path service_get answer_found
get_case_by_path-get_case p store cases s ctx path_value same other =
    let id = trim_space path_value in
    elim (Bool-cases (is_empty id)) [
      | inl none_given ↦ rw none_given (inl (refl, refl, inl ((is_empty_iff id).0 none_given)))
      | inr given ↦
          rw (given, same id)
            (get_case-FoundAs ctx id (cases s) other
              λ e. false≢true (sym given ∙ (is_empty_iff id).1 e))
    ]
