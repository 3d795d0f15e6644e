-- ===== src/Incident.antt =====
-- internal/incident/incident.go: the Incident, its creation from an Event, and the occurrence of a
-- further Event.
pub mod Apply
pub mod Replay
use rootforge.Prelude.{
  ℕ, ◌≡◌, Bool, true, false, not, ◌&&◌, ◌||◌, Option, none, some, List, [], ◌∷◌, ◌++◌, map,
  if◌then◌else◌,
}
use rootforge.Text.{Text, text_eq, is_empty}
use rootforge.Clock.{Time, before, after, same_instant}
use rootforge.Dict.{Dict, maps_equal}
use rootforge.Failure.{
  Error, Result, ok, err, nil_incident, fingerprint_mismatch, event_scope_conflict,
  event_id_conflict,
}
use rootforge.Platform.{Platform}
use rootforge.Trigger.{Event, clone, normalize, validate, fingerprint}

-- Status is a string: a stored file may hold any other.
pub data Status : Type 0 where
  pending_investigation investigating resolved closed : Status
  other_status : Text → Status

pub record Incident : Type 0 where
  pub fingerprint : Text
  pub type : Text
  pub status : Status
  pub environment : Text
  pub service : Text
  pub node : Text
  pub workload : Text
  pub container : Text
  pub severity : Text
  pub first_occurred_at : Time
  pub last_occurred_at : Time
  pub events : List Event

-- Incident.Open.
abbrev pub status_open : Status → Bool
status_open resolved = false
status_open closed = false
status_open _ = true

unfoldable pub is_open : Incident → Bool
is_open i = status_open i.status

-- Incident.Clone.
unfoldable pub clone_incident : Incident → Incident
clone_incident i = record i { events = map clone i.events }

unfoldable pub attributes_equal : Option (Dict Text) → Option (Dict Text) → Bool
attributes_equal none none = true
attributes_equal none (some n) = maps_equal [] n
attributes_equal (some m) none = maps_equal m []
attributes_equal (some m) (some n) = maps_equal m n

-- The fields of the Event that must be those of the Incident.
unfoldable pub same_scope : Event → Incident → Bool
same_scope e i =
    text_eq e.type i.type
    && text_eq e.environment i.environment
    && text_eq e.service i.service
    && text_eq e.node i.node
    && text_eq e.workload i.workload
    && text_eq e.container i.container

module _ (p : Platform) where
  -- The Incident that New returns for a normalized Event.
  unfoldable pub first_incident : Event → Incident
  first_incident e = record {
    fingerprint = fingerprint p e;
    type = e.type;
    status = pending_investigation;
    environment = e.environment;
    service = e.service;
    node = e.node;
    workload = e.workload;
    container = e.container;
    severity = e.severity;
    first_occurred_at = e.occurred_at;
    last_occurred_at = e.occurred_at;
    events = clone e ∷ [];
  }

  -- incident.New.
  unfoldable pub new_incident : Event → Result Incident
  new_incident event =
      let e = normalize p event in
      elim (validate e) [ some problem ↦ err problem | none ↦ ok (first_incident e) ]

  unfoldable pub same_event : Event → Event → Bool
  same_event l r =
      let left = normalize p l in
      let right = normalize p r in
      text_eq left.id right.id
      && text_eq left.type right.type
      && text_eq left.source right.source
      && same_instant left.occurred_at right.occurred_at
      && text_eq left.environment right.environment
      && text_eq left.service right.service
      && text_eq left.node right.node
      && text_eq left.workload right.workload
      && text_eq left.container right.container
      && text_eq left.severity right.severity
      && text_eq left.dedupe_key right.dedupe_key
      && attributes_equal left.attributes right.attributes

  -- The loop over the known Events: the first with the source and the identifier of the new one
  -- decides, `some true` if it is the same Event.
  unfoldable pub replayed : Event → List Event → Option Bool
  replayed e [] = none
  replayed e (existing ∷ rest) =
      if not (text_eq existing.source e.source) || not (text_eq existing.id e.id)
      then replayed e rest
      else some (same_event existing e)

  -- The test of Apply for an Event with an identifier.
  unfoldable pub known_event : Event → Incident → Option Bool
  known_event e i = if not (is_empty e.id) then replayed e i.events else none

  -- The writes of Apply for a new occurrence.
  unfoldable pub occurred : Event → Incident → Incident
  occurred e i = record i {
    first_occurred_at =
        if before e.occurred_at i.first_occurred_at then e.occurred_at else i.first_occurred_at;
    last_occurred_at =
        if after e.occurred_at i.last_occurred_at then e.occurred_at else i.last_occurred_at;
    severity = if not (is_empty e.severity) then e.severity else i.severity;
    events = i.events ++ (clone e ∷ []);
  }

  -- Incident.Apply, of a normalized Event: the Incident that it leaves, and whether it changed.
  unfoldable pub apply_normal : Incident → Event → Result (Incident × Bool)
  apply_normal i e = elim (validate e) [
    | some problem ↦ err problem
    | none ↦
        if not (text_eq (fingerprint p e) i.fingerprint)
        then err fingerprint_mismatch
        else if not (same_scope e i)
        then err event_scope_conflict
        else elim (known_event e i) [
          | some true ↦ ok (i, false)
          | some false ↦ err event_id_conflict
          | none ↦ ok (occurred e i, true)
        ]
  ]

  -- Incident.Apply; `none` is the nil Incident. An Incident that Apply refuses is unchanged.
  unfoldable pub apply : Option Incident → Event → Result (Incident × Bool)
  apply none event = err nil_incident
  apply (some i) event = apply_normal i (normalize p event)
