-- ===== src/Trigger.antt =====
-- internal/trigger/event.go: the Event, its normal form, its validation and its fingerprint.
pub mod Normal
pub mod Scope
use rootforge.Prelude.{
  ℕ, ◌≡◌, Bool, true, false, not, ◌&&◌, Option, none, some, List, [], ◌∷◌, ◌++◌, if◌then◌else◌,
}
use rootforge.Text.{Text, text, is_empty, trim_space, to_lower, join, hex_encode}
use rootforge.Clock.{Time, utc, is_zero}
use rootforge.Dict.{Dict, copy}
use rootforge.Failure.{
  Error, Problem, invalid_event, type_required, source_required, occurred_at_required,
  environment_required, scope_required,
}
use rootforge.Platform.{Platform}

-- `none` for the attributes is a nil map.
pub record Event : Type 0 where
  pub id : Text
  pub type : Text
  pub source : Text
  pub occurred_at : Time
  pub observed_at : Time
  pub environment : Text
  pub service : Text
  pub node : Text
  pub workload : Text
  pub container : Text
  pub severity : Text
  pub dedupe_key : Text
  pub attributes : Option (Dict Text)

unfoldable pub clone_attributes : Option (Dict Text) → Option (Dict Text)
clone_attributes none = none
clone_attributes (some m) = some (copy m)

-- Event.Clone.
unfoldable pub clone : Event → Event
clone e = record e { attributes = clone_attributes e.attributes }

abbrev problem : Bool → Problem → List Problem → List Problem
problem true p rest = p ∷ rest
problem false p rest = rest

-- The problems that Event.Validate collects, in its order.
unfoldable pub problems : Event → List Problem
problems e = problem (is_empty (trim_space e.type)) type_required (
    problem (is_empty (trim_space e.source)) source_required (
      problem (is_zero e.occurred_at) occurred_at_required (
        problem (is_empty (trim_space e.environment)) environment_required (
          problem
            (is_empty (trim_space e.service)
              && is_empty (trim_space e.node)
              && is_empty (trim_space e.workload)
              && is_empty (trim_space e.container))
            scope_required []))))

abbrev joined : List Problem → Option Error
joined [] = none
joined (p ∷ ps) = some (invalid_event (p ∷ ps))

-- Event.Validate.
unfoldable pub validate : Event → Option Error
unfolding problems
validate e = joined (problems e)

module _ (p : Platform) where
  -- Event.Normalize.
  unfoldable pub normalize : Event → Event
  normalize e = record {
    id = trim_space e.id;
    type = to_lower p.lower_wide (trim_space e.type);
    source = trim_space e.source;
    occurred_at = utc e.occurred_at;
    observed_at = if not (is_zero e.observed_at) then utc e.observed_at else e.observed_at;
    environment = trim_space e.environment;
    service = trim_space e.service;
    node = trim_space e.node;
    workload = trim_space e.workload;
    container = trim_space e.container;
    severity = to_lower p.lower_wide (trim_space e.severity);
    dedupe_key = trim_space e.dedupe_key;
    attributes = clone_attributes e.attributes;
  }

-- The parts that Fingerprint joins, of a normalized Event.
unfoldable pub fingerprint_parts : Event → List Text
fingerprint_parts e =
    text "rootforge-trigger-v1"
    ∷ (if not (is_empty e.dedupe_key)
        then text "explicit" ∷ e.source ∷ e.dedupe_key ∷ []
        else text "scope"
          ∷ e.type
          ∷ e.environment
          ∷ e.service
          ∷ e.node
          ∷ e.workload
          ∷ e.container
          ∷ [])

module _ (p : Platform) where
  -- Event.Fingerprint.
  unfoldable pub fingerprint : Event → Text
  unfolding fingerprint_parts
  fingerprint e = hex_encode (p.sha256 (join (0 ∷ []) (fingerprint_parts (normalize p e))))
