-- ===== src/Trigger/Normal.antt =====
-- A normalized Event stays as it is, and its fingerprint is that of the Event.
use rootforge.Prelude.{◌≡◌, refl, ap, ◌∙◌, Option, none, some, arith, if◌then◌else◌, not}
use rootforge.Text.{Text, trim_space, to_lower}
use rootforge.Text.Trim.{trim_space-trim_space}
use rootforge.Text.Lower.{LowersWide, to_lower-to_lower, trim_space-to_lower}
use rootforge.Clock.{Time, utc, is_zero}
use rootforge.Dict.{Dict, copy}
use rootforge.Dict.Copy.{copy_lem, copy-Distinct}
use rootforge.Platform.{Platform}
use rootforge.Trigger.{Event, normalize, fingerprint, clone_attributes}

clone_attributes_twice :
    (m : Option (Dict Text)) → clone_attributes (clone_attributes m) ≡ clone_attributes m
unfolding clone_attributes
clone_attributes_twice none = refl
clone_attributes_twice (some m) = ap some (copy_lem (copy m) (copy-Distinct m))

observed_twice :
    (t : Time)
    → let u = (if not (is_zero t) then utc t else t) in (if not (is_zero u) then utc u else u) ≡ u
observed_twice t = ground arith

module _ (p : Platform) (laws : LowersWide p.lower_wide) where
  lower_trim_twice :
      (s : Text)
      → to_lower p.lower_wide (trim_space (to_lower p.lower_wide (trim_space s)))
        ≡ to_lower p.lower_wide (trim_space s)
  lower_trim_twice s =
      ap (to_lower p.lower_wide)
        (trim_space-to_lower p.lower_wide laws (trim_space s) (trim_space-trim_space s))
      ∙ to_lower-to_lower p.lower_wide laws (trim_space s)

  -- To normalize an Event again changes nothing, where lower-casing a string that is not ASCII
  -- keeps it trimmed and is idempotent.
  pub normalize-normalize : (e : Event) → normalize p (normalize p e) ≡ normalize p e
  unfolding normalize
  normalize-normalize e = λ i. record {
    id = trim_space-trim_space e.id i;
    type = lower_trim_twice e.type i;
    source = trim_space-trim_space e.source i;
    occurred_at = utc e.occurred_at;
    observed_at = observed_twice e.observed_at i;
    environment = trim_space-trim_space e.environment i;
    service = trim_space-trim_space e.service i;
    node = trim_space-trim_space e.node i;
    workload = trim_space-trim_space e.workload i;
    container = trim_space-trim_space e.container i;
    severity = lower_trim_twice e.severity i;
    dedupe_key = trim_space-trim_space e.dedupe_key i;
    attributes = clone_attributes_twice e.attributes i;
  }

  pub fingerprint-normalize : (e : Event) → fingerprint p (normalize p e) ≡ fingerprint p e
  unfolding fingerprint
  fingerprint-normalize e = rw (normalize-normalize e)
