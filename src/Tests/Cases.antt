-- ===== src/Tests/Cases.antt =====
-- An Incident of one Event that takes a second one, and the intake of an Event.
use rootforge.Prelude.{◌≡◌, ◌⊎◌, refl, some, [], ◌∷◌, true, false, All}
use rootforge.Text.{
  text, text_eq, is_empty, hex_encode, trim_space, trim_left, trim_right, strip, to_lower, join,
  is_ascii, lower_byte,
}
use rootforge.Failure.{ok}
use rootforge.Trigger.{
  Event, normalize, validate, problems, fingerprint, fingerprint_parts, clone, clone_attributes,
}
use rootforge.Trigger.Normal.{normalize-normalize}
use rootforge.Trigger.Scope.{
  NoNul, KeyedAlike, Collide, hashed, fingerprint-KeyedAlike, fingerprint-collision,
}
use rootforge.Incident.{
  Incident, new_incident, first_incident, apply, apply_normal, occurred, known_event, replayed,
  same_scope,
}
use rootforge.Incident.Apply.{IsSummary, new_incident-IsSummary, apply-IsSummary}
use rootforge.Incident.Replay.{apply-replay}
use rootforge.Tests.Sample.{
  nonzero-NoNul, sample_platform, sample_platform-LowersWide, sample_event, sample_time,
}

-- The same signal again, earlier and with another identifier.
abbrev second_event : Event
second_event = record sample_event { id = text "2"; occurred_at = sample_time 4; severity = [] }

abbrev first_summary : Incident
first_summary = first_incident sample_platform (normalize sample_platform sample_event)

abbrev second_summary : Incident
second_summary = occurred sample_platform (normalize sample_platform second_event) first_summary

normalize-normalize_example :
    normalize sample_platform (normalize sample_platform sample_event)
    ≡ normalize sample_platform sample_event
normalize-normalize_example =
    normalize-normalize sample_platform sample_platform-LowersWide sample_event

first_incident_made : new_incident sample_platform sample_event ≡ ok first_summary
unfolding new_incident normalize validate problems trim_space trim_left trim_right strip to_lower
    is_ascii lower_byte is_empty
first_incident_made = refl

new_incident-IsSummary_example : IsSummary sample_platform first_summary
new_incident-IsSummary_example =
    new_incident-IsSummary sample_platform sample_event first_summary first_incident_made

second_taken : apply sample_platform (some first_summary) second_event ≡ ok (second_summary, true)
unfolding apply apply_normal first_incident normalize validate problems trim_space trim_left
    trim_right strip to_lower is_ascii lower_byte is_empty fingerprint fingerprint_parts hex_encode
    text_eq same_scope known_event replayed join occurred clone clone_attributes
second_taken = refl

apply-IsSummary_example : IsSummary sample_platform second_summary
apply-IsSummary_example =
    apply-IsSummary sample_platform first_summary second_summary second_event true
      new_incident-IsSummary_example second_taken

apply-replay_example :
    apply sample_platform (some second_summary) second_event ≡ ok (second_summary, false)
apply-replay_example =
    apply-replay sample_platform first_summary second_summary second_event
      (unfold normalize trim_space trim_left trim_right strip is_empty in refl) second_taken

-- The same key of two sources.
abbrev explicit_event : Event
explicit_event = record sample_event { dedupe_key = text "d" }

explicit_event-NoNul : All NoNul (fingerprint_parts (normalize sample_platform explicit_event))
unfolding fingerprint_parts is_empty normalize trim_space trim_left trim_right strip
explicit_event-NoNul = (
  nonzero-NoNul (text "rootforge-trigger-v1") refl,
  (
    nonzero-NoNul (text "explicit") refl,
    (nonzero-NoNul (text "k") refl, (nonzero-NoNul (text "d") refl, tt)),
  ),
)

-- The same key of the same source, with a space, at another severity.
abbrev spaced_event : Event
spaced_event = record explicit_event { dedupe_key = text " d"; severity = text "low" }

fingerprint-KeyedAlike_example :
    Collide sample_platform
      (hashed sample_platform explicit_event)
      (hashed sample_platform spaced_event)
    ⊎ KeyedAlike (normalize sample_platform explicit_event) (normalize sample_platform spaced_event)
unfolding fingerprint fingerprint_parts is_empty normalize trim_space trim_left trim_right strip
fingerprint-KeyedAlike_example =
    fingerprint-KeyedAlike sample_platform explicit_event spaced_event explicit_event-NoNul
      explicit_event-NoNul refl

fingerprint-collision_example :
    fingerprint sample_platform
      (record sample_event { source = b'k' ∷ 0 ∷ b'a' ∷ []; dedupe_key = text "b" })
    ≡ fingerprint sample_platform (record sample_event { dedupe_key = b'a' ∷ 0 ∷ b'b' ∷ [] })
unfolding normalize trim_space trim_left trim_right strip
fingerprint-collision_example =
    fingerprint-collision sample_platform
      (record sample_event { source = b'k' ∷ 0 ∷ b'a' ∷ []; dedupe_key = text "b" })
      (record sample_event { dedupe_key = b'a' ∷ 0 ∷ b'b' ∷ [] }) (text "k") (text "a") (text "b")
      refl refl refl refl (unfold is_empty in refl)
