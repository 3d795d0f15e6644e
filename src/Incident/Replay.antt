-- ===== src/Incident/Replay.antt =====
-- A replayed Event is recognised.
use rootforge.Prelude.{
  ◌≡◌, refl, ap, ◌∙◌, inl, inr, true, false, Option, none, some, List, [], ◌∷◌, ◌++◌, arith,
}
use rootforge.Text.{Text, text_eq, text_eq_iff, text_eq_refl, is_empty, trim_space, to_lower}
use rootforge.Dict.{Dict, lookup, copy, included, maps_equal, Distinct}
use rootforge.Dict.Copy.{copy_lem, copy-Distinct}
use rootforge.Failure.{ok}
use rootforge.Platform.{Platform}
use rootforge.Trigger.{Event, clone, clone_attributes, normalize, validate, fingerprint}
use rootforge.Incident.{
  Incident, apply, apply_normal, occurred, same_scope, replayed, known_event, same_event,
  attributes_equal,
}
use rootforge.Incident.Apply.{apply_normal-Applied}

included_more :
    (k v : Text) (m n : Dict Text)
    → lookup k m ≡ none
    → included m n ≡ true
    → included m ((k, v) ∷ n) ≡ true
unfolding included lookup
included_more k v [] n a h = refl
included_more k v ((j, w) ∷ m) n a h =
    ground (arith, included_more k v m n, text_eq_iff j k, text_eq_iff k j)

included_refl : (m : Dict Text) → Distinct m → included m m ≡ true
unfolding included lookup
included_refl [] d = refl
included_refl ((k, v) ∷ m) d =
    ground (arith, text_eq_refl k, text_eq_refl v, included_more k v m m d.0 (included_refl m d.1))

maps_equal_refl : (m : Dict Text) → Distinct m → maps_equal m m ≡ true
unfolding maps_equal
maps_equal_refl m d = ground (arith, included_refl m d)

attributes_equal-clone :
    (m : Option (Dict Text))
    → attributes_equal (clone_attributes (clone_attributes m)) (clone_attributes m) ≡ true
unfolding attributes_equal clone_attributes
attributes_equal-clone none = refl
attributes_equal-clone (some m) =
    rw (copy_lem (copy m) (copy-Distinct m)) (maps_equal_refl (copy m) (copy-Distinct m))

same_event-clone : (p : Platform) (e : Event) → same_event p (clone e) e ≡ true
unfolding same_event normalize clone
same_event-clone p e = ground (
  arith,
  text_eq_refl (trim_space e.id),
  text_eq_refl (to_lower p.lower_wide (trim_space e.type)),
  text_eq_refl (trim_space e.source),
  text_eq_refl (trim_space e.environment),
  text_eq_refl (trim_space e.service),
  text_eq_refl (trim_space e.node),
  text_eq_refl (trim_space e.workload),
  text_eq_refl (trim_space e.container),
  text_eq_refl (to_lower p.lower_wide (trim_space e.severity)),
  text_eq_refl (trim_space e.dedupe_key),
  attributes_equal-clone e.attributes,
)

replayed-append :
    (p : Platform) (e : Event) (es : List Event)
    → replayed p e es ≡ none
    → replayed p e (es ++ (clone e ∷ [])) ≡ some (same_event p (clone e) e)
unfolding replayed
replayed-append p e [] h = unfold clone in rw (text_eq_refl e.source, text_eq_refl e.id)
replayed-append p e (x ∷ xs) h = ground (arith, replayed-append p e xs)

known_event-occurred :
    (p : Platform) (i : Incident) (e : Event)
    → is_empty e.id ≡ false
    → known_event p e i ≡ none
    → known_event p e (occurred p e i) ≡ some true
unfolding known_event occurred
known_event-occurred p i e given new =
    rw given (
      replayed-append p e i.events (rw (given, known_event) at new)
      ∙ ap some (same_event-clone p e))

same_print :
    (p : Platform) (i : Incident) (e : Event) → (occurred p e i).fingerprint ≡ i.fingerprint
unfolding occurred
same_print p i e = refl

same_scope-occurred :
    (p : Platform) (i : Incident) (e : Event) → same_scope e (occurred p e i) ≡ same_scope e i
unfolding occurred same_scope
same_scope-occurred p i e = refl

apply_normal-known :
    (p : Platform) (j : Incident) (e : Event)
    → validate e ≡ none
    → text_eq (fingerprint p e) j.fingerprint ≡ true
    → same_scope e j ≡ true
    → known_event p e j ≡ some true
    → apply_normal p j e ≡ ok (j, false)
unfolding apply_normal
apply_normal-known p j e v f s k = ground arith

-- After Apply added an Event that has an identifier, to apply the same Event again succeeds and
-- changes nothing.
pub apply-replay :
    (p : Platform) (i j : Incident) (event : Event)
    → is_empty (normalize p event).id ≡ false
    → apply p (some i) event ≡ ok (j, true)
    → apply p (some j) event ≡ ok (j, false)
unfolding apply
apply-replay p i j event given h =
    let e = normalize p event in
    elim (apply_normal-Applied p i e j true h) [
      | inl a ↦ absurd (cc (a.0))
      | inr a ↦ rw (a.1) (
          apply_normal-known p (occurred p e i) e a.2 (rw (same_print p i e) a.3)
            (same_scope-occurred p i e ∙ a.4) (known_event-occurred p i e given a.5))
    ]
