-- ===== src/Incident/Apply.antt =====
-- The Incident stays a summary of its Events, whatever occurs.
use rootforge.Prelude.{
  ◌≡◌, refl, sym, ◌⊎◌, inl, inr, Bool, true, false, Option, none, some, List, [], ◌∷◌, ◌++◌, arith,
  if◌then◌else◌, All, All-append,
}
use mathlib.Core.Path.{subst}
use rootforge.Text.{Text, text_eq, text_eq_refl, text_eq_sound}
use rootforge.Clock.{Time, before, after}
use rootforge.Failure.{Error, ok, err}
use rootforge.Platform.{Platform}
use rootforge.Trigger.{Event, clone, normalize, validate, fingerprint}
use rootforge.Incident.{
  Incident, first_incident, new_incident, known_event, apply, apply_normal, occurred, same_scope,
}

-- What an Incident knows of each of its Events.
pub record Covers (p : Platform) (i : Incident) (e : Event) : Type 0 where
  pub accepted : validate e ≡ none
  pub keyed : fingerprint p e ≡ i.fingerprint
  pub scoped : same_scope e i ≡ true

-- The earliest and the latest occurrence among some Events and two times.
unfoldable pub window : Time → Time → List Event → Time × Time
window first last [] = (first, last)
window first last (e ∷ es) =
    window (if before e.occurred_at first then e.occurred_at else first)
      (if after e.occurred_at last then e.occurred_at else last) es

-- There is an Event, and the two times are the earliest and the latest of the Events.
abbrev pub Spans : List Event → Time → Time → Type 0
Spans [] first last = ⊥
Spans (e ∷ es) first last =
    let w = window e.occurred_at e.occurred_at (e ∷ es) in
    (first.instant ≡ w.0.instant) × (last.instant ≡ w.1.instant)

-- An Incident is the summary of its Events.
pub record IsSummary (p : Platform) (i : Incident) : Type 0 where
  pub covers : All (Covers p i) i.events
  pub spans : Spans i.events i.first_occurred_at i.last_occurred_at

clone-Covers : (p : Platform) (i : Incident) (e : Event) → Covers p i e → Covers p i (clone e)
unfolding clone validate fingerprint normalize same_scope
clone-Covers p i e c = record { accepted = c.accepted; keyed = c.keyed; scoped = c.scoped }

text_eq_all : (s : Text) → text_eq s s ≡ true
text_eq_all s = text_eq_refl s

first_incident-IsSummary :
    (p : Platform) (e : Event) → validate e ≡ none → IsSummary p (first_incident p e)
unfolding first_incident
first_incident-IsSummary p e v = record {
  covers = (
    clone-Covers p (first_incident p e) e (record {
      accepted = v;
      keyed = refl;
      scoped =
          unfold same_scope in
          ground (
            arith,
            text_eq_refl e.type,
            text_eq_refl e.environment,
            text_eq_refl e.service,
            text_eq_refl e.node,
            text_eq_refl e.workload,
            text_eq_refl e.container,
          );
    }),
    tt,
  );
  spans = unfold window clone in ground arith;
}

pub new_incident-ok :
    (p : Platform) (event : Event) (i : Incident)
    → new_incident p event ≡ ok i
    → (validate (normalize p event) ≡ none) × (i ≡ first_incident p (normalize p event))
unfolding new_incident
new_incident-ok p event i h = go (validate (normalize p event)) refl h
  where
    go :
        (o : Option Error)
        → validate (normalize p event) ≡ o
        → (elim o [ some problem ↦ err problem | none ↦ ok (first_incident p (normalize p event)) ])
          ≡ ok i
        → (validate (normalize p event) ≡ none) × (i ≡ first_incident p (normalize p event))
    go none v q = (v, cc q)
    go (some e) v q = absurd (cc q)

-- A new Incident is the summary of its one Event.
pub new_incident-IsSummary :
    (p : Platform) (event : Event) (i : Incident) → new_incident p event ≡ ok i → IsSummary p i
new_incident-IsSummary p event i h =
    let (v, e) = new_incident-ok p event i h in
    subst (IsSummary p) (sym e) (first_incident-IsSummary p (normalize p event) v)

-- What a successful Apply of a normalized Event did.
abbrev pub Applied : Platform → Incident → Event → Incident → Bool → Type 0
Applied p i e j changed =
    ((changed ≡ false) × (j ≡ i) × (known_event p e i ≡ some true))
    ⊎ ((changed ≡ true)
        × (j ≡ occurred p e i)
        × (validate e ≡ none)
        × (text_eq (fingerprint p e) i.fingerprint ≡ true)
        × (same_scope e i ≡ true)
        × (known_event p e i ≡ none))

pub apply_normal-Applied :
    (p : Platform) (i : Incident) (e : Event) (j : Incident) (changed : Bool)
    → apply_normal p i e ≡ ok (j, changed)
    → Applied p i e j changed
unfolding apply_normal
apply_normal-Applied p i e j changed h = ground arith

window-append :
    (first last : Time) (es : List Event) (e : Event)
    → window first last (es ++ (e ∷ [])) ≡ (let w = window first last es in window w.0 w.1 (e ∷ []))
unfolding window
window-append first last [] e = refl
window-append first last (x ∷ xs) e =
    window-append (if before x.occurred_at first then x.occurred_at else first)
      (if after x.occurred_at last then x.occurred_at else last) xs e

occurred-Covers :
    (p : Platform) (i : Incident) (e x : Event) → Covers p i x → Covers p (occurred p e i) x
unfolding occurred same_scope
occurred-Covers p i e x c = record { accepted = c.accepted; keyed = c.keyed; scoped = c.scoped }

All-occurred :
    (p : Platform) (i : Incident) (e : Event) (es : List Event)
    → All (Covers p i) es
    → All (Covers p (occurred p e i)) es
All-occurred p i e [] h = tt
All-occurred p i e (x ∷ xs) h = (occurred-Covers p i e x h.0, All-occurred p i e xs h.1)

Spans-append :
    (es : List Event) (first last : Time) (e : Event)
    → Spans es first last
    → Spans
        (es ++ (e ∷ []))
        (if before e.occurred_at first then e.occurred_at else first)
        (if after e.occurred_at last then e.occurred_at else last)
Spans-append [] first last e s = absurd s
Spans-append (x ∷ xs) first last e s =
    let grown = window-append x.occurred_at x.occurred_at (x ∷ xs) e in
    rw grown (unfold window in ground arith)

occurred-IsSummary :
    (p : Platform) (i : Incident) (e : Event)
    → IsSummary p i
    → Covers p i e
    → IsSummary p (occurred p e i)
occurred-IsSummary p i e s c = record {
  covers =
      unfold occurred in
      All-append (Covers p (occurred p e i)) i.events (clone e ∷ [])
        (All-occurred p i e i.events s.covers)
        (clone-Covers p (occurred p e i) e (occurred-Covers p i e e c), tt);
  spans =
      unfold occurred clone in
      Spans-append i.events i.first_occurred_at i.last_occurred_at (clone e) s.spans;
}

-- Apply keeps an Incident the summary of its Events: each is valid and has the fingerprint and the
-- scope of the Incident, and the occurrence window runs from the earliest to the latest of them.
pub apply-IsSummary :
    (p : Platform) (i j : Incident) (event : Event) (changed : Bool)
    → IsSummary p i
    → apply p (some i) event ≡ ok (j, changed)
    → IsSummary p j
unfolding apply
apply-IsSummary p i j event changed s h =
    let e = normalize p event in
    elim (apply_normal-Applied p i e j changed h) [
      | inl a ↦ subst (IsSummary p) (sym a.1) s
      | inr a ↦ subst (IsSummary p) (sym a.1) (
          occurred-IsSummary p i e s (record {
            accepted = a.2;
            keyed = text_eq_sound (fingerprint p e) i.fingerprint a.3;
            scoped = a.4;
          }))
    ]
