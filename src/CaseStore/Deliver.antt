-- ===== src/CaseStore/Deliver.antt =====
-- Any sequence of Events, with any failures, delivered to the durable store.
use rootforge.Prelude.{◌≡◌, sym, true, Option, some, List, [], ◌∷◌, inl, inr}
use mathlib.Core.Path.{subst}
use rootforge.Text.{Text}
use rootforge.Text.Lower.{LowersWide}
use rootforge.Clock.{Time}
use rootforge.Dict.{lookup}
use rootforge.Failure.{Error, Result-cases}
use rootforge.Platform.{Platform, Codec}
use rootforge.JsonFile.{Answers}
use rootforge.Trigger.{Event}
use rootforge.Incident.{is_open}
use rootforge.Casefile.{Case, Cases, IdGenerator}
use rootforge.Casefile.Index.{IsIndexed, one_open_case}
use rootforge.Casefile.Dedupe.{apply_event-IsIndexed}
use rootforge.CaseStore.{CaseDiskState, Durable, apply_durable}
use rootforge.CaseStore.Plain.{IsCloned}
use rootforge.CaseStore.Clones.{apply_event-IsCloned}
use rootforge.CaseStore.Refines.{apply_durable-Refines}

-- One call of ApplyEvent, with what the platform gives to it.
pub record Delivery : Type 0 where
  pub event : Event
  pub now : Time
  pub context : Option Error
  pub generate : IdGenerator
  pub answers : Answers

-- A store whose maps hold clones and whose index is exact.
pub record IsGood (s : Cases) : Type 0 where
  pub cloned : IsCloned s
  pub indexed : IsIndexed s

pub no_cases-IsGood : IsGood (record { by_id = []; open_by_print = [] })
unfolding lookup
no_cases-IsGood = record {
  cloned = record { distinct = tt; distinct_prints = tt; plain = tt };
  indexed = record { names = λ print id h. absurd (cc h); finds = λ id c h opened. absurd (cc h) };
}

module _ (p : Platform) (codec : Codec CaseDiskState) where
  unfoldable pub deliver : List Delivery → Durable → Durable
  deliver [] s = s
  deliver (e ∷ es) s =
      deliver es (apply_durable p codec e.context e.event e.now e.generate e.answers s).0

  module _ (laws : LowersWide p.lower_wide) where
    apply_durable-IsGood :
        (e : Delivery) (s : Durable)
        → IsGood s.store.cases
        → IsGood
            (apply_durable p codec e.context e.event e.now e.generate e.answers s).0.store.cases
    apply_durable-IsGood e s g =
        let r = apply_durable p codec e.context e.event e.now e.generate e.answers s in
        let (works, fails) =
          apply_durable-Refines p codec e.answers s e.context e.event e.now e.generate g.cloned in
        elim (Result-cases r.1) [
          | inl (c, q) ↦ subst IsGood (sym (fails c q)) g
          | inr ((c, created), q) ↦ subst IsGood (sym (works c created q).1) (record {
            cloned =
                apply_event-IsCloned p e.context e.event e.now e.generate s.store.cases g.cloned;
            indexed =
                apply_event-IsIndexed p laws e.context e.event e.now e.generate s.store.cases
                  g.indexed;
          })
        ]

    deliver-IsGood :
        (es : List Delivery) (s : Durable)
        → IsGood s.store.cases
        → IsGood (deliver es s).store.cases
    unfolding deliver
    deliver-IsGood [] s g = g
    deliver-IsGood (e ∷ es) s g = deliver-IsGood es _ (apply_durable-IsGood e s g)

    -- From a store whose maps hold clones and whose index is exact, as an empty one, after any
    -- sequence of Events, whichever of the calls failed, two open Cases of the store with the same
    -- fingerprint are one Case; lower-casing a string that is not ASCII keeps it trimmed and is
    -- idempotent.
    pub deliver-OneOpenCase :
        (es : List Delivery) (s : Durable) (id other : Text) (c d : Case)
        → IsGood s.store.cases
        → lookup id (deliver es s).store.cases.by_id ≡ some c
        → lookup other (deliver es s).store.cases.by_id ≡ some d
        → is_open c.incident ≡ true
        → is_open d.incident ≡ true
        → c.incident.fingerprint ≡ d.incident.fingerprint
        → id ≡ other
    deliver-OneOpenCase es s id other c d g hc hd oc od same =
        one_open_case (deliver es s).store.cases id other c d (deliver-IsGood es s g).indexed hc hd
          oc od same
