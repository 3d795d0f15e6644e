-- ===== src/Intake.antt =====
-- internal/workflow/intake.go: IntakeService, which records an Event and then makes sure that the
-- Case has an investigation task.
pub mod Schedule
use rootforge.Prelude.{
  ℕ, ◌+◌, ◌≡◌, Bool, true, false, Option, none, some, List, [], ◌∷◌, if◌then◌else◌,
}
use rootforge.Text.{Text}
use rootforge.Clock.{Time, utc}
use rootforge.Failure.{Error, Result, ok, err, wrapped}
use rootforge.Platform.{Platform, Codec}
use rootforge.JsonFile.{Directory, Answers}
use rootforge.Trigger.{Event}
use rootforge.Casefile.{Case, IdGenerator}
use rootforge.Investigation.{Task}
use rootforge.Outbox.{InvestigationOutbox, OutboxDiskState, Reply, ensure_pending}

-- CaseService: the Case behaviour that intake requires, over the states `S`.
pub record CaseService (S World : Type 0) : Type 0 where
  pub record_event : Option Error → Event → World → S → S × Result (Case × Bool)
  pub get : Option Error → Text → S → Result Case
  pub list_pending : Option Error → S → Result (List Case)

-- What RecordEvent of the intake returns beside its state: a Case also where scheduling failed.
pub record Recorded : Type 0 where
  pub stored : Option (Case × Bool)
  pub failure : Option Error

-- The state of the intake: that of the Case service, and the Outbox with its directory.
pub record Intake (S : Type 0) : Type 0 where
  pub cases : S
  pub outbox : InvestigationOutbox
  pub directory : Directory

module _ (sha256 : Text → Text) (codec : Codec OutboxDiskState) {S World : Type 0}
    (service : CaseService S World) where
  -- What RecordEvent returns of what EnsurePending returned.
  abbrev pub scheduled : Case × Bool → Result (Task × Bool) → Recorded
  scheduled stored (ok _) = record { stored = some stored; failure = none }
  scheduled stored (err e) = record { stored = some stored; failure = some (wrapped e) }

  -- The second half of RecordEvent, after the Case service left `cases` and returned.
  unfoldable pub schedule :
      Option Error → Time → Answers → Intake S → S → Result (Case × Bool) → Intake S × Recorded
  schedule ctx now a s cases (err e) =
      (record s { cases = cases }, record { stored = none; failure = some e })
  schedule ctx now a s cases (ok (stored, created)) =
      let r =
        ensure_pending sha256 codec ctx stored.id stored.revision (utc now) a s.outbox
          s.directory in
      (
        record { cases = cases; outbox = r.outbox; directory = r.directory },
        scheduled (stored, created) r.result,
      )

  -- RecordEvent; `now` is what s.now returned.
  unfoldable pub record_and_schedule :
      Option Error → Event → World → Time → Answers → Intake S → Intake S × Recorded
  record_and_schedule ctx event world now a s =
      let (cases, recorded) = service.record_event ctx event world s.cases in
      schedule ctx now a s cases recorded

  -- What ReconcilePending leaves and returns: how many tasks it changed, and the error.
  pub record Reconciled : Type 0 where
    pub outbox : InvestigationOutbox
    pub directory : Directory
    pub ensured : ℕ
    pub failure : Option Error

  abbrev pub count_changed : Bool → ℕ → ℕ
  count_changed true n = n + 1
  count_changed false n = n

  -- Its loop over the pending Cases; each call of EnsurePending has its time and its answers.
  unfoldable pub reconcile :
      Option Error
      → List Case
      → (Text → Time × Answers)
      → InvestigationOutbox
      → Directory
      → ℕ
      → Reconciled
  reconcile ctx [] env o d ensured = record {
    outbox = o;
    directory = d;
    ensured = ensured;
    failure = none;
  }
  reconcile ctx (c ∷ cs) env o d ensured =
      let (now, a) = env c.id in
      let r = ensure_pending sha256 codec ctx c.id c.revision (utc now) a o d in
      elim (r.result) [
        | err e ↦ record {
          outbox = r.outbox;
          directory = r.directory;
          ensured = ensured;
          failure = some (wrapped e);
        }
        | ok (_, changed) ↦
            reconcile ctx cs env r.outbox r.directory (count_changed changed ensured)
      ]

  -- ReconcilePending, after the Case service listed the pending Cases.
  unfoldable pub reconcile_listed :
      Option Error → (Text → Time × Answers) → Intake S → Result (List Case) → Reconciled
  unfolding reconcile
  reconcile_listed ctx env s (err e) = record {
    outbox = s.outbox;
    directory = s.directory;
    ensured = 0;
    failure = some (wrapped e);
  }
  reconcile_listed ctx env s (ok cs) = reconcile ctx cs env s.outbox s.directory 0

  -- ReconcilePending.
  unfoldable pub reconcile_pending : Option Error → (Text → Time × Answers) → Intake S → Reconciled
  unfolding reconcile_listed
  reconcile_pending ctx env s = reconcile_listed ctx env s (service.list_pending ctx s.cases)
