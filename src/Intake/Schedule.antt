-- ===== src/Intake/Schedule.antt =====
-- A Case that intake returns, or that reconciliation visits, has its investigation task.
use rootforge.Prelude.{
  ℕ, ◌≡◌, ◌≤◌, refl, sym, ap, ◌∙◌, inl, inr, Bool, Option, none, some, List, [], ◌∷◌, arith, All,
  Bool-cases,
}
use mathlib.Core.Path.{subst}
use rootforge.Text.{Text, text_eq, text_eq_sound}
use rootforge.Clock.{Time, utc}
use rootforge.Dict.{Dict, lookup, Distinct}
use rootforge.Failure.{Error, Result, ok, err, result_rule}
use rootforge.Platform.{Codec}
use rootforge.JsonFile.{Directory, Answers}
use rootforge.Trigger.{Event}
use rootforge.Casefile.{Case}
use rootforge.Investigation.{Task}
use rootforge.Outbox.{InvestigationOutbox, OutboxDiskState, task_id, ensure_pending}
use rootforge.Outbox.Ensure.{Ensured, ensure_pending-Ensured}
use rootforge.Intake.{
  CaseService, Intake, Reconciled, record_and_schedule, schedule, scheduled, reconcile,
  count_changed, reconcile_pending, reconcile_listed,
}

-- The Outbox has a task for the Case that covers this revision.
abbrev pub Covered : (Text → Text) → Dict Task → Case → Type 0
Covered sha256 tasks c =
    (t : Task) × (lookup (task_id sha256 c.id) tasks ≡ some t)
    × (t.case_id ≡ c.id)
    × (c.revision ≤ t.case_revision)

module _ (sha256 : Text → Text) where
  Ensured-Covered :
      (c : Case) (before after : Dict Task) (t : Task)
      → Ensured sha256 c.id c.revision before after t
      → Covered sha256 after c
  Ensured-Covered c before after t e = (t, e.scheduled, e.for_case, e.covers)

  -- Making sure of one task does not take another away.
  still-Covered :
      (c : Case) (case_id : Text) (revision : ℕ) (before after : Dict Task) (t : Task)
      → Ensured sha256 case_id revision before after t
      → Covered sha256 before c
      → Covered sha256 after c
  still-Covered c case_id revision before after t e (u, known, same, covers) =
      elim (Bool-cases (text_eq (task_id sha256 case_id) (task_id sha256 c.id))) [
        | inl y ↦
            let ids = text_eq_sound (task_id sha256 case_id) (task_id sha256 c.id) y in
            let (for_case, grows) = e.grows u (ap (λ (k : Text). lookup k before) ids ∙ known) in
            (
              t,
              ap (λ (k : Text). lookup k after) (sym ids) ∙ e.scheduled,
              e.for_case ∙ sym for_case ∙ same,
              omega arith,
            )
        | inr n ↦ (u, e.others (task_id sha256 c.id) n ∙ known, same, covers)
      ]

module _ (sha256 : Text → Text) (codec : Codec OutboxDiskState) {S World : Type 0}
    (service : CaseService S World) where
  scheduled-failure :
      (stored : Case × Bool) (r : Result (Task × Bool))
      → (scheduled sha256 codec service stored r).failure ≡ none
      → (t : Task) × (changed : Bool) × (r ≡ ok (t, changed))
  scheduled-failure stored (ok (t, changed)) h = (t, changed, refl)
  scheduled-failure stored (err e) h = absurd (cc h)

  scheduled-stored :
      (stored : Case × Bool) (r : Result (Task × Bool))
      → (scheduled sha256 codec service stored r).stored ≡ some stored
  scheduled-stored stored (ok _) = refl
  scheduled-stored stored (err e) = refl

  schedule-Covered :
      (ctx : Option Error) (now : Time) (a : Answers) (s : Intake S) (cases : S)
      (recorded : Result (Case × Bool)) (c : Case) (created : Bool)
      → Distinct s.outbox.tasks
      → (schedule sha256 codec service ctx now a s cases recorded).1.stored ≡ some (c, created)
      → (schedule sha256 codec service ctx now a s cases recorded).1.failure ≡ none
      → Covered sha256 (schedule sha256 codec service ctx now a s cases recorded).0.outbox.tasks c
  unfolding schedule
  schedule-Covered ctx now a s cases (err e) c created distinct h k = absurd (cc h)
  schedule-Covered ctx now a s cases (ok (stored, made)) c created distinct h k =
      let r =
        ensure_pending sha256 codec ctx stored.id stored.revision (utc now) a s.outbox
          s.directory in
      let (t, changed, done) = scheduled-failure (stored, made) r.result k in
      let e =
        ensure_pending-Ensured sha256 codec ctx stored.id stored.revision (utc now) a s.outbox
          s.directory distinct t changed done in
      let given = scheduled-stored (stored, made) r.result in
      let same : stored ≡ c = cc (given, h) in
      subst (λ x. Covered sha256 r.outbox.tasks x) same
        (Ensured-Covered sha256 stored s.outbox.tasks r.outbox.tasks t e)

  -- If RecordEvent of the intake, over an Outbox without repeated keys, returns a Case without an
  -- error, the Outbox has a task for that Case which covers the Case's revision.
  pub record_and_schedule-Covered :
      (ctx : Option Error) (event : Event) (world : World) (now : Time) (a : Answers) (s : Intake S)
      (c : Case) (created : Bool)
      → Distinct s.outbox.tasks
      → (record_and_schedule sha256 codec service ctx event world now a s).1.stored
        ≡ some (c, created)
      → (record_and_schedule sha256 codec service ctx event world now a s).1.failure ≡ none
      → Covered sha256
          (record_and_schedule sha256 codec service ctx event world now a s).0.outbox.tasks
          c
  unfolding record_and_schedule
  record_and_schedule-Covered ctx event world now a s c created distinct h k =
      let (cases, recorded) = service.record_event ctx event world s.cases in
      schedule-Covered ctx now a s cases recorded c created distinct h k

  abbrev KeepsCovered : List Case → List Case → Reconciled sha256 codec service → Type 0
  KeepsCovered done cs out =
      out.failure ≡ none
      → All (Covered sha256 out.outbox.tasks) done × All (Covered sha256 out.outbox.tasks) cs

  All-still :
      (case_id : Text) (revision : ℕ) (before after : Dict Task) (t : Task)
      → Ensured sha256 case_id revision before after t
      → (cs : List Case) → All (Covered sha256 before) cs
      → All (Covered sha256 after) cs
  All-still case_id revision before after t e [] h = tt
  All-still case_id revision before after t e (c ∷ cs) (h, hs) = (
    still-Covered sha256 c case_id revision before after t e h,
    All-still case_id revision before after t e cs hs,
  )

  -- Reconciliation from some tasks: it keeps what is covered and covers the Cases that it visits.
  reconcile-Covered :
      (ctx : Option Error) (cs : List Case) (env : Text → Time × Answers) (o : InvestigationOutbox)
      (d : Directory) (n : ℕ) (done : List Case)
      → Distinct o.tasks
      → All (Covered sha256 o.tasks) done
      → KeepsCovered done cs (reconcile sha256 codec service ctx cs env o d n)
  unfolding reconcile
  reconcile-Covered ctx [] env o d n done distinct h = λ e. (h, tt)
  reconcile-Covered ctx (c ∷ cs) env o d n done distinct h =
      let (now, a) = env c.id in
      let r = ensure_pending sha256 codec ctx c.id c.revision (utc now) a o d in
      result_rule (KeepsCovered done (c ∷ cs)) r.result _ _ (λ e _ k. absurd (cc k))
        λ p is_ok k.
          let (t, changed) = p in
          let e =
            ensure_pending-Ensured sha256 codec ctx c.id c.revision (utc now) a o d distinct t
              changed is_ok in
          let ((head, rest), tail) =
            reconcile-Covered ctx cs env r.outbox r.directory
              (count_changed sha256 codec service changed n) (c ∷ done) e.distinct
              (
                Ensured-Covered sha256 c o.tasks r.outbox.tasks t e,
                All-still c.id c.revision o.tasks r.outbox.tasks t e done h,
              )
              k in
          (rest, (head, tail))

  -- If ReconcilePending, over an Outbox without repeated keys, reports no error, the Outbox has, for every Case that the Case service
  -- lists as pending, a task that covers the Case's revision.
  pub reconcile_pending-Covered :
      (ctx : Option Error) (env : Text → Time × Answers) (s : Intake S) (cs : List Case)
      → Distinct s.outbox.tasks
      → service.list_pending ctx s.cases ≡ ok cs
      → (reconcile_pending sha256 codec service ctx env s).failure ≡ none
      → All (Covered sha256 (reconcile_pending sha256 codec service ctx env s).outbox.tasks) cs
  unfolding reconcile_pending reconcile_listed
  reconcile_pending-Covered ctx env s cs distinct listed =
      rw listed (λ k. (reconcile-Covered ctx cs env s.outbox s.directory 0 [] distinct tt k).1)
