-- ===== src/Outbox/Ensure.antt =====
-- EnsurePending and Complete: work for the latest revision of a Case is never lost.
use rootforge.Prelude.{
  ℕ, ◌≡◌, ◌≤◌, refl, sym, ap, ◌∙◌, Bool, true, false, not, ◌||◌, Option, none, some, arith, leb,
  ◌==◌, if_rule, option_rule,
}
use rootforge.Text.{Text, is_empty, text_eq, text_eq_iff}
use rootforge.Clock.{Time, utc}
use rootforge.Dict.{Dict, lookup, insert, copy, Distinct}
use rootforge.Dict.Laws.{lookup-insert_self, lookup-insert_ne, insert-Distinct}
use rootforge.Dict.Copy.{copy_lem, copy-Distinct}
use rootforge.Failure.{Error, ok}
use rootforge.Platform.{Codec}
use rootforge.JsonFile.{Directory, Answers}
use rootforge.Investigation.{Task}
use rootforge.Outbox.{
  InvestigationOutbox, OutboxDiskState, Reply, commit, ensure_pending, task_id, new_task,
}
use rootforge.Outbox.Effects.{commit-ok}

-- What EnsurePending promises when it returns a task.
pub record Ensured (sha256 : Text → Text) (case_id : Text) (revision : ℕ) (before after : Dict Task)
    (t : Task) : Type 0 where
  pub scheduled : lookup (task_id sha256 case_id) after ≡ some t
  pub for_case : t.case_id ≡ case_id
  pub covers : revision ≤ t.case_revision
  pub grows :
      (u : Task)
      → lookup (task_id sha256 case_id) before ≡ some u
      → (u.case_id ≡ case_id) × (u.case_revision ≤ t.case_revision)
  pub distinct : Distinct after
  pub others :
      (k : Text) → text_eq (task_id sha256 case_id) k ≡ false → lookup k after ≡ lookup k before

module _ (sha256 : Text → Text) (codec : Codec OutboxDiskState) where
  abbrev Returns : Text → ℕ → InvestigationOutbox → Reply (Task × Bool) → Type 0
  Returns case_id revision o r =
      (t : Task) (changed : Bool)
      → r.result ≡ ok (t, changed)
      → Ensured sha256 case_id revision o.tasks r.outbox.tasks t

  commit-Returns :
      (case_id : Text) (revision : ℕ) (a : Answers) (o : InvestigationOutbox) (d : Directory)
      (task : Task)
      → Distinct o.tasks
      → task.case_id ≡ case_id
      → revision ≤ task.case_revision
      → ((u : Task)
          → lookup (task_id sha256 case_id) o.tasks ≡ some u
          → (u.case_id ≡ case_id) × (u.case_revision ≤ task.case_revision))
      → Returns case_id revision o
          (commit codec a o d (insert (task_id sha256 case_id) task (copy o.tasks)) (task, true))
  commit-Returns case_id revision a o d task distinct same covers grows t changed h =
      let id = task_id sha256 case_id in
      let next = insert id task (copy o.tasks) in
      let (value, tasks) = commit-ok codec a o d next (task, true) (t, changed) h in
      let is_task : t ≡ task = ap (λ (p : Task × Bool). p.0) value in
      record {
        scheduled = rw tasks (rw is_task (lookup-insert_self id task (copy o.tasks)));
        for_case = rw is_task same;
        covers = rw is_task covers;
        grows = λ u known. rw is_task (grows u known);
        distinct = rw tasks (insert-Distinct id task (copy o.tasks) (copy-Distinct o.tasks));
        others = λ k apart. rw tasks (
            lookup-insert_ne id k task (copy o.tasks) apart
            ∙ ap (lookup k) (copy_lem o.tasks distinct));
      }

  -- If EnsurePending, over a map of tasks without repeated keys, returns a task, the Outbox holds it under the Case's task identifier, it is
  -- for that Case and covers the revision that was asked for and any that the old task covered,
  -- and no other task has changed.
  pub ensure_pending-Ensured :
      (ctx : Option Error) (case_id : Text) (revision : ℕ) (now : Time) (a : Answers)
      (o : InvestigationOutbox) (d : Directory)
      → Distinct o.tasks
      → Returns case_id revision o (ensure_pending sha256 codec ctx case_id revision now a o d)
  unfolding ensure_pending
  ensure_pending-Ensured (some c) case_id revision now a o d distinct = λ t changed h. absurd (cc h)
  ensure_pending-Ensured none case_id revision now a o d distinct =
      let id = task_id sha256 case_id in
      let good = Returns case_id revision o in
      if_rule good (is_empty case_id || revision == 0) _ _ (λ _ t changed h. absurd (cc h))
        λ _.
          option_rule good (lookup id o.tasks) _ _
            (λ missing.
              commit-Returns case_id revision a o d (new_task id case_id revision now) distinct
                (unfold new_task in refl) (unfold new_task in omega arith)
                (λ u known. absurd (cc (missing, known))))
            λ current found.
              if_rule good (not (text_eq current.case_id case_id)) _ _
                (λ _ t changed h. absurd (cc h))
                λ same.
                  if_rule good (leb revision current.case_revision) _ _
                    (λ covers t changed h.
                      let is_current : t ≡ current = ground arith in
                      record {
                        scheduled = found ∙ ap some (sym is_current);
                        for_case =
                            rw is_current (ground (arith, text_eq_iff current.case_id case_id));
                        covers = rw is_current (ground arith);
                        grows = λ u known.
                            rw is_current
                              (ground (arith, text_eq_iff current.case_id case_id, known, found));
                        distinct = distinct;
                        others = λ k apart. refl;
                      })
                    λ newer.
                      commit-Returns case_id revision a o d
                        (record current { case_revision = revision; updated_at = utc now }) distinct
                        (ground (arith, text_eq_iff current.case_id case_id)) (omega arith)
                        (λ u known.
                          ground (arith, text_eq_iff current.case_id case_id, found, newer))
