-- ===== src/Outbox/Effects.antt =====
-- What the methods do to the tasks, and that a method that fails does nothing to them.
use rootforge.Prelude.{
  ℕ, ◌≡◌, ◌≢◌, ◌≤◌, refl, ap, ◌⊎◌, inl, inr, ◌||◌, Option, none, some, List, [], ◌∷◌, arith, ◌==◌,
  if_rule, option_rule,
}
use rootforge.Prelude.Int.{ℤ, pos, negsuc}
use rootforge.Text.{Text, is_empty, text_eq_iff, trim_space}
use rootforge.Clock.{Time}
use rootforge.Dict.{Dict, lookup, values}
use rootforge.Failure.{Error, Result, ok, err, lease_conflict}
use rootforge.Platform.{Codec}
use rootforge.JsonFile.{Directory, Answers}
use rootforge.Investigation.{Task}
use rootforge.Sort.{sort_by}
use rootforge.Outbox.{
  InvestigationOutbox, OutboxDiskState, Reply, refuse, persist, commit, lease_next, lease_first,
  complete, retry, with_lease, owned_lease, eligible_tasks, task_less, lease_to,
}

-- A failed call left the object as it was.
abbrev pub FailsClean : {R : Type 0} → InvestigationOutbox → Reply R → Type 0
FailsClean o r = (e : Error) → r.result ≡ err e → r.outbox ≡ o

abbrev Committed : {R : Type 0} → InvestigationOutbox → Dict Task → R → Reply R → Type 0
Committed o next value r =
    ((r.result ≡ ok value) × (r.outbox ≡ record o { tasks = next }))
    ⊎ ((e : Error) × (r.result ≡ err e) × (r.outbox ≡ o))

module _ (codec : Codec OutboxDiskState) where
  -- A commit returns its value with the new tasks, or an error with the old ones.
  pub commit-Committed :
      {R : Type 0} (a : Answers) (o : InvestigationOutbox) (d : Directory) (next : Dict Task)
      (value : R)
      → Committed o next value (commit codec a o d next value)
  unfolding commit
  commit-Committed a o d next value =
      option_rule (Committed o next value) (persist codec a o.path next d).outcome _ _
        (λ _. inl (refl, refl)) (λ e _. inr (e, refl, refl))

  pub commit-ok :
      {R : Type 0} (a : Answers) (o : InvestigationOutbox) (d : Directory) (next : Dict Task)
      (value v : R)
      → (commit codec a o d next value).result ≡ ok v
      → (v ≡ value) × ((commit codec a o d next value).outbox.tasks ≡ next)
  commit-ok a o d next value v h = elim (commit-Committed a o d next value) [
    | inl c ↦ (cc (c.0, h), ap (λ (p : InvestigationOutbox). p.tasks) c.1)
    | inr c ↦ absurd (cc (c.1, h))
  ]

  commit-FailsClean :
      {R : Type 0} (a : Answers) (o : InvestigationOutbox) (d : Directory) (next : Dict Task)
      (value : R)
      → FailsClean o (commit codec a o d next value)
  commit-FailsClean a o d next value e h = elim (commit-Committed a o d next value) [
    | inl c ↦ absurd (cc (c.0, h))
    | inr c ↦ c.2
  ]

  with_lease-FailsClean :
      {R : Type 0} (r : Result Task) (o : InvestigationOutbox) (d : Directory) (f : Task → Reply R)
      → ((t : Task) → FailsClean o (f t))
      → FailsClean o (with_lease r o d f)
  with_lease-FailsClean (err c) o d f k e h = refl
  with_lease-FailsClean (ok t) o d f k e h = k t e h

  pub complete-FailsClean :
      (ctx : Option Error) (id token : Text) (now : Time) (a : Answers) (o : InvestigationOutbox)
      (d : Directory)
      → FailsClean o (complete codec ctx id token now a o d)
  unfolding complete
  complete-FailsClean (some c) id token now a o d = λ e h. refl
  complete-FailsClean none id token now a o d =
      with_lease-FailsClean (owned_lease id token now o.tasks) o d _
        λ t. commit-FailsClean a o d _ tt

  pub retry-FailsClean :
      (ctx : Option Error) (id token : Text) (now available : Time) (failure : Text) (a : Answers)
      (o : InvestigationOutbox) (d : Directory)
      → FailsClean o (retry codec ctx id token now available failure a o d)
  unfolding retry
  retry-FailsClean (some c) id token now available failure a o d = λ e h. refl
  retry-FailsClean none id token now available failure a o d =
      with_lease-FailsClean (owned_lease id token now o.tasks) o d _
        λ t. commit-FailsClean a o d _ tt

  lease_first-FailsClean :
      (owner : Text) (token : Result Text) (now : Time) (duration : ℕ) (a : Answers)
      (o : InvestigationOutbox) (d : Directory) (ts : List Task)
      → FailsClean o (lease_first codec owner token now duration a o d ts)
  unfolding lease_first
  lease_first-FailsClean owner token now duration a o d [] = λ e h. refl
  lease_first-FailsClean owner (err c) now duration a o d (t ∷ ts) = λ e h. refl
  lease_first-FailsClean owner (ok token) now duration a o d (t ∷ ts) =
      commit-FailsClean a o d _ (lease_to owner token now duration t)

  pub lease_next-FailsClean :
      (ctx : Option Error) (owner : Text) (now : Time) (duration : ℤ) (token : Result Text)
      (a : Answers) (o : InvestigationOutbox) (d : Directory)
      → FailsClean o (lease_next codec ctx owner now duration token a o d)
  unfolding lease_next
  lease_next-FailsClean (some c) owner now duration token a o d = λ e h. refl
  lease_next-FailsClean none owner now (negsuc n) token a o d = λ e h. refl
  lease_next-FailsClean none owner now (pos n) token a o d =
      if_rule (FailsClean o) (is_empty (trim_space owner) || n == 0) _ _ (λ _ e h. refl)
        λ _.
          lease_first-FailsClean (trim_space owner) token now n a o d
            (sort_by task_less (eligible_tasks now (values o.tasks)))

  -- What Complete and Retry do under a lease that the caller does not hold: nothing, with the error.
  pub owned_lease-conflict :
      (id token : Text) (now : Time) (tasks : Dict Task) (t : Task)
      → lookup id tasks ≡ some t
      → (t.lease_token ≢ token) ⊎ (t.lease_until.instant ≤ now.instant)
      → owned_lease id token now tasks ≡ err lease_conflict
  unfolding owned_lease
  owned_lease-conflict id token now tasks t found stale =
      ground (arith, text_eq_iff t.lease_token token)

  -- The same of both calls, which are under no cancelled context.
  pub stale_lease :
      (id token : Text) (now available : Time) (failure : Text) (a : Answers)
      (o : InvestigationOutbox) (d : Directory) (t : Task)
      → lookup id o.tasks ≡ some t
      → (t.lease_token ≢ token) ⊎ (t.lease_until.instant ≤ now.instant)
      → (complete codec none id token now a o d ≡ refuse o d lease_conflict)
        × (retry codec none id token now available failure a o d ≡ refuse o d lease_conflict)
  unfolding complete retry
  stale_lease id token now available failure a o d t found stale =
      let conflict = owned_lease-conflict id token now o.tasks t found stale in
      (rw conflict refl, rw conflict refl)
