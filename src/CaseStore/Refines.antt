-- ===== src/CaseStore/Refines.antt =====
-- The durable store does what the process-local store does, or nothing.
use rootforge.Prelude.{
  ◌≡◌, refl, Bool, true, false, inl, inr, Option, none, some, Bool-cases, Option-cases, option_rule,
}
use rootforge.Text.{Text}
use rootforge.Clock.{Time}
use rootforge.Dict.{lookup, delete}
use rootforge.Failure.{Error, Result, ok, err, Result-cases}
use rootforge.Platform.{Platform, Codec}
use rootforge.JsonFile.{Answers}
use rootforge.Trigger.{Event, fingerprint}
use rootforge.Incident.{new_incident, apply, is_open}
use rootforge.Casefile.{
  Case, Cases, IdGenerator, case_at, fresh_id, create_case, extend_case, apply_event,
}
use rootforge.CaseStore.{
  CaseDiskState, Durable, commit_cases, create_durable, extend_durable, apply_durable,
  apply_to_copy, persist,
}
use rootforge.CaseStore.Plain.{IsCloned, copied_lem}

-- A call of the durable store beside the same call of the process-local store: if it succeeds, the
-- results and the maps are the same; if it fails, it left the maps as they were.
abbrev pub Refines :
    Durable → Durable × Result (Case × Bool) → Cases × Result (Case × Bool) → Type 0
Refines s r memory =
    ((c : Case) (created : Bool)
      → r.1 ≡ ok (c, created)
      → (memory.1 ≡ ok (c, created)) × (r.0.store.cases ≡ memory.0))
    × ((e : Error) → r.1 ≡ err e → r.0.store.cases ≡ s.store.cases)

module _ (p : Platform) (codec : Codec CaseDiskState) (a : Answers) (s : Durable) where
  refused-Refines : (e : Error) (memory : Cases) → Refines s (s, err e) (memory, err e)
  refused-Refines e memory = (λ c created h. absurd (cc h), λ e h. refl)

  commit_cases-Refines :
      (next : Cases) (c : Case) (created : Bool)
      → Refines s (commit_cases codec a s next c created) (next, ok (c, created))
  unfolding commit_cases
  commit_cases-Refines next c created =
      let w = persist codec a s.store.path next.by_id s.directory in
      option_rule (λ r. Refines s r (next, ok (c, created))) w.outcome _ _
        (λ written. ((λ c' created' h. (h, refl)), λ e h. absurd (cc h)))
        λ e failed. ((λ c' created' h. absurd (cc h)), λ e' h. refl)

  create_durable-Refines :
      (event : Event) (now : Time) (generate : IdGenerator) (next : Cases)
      → Refines s
          (create_durable p codec event now generate a next s)
          (create_case p event now generate next)
  unfolding create_durable create_case
  create_durable-Refines event now generate next = elim (Result-cases (new_incident p event)) [
    | inl (e, q) ↦ rw (q, create_durable, create_case) (refused-Refines e next)
    | inr (i, q) ↦
        rw (q, create_durable, create_case)
          (elim (Result-cases (fresh_id generate now next.by_id)) [
            | inl (e, r) ↦ rw r (refused-Refines e next)
            | inr (id, r) ↦ rw r (commit_cases-Refines _ _ true)
          ])
  ]

  extend_durable-Refines :
      (event : Event) (now : Time) (id : Text) (current : Case)
      → Refines s
          (extend_durable p codec event now a id current s.store.cases s)
          (extend_case p event now id current s.store.cases)
  unfolding extend_durable extend_case
  extend_durable-Refines event now id current =
      elim (Result-cases (apply p (some current.incident) event)) [
        | inl (e, q) ↦ rw (q, extend_durable, extend_case) (refused-Refines e s.store.cases)
        | inr ((i, true), q) ↦ rw (q, extend_durable, extend_case) (commit_cases-Refines _ _ false)
        | inr ((i, false), q) ↦
            rw (q, extend_durable, extend_case) ((λ c created h. (h, refl)), λ e h. refl)
      ]

  apply_to_copy-Refines :
      (event : Event) (now : Time) (generate : IdGenerator)
      → Refines s
          (apply_to_copy p codec event now generate a s.store.cases s)
          (apply_event p none event now generate s.store.cases)
  unfolding apply_event apply_to_copy
  apply_to_copy-Refines event now generate =
      let next = s.store.cases in
      let print = fingerprint p event in
      let closed = record next { open_by_print = delete print next.open_by_print } in
      elim (Option-cases (lookup print next.open_by_print)) [
        | inl q ↦
            rw (q, apply_event, apply_to_copy) (create_durable-Refines event now generate next)
        | inr (id, q) ↦
            let current = case_at id next.by_id in
            rw (q, apply_event, apply_to_copy)
              (elim (Bool-cases (is_open current.incident)) [
                | inl y ↦ rw y (extend_durable-Refines event now id current)
                | inr n ↦ rw n (create_durable-Refines event now generate closed)
              ])
      ]

  -- ApplyEvent of the durable store, over maps that hold cloned Cases: a call that succeeds returns
  -- the Case and the flag that the process-local store returns, and leaves the same maps; a call
  -- that fails, on the Event or on the file, leaves its maps as they were.
  pub apply_durable-Refines :
      (ctx : Option Error) (event : Event) (now : Time) (generate : IdGenerator)
      → IsCloned s.store.cases
      → Refines s
          (apply_durable p codec ctx event now generate a s)
          (apply_event p ctx event now generate s.store.cases)
  unfolding apply_durable apply_event
  apply_durable-Refines (some e) event now generate cloned = refused-Refines e s.store.cases
  apply_durable-Refines none event now generate cloned =
      rw (copied_lem s.store.cases cloned) (apply_to_copy-Refines event now generate)
