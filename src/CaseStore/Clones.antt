-- ===== src/CaseStore/Clones.antt =====
-- ApplyEvent of the process-local store stores clones only.
use rootforge.Prelude.{true, false, inl, inr, Option, none, some, Bool-cases, Option-cases}
use rootforge.Text.{Text}
use rootforge.Clock.{Time}
use rootforge.Dict.{lookup, insert, delete}
use rootforge.Dict.Laws.{insert-Distinct, delete-Distinct, insert-Entries}
use rootforge.Failure.{Error, Result-cases}
use rootforge.Platform.{Platform}
use rootforge.Trigger.{Event, fingerprint}
use rootforge.Incident.{new_incident, apply, is_open}
use rootforge.Casefile.{
  Case, Cases, IdGenerator, clone_case, new_case, revise, case_at, fresh_id, create_case,
  extend_case, apply_event,
}
use rootforge.CaseStore.Plain.{IsPlain, IsCloned, clone_case-clone_case}

insert-IsCloned :
    (s : Cases) (id : Text) (c : Case)
    → IsCloned s
    → IsCloned (record s { by_id = insert id (clone_case c) s.by_id })
insert-IsCloned s id c x = record {
  distinct = insert-Distinct id (clone_case c) s.by_id x.distinct;
  distinct_prints = x.distinct_prints;
  plain = insert-Entries IsPlain id (clone_case c) s.by_id (clone_case-clone_case c) x.plain;
}

name-IsCloned :
    (s : Cases) (print id : Text)
    → IsCloned s
    → IsCloned (record s { open_by_print = insert print id s.open_by_print })
name-IsCloned s print id x = record {
  distinct = x.distinct;
  distinct_prints = insert-Distinct print id s.open_by_print x.distinct_prints;
  plain = x.plain;
}

delete-IsCloned :
    (s : Cases) (print : Text)
    → IsCloned s
    → IsCloned (record s { open_by_print = delete print s.open_by_print })
delete-IsCloned s print x = record {
  distinct = x.distinct;
  distinct_prints = delete-Distinct print s.open_by_print x.distinct_prints;
  plain = x.plain;
}

module _ (p : Platform) where
  create_case-IsCloned :
      (event : Event) (now : Time) (generate : IdGenerator) (s : Cases)
      → IsCloned s
      → IsCloned (create_case p event now generate s).0
  unfolding create_case
  create_case-IsCloned event now generate s x = elim (Result-cases (new_incident p event)) [
    | inl (e, q) ↦ rw (q, create_case) x
    | inr (i, q) ↦
        rw (q, create_case)
          (elim (Result-cases (fresh_id generate now s.by_id)) [
            | inl (e, r) ↦ rw r x
            | inr (id, r) ↦ rw r (
                name-IsCloned
                  (record s { by_id = insert id (clone_case (new_case id now i)) s.by_id })
                  (fingerprint p event) id (insert-IsCloned s id (new_case id now i) x))
          ])
  ]

  extend_case-IsCloned :
      (event : Event) (now : Time) (id : Text) (current : Case) (s : Cases)
      → IsCloned s
      → IsCloned (extend_case p event now id current s).0
  unfolding extend_case
  extend_case-IsCloned event now id current s x =
      elim (Result-cases (apply p (some current.incident) event)) [
        | inl (e, q) ↦ rw (q, extend_case) x
        | inr ((i, false), q) ↦ rw (q, extend_case) x
        | inr ((i, true), q) ↦ rw (q, extend_case) (insert-IsCloned s id (revise now i current) x)
      ]

  pub apply_event-IsCloned :
      (ctx : Option Error) (event : Event) (now : Time) (generate : IdGenerator) (s : Cases)
      → IsCloned s
      → IsCloned (apply_event p ctx event now generate s).0
  unfolding apply_event
  apply_event-IsCloned (some e) event now generate s x = x
  apply_event-IsCloned none event now generate s x =
      let print = fingerprint p event in
      elim (Option-cases (lookup print s.open_by_print)) [
        | inl q ↦ rw (q, apply_event) (create_case-IsCloned event now generate s x)
        | inr (id, q) ↦
            let c = case_at id s.by_id in
            rw (q, apply_event)
              (elim (Bool-cases (is_open c.incident)) [
                | inl y ↦ rw y (extend_case-IsCloned event now id c s x)
                | inr n ↦ rw n (
                    create_case-IsCloned event now generate
                      (record s { open_by_print = delete print s.open_by_print })
                      (delete-IsCloned s print x))
              ])
      ]
