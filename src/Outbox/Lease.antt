-- ===== src/Outbox/Lease.antt =====
-- Which task LeaseNext takes.
use rootforge.Prelude.{◌≡◌, true, List, [], ◌∷◌, arith, All, inl, inr, Bool-cases}
use rootforge.Clock.{Time}
use rootforge.Sort.Order.{StrictWeak, text_lt_asymmetric, text_lt_not_trans}
use rootforge.Investigation.{Task}
use rootforge.Outbox.{eligible, eligible_tasks, task_less}

module _ {κ} (P : Task → Type κ) (now : Time) where
  pub eligible_tasks-All :
      (ts : List Task) → All P ts → All (λ t. (eligible now t ≡ true) × P t) (eligible_tasks now ts)
  unfolding eligible_tasks
  eligible_tasks-All [] h = tt
  eligible_tasks-All (t ∷ ts) h = elim (Bool-cases (eligible now t)) [
    | inl e ↦ rw (e, eligible_tasks) ((e, h.0), eligible_tasks-All ts h.1)
    | inr e ↦ rw (e, eligible_tasks) (eligible_tasks-All ts h.1)
  ]

pub task_less-StrictWeak : StrictWeak task_less
unfolding task_less
task_less-StrictWeak = record {
  asymmetric = λ x y h. ground (arith, text_lt_asymmetric x.id y.id);
  not_less_trans = λ x y z h k. ground (arith, text_lt_not_trans x.id y.id z.id);
}
