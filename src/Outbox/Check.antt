-- ===== src/Outbox/Check.antt =====
-- validateTask accepts exactly the tasks described here.
use rootforge.Prelude.{◌≡◌, ◌≢◌, ◌≤◌, ◌⊎◌, true, false, none, arith}
use rootforge.Text.{Text, is_empty, text_eq_iff}
use rootforge.Clock.{is_zero}
use rootforge.Investigation.{Task, pending, leased}
use rootforge.Outbox.{validate_task, task_id}

-- A task that nobody holds has no lease state.
pub record IsFree (t : Task) : Type 0 where
  pub status : t.status ≡ pending
  pub no_token : is_empty t.lease_token ≡ true
  pub no_owner : is_empty t.lease_owner ≡ true
  pub no_end : is_zero t.lease_until ≡ true
  pub no_revision : t.leased_revision ≡ 0

-- A leased task names its holder, and was leased at a revision that it has reached.
pub record IsHeld (t : Task) : Type 0 where
  pub status : t.status ≡ leased
  pub token : is_empty t.lease_token ≡ false
  pub owner : is_empty t.lease_owner ≡ false
  pub end : is_zero t.lease_until ≡ false
  pub revision : t.leased_revision ≢ 0
  pub reached : t.leased_revision ≤ t.case_revision

pub record IsSound (sha256 : Text → Text) (t : Task) : Type 0 where
  pub named : is_empty t.id ≡ false
  pub for_case : is_empty t.case_id ≡ false
  pub revision : t.case_revision ≢ 0
  pub created : is_zero t.created_at ≡ false
  pub updated : is_zero t.updated_at ≡ false
  pub available : is_zero t.available_at ≡ false
  pub own_id : t.id ≡ task_id sha256 t.case_id
  pub delivery : IsFree t ⊎ IsHeld t

module _ (sha256 : Text → Text) where
  pub IsSound-validate_task : (t : Task) → IsSound sha256 t → validate_task sha256 t ≡ none
  unfolding validate_task
  IsSound-validate_task t h = ground (arith, text_eq_iff t.id (task_id sha256 t.case_id))

  pub validate_task-IsSound : (t : Task) → validate_task sha256 t ≡ none → IsSound sha256 t
  unfolding validate_task
  validate_task-IsSound t h = ground (arith, text_eq_iff t.id (task_id sha256 t.case_id))
