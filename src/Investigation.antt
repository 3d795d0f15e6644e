-- ===== src/Investigation.antt =====
-- internal/investigation/outbox.go: the investigation task, and what an Outbox reports.
use rootforge.Prelude.{ℕ}
use rootforge.Text.{Text}
use rootforge.Clock.{Time}

-- TaskStatus is a string: a stored file may hold any other.
pub data TaskStatus : Type 0 where
  pending leased : TaskStatus
  other_status : Text → TaskStatus

pub record Task : Type 0 where
  pub id : Text
  pub case_id : Text
  pub case_revision : ℕ
  pub status : TaskStatus
  pub attempts : ℕ
  pub available_at : Time
  pub lease_owner : Text
  pub lease_token : Text
  pub lease_until : Time
  pub leased_revision : ℕ
  pub last_error : Text
  pub created_at : Time
  pub updated_at : Time
