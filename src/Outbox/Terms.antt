-- ===== src/Outbox/Terms.antt =====
-- The words in which the properties of leases are said: when a task is due, which task comes first,
-- who holds a lease, and what a task is after it was leased or given back, field by field.
use rootforge.Prelude.{ℕ, ◌+◌, ◌%◌, ◌^◌, ◌≡◌, ◌≢◌, ◌≤◌, ◌<◌, ◌↔◌, refl, ◌⊎◌, true, some, [], arith}
use rootforge.Text.{Text, text_eq_iff, text_lt, is_empty_iff}
use rootforge.Clock.{Time, zero_instant}
use rootforge.Dict.{Dict, lookup}
use rootforge.Failure.{ok}
use rootforge.Investigation.{Task, TaskStatus, pending, leased, other_status}
use rootforge.Outbox.{
  is_leased, is_pending, eligible, task_less, give_back, clear_lease, lease_to, owned_lease,
}

-- A pending task whose time has come, or a leased one whose lease has run out.
abbrev pub IsDue : Time → Task → Type 0
IsDue now t =
    ((t.status ≡ pending) × (t.available_at.instant ≤ now.instant))
    ⊎ ((t.status ≡ leased) × (t.lease_until.instant ≤ now.instant))

-- The order in (available time, identifier).
abbrev pub ComesBefore : Task → Task → Type 0
ComesBefore u t =
    (u.available_at.instant < t.available_at.instant)
    ⊎ ((u.available_at.instant ≡ t.available_at.instant) × (text_lt u.id t.id ≡ true))

-- The task stands under this identifier, and this token holds a lease of it that has not run out.
pub record HeldLease (id token : Text) (now : Time) (tasks : Dict Task) (t : Task) : Type 0 where
  pub found : lookup id tasks ≡ some t
  pub status : t.status ≡ leased
  pub given : token ≢ []
  pub same : t.lease_token ≡ token
  pub running : now.instant < t.lease_until.instant

-- The task waits from `available` on, with this failure and no lease.
abbrev pub pending_again : Time → Text → Time → Task → Task
pending_again available failure now t = record {
  id = t.id;
  case_id = t.case_id;
  case_revision = t.case_revision;
  status = pending;
  attempts = t.attempts;
  available_at = record { instant = available.instant; zone = 0 };
  lease_owner = [];
  lease_token = [];
  lease_until = record { instant = zero_instant; zone = 0 };
  leased_revision = 0;
  last_error = failure;
  created_at = t.created_at;
  updated_at = record { instant = now.instant; zone = 0 };
}

-- The task is one more time leased, at its present revision, until `now` and the duration.
abbrev pub leased_again : Text → Text → Time → ℕ → Task → Task
leased_again owner token now duration t = record {
  id = t.id;
  case_id = t.case_id;
  case_revision = t.case_revision;
  status = leased;
  attempts = (t.attempts + 1) % 2 ^ 32;
  available_at = t.available_at;
  lease_owner = owner;
  lease_token = token;
  lease_until = record { instant = now.instant + duration; zone = 0 };
  leased_revision = t.case_revision;
  last_error = t.last_error;
  created_at = t.created_at;
  updated_at = record { instant = now.instant; zone = 0 };
}

is_leased_iff : (s : TaskStatus) → (is_leased s ≡ true) ↔ (s ≡ leased)
is_leased_iff pending = (λ h. absurd (cc h), λ h. absurd (cc h))
is_leased_iff leased = (λ h. refl, λ h. refl)
is_leased_iff (other_status s) = (λ h. absurd (cc h), λ h. absurd (cc h))

is_pending_iff : (s : TaskStatus) → (is_pending s ≡ true) ↔ (s ≡ pending)
is_pending_iff pending = (λ h. refl, λ h. refl)
is_pending_iff leased = (λ h. absurd (cc h), λ h. absurd (cc h))
is_pending_iff (other_status s) = (λ h. absurd (cc h), λ h. absurd (cc h))

pub eligible-IsDue : (now : Time) (t : Task) → (eligible now t ≡ true) ↔ IsDue now t
unfolding eligible
eligible-IsDue now t =
    let l = is_leased_iff t.status in
    let p = is_pending_iff t.status in (λ h. ground (arith, l, p), λ h. ground (arith, l, p))

pub task_less-ComesBefore : (u t : Task) → (task_less u t ≡ true) ↔ ComesBefore u t
unfolding task_less
task_less-ComesBefore u t = (λ h. ground arith, λ h. ground arith)

pub owned_lease-HeldLease :
    (id token : Text) (now : Time) (tasks : Dict Task) (t : Task)
    → owned_lease id token now tasks ≡ ok t
    → HeldLease id token now tasks t
unfolding owned_lease
owned_lease-HeldLease id token now tasks t h =
    let l = is_leased_iff t.status in
    let e = is_empty_iff token in
    let s = text_eq_iff t.lease_token token in
    record {
      found = ground arith;
      status = ground (arith, l);
      given = ground (arith, e);
      same = ground (arith, s);
      running = ground arith;
    }

pub give_back-pending_again :
    (available : Time) (failure : Text) (now : Time) (t : Task)
    → give_back available failure now t ≡ pending_again available failure now t
unfolding give_back clear_lease
give_back-pending_again available failure now t = refl

pub lease_to-leased_again :
    (owner token : Text) (now : Time) (duration : ℕ) (t : Task)
    → lease_to owner token now duration t ≡ leased_again owner token now duration t
unfolding lease_to
lease_to-leased_again owner token now duration t = refl
