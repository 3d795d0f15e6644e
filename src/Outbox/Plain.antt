-- ===== src/Outbox/Plain.antt =====
-- What encoding/json gives back of a stored task as it was: strings of valid UTF-8, UTC times and a
-- known status. (Of any other string it writes U+FFFD for the bytes that are no UTF-8.)
use rootforge.Prelude.{ℕ, ◌<◌, ◌≡◌, ◌⊎◌, refl, inl, inr, true, [], ◌∷◌, All, All-append, arith}
use rootforge.Text.{Text, text}
use rootforge.Text.Utf8.{AreBytes, is_utf8, ascii-is_utf8, hex_encode-ascii, take-AreBytes}
use rootforge.Clock.{Time, utc}
use rootforge.Dict.{Dict, insert, delete, copy, values, Distinct}
use rootforge.Dict.Laws.{Entries, insert-Entries, delete-Entries}
use rootforge.Dict.Copy.{copy_lem}
use rootforge.Sort.Order.{sort_by-All}
use rootforge.Investigation.{Task, pending, leased}
use rootforge.Outbox.{
  OutboxDiskState, disk_state, task_less_by_id, task_id, new_task, give_back, clear_lease, lease_to,
}

-- A string that is written to JSON as it is.
abbrev pub IsUtf8 : Text → Type 0
IsUtf8 s = is_utf8 s ≡ true

pub record IsPlain (t : Task) : Type 0 where
  pub id : IsUtf8 t.id
  pub case_id : IsUtf8 t.case_id
  pub owner : IsUtf8 t.lease_owner
  pub token : IsUtf8 t.lease_token
  pub failure : IsUtf8 t.last_error
  pub status : (t.status ≡ pending) ⊎ (t.status ≡ leased)
  pub available : t.available_at.zone ≡ 0
  pub until : t.lease_until.zone ≡ 0
  pub created : t.created_at.zone ≡ 0
  pub updated : t.updated_at.zone ≡ 0

abbrev pub IsPlainState : OutboxDiskState → Type 0
IsPlainState s = All IsPlain s.tasks

abbrev pub PlainTasks : Dict Task → Type 0
PlainTasks tasks = Entries (λ k t. IsPlain t) tasks

pub values-IsPlain : (tasks : Dict Task) → PlainTasks tasks → All IsPlain (values tasks)
unfolding values
values-IsPlain [] h = tt
values-IsPlain ((k, t) ∷ tasks) h = (h.0, values-IsPlain tasks h.1)

pub disk_state-IsPlain : (tasks : Dict Task) → PlainTasks tasks → IsPlainState (disk_state tasks)
unfolding disk_state
disk_state-IsPlain tasks h =
    sort_by-All IsPlain task_less_by_id (values tasks) (values-IsPlain tasks h)

pub insert-copy-PlainTasks :
    (k : Text) (t : Task) (tasks : Dict Task)
    → Distinct tasks
    → IsPlain t
    → PlainTasks tasks
    → PlainTasks (insert k t (copy tasks))
insert-copy-PlainTasks k t tasks d p h =
    rw (copy_lem tasks d) (insert-Entries (λ j u. IsPlain u) k t tasks p h)

pub delete-copy-PlainTasks :
    (k : Text) (tasks : Dict Task)
    → Distinct tasks
    → PlainTasks tasks
    → PlainTasks (delete k (copy tasks))
delete-copy-PlainTasks k tasks d h =
    rw (copy_lem tasks d) (delete-Entries (λ j u. IsPlain u) k tasks h)

no_text : IsUtf8 []
no_text = ascii-is_utf8 [] tt

-- SHA-256 gives bytes, and an identifier is ASCII.
abbrev pub GivesBytes : (Text → Text) → Type 0
GivesBytes sha256 = (s : Text) → AreBytes (sha256 s)

task_id-IsUtf8 :
    (sha256 : Text → Text) (case_id : Text) → GivesBytes sha256 → IsUtf8 (task_id sha256 case_id)
unfolding task_id
task_id-IsUtf8 sha256 case_id gives = ascii-is_utf8 _ (
    All-append (λ (b : ℕ). b < 128) (text "INV-") _
      (omega arith, (omega arith, (omega arith, (omega arith, tt))))
      (hex_encode-ascii _ (take-AreBytes 16 _ (gives _))))

pub new_task-IsPlain :
    (sha256 : Text → Text) (case_id : Text) (revision : ℕ) (now : Time)
    → GivesBytes sha256
    → IsUtf8 case_id
    → IsPlain (new_task (task_id sha256 case_id) case_id revision now)
unfolding new_task
new_task-IsPlain sha256 case_id revision now gives named = record {
  id = task_id-IsUtf8 sha256 case_id gives;
  case_id = named;
  owner = no_text;
  token = no_text;
  failure = no_text;
  status = inl refl;
  available = refl;
  until = refl;
  created = refl;
  updated = refl;
}

pub revised-IsPlain :
    (t : Task) (revision : ℕ) (now : Time)
    → IsPlain t
    → IsPlain (record t { case_revision = revision; updated_at = utc now })
revised-IsPlain t revision now p = record {
  id = p.id;
  case_id = p.case_id;
  owner = p.owner;
  token = p.token;
  failure = p.failure;
  status = p.status;
  available = p.available;
  until = p.until;
  created = p.created;
  updated = refl;
}

pub give_back-IsPlain :
    (available : Time) (failure : Text) (now : Time) (t : Task)
    → IsUtf8 failure
    → IsPlain t
    → IsPlain (give_back available failure now t)
unfolding give_back clear_lease
give_back-IsPlain available failure now t f p = record {
  id = p.id;
  case_id = p.case_id;
  owner = no_text;
  token = no_text;
  failure = f;
  status = inl refl;
  available = refl;
  until = refl;
  created = p.created;
  updated = refl;
}

pub lease_to-IsPlain :
    (owner token : Text) (now : Time) (duration : ℕ) (t : Task)
    → IsUtf8 owner
    → IsUtf8 token
    → IsPlain t
    → IsPlain (lease_to owner token now duration t)
unfolding lease_to
lease_to-IsPlain owner token now duration t o k p = record {
  id = p.id;
  case_id = p.case_id;
  owner = o;
  token = k;
  failure = p.failure;
  status = inr refl;
  available = p.available;
  until = refl;
  created = p.created;
  updated = refl;
}
