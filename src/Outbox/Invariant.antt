-- ===== src/Outbox/Invariant.antt =====
-- The tasks of an Outbox stand under their identifiers, once each, and are sound; each update that
-- a method makes keeps that.
use rootforge.Prelude.{ℕ, ◌≡◌, ◌≢◌, ◌<◌, refl, inl, true, false, some, [], ◌∷◌, arith, All}
use rootforge.Text.{Text, is_empty, text_eq_iff}
use rootforge.Clock.{Time, zero_instant, utc, is_zero}
use rootforge.Dict.{Dict, lookup, insert, delete, copy, values, Distinct}
use rootforge.Dict.Laws.{
  Entries, insert-Distinct, delete-Distinct, insert-Entries, delete-Entries, lookup-Entries,
}
use rootforge.Dict.Copy.{copy_lem}
use rootforge.Dict.Keyed.{OwnKey}
use rootforge.Failure.{ok}
use rootforge.Investigation.{Task}
use rootforge.Outbox.{task_id, new_task, give_back, lease_to, owned_lease, is_leased}
use rootforge.Outbox.Check.{IsSound}

abbrev pub task_key : Task → Text
task_key t = t.id

module _ (sha256 : Text → Text) where
  abbrev pub Stored : Text → Task → Type 0
  Stored k t = (k ≡ t.id) × IsSound sha256 t

  pub record IsValid (tasks : Dict Task) : Type 0 where
    pub distinct : Distinct tasks
    pub stored : Entries Stored tasks

  pub IsValid-nil : IsValid []
  IsValid-nil = record { distinct = tt; stored = tt }

  pub IsValid-insert-copy :
      (k : Text) (t : Task) (tasks : Dict Task)
      → Stored k t
      → IsValid tasks
      → IsValid (insert k t (copy tasks))
  IsValid-insert-copy k t tasks s v = rw (copy_lem tasks v.distinct) (record {
    distinct = insert-Distinct k t tasks v.distinct;
    stored = insert-Entries Stored k t tasks s v.stored;
  })

  pub IsValid-delete-copy :
      (k : Text) (tasks : Dict Task) → IsValid tasks → IsValid (delete k (copy tasks))
  IsValid-delete-copy k tasks v = rw (copy_lem tasks v.distinct) (record {
    distinct = delete-Distinct k tasks v.distinct;
    stored = delete-Entries Stored k tasks v.stored;
  })

  task_id_given : (case_id : Text) → is_empty (task_id sha256 case_id) ≡ false
  unfolding task_id is_empty
  task_id_given case_id = refl

  -- The task that EnsurePending creates.
  pub new_task-Stored :
      (case_id : Text) (revision : ℕ) (now : Time)
      → is_empty case_id ≡ false
      → revision ≢ 0
      → is_zero now ≡ false
      → Stored (task_id sha256 case_id) (new_task (task_id sha256 case_id) case_id revision now)
  unfolding is_empty new_task
  new_task-Stored case_id revision now c r n = (
    refl,
    record {
      named = task_id_given case_id;
      for_case = c;
      revision = r;
      created = n;
      updated = n;
      available = n;
      own_id = refl;
      delivery = inl (record {
        status = refl;
        no_token = refl;
        no_owner = refl;
        no_end = refl;
        no_revision = refl;
      });
    },
  )

  -- A later revision of the Case, whoever holds the task.
  pub revised-Stored :
      (k : Text) (t : Task) (revision : ℕ) (now : Time)
      → t.case_revision < revision
      → is_zero now ≡ false
      → Stored k t
      → Stored k (record t { case_revision = revision; updated_at = utc now })
  revised-Stored k t revision now r n s = ground arith

  -- A task that goes back to the queue.
  pub give_back-Stored :
      (k : Text) (t : Task) (available now : Time) (failure : Text)
      → is_zero available ≡ false
      → is_zero now ≡ false
      → Stored k t
      → Stored k (give_back available failure now t)
  unfolding give_back is_empty
  give_back-Stored k t available now failure a n s = ground arith

  pub leased-Stored :
      (k owner token : Text) (now : Time) (duration : ℕ) (t : Task)
      → is_empty owner ≡ false
      → is_empty token ≡ false
      → zero_instant < now.instant
      → Stored k t
      → Stored k (lease_to owner token now duration t)
  unfolding lease_to
  leased-Stored k owner token now duration t o e n s = ground arith

  pub owned_lease-lookup :
      (id token : Text) (now : Time) (tasks : Dict Task) (t : Task)
      → owned_lease id token now tasks ≡ ok t
      → (lookup id tasks ≡ some t)
        × (is_leased t.status ≡ true)
        × (t.lease_token ≡ token)
        × (now.instant < t.lease_until.instant)
  unfolding owned_lease
  owned_lease-lookup id token now tasks t h = ground (arith, text_eq_iff t.lease_token token)

  pub lookup-Stored :
      (k : Text) (tasks : Dict Task) (t : Task)
      → IsValid tasks
      → lookup k tasks ≡ some t
      → Stored k t
  lookup-Stored k tasks t v e = lookup-Entries Stored k tasks t v.stored e

  pub values-Stored :
      (tasks : Dict Task) → Entries Stored tasks → All (λ t. Stored t.id t) (values tasks)
  unfolding values
  values-Stored [] h = tt
  values-Stored ((k, t) ∷ m) h = ((refl, h.0.1), values-Stored m h.1)

  pub Entries-OwnKey : (tasks : Dict Task) → Entries Stored tasks → Entries (OwnKey task_key) tasks
  Entries-OwnKey [] h = tt
  Entries-OwnKey ((k, t) ∷ m) h = (h.0.0, Entries-OwnKey m h.1)
