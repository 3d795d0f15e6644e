-- ===== src/Outbox/Durable.antt =====
-- What the Outbox holds in memory is what its file holds, whatever fails, and reopening finds it.
use rootforge.Prelude.{
  ℕ, ◌≡◌, ◌<◌, refl, ◌∙◌, ◌⊎◌, inl, inr, true, false, not, ◌||◌, Option, none, some, List, [], ◌∷◌,
  arith, leb, ltb, ◌==◌, if_rule, option_rule, All,
}
use rootforge.Prelude.Int.{ℤ, pos, negsuc}
use rootforge.Text.{Text, is_empty, text_eq, text_eq_refl, trim_space}
use rootforge.Clock.{Time, zero_instant, is_zero, utc}
use rootforge.Dict.{Dict, lookup, values}
use rootforge.Failure.{Error, Result, ok, err}
use rootforge.Platform.{Codec, IsFaithful}
use rootforge.JsonFile.{Directory, Answers, Attempt}
use rootforge.JsonFile.Atomic.{Settled, write_json_atomic-Settled}
use rootforge.Investigation.{Task}
use rootforge.Sort.Order.{sort_by-All}
use rootforge.Outbox.{
  InvestigationOutbox, OutboxDiskState, Reply, disk_state, persist, commit, ensure_pending,
  lease_next, lease_first, complete, retry, with_lease, task_id, new_task, give_back, lease_to,
  owned_lease, truncate, eligible, task_less,
}
use rootforge.Outbox.Plain.{
  IsUtf8, IsPlain, IsPlainState, PlainTasks, GivesBytes, values-IsPlain, disk_state-IsPlain,
  insert-copy-PlainTasks, delete-copy-PlainTasks, new_task-IsPlain, revised-IsPlain,
  give_back-IsPlain, lease_to-IsPlain,
}
use rootforge.Dict.Laws.{lookup-Entries}
use rootforge.Outbox.Lease.{eligible_tasks-All}
use rootforge.Outbox.Invariant.{
  IsValid, Stored, IsValid-insert-copy, IsValid-delete-copy, new_task-Stored, revised-Stored,
  give_back-Stored, leased-Stored, owned_lease-lookup, lookup-Stored, values-Stored,
}

-- The random token, if one was drawn, is not empty.
abbrev pub TokenGiven : Result Text → Type 0
TokenGiven (ok token) = is_empty token ≡ false
TokenGiven (err e) = Unit

abbrev pub TokenIsUtf8 : Result Text → Type 0
TokenIsUtf8 (ok token) = IsUtf8 token
TokenIsUtf8 (err e) = Unit

lookup-IsPlain :
    (k : Text) (tasks : Dict Task) (t : Task)
    → PlainTasks tasks
    → lookup k tasks ≡ some t
    → IsPlain t
lookup-IsPlain k tasks t h e = lookup-Entries (λ j u. IsPlain u) k tasks t h e

module _ (sha256 : Text → Text) (codec : Codec OutboxDiskState)
    (faithful : IsFaithful codec IsPlainState) where
  -- The state file holds these tasks, or there is no file yet and there are no tasks.
  abbrev pub OnDisk : Text → Dict Task → Directory → Type 0
  OnDisk path tasks d =
      ((lookup path d ≡ none) × (tasks ≡ []))
      ⊎ ((bytes : Text) × (lookup path d ≡ some bytes)
          × (codec.decode bytes ≡ ok (disk_state tasks)))

  pub record IsGood (path : Text) (o : InvestigationOutbox) (d : Directory) : Type 0 where
    pub at_path : o.path ≡ path
    pub valid : IsValid sha256 o.tasks
    pub plain : PlainTasks o.tasks
    pub on_disk : OnDisk path o.tasks d

  abbrev GoodReply : {R : Type 0} → Text → Reply R → Type 0
  GoodReply path r = IsGood path r.outbox r.directory

  commit-IsGood :
      {R : Type 0} (path : Text) (a : Answers) (o : InvestigationOutbox) (d : Directory)
      (next : Dict Task) (value : R)
      → text_eq a.temporary_name path ≡ false
      → IsGood path o d
      → IsValid sha256 next
      → PlainTasks next
      → GoodReply path (commit codec a o d next value)
  unfolding commit persist
  commit-IsGood path a o d next value t g v p =
      go (persist codec a o.path next d)
        (rw g.at_path (write_json_atomic-Settled a path d path t (codec.encode (disk_state next))))
    where
      go :
          (w : Attempt)
          → Settled d path (codec.encode (disk_state next)) path w
          → GoodReply path (elim w.outcome [
            | some e ↦ record { outbox = o; directory = w.now; result = err e }
            | none ↦ record {
              outbox = record o { tasks = next };
              directory = w.now;
              result = ok value;
            }
          ])
      go w (inl (bytes, e, n, l)) = rw n (record {
        at_path = g.at_path;
        valid = v;
        plain = p;
        on_disk = inr (
          bytes,
          l ∙ rw (text_eq_refl path),
          faithful.round_trip _ bytes (disk_state-IsPlain next p) e,
        );
      })
      go w (inr (e, n, l)) = rw n (record {
        at_path = g.at_path;
        valid = g.valid;
        plain = g.plain;
        on_disk = rw l (g.on_disk);
      })

  pub ensure_pending-IsGood :
      (path : Text) (ctx : Option Error) (case_id : Text) (revision : ℕ) (now : Time) (a : Answers)
      (o : InvestigationOutbox) (d : Directory)
      → text_eq a.temporary_name path ≡ false
      → is_zero now ≡ false
      → GivesBytes sha256
      → IsUtf8 case_id
      → IsGood path o d
      → GoodReply path (ensure_pending sha256 codec ctx case_id revision now a o d)
  unfolding ensure_pending
  ensure_pending-IsGood path (some e) case_id revision now a o d t n b u g = g
  ensure_pending-IsGood path none case_id revision now a o d t n b u g =
      let id = task_id sha256 case_id in
      if_rule (GoodReply path) (is_empty case_id || revision == 0) _ _ (λ _. g)
        λ given.
          option_rule (GoodReply path) (lookup id o.tasks) _ _
            (λ _.
              commit-IsGood path a o d _ _ t g
                (IsValid-insert-copy sha256 id (new_task id case_id revision now) o.tasks
                  (new_task-Stored sha256 case_id revision now (ground arith) (ground arith) n)
                  g.valid)
                (insert-copy-PlainTasks id (new_task id case_id revision now) o.tasks
                  g.valid.distinct (new_task-IsPlain sha256 case_id revision now b u) g.plain))
            λ current found.
              if_rule (GoodReply path) (not (text_eq current.case_id case_id)) _ _ (λ _. g)
                λ same.
                  if_rule (GoodReply path) (leb revision current.case_revision) _ _ (λ _. g)
                    λ newer.
                      let later = record current {
                        case_revision = revision;
                        updated_at = utc now;
                      } in
                      commit-IsGood path a o d _ _ t g
                        (IsValid-insert-copy sha256 id later o.tasks
                          (revised-Stored sha256 id current revision now (ground arith) n
                            (lookup-Stored sha256 id o.tasks current g.valid found))
                          g.valid)
                        (insert-copy-PlainTasks id later o.tasks g.valid.distinct
                          (revised-IsPlain current revision now
                            (lookup-IsPlain id o.tasks current g.plain found))
                          g.plain)

  with_lease_rule :
      {R : Type 0} (path : Text) (r : Result Task) (o : InvestigationOutbox) (d : Directory)
      (f : Task → Reply R)
      → IsGood path o d
      → ((t : Task) → r ≡ ok t → GoodReply path (f t))
      → GoodReply path (with_lease r o d f)
  with_lease_rule path (err e) o d f g k = g
  with_lease_rule path (ok t) o d f g k = k t refl

  pub complete-IsGood :
      (path : Text) (ctx : Option Error) (id token : Text) (now : Time) (a : Answers)
      (o : InvestigationOutbox) (d : Directory)
      → text_eq a.temporary_name path ≡ false
      → is_zero now ≡ false
      → IsGood path o d
      → GoodReply path (complete codec ctx id token now a o d)
  unfolding complete
  complete-IsGood path (some e) id token now a o d t n g = g
  complete-IsGood path none id token now a o d t n g =
      with_lease_rule path (owned_lease id token now o.tasks) o d _ g λ current owned.
        let found = (owned_lease-lookup sha256 id token now o.tasks current owned).0 in
        let again = give_back now current.last_error now current in
        let plain = lookup-IsPlain id o.tasks current g.plain found in
        let newer = ltb current.leased_revision current.case_revision in
        commit-IsGood path a o d _ _ t g
          (if_rule (IsValid sha256) newer _ _
            (λ _.
              IsValid-insert-copy sha256 id again o.tasks
                (give_back-Stored sha256 id current now now current.last_error n n
                  (lookup-Stored sha256 id o.tasks current g.valid found))
                g.valid)
            (λ _. IsValid-delete-copy sha256 id o.tasks g.valid))
          (if_rule PlainTasks newer _ _
            (λ _.
              insert-copy-PlainTasks id again o.tasks g.valid.distinct
                (give_back-IsPlain now current.last_error now current plain.failure plain) g.plain)
            (λ _. delete-copy-PlainTasks id o.tasks g.valid.distinct g.plain))

  pub retry-IsGood :
      (path : Text) (ctx : Option Error) (id token : Text) (now available : Time) (failure : Text)
      (a : Answers) (o : InvestigationOutbox) (d : Directory)
      → text_eq a.temporary_name path ≡ false
      → is_zero now ≡ false
      → is_zero available ≡ false
      → IsUtf8 (truncate (trim_space failure) 2048)
      → IsGood path o d
      → GoodReply path (retry codec ctx id token now available failure a o d)
  unfolding retry
  retry-IsGood path (some e) id token now available failure a o d t n m u g = g
  retry-IsGood path none id token now available failure a o d t n m u g =
      with_lease_rule path (owned_lease id token now o.tasks) o d _ g λ current owned.
        let found = (owned_lease-lookup sha256 id token now o.tasks current owned).0 in
        let text = truncate (trim_space failure) 2048 in
        commit-IsGood path a o d _ _ t g
          (IsValid-insert-copy sha256 id (give_back available text now current) o.tasks
            (give_back-Stored sha256 id current available now text m n
              (lookup-Stored sha256 id o.tasks current g.valid found))
            g.valid)
          (insert-copy-PlainTasks id (give_back available text now current) o.tasks g.valid.distinct
            (give_back-IsPlain available text now current u
              (lookup-IsPlain id o.tasks current g.plain found))
            g.plain)

  record Ready (t : Task) : Type 0 where
    stored : Stored sha256 t.id t
    plain : IsPlain t

  values-Ready :
      (ts : List Task) → All (λ t. Stored sha256 t.id t) ts → All IsPlain ts → All Ready ts
  values-Ready [] h k = tt
  values-Ready (t ∷ ts) h k = (record { stored = h.0; plain = k.0 }, values-Ready ts h.1 k.1)

  lease_first-IsGood :
      (path owner : Text) (token : Result Text) (now : Time) (duration : ℕ) (a : Answers)
      (o : InvestigationOutbox) (d : Directory) (ts : List Task)
      → text_eq a.temporary_name path ≡ false
      → is_empty owner ≡ false
      → TokenGiven token
      → zero_instant < now.instant
      → IsUtf8 owner
      → TokenIsUtf8 token
      → All (λ t. (eligible now t ≡ true) × Ready t) ts
      → IsGood path o d
      → GoodReply path (lease_first codec owner token now duration a o d ts)
  unfolding lease_first
  lease_first-IsGood path owner token now duration a o d [] t w k n x y h g = g
  lease_first-IsGood path owner (err e) now duration a o d (first ∷ ts) t w k n x y h g = g
  lease_first-IsGood path owner (ok token) now duration a o d (first ∷ ts) t w k n x y h g =
      let taken = lease_to owner token now duration first in
      commit-IsGood path a o d _ _ t g
        (IsValid-insert-copy sha256 taken.id taken o.tasks
          (unfold lease_to in
            leased-Stored sha256 first.id owner token now duration first w k n h.0.1.stored)
          g.valid)
        (insert-copy-PlainTasks taken.id taken o.tasks g.valid.distinct
          (lease_to-IsPlain owner token now duration first x y h.0.1.plain) g.plain)

  pub lease_next-IsGood :
      (path : Text) (ctx : Option Error) (owner : Text) (now : Time) (duration : ℤ)
      (token : Result Text) (a : Answers) (o : InvestigationOutbox) (d : Directory)
      → text_eq a.temporary_name path ≡ false
      → TokenGiven token
      → zero_instant < now.instant
      → IsUtf8 (trim_space owner)
      → TokenIsUtf8 token
      → IsGood path o d
      → GoodReply path (lease_next codec ctx owner now duration token a o d)
  unfolding lease_next
  lease_next-IsGood path (some e) owner now duration token a o d t k n x y g = g
  lease_next-IsGood path none owner now (negsuc m) token a o d t k n x y g = g
  lease_next-IsGood path none owner now (pos m) token a o d t k n x y g =
      if_rule (GoodReply path) (is_empty (trim_space owner) || m == 0) _ _ (λ _. g)
        λ given.
          lease_first-IsGood path (trim_space owner) token now m a o d _ t (ground arith) k n x y
            (sort_by-All (λ t. (eligible now t ≡ true) × Ready t) task_less _
              (eligible_tasks-All Ready now (values o.tasks) (
                values-Ready (values o.tasks) (values-Stored sha256 o.tasks g.valid.stored)
                  (values-IsPlain o.tasks g.plain))))
            g
