-- ===== src/Outbox/Progress.antt =====
-- LeaseNext of internal/storage/local/outbox.go returns a task whenever one is due.
use rootforge.Prelude.{
  ℕ, ◌+◌, ◌*◌, ◌<◌, ◌≤◌, All, ◌≡◌, refl, ap, inl, inr, false, true, none, some, List, [], ◌∷◌, ◌==◌,
  arith, Bool-cases, if◌then◌else◌,
}
use rootforge.Prelude.Int.{pos}
use rootforge.Text.{Text, is_empty, trim_space, text_eq}
use rootforge.Clock.{Time, zero_instant}
use rootforge.Dict.{Dict, lookup, values, insert, copy, copy_into}
use rootforge.Failure.{ok}
use rootforge.Platform.{Codec}
use rootforge.JsonFile.{Directory, Answers}
use rootforge.JsonFile.Atomic.{Succeeds, write_json_atomic_returns}
use rootforge.Sort.{insert_by, sort_by}
use rootforge.Sort.Order.{sort_by-All}
use mathlib.Core.Path.{subst}
use rootforge.Investigation.{Task}
use rootforge.Outbox.{
  InvestigationOutbox, OutboxDiskState, disk_state, persist, commit, lease_next, lease_first,
  lease_to, eligible, eligible_tasks, task_less, task_less_by_id,
}
use rootforge.Outbox.Terms.{IsDue, eligible-IsDue}

-- The first instant of the year 10000.
abbrev pub year_10000 : ℕ
year_10000 = zero_instant + 3652059 * 86400 * 1000000000

-- A UTC time of the years 1 to 9999, which is written to JSON without an error.
pub record IsDated (t : Time) : Type 0 where
  pub in_utc : t.zone ≡ 0
  pub from_year_1 : zero_instant ≤ t.instant
  pub to_year_9999 : t.instant < year_10000

pub record HasDates (t : Task) : Type 0 where
  pub available : IsDated t.available_at
  pub until : IsDated t.lease_until
  pub created : IsDated t.created_at
  pub updated : IsDated t.updated_at

-- Every state with such times is encoded.
abbrev pub Encodes : Codec OutboxDiskState → Type 0
Encodes codec =
    (s : OutboxDiskState) → All HasDates s.tasks → (bytes : Text) × (codec.encode s ≡ ok bytes)

abbrev NonEmpty : List Task → Type 0
NonEmpty ts = (t : Task) × (rest : List Task) × (ts ≡ t ∷ rest)

later :
    (now : Time) (id k : Text) (t u : Task) (tasks : Dict Task)
    → (if text_eq k id then some u else lookup id tasks) ≡ some t
    → eligible now t ≡ true
    → eligible now u ≡ false
    → lookup id tasks ≡ some t
later now id k t u tasks found due not_due = elim (Bool-cases (text_eq k id)) [
  | inl same ↦
      let here : some u ≡ some t = rw same at found in
      let task : u ≡ t = cc here in absurd (ground (arith, ap (eligible now) task, due, not_due))
  | inr other ↦ rw other at found
]

eligible_tasks-NonEmpty :
    (now : Time) (id : Text) (t : Task) (tasks : Dict Task)
    → lookup id tasks ≡ some t
    → eligible now t ≡ true
    → NonEmpty (eligible_tasks now (values tasks))
unfolding eligible_tasks values lookup
eligible_tasks-NonEmpty now id t [] found due = absurd (cc found)
eligible_tasks-NonEmpty now id t ((k, u) ∷ tasks) found due = elim (Bool-cases (eligible now u)) [
  | inl e ↦ (u, eligible_tasks now (values tasks), rw e refl)
  | inr e ↦ rw e (eligible_tasks-NonEmpty now id t tasks (later now id k t u tasks found due e) due)
]

sort_by-NonEmpty : (ts : List Task) → NonEmpty ts → NonEmpty (sort_by task_less ts)
unfolding sort_by insert_by
sort_by-NonEmpty [] (t, rest, e) = absurd (cc e)
sort_by-NonEmpty (x ∷ xs) h = go (sort_by task_less xs)
  where
    go : (ys : List Task) → NonEmpty (insert_by task_less x ys)
    go [] = (x, [], refl)
    go (y ∷ ys) = elim (Bool-cases (task_less x y)) [
      | inl e ↦ (x, y ∷ ys, rw e refl)
      | inr e ↦ (y, insert_by task_less x ys, rw e refl)
    ]

insert-HasDates :
    (k : Text) (t : Task) (tasks : Dict Task)
    → HasDates t
    → All HasDates (values tasks)
    → All HasDates (values (insert k t tasks))
unfolding values insert
insert-HasDates k t [] h hs = (h, tt)
insert-HasDates k t ((j, u) ∷ tasks) h hs = elim (Bool-cases (text_eq j k)) [
  | inl e ↦ rw e (h, hs.1)
  | inr e ↦ rw e (hs.0, insert-HasDates k t tasks h hs.1)
]

copy_into-HasDates :
    (target tasks : Dict Task)
    → All HasDates (values target)
    → All HasDates (values tasks)
    → All HasDates (values (copy_into target tasks))
unfolding copy_into values
copy_into-HasDates target [] h hs = h
copy_into-HasDates target ((k, t) ∷ tasks) h hs =
    copy_into-HasDates (insert k t target) tasks (insert-HasDates k t target hs.0 h) hs.1

pub insert-copy-HasDates :
    (k : Text) (t : Task) (tasks : Dict Task)
    → HasDates t
    → All HasDates (values tasks)
    → All HasDates (values (insert k t (copy tasks)))
unfolding copy values
insert-copy-HasDates k t tasks h hs =
    insert-HasDates k t (copy tasks) h (copy_into-HasDates [] tasks tt hs)

leased-HasDates :
    (owner token : Text) (now : Time) (n : ℕ) (t : Task)
    → zero_instant ≤ now.instant
    → now.instant + n < year_10000
    → HasDates t
    → HasDates (lease_to owner token now n t)
unfolding lease_to
leased-HasDates owner token now n t early late h = record {
  available = h.available;
  until = record {
    in_utc = refl;
    from_year_1 = omega (arith, early);
    to_year_9999 = omega (arith, late);
  };
  created = h.created;
  updated = record { in_utc = refl; from_year_1 = early; to_year_9999 = omega (arith, late) };
}

eligible_tasks-HasDates :
    (now : Time) (ts : List Task) → All HasDates ts → All HasDates (eligible_tasks now ts)
unfolding eligible_tasks
eligible_tasks-HasDates now [] h = tt
eligible_tasks-HasDates now (t ∷ ts) h = elim (Bool-cases (eligible now t)) [
  | inl e ↦ rw e (h.0, eligible_tasks-HasDates now ts h.1)
  | inr e ↦ rw e (eligible_tasks-HasDates now ts h.1)
]

module _ (codec : Codec OutboxDiskState) (encodes : Encodes codec) where
  commit_returns :
      {R : Type 0} (a : Answers) (o : InvestigationOutbox) (d : Directory) (next : Dict Task)
      (value : R)
      → Succeeds a
      → All HasDates (values next)
      → (commit codec a o d next value).result ≡ ok value
  unfolding commit
  commit_returns a o d next value h dated =
      let (bytes, e) =
        encodes (disk_state next)
          (unfold disk_state in sort_by-All HasDates task_less_by_id (values next) dated) in
      let written : (persist codec a o.path next d).outcome ≡ none =
        (unfold persist in rw e (write_json_atomic_returns a o.path bytes d h)) in
      rw (written, commit) refl

  -- If a task of the Outbox is due, LeaseNext returns a task, where the context is not cancelled,
  -- the owner is not blank, the duration is positive, a token was drawn and every call of the
  -- operating system succeeds. The times of the tasks are in UTC and lie, as now and the end of
  -- the lease, in the years 1 to 9999; the codec encodes every state of such tasks.
  pub lease_next_returns :
      (owner : Text) (now : Time) (n : ℕ) (token : Text) (a : Answers) (o : InvestigationOutbox)
      (d : Directory) (id : Text) (due : Task)
      → lookup id o.tasks ≡ some due
      → IsDue now due
      → is_empty (trim_space owner) ≡ false
      → 0 < n
      → Succeeds a
      → All HasDates (values o.tasks)
      → zero_instant ≤ now.instant
      → now.instant + n < year_10000
      → (leased : Task) × ((lease_next codec none owner now (pos n) (ok token) a o d).result
          ≡ ok leased)
  unfolding lease_next lease_first
  lease_next_returns owner now n token a o d id due found is_due named long h dated early late =
      let e = (eligible-IsDue now due).1 is_due in
      let (t, rest, s) = sort_by-NonEmpty _ (eligible_tasks-NonEmpty now id due o.tasks found e) in
      let all : All HasDates (t ∷ rest) =
        subst (All HasDates) s
          (sort_by-All HasDates task_less _ (eligible_tasks-HasDates now (values o.tasks) dated)) in
      let taken = lease_to (trim_space owner) token now n t in
      let some_time : (n == 0) ≡ false = ground arith in
      let next : All HasDates (values (insert taken.id taken (copy o.tasks))) =
        insert-copy-HasDates taken.id taken o.tasks
          (leased-HasDates (trim_space owner) token now n t early late all.0) dated in
      (
        taken,
        rw (named, some_time, s)
            (commit_returns a o d (insert taken.id taken (copy o.tasks)) taken h next),
      )
