-- ===== src/Casefile.antt =====
-- internal/casefile: the Case, the process-local store and the Case service. A store method takes
-- the error of its context, its arguments and what the identifier generator returned; the mutex
-- makes each method one step.
pub mod Index
pub mod Dedupe
use rootforge.Prelude.{
  ℕ, ◌+◌, ◌%◌, ◌^◌, Bool, true, false, not, Option, none, some, List, [], ◌∷◌, if◌then◌else◌,
}
use mathlib.Core.Option
use rootforge.Text.{Text, text_lt, is_empty}
use rootforge.Clock.{Time, zero_time, utc, is_zero, before}
use rootforge.Dict.{Dict, lookup, insert, delete, values}
use rootforge.Sort.{sort_by}
use rootforge.Failure.{Error, Result, ok, err, not_found, id_conflict, empty_case_id, ◌>>=◌}
use rootforge.Platform.{Platform}
use rootforge.Trigger.{Event, normalize, validate, fingerprint}
use rootforge.Incident.{
  Incident, Status, pending_investigation, other_status, new_incident, apply, is_open,
  clone_incident,
}

pub record Case : Type 0 where
  pub id : Text
  pub revision : ℕ
  pub created_at : Time
  pub updated_at : Time
  pub incident : Incident

-- Case.Clone.
unfoldable pub clone_case : Case → Case
clone_case c = record c { incident = clone_incident c.incident }

-- IDGenerator, at the call that a method makes.
abbrev pub IdGenerator : Type 0
IdGenerator = Time → Result Text

-- The two maps of MemoryStore, which CaseStore has too.
pub record Cases : Type 0 where
  pub by_id : Dict Case
  pub open_by_print : Dict Text

-- NewMemoryStore.
abbrev pub new_memory_store : Cases
new_memory_store = record { by_id = []; open_by_print = [] }

unfoldable pub case_less : Case → Case → Bool
case_less left right = text_lt left.id right.id

abbrev pub is_pending_investigation : Status → Bool
is_pending_investigation pending_investigation = true
is_pending_investigation _ = false

unfoldable pub pending_cases : List Case → List Case
pending_cases [] = []
pending_cases (c ∷ cs) =
    let rest = pending_cases cs in
    if is_pending_investigation c.incident.status then clone_case c ∷ rest else rest

-- The Case after its Incident changed: revision, time.
unfoldable pub revise : Time → Incident → Case → Case
revise now i c = record c {
  revision = (c.revision + 1) % 2 ^ 64;
  updated_at = if before (utc now) c.updated_at then c.updated_at else utc now;
  incident = i;
}

unfoldable pub new_case : Text → Time → Incident → Case
new_case id now i = record {
  id = id;
  revision = 1;
  created_at = utc now;
  updated_at = utc now;
  incident = i;
}

-- The zero value that a Go map gives for a missing key.
abbrev zero_incident : Incident
zero_incident = record {
  fingerprint = [];
  type = [];
  status = other_status [];
  environment = [];
  service = [];
  node = [];
  workload = [];
  container = [];
  severity = [];
  first_occurred_at = zero_time;
  last_occurred_at = zero_time;
  events = [];
}

abbrev pub zero_case : Case
zero_case = record {
  id = [];
  revision = 0;
  created_at = zero_time;
  updated_at = zero_time;
  incident = zero_incident;
}

unfoldable pub case_at : Text → Dict Case → Case
case_at id m = Option.get_or (lookup id m) zero_case

-- The identifier of a new Case: generated, not empty and not taken.
unfoldable pub fresh_id : IdGenerator → Time → Dict Case → Result Text
fresh_id generate now by_id = generate now >>= λ id.
    if is_empty id
    then err empty_case_id
    else elim (lookup id by_id) [ some _ ↦ err id_conflict | none ↦ ok id ]

module _ (p : Platform) where
  -- The end of MemoryStore.ApplyEvent, where no open Case takes the Event.
  unfoldable pub create_case : Event → Time → IdGenerator → Cases → Cases × Result (Case × Bool)
  create_case event now generate s = elim (new_incident p event) [
    | err e ↦ (s, err e)
    | ok i ↦ elim (fresh_id generate now s.by_id) [
      | err e ↦ (s, err e)
      | ok id ↦
          let c = new_case id now i in
          (
            record {
              by_id = insert id (clone_case c) s.by_id;
              open_by_print = insert (fingerprint p event) id s.open_by_print;
            },
            ok (clone_case c, true),
          )
    ]
  ]

  -- Its middle, where the open Case `current` takes the Event.
  unfoldable pub extend_case : Event → Time → Text → Case → Cases → Cases × Result (Case × Bool)
  extend_case event now id current s = elim (apply p (some current.incident) event) [
    | err e ↦ (s, err e)
    | ok (i, changed) ↦
        let c = revise now i current in
        if not changed
        then (s, ok (clone_case current, false))
        else (record s { by_id = insert id (clone_case c) s.by_id }, ok (clone_case c, false))
  ]

  -- MemoryStore.ApplyEvent.
  unfoldable pub apply_event :
      Option Error → Event → Time → IdGenerator → Cases → Cases × Result (Case × Bool)
  apply_event (some cancelled) event now generate s = (s, err cancelled)
  apply_event none event now generate s =
      let print = fingerprint p event in
      elim (lookup print s.open_by_print) [
        | none ↦ create_case event now generate s
        | some id ↦
            let current = case_at id s.by_id in
            let extended = extend_case event now id current s in
            let closed = record s { open_by_print = delete print s.open_by_print } in
            let recreated = create_case event now generate closed in
            if is_open current.incident then extended else recreated
      ]

-- MemoryStore.Get, and CaseStore.Get.
unfoldable pub get_case : Option Error → Text → Cases → Result Case
get_case (some cancelled) id s = err cancelled
get_case none id s = elim (lookup id s.by_id) [ none ↦ err not_found | some c ↦ ok (clone_case c) ]

-- ListPendingInvestigation of both stores.
unfoldable pub list_pending_investigation : Option Error → Cases → Result (List Case)
list_pending_investigation (some cancelled) s = err cancelled
list_pending_investigation none s = ok (sort_by case_less (pending_cases (values s.by_id)))

-- What the service needs of a store: the interface casefile.Store over the states `S`. The methods
-- that write also take what the file system answers.
pub record Store (S World : Type 0) : Type 0 where
  pub apply_to : Option Error → Event → Time → IdGenerator → World → S → S × Result (Case × Bool)
  pub get_from : Option Error → Text → S → Result Case
  pub pending_of : Option Error → S → Result (List Case)

-- Service.RecordEvent; `clock` is what s.now returned.
module _ {S World : Type 0} (p : Platform) (store : Store S World) where
  unfoldable pub record_event :
      Option Error → Event → Time → IdGenerator → World → S → S × Result (Case × Bool)
  record_event ctx event clock generate world s =
      let e = normalize p event in
      elim (validate e) [
        | some problem ↦ (s, err problem)
        | none ↦
            let now = utc clock in
            store.apply_to ctx (if is_zero e.observed_at then record e { observed_at = now } else e)
              now generate world s
      ]

  -- Service.Get.
  unfoldable pub service_get : Option Error → Text → S → Result Case
  service_get ctx id s = if is_empty id then err not_found else store.get_from ctx id s
