-- ===== src/CaseStore.antt =====
-- internal/storage/local/cases.go: CaseStore, the Case store that replaces a state file at each
-- change. Methods that do not write are those of Casefile over the same maps.
pub mod Plain
pub mod Refines
pub mod Clones
pub mod Deliver
use rootforge.Prelude.{
  ℕ, Bool, true, false, not, ◌||◌, Option, none, some, List, [], ◌∷◌, if◌then◌else◌, ◌==◌, map,
}
use rootforge.Text.{Text, is_empty, text_eq}
use rootforge.Clock.{Time, is_zero, before, after, same_instant}
use rootforge.Dict.{Dict, lookup, insert, delete, values, copy}
use rootforge.Sort.{sort_by}
use rootforge.Failure.{
  Error, Result, ok, err, ◌>>=◌, missing_field, invalid_timestamps, incomplete_incident,
  unsupported_status, foreign_event, invalid_window, unsupported_version, duplicate_id,
  shared_fingerprint,
}
use rootforge.Platform.{Platform, Codec}
use rootforge.JsonFile.{
  Directory, Answers, Attempt, write_json_atomic, read_json_file, ensure_data_directory,
}
use rootforge.Trigger.{Event, validate, fingerprint}
use rootforge.Incident.{Incident, Status, other_status, same_scope, is_open}
use rootforge.Incident.{new_incident, apply}
use rootforge.Casefile.{
  Case, Cases, IdGenerator, Store, clone_case, case_less, case_at, revise, new_case, fresh_id,
  get_case, list_pending_investigation,
}

abbrev pub case_state_version : ℕ
case_state_version = 1

pub record CaseDiskState : Type 0 where
  pub version : ℕ
  pub cases : List Case

pub record CaseStore : Type 0 where
  pub path : Text
  pub cases : Cases

-- The object and the directory that holds its file.
pub record Durable : Type 0 where
  pub store : CaseStore
  pub directory : Directory

-- cloneCases: `cloned[key] = value.Clone()` for each entry.
unfoldable pub clone_cases_into : Dict Case → Dict Case → Dict Case
clone_cases_into target [] = target
clone_cases_into target ((k, c) ∷ m) = clone_cases_into (insert k (clone_case c) target) m

unfoldable pub clone_cases : Dict Case → Dict Case
unfolding clone_cases_into
clone_cases m = clone_cases_into [] m

-- The copies of its maps that ApplyEvent works on.
unfoldable pub copied : Cases → Cases
unfolding clone_cases
copied s = record { by_id = clone_cases s.by_id; open_by_print = copy s.open_by_print }

-- What the state file holds: the Cases in the order of their identifiers.
unfoldable pub disk_state : Dict Case → CaseDiskState
disk_state m = record {
  version = case_state_version;
  cases = sort_by case_less (map clone_case (values m));
}

module _ (codec : Codec CaseDiskState) where
  unfoldable pub persist : Answers → Text → Dict Case → Directory → Attempt
  persist a path m d = write_json_atomic a path (codec.encode (disk_state m)) d

  -- `if err := s.persist(nextCases); err != nil { return err }` and the two writes after it; a
  -- method that failed before has nothing to persist.
  unfoldable pub commit_cases :
      Answers → Durable → Cases → Case → Bool → Durable × Result (Case × Bool)
  commit_cases a s next c created =
      let w = persist a s.store.path next.by_id s.directory in
      elim w.outcome [
        | some e ↦ (record s { directory = w.now }, err e)
        | none ↦
            (record { store = record s.store { cases = next }; directory = w.now }, ok (c, created))
      ]

module _ (p : Platform) (codec : Codec CaseDiskState) where
  -- The end of CaseStore.ApplyEvent, over the copied maps.
  unfoldable pub create_durable :
      Event → Time → IdGenerator → Answers → Cases → Durable → Durable × Result (Case × Bool)
  create_durable event now generate a next s = elim (new_incident p event) [
    | err e ↦ (s, err e)
    | ok i ↦ elim (fresh_id generate now next.by_id) [
      | err e ↦ (s, err e)
      | ok id ↦
          let c = new_case id now i in
          commit_cases codec a s
            (record {
              by_id = insert id (clone_case c) next.by_id;
              open_by_print = insert (fingerprint p event) id next.open_by_print;
            })
            (clone_case c) true
    ]
  ]

  unfoldable pub extend_durable :
      Event → Time → Answers → Text → Case → Cases → Durable → Durable × Result (Case × Bool)
  extend_durable event now a id current next s = elim (apply p (some current.incident) event) [
    | err e ↦ (s, err e)
    | ok (i, changed) ↦
        let c = revise now i current in
        if not changed
        then (s, ok (clone_case current, false))
        else commit_cases codec a s (record next { by_id = insert id (clone_case c) next.by_id })
            (clone_case c) false
  ]

  -- CaseStore.ApplyEvent after its maps are copied to `next`.
  unfoldable pub apply_to_copy :
      Event → Time → IdGenerator → Answers → Cases → Durable → Durable × Result (Case × Bool)
  apply_to_copy event now generate a next s =
      let print = fingerprint p event in
      elim (lookup print next.open_by_print) [
        | none ↦ create_durable event now generate a next s
        | some id ↦
            let current = case_at id next.by_id in
            let extended = extend_durable event now a id current next s in
            let closed = record next { open_by_print = delete print next.open_by_print } in
            let recreated = create_durable event now generate a closed s in
            if is_open current.incident then extended else recreated
      ]

  -- CaseStore.ApplyEvent.
  unfoldable pub apply_durable :
      Option Error → Event → Time → IdGenerator → Answers → Durable → Durable × Result (Case × Bool)
  unfolding apply_to_copy copied
  apply_durable (some cancelled) event now generate a s = (s, err cancelled)
  apply_durable none event now generate a s =
      apply_to_copy event now generate a (copied s.store.cases) s

  -- CaseStore as a casefile.Store.
  abbrev pub durable_store : Store Durable Answers
  durable_store = record {
    apply_to = apply_durable;
    get_from = λ ctx id s. get_case ctx id s.store.cases;
    pending_of = λ ctx s. list_pending_investigation ctx s.store.cases;
  }

abbrev no_events : List Event → Bool
no_events [] = true
no_events (e ∷ es) = false

abbrev known_status : Status → Bool
known_status (other_status s) = false
known_status _ = true

module _ (p : Platform) where
  -- The loop of validateStoredCase over the Events: the first complaint, or the two ends of the
  -- occurrence window.
  unfoldable pub stored_window : Incident → Time → Time → List Event → Result (Time × Time)
  stored_window i first last [] = ok (first, last)
  stored_window i first last (e ∷ es) =
      let rest =
        stored_window i (if before e.occurred_at first then e.occurred_at else first)
          (if after e.occurred_at last then e.occurred_at else last) es in
      elim (validate e) [
        | some problem ↦ err problem
        | none ↦
            if not (text_eq (fingerprint p e) i.fingerprint) || not (same_scope e i)
            then err foreign_event
            else rest
      ]

  stored_events : Incident → List Event → Option Error
  stored_events i [] = some incomplete_incident
  stored_events i (e ∷ es) = elim (stored_window i e.occurred_at e.occurred_at (e ∷ es)) [
    | err c ↦ some c
    | ok (first, last) ↦
        if not (same_instant i.first_occurred_at first)
          || not (same_instant i.last_occurred_at last)
        then some invalid_window
        else none
  ]

  -- validateStoredCase.
  unfoldable pub validate_stored_case : Case → Option Error
  unfolding stored_events
  validate_stored_case c =
      if is_empty c.id || c.revision == 0
      then some missing_field
      else if is_zero c.created_at || is_zero c.updated_at || before c.updated_at c.created_at
      then some invalid_timestamps
      else if is_empty c.incident.fingerprint || no_events c.incident.events
      then some incomplete_incident
      else if not (known_status c.incident.status)
      then some unsupported_status
      else stored_events c.incident c.incident.events

  -- The loop of OpenCaseStore over the stored Cases.
  unfoldable pub load_cases : Cases → List Case → Result Cases
  load_cases s [] = ok s
  load_cases s (c ∷ cs) =
      let by_id = insert c.id (clone_case c) s.by_id in
      let closed = load_cases (record s { by_id = by_id }) cs in
      let opened =
        load_cases
          (record {
            by_id = by_id;
            open_by_print = insert c.incident.fingerprint c.id s.open_by_print;
          })
          cs in
      elim (validate_stored_case c) [
        | some e ↦ err e
        | none ↦ elim (lookup c.id s.by_id) [
          | some _ ↦ err duplicate_id
          | none ↦
              if not (is_open c.incident)
              then closed
              else elim (lookup c.incident.fingerprint s.open_by_print) [
                | some _ ↦ err shared_fingerprint
                | none ↦ opened
              ]
        ]
      ]

  -- OpenCaseStore.
  unfoldable pub open_case_store :
      Codec CaseDiskState → Text → Result Text → Option Error → Text → Directory → Result CaseStore
  open_case_store codec name made open_error path d = ensure_data_directory name made >>= λ _.
      read_json_file codec.decode open_error path d >>= λ found. elim found [
        | none ↦ ok (record { path = path; cases = record { by_id = []; open_by_print = [] } })
        | some state ↦
            if state.version == case_state_version
            then (load_cases (record { by_id = []; open_by_print = [] }) state.cases >>= λ s.
                ok (record { path = path; cases = s }))
            else err unsupported_version
      ]
