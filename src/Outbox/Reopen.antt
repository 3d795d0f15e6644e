-- ===== src/Outbox/Reopen.antt =====
-- OpenInvestigationOutbox finds the tasks that the file holds.
use rootforge.Prelude.{◌≡◌, refl, ap, ◌∙◌, inl, inr, false, none, some, List, [], ◌∷◌, arith, All}
use rootforge.Text.{Text, is_empty, text_eq_iff}
use rootforge.Dict.{Dict, lookup, insert, values}
use rootforge.Dict.Laws.{lookup-insert}
use rootforge.Dict.Keyed.{
  find, UniqueKeys, find-values, values-UniqueKeys, find-sort_by, sort_by-UniqueKeys,
}
use rootforge.Sort.{sort_by}
use rootforge.Sort.Order.{sort_by-All}
use rootforge.Failure.{ok}
use rootforge.Platform.{Codec, IsFaithful}
use rootforge.JsonFile.{Directory, read_json_file, ensure_data_directory}
use rootforge.Investigation.{Task}
use rootforge.Outbox.{
  InvestigationOutbox, OutboxDiskState, disk_state, load_tasks, task_less_by_id,
  open_investigation_outbox,
}
use rootforge.Outbox.Check.{IsSound, IsSound-validate_task}
use rootforge.Outbox.Invariant.{IsValid, Stored, task_key, Entries-OwnKey, values-Stored}
use rootforge.Outbox.Durable.{IsGood}
use rootforge.Outbox.Plain.{IsPlainState}

absent-insert :
    (t : Task) (tasks : Dict Task) (ts : List Task)
    → find task_key t.id ts ≡ none
    → All (λ u. lookup u.id tasks ≡ none) ts
    → All (λ u. lookup u.id (insert t.id t tasks) ≡ none) ts
unfolding find
absent-insert t tasks [] f h = tt
absent-insert t tasks (u ∷ us) f h = (
  ground (arith, lookup-insert t.id u.id t tasks, text_eq_iff t.id u.id, text_eq_iff u.id t.id),
  absent-insert t tasks us (ground arith) h.1,
)

-- The first task under a key among those to load, or else what was loaded before.
abbrev Loaded : Dict Task → List Task → Dict Task → Type 0
Loaded tasks ts result =
    (k : Text)
    → lookup k result ≡ (elim (find task_key k ts) [ some t ↦ some t | none ↦ lookup k tasks ])

module _ (sha256 : Text → Text) where
  load_tasks-Loaded :
      (tasks : Dict Task) (ts : List Task)
      → All (IsSound sha256) ts
      → UniqueKeys task_key ts
      → All (λ u. lookup u.id tasks ≡ none) ts
      → (result : Dict Task) × (load_tasks sha256 tasks ts ≡ ok result) × Loaded tasks ts result
  unfolding load_tasks find
  load_tasks-Loaded tasks [] s u h = (tasks, refl, λ k. refl)
  load_tasks-Loaded tasks (t ∷ ts) s u h =
      let (result, loads, finds) =
        load_tasks-Loaded (insert t.id t tasks) ts s.1 u.1 (absent-insert t tasks ts u.0 h.1) in
      (
        result,
        rw (IsSound-validate_task sha256 t s.0, h.0, load_tasks) loads,
        λ k.
            finds k
            ∙ ground (
              arith,
              lookup-insert t.id k t tasks,
              text_eq_iff t.id k,
              u.0,
              λ (e : t.id ≡ k). ap (λ (j : Text). find task_key j ts) e,
            ),
      )

  All-absent :
      (ts : List Task) → All (λ (u : Task). lookup u.id (let m : Dict Task = [] in m) ≡ none) ts
  unfolding lookup
  All-absent [] = tt
  All-absent (t ∷ ts) = (refl, All-absent ts)

  All-IsSound : (ts : List Task) → All (λ t. Stored sha256 t.id t) ts → All (IsSound sha256) ts
  All-IsSound [] h = tt
  All-IsSound (t ∷ ts) h = (h.0.1, All-IsSound ts h.1)

  -- Loading what is written for valid tasks gives a map with the same lookups.
  pub load_tasks-disk_state :
      (tasks : Dict Task)
      → IsValid sha256 tasks
      → (result : Dict Task) × (load_tasks sha256 [] (disk_state tasks).tasks ≡ ok result)
        × ((k : Text) → lookup k result ≡ lookup k tasks)
  unfolding disk_state
  load_tasks-disk_state tasks v =
      let own = Entries-OwnKey sha256 tasks v.stored in
      let unique = values-UniqueKeys task_key tasks own v.distinct in
      let ordered = sort_by task_less_by_id (values tasks) in
      let (result, loads, finds) =
        load_tasks-Loaded [] ordered
          (sort_by-All (IsSound sha256) task_less_by_id (values tasks)
            (All-IsSound (values tasks) (values-Stored sha256 tasks v.stored)))
          (sort_by-UniqueKeys task_key task_less_by_id (values tasks) unique)
          (All-absent ordered) in
      (
        result,
        loads,
        λ k.
            finds k
            ∙ unfold lookup in
              ground (
                arith,
                find-sort_by task_key task_less_by_id k (values tasks) unique,
                find-values task_key k tasks own,
              ),
      )

  module _ (codec : Codec OutboxDiskState) (faithful : IsFaithful codec IsPlainState) where
    loaded_path :
        (path : Text) (tasks : Dict Task) (d : Directory) (result : Dict Task)
        → load_tasks sha256 [] (disk_state tasks).tasks ≡ ok result
        → ((bytes : Text) × (lookup path d ≡ some bytes)
            × (codec.decode bytes ≡ ok (disk_state tasks)))
        → (name : Text) (made : Text) → is_empty name ≡ false
        → open_investigation_outbox sha256 codec name (ok made) none path d
          ≡ ok (record { path = path; tasks = result })
    unfolding open_investigation_outbox ensure_data_directory read_json_file disk_state
    loaded_path path tasks d result loads (bytes, there, decodes) name made given =
        ground (arith, loads)

    -- Of a good Outbox, the directory reopens to one with the same task under every identifier.
    pub reopen-IsGood :
        (path : Text) (o : InvestigationOutbox) (d : Directory) (name made : Text)
        → is_empty name ≡ false
        → IsGood sha256 codec faithful path o d
        → (found : InvestigationOutbox) × (open_investigation_outbox sha256 codec name
              (ok made)
              none
              path
              d
            ≡ ok found)
          × ((k : Text) → lookup k found.tasks ≡ lookup k o.tasks)
    reopen-IsGood path o d name made given g =
        let (result, loads, finds) = load_tasks-disk_state o.tasks g.valid in
        elim (g.on_disk) [
          | inl (missing, nothing) ↦ (
            record { path = path; tasks = [] },
            unfold open_investigation_outbox ensure_data_directory read_json_file in ground arith,
            λ k. rw nothing,
          )
          | inr there ↦ (
            record { path = path; tasks = result },
            loaded_path path o.tasks d result loads there name made given,
            finds,
          )
        ]
