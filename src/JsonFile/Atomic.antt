-- ===== src/JsonFile/Atomic.antt =====
-- An atomic replacement leaves the old file or the new one, at every moment.
use rootforge.Prelude.{
  ◌≡◌, refl, false, Option, none, some, List, [], ◌∷◌, ◌⊎◌, inl, inr, arith, if◌then◌else◌, All,
  All-weaken, ◌∙◌, ap, Bool-cases,
}
use rootforge.Text.{Text, text_eq, text_eq_sound, text_eq_refl}
use rootforge.Dict.{lookup, delete}
use rootforge.Dict.Laws.{lookup-insert, lookup-insert_self, lookup-insert_ne, lookup-delete}
use rootforge.Failure.{Error, Result, ok, err}
use rootforge.JsonFile.{
  Directory, Disk, Answers, Attempt, write_json_atomic, finish, encode_to, give_up, checked,
  remove_temporary, rename_file, rename_on_disk, sync_file, write_file,
}

lookup-remove_temporary :
    (a : Answers) (j : Text) (d : Directory)
    → text_eq a.temporary_name j ≡ false
    → lookup j (remove_temporary a d) ≡ lookup j d
unfolding remove_temporary
lookup-remove_temporary a j d h = ground (arith, lookup-delete a.temporary_name j d)

lookup-rename_file :
    (from to j bytes : Text) (d : Directory)
    → lookup from d ≡ some bytes
    → text_eq from j ≡ false
    → lookup j (rename_file from to d) ≡ (if text_eq to j then some bytes else lookup j d)
unfolding rename_file
lookup-rename_file from to j bytes d e h =
    ground (arith, lookup-insert to j bytes (delete from d), lookup-delete from j d)

-- At a name that is not the temporary one: the file is as before, or it is the renamed one.
abbrev pub OldOrNew : Directory → Text → Result Text → Text → Directory → Type 0
OldOrNew d path encoded j s =
    (lookup j s ≡ lookup j d)
    ⊎ ((bytes : Text) × (encoded ≡ ok bytes) × (path ≡ j) × (lookup j s ≡ some bytes))

-- What a run comes to at such a name: it succeeded and the file at the path is the encoded value, or
-- it failed and nothing changed.
abbrev pub Settled : Directory → Text → Result Text → Text → Attempt → Type 0
Settled d path encoded j r =
    ((bytes : Text) × (encoded ≡ ok bytes)
      × (r.outcome ≡ none)
      × (lookup j r.now ≡ (if text_eq path j then some bytes else lookup j d)))
    ⊎ ((e : Error) × (r.outcome ≡ some e) × (lookup j r.now ≡ lookup j d))

-- What a crash at a moment can leave: a name whose bytes are synced keeps its file.
abbrev pub Survives : Disk → Directory → Type 0
Survives s after = (k : Text) → lookup k s.unsynced ≡ none → lookup k after ≡ lookup k s.files

-- Whatever a crash at that moment leaves, the file at such a name is the old or the new one.
abbrev pub SafeAt : Directory → Text → Result Text → Text → Disk → Type 0
SafeAt d path encoded j s = (after : Directory) → Survives s after → OldOrNew d path encoded j after

abbrev pub last_disk : Attempt → Disk
last_disk r = record { files = r.now; unsynced = r.unsynced }

module _ (a : Answers) (path : Text) (d : Directory) (j : Text)
    (other : text_eq a.temporary_name j ≡ false) where
  abbrev Kept : Result Text → Disk → Type 0
  Kept encoded s = OldOrNew d path encoded j s.files × (lookup j s.unsynced ≡ none)

  -- Nothing but the temporary file has changed so far.
  record IsApart (s : Disk) : Type 0 where
    same : lookup j s.files ≡ lookup j d
    synced : lookup j s.unsynced ≡ none

  IsApart-Kept : (encoded : Result Text) (s : Disk) → IsApart s → Kept encoded s
  IsApart-Kept encoded s h = (inl h.same, h.synced)

  abbrev Good : Result Text → Attempt → Type 0
  Good encoded r = All (Kept encoded) (last_disk r ∷ r.past) × Settled d path encoded j r

  give_up-Good :
      (encoded : Result Text) (s : Disk) (past : List Disk) (e : Error)
      → IsApart s
      → All (Kept encoded) past
      → Good encoded (give_up a s past e)
  give_up-Good encoded s past e same h =
      let gone = lookup-remove_temporary a j s.files other ∙ same.same in
      (((inl gone, same.synced), (IsApart-Kept encoded s same, h)), inr (e, refl, gone))

  checked-Good :
      (o : Option Error) (encoded : Result Text) (s : Disk) (past : List Disk) (rest : Attempt)
      → IsApart s
      → All (Kept encoded) past
      → Good encoded rest
      → Good encoded (checked o a s past rest)
  checked-Good none encoded s past rest same h k = k
  checked-Good (some e) encoded s past rest same h k = give_up-Good encoded s past e same h

  -- Of a synced file, the renaming puts synced bytes at the path.
  renamed_synced :
      (s : Disk)
      → lookup j s.unsynced ≡ none
      → lookup j (rename_on_disk a.temporary_name path (sync_file a.temporary_name s)).unsynced
        ≡ none
  unfolding rename_on_disk sync_file rename_file
  renamed_synced s h = ground (
    arith,
    h,
    lookup-delete path a.temporary_name (delete a.temporary_name s.unsynced),
    lookup-delete a.temporary_name a.temporary_name s.unsynced,
    text_eq_refl a.temporary_name,
    lookup-delete path j (delete a.temporary_name s.unsynced),
    lookup-delete a.temporary_name j s.unsynced,
  )

  synced-IsApart : (s : Disk) → IsApart s → IsApart (sync_file a.temporary_name s)
  unfolding sync_file
  synced-IsApart s h = record {
    same = h.same;
    synced = lookup-delete a.temporary_name j s.unsynced ∙ rw other (h.synced);
  }

  written-IsApart :
      (bytes : Text) (s : Disk) → IsApart s → IsApart (write_file a.temporary_name bytes s)
  unfolding write_file
  written-IsApart bytes s h = record {
    same = lookup-insert_ne a.temporary_name j bytes s.files other ∙ h.same;
    synced = lookup-insert_ne a.temporary_name j bytes s.unsynced other ∙ h.synced;
  }

  finish-Good :
      (bytes : Text) (s : Disk) (past : List Disk)
      → lookup a.temporary_name s.files ≡ some bytes
      → IsApart s
      → All (Kept (ok bytes)) past
      → Good (ok bytes) (finish a path s past)
  unfolding finish
  finish-Good bytes s past temporary same h =
      let synced = sync_file a.temporary_name s in
      let apart = synced-IsApart s same in
      let there : lookup a.temporary_name synced.files ≡ some bytes =
        (unfold sync_file in temporary) in
      let moved : lookup j (rename_on_disk a.temporary_name path synced).files
          ≡ (if text_eq path j then some bytes else lookup j synced.files) =
        (unfold rename_on_disk in
          lookup-rename_file a.temporary_name path j bytes synced.files there other) in
      let past' : All (Kept (ok bytes)) (s ∷ past) = (IsApart-Kept (ok bytes) s same, h) in
      checked-Good a.sync (ok bytes) s past _ same h (
        checked-Good a.close (ok bytes) synced (s ∷ past) _ apart past' (
          checked-Good a.rename (ok bytes) synced (s ∷ past) _ apart past' (
            (
              (
                elim (Bool-cases (text_eq path j)) [
                  | inl y ↦ inr (bytes, refl, text_eq_sound path j y, moved ∙ rw y refl)
                  | inr n ↦ inl (moved ∙ rw n (apart.same))
                ],
                renamed_synced s same.synced,
              ),
              (IsApart-Kept (ok bytes) synced apart, past'),
            ),
            inl (
              bytes,
              refl,
              refl,
              moved ∙ ap (λ (o : Option Text). if text_eq path j then some bytes else o) apart.same,
            ),
          )))

  encode_to-Good :
      (encoded : Result Text) (s : Disk) (past : List Disk)
      → IsApart s
      → All (Kept encoded) past
      → Good encoded (encode_to a path encoded s past)
  unfolding encode_to
  encode_to-Good (err e) s past same h = give_up-Good (err e) s past e same h
  encode_to-Good (ok bytes) s past same h =
      let past' : All (Kept (ok bytes)) (s ∷ past) = (IsApart-Kept (ok bytes) s same, h) in
      checked-Good a.write (ok bytes) (write_file a.temporary_name a.partial s) (s ∷ past) _
        (written-IsApart a.partial s same) past'
        (finish-Good bytes (write_file a.temporary_name bytes s) (s ∷ past)
          (unfold write_file in lookup-insert_self a.temporary_name bytes s.files)
          (written-IsApart bytes s same) past')

  start-IsApart : IsApart (record { files = d; unsynced = [] })
  start-IsApart = record { same = refl; synced = unfold lookup in refl }

  created-Good :
      (o : Option Error) (encoded : Result Text) (rest : Attempt)
      → Good encoded rest
      → Good encoded (elim o [
        | some e ↦ record { now = d; unsynced = []; past = []; outcome = some e }
        | none ↦ rest
      ])
  created-Good none encoded rest h = h
  created-Good (some e) encoded rest h =
      ((IsApart-Kept encoded _ start-IsApart, tt), inr (e, refl, refl))

  write_json_atomic-Good :
      (encoded : Result Text) → Good encoded (write_json_atomic a path encoded d)
  unfolding write_json_atomic
  write_json_atomic-Good encoded =
      let start : Disk = record { files = d; unsynced = [] } in
      let created = write_file a.temporary_name [] start in
      let apart = written-IsApart [] start start-IsApart in
      let past' : All (Kept encoded) (start ∷ []) =
        (IsApart-Kept encoded start start-IsApart, tt) in
      created-Good a.create encoded _ (
        checked-Good a.chmod encoded created (start ∷ []) _ apart past'
          (encode_to-Good encoded created (start ∷ []) apart past'))

  Kept-SafeAt : (encoded : Result Text) (s : Disk) → Kept encoded s → SafeAt d path encoded j s
  Kept-SafeAt encoded s h after survives =
      let same = survives j h.1 in
      elim (h.0) [
        | inl old ↦ inl (same ∙ old)
        | inr (bytes, is, at, new) ↦ inr (bytes, is, at, same ∙ new)
      ]

  -- From a disk on which all is synced, whatever a crash leaves of the bytes that are not synced,
  -- before, between or after the calls of one replacement, the file of any name but the temporary
  -- one is the old file, or it is the file at the path and holds the bytes of the encoded value.
  pub write_json_atomic-OldOrNew :
      (encoded : Result Text)
      → let r = write_json_atomic a path encoded d in
        All (SafeAt d path encoded j) (last_disk r ∷ r.past)
  write_json_atomic-OldOrNew encoded =
      let r = write_json_atomic a path encoded d in
      All-weaken (Kept encoded) (SafeAt d path encoded j) (last_disk r ∷ r.past)
        (Kept-SafeAt encoded) (write_json_atomic-Good encoded).0

  -- A replacement that reports no error has put the encoded value at the path and changed no other
  -- file, and one that reports an error has changed no file, the temporary one aside.
  pub write_json_atomic-Settled :
      (encoded : Result Text) → Settled d path encoded j (write_json_atomic a path encoded d)
  write_json_atomic-Settled encoded = (write_json_atomic-Good encoded).1

-- Every call of the operating system succeeds.
pub record Succeeds (a : Answers) : Type 0 where
  pub create : a.create ≡ none
  pub chmod : a.chmod ≡ none
  pub write : a.write ≡ none
  pub sync : a.sync ≡ none
  pub close : a.close ≡ none
  pub rename : a.rename ≡ none

-- Then the replacement reports no error.
pub write_json_atomic_returns :
    (a : Answers) (path bytes : Text) (d : Directory)
    → Succeeds a
    → (write_json_atomic a path (ok bytes) d).outcome ≡ none
unfolding write_json_atomic encode_to finish
write_json_atomic_returns a path bytes d h =
    rw (h.create, h.chmod, h.write, h.sync, h.close, h.rename) refl
