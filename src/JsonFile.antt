-- ===== src/JsonFile.antt =====
-- internal/storage/local/jsonfile.go: the atomic replacement of a state file, and its reading.
-- A directory is a map from file names to their bytes. Every call of the operating system returns
-- an error that the environment chooses; the JSON codec enters as the bytes, or the error, that it
-- returned. A run keeps what the disk was before each call that changed it, for the crashes that
-- may fall between two of them, and which names have bytes that were written and not yet synced: of
-- these a crash can leave anything.
pub mod Atomic
use rootforge.Prelude.{Option, none, some, List, [], ◌∷◌, if◌then◌else◌}
use rootforge.Text.{Text, is_empty}
use rootforge.Dict.{Dict, lookup, insert, delete}
use rootforge.Failure.{Error, Result, ok, err, directory_required, ◌>>=◌}

abbrev pub Directory : Type 0
Directory = Dict Text

-- What the operating system answers to each call of one `writeJSONAtomic`: `none` is success.
-- A failed write may still have put some bytes into the temporary file.
pub record Answers : Type 0 where
  pub temporary_name : Text
  pub create : Option Error
  pub chmod : Option Error
  pub write : Option Error
  pub sync : Option Error
  pub close : Option Error
  pub rename : Option Error
  pub remove : Option Error
  pub partial : Text

-- The deferred removal of the temporary file, which is best effort.
remove_temporary : Answers → Directory → Directory
remove_temporary a d = elim a.remove [ none ↦ delete a.temporary_name d | some e ↦ d ]

-- os.Rename.
rename_file : Text → Text → Directory → Directory
rename_file from to d = elim (lookup from d) [
  | none ↦ d
  | some bytes ↦ insert to bytes (delete from d)
]

-- The directory, and the names whose bytes are not synced, with these bytes.
pub record Disk : Type 0 where
  pub files : Directory
  pub unsynced : Directory

write_file : Text → Text → Disk → Disk
write_file name bytes s = record {
  files = insert name bytes s.files;
  unsynced = insert name bytes s.unsynced;
}

-- File.Sync.
sync_file : Text → Disk → Disk
sync_file name s = record s { unsynced = delete name s.unsynced }

-- The name takes the bytes with it, synced or not.
rename_on_disk : Text → Text → Disk → Disk
unfolding rename_file
rename_on_disk from to s = record {
  files = rename_file from to s.files;
  unsynced = rename_file from to (delete to s.unsynced);
}

-- The run of one `writeJSONAtomic`: the directory now and what of it is not synced, the disk
-- before each call that changed it (newest first), and the error.
pub record Attempt : Type 0 where
  pub now : Directory
  pub unsynced : Directory
  pub past : List Disk
  pub outcome : Option Error

abbrev give_up : Answers → Disk → List Disk → Error → Attempt
give_up a s past e = record {
  now = remove_temporary a s.files;
  unsynced = s.unsynced;
  past = s ∷ past;
  outcome = some e;
}

abbrev checked : Option Error → Answers → Disk → List Disk → Attempt → Attempt
checked none a s past rest = rest
checked (some e) a s past rest = give_up a s past e

finish : Answers → Text → Disk → List Disk → Attempt
unfolding rename_on_disk remove_temporary sync_file
finish a path s past =
    let synced = sync_file a.temporary_name s in
    let renamed = rename_on_disk a.temporary_name path synced in
    checked a.sync a s past (
      checked a.close a synced (s ∷ past) (
        checked a.rename a synced (s ∷ past) (record {
          now = renamed.files;
          unsynced = renamed.unsynced;
          past = synced ∷ s ∷ past;
          outcome = none;
        })))

-- Encode of the encoder: a value that cannot be encoded writes nothing.
encode_to : Answers → Text → Result Text → Disk → List Disk → Attempt
unfolding finish write_file remove_temporary
encode_to a path (err e) s past = give_up a s past e
encode_to a path (ok bytes) s past =
    checked a.write a (write_file a.temporary_name a.partial s) (s ∷ past)
      (finish a path (write_file a.temporary_name bytes s) (s ∷ past))

-- `encoded` is what the encoder produced for the value; nothing else in the directory is unsynced.
unfoldable pub write_json_atomic : Answers → Text → Result Text → Directory → Attempt
unfolding encode_to write_file
write_json_atomic a path encoded d =
    let start : Disk = record { files = d; unsynced = [] } in
    let created = write_file a.temporary_name [] start in
    elim a.create [
      | some e ↦ record { now = d; unsynced = []; past = []; outcome = some e }
      | none ↦
          checked a.chmod a created (start ∷ []) (encode_to a path encoded created (start ∷ []))
    ]

-- `none` is os.ErrNotExist. `decode` reads the one JSON value of a file and refuses unknown fields
-- and trailing data; any other error of os.Open is `open_error`.
unfoldable pub read_json_file {ℓ} :
    {A : Type ℓ} → (Text → Result A) → Option Error → Text → Directory → Result (Option A)
read_json_file decode open_error path d = elim (lookup path d) [
  | none ↦ ok none
  | some bytes ↦ elim open_error [ some e ↦ err e | none ↦ decode bytes >>= λ v. ok (some v) ]
]

-- filepath.Clean and os.MkdirAll are the platform's: what they return is the second argument.
unfoldable pub ensure_data_directory : Text → Result Text → Result Text
ensure_data_directory directory made = if is_empty directory then err directory_required else made
