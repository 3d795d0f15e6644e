-- ===== src/Tests/Files.antt =====
-- A replacement of a state file that fails at its last call, and one that succeeds.
use rootforge.Prelude.{refl, [], ◌∷◌, All}
use rootforge.Text.{text, text_eq}
use rootforge.Failure.{ok}
use rootforge.JsonFile.{Directory, Attempt, write_json_atomic}
use rootforge.JsonFile.Atomic.{
  SafeAt, last_disk, Settled, write_json_atomic-OldOrNew, write_json_atomic-Settled,
}
use rootforge.Tests.Sample.{sample_path, works, breaks}

abbrev before_write : Directory
before_write = (sample_path, text "old") ∷ []

abbrev failed : Attempt
failed = write_json_atomic breaks sample_path (ok (text "new")) before_write

write_json_atomic-OldOrNew_example :
    All
      (SafeAt before_write sample_path (ok (text "new")) sample_path)
      (last_disk failed ∷ failed.past)
write_json_atomic-OldOrNew_example =
    write_json_atomic-OldOrNew breaks sample_path before_write sample_path (unfold text_eq in refl)
      (ok (text "new"))

write_json_atomic-Settled_example :
    Settled before_write sample_path
      (ok (text "new"))
      sample_path
      (write_json_atomic works sample_path (ok (text "new")) before_write)
write_json_atomic-Settled_example =
    write_json_atomic-Settled works sample_path before_write sample_path (unfold text_eq in refl)
      (ok (text "new"))
