-- ===== src/Tests/Sample.antt =====
-- The platform, the file system and the values of the concrete runs.
use rootforge.Prelude.{
  Bool, true, not, ◌&&◌, ◌==◌, arith, ◌≡◌, ℕ, ◌+◌, refl, none, some, [], ◌∷◌, reverse, map, ◌%◌,
}
use rootforge.Text.{Text, text, to_lower, is_ascii, trim_space, trim_left, trim_right, strip}
use rootforge.Text.Utf8.{AreBytes}
use rootforge.Text.Lower.{LowersWide}
use rootforge.Clock.{Time, zero_instant}
use rootforge.Failure.{platform}
use rootforge.Platform.{Platform}
use rootforge.JsonFile.{Answers}
use rootforge.Trigger.{Event}
use rootforge.Trigger.Scope.{NoNul}
use rootforge.Outbox.{InvestigationOutbox}
use rootforge.Outbox.Plain.{GivesBytes}
use rootforge.Outbox.History.{World}

-- A digest of bytes that starts with the end of its input, so that the identifiers of two Cases differ.
abbrev pub sample_sha256 : Text → Text
sample_sha256 s = map (λ b. b % 256) (reverse s)

bytes_of_any : (s : Text) → AreBytes (map (λ b. b % 256) s)
bytes_of_any [] = tt
bytes_of_any (b ∷ s) = (omega arith, bytes_of_any s)

pub sample_sha256-GivesBytes : GivesBytes sample_sha256
sample_sha256-GivesBytes s = bytes_of_any (reverse s)

abbrev pub sample_time : ℕ → Time
sample_time n = record { instant = zero_instant + n; zone = 0 }

-- A file system that does what it is asked.
abbrev pub works : Answers
works = record {
  temporary_name = text "t";
  create = none;
  chmod = none;
  write = none;
  sync = none;
  close = none;
  rename = none;
  remove = none;
  partial = [];
}

-- One that cannot rename, and then cannot remove the temporary file.
abbrev pub breaks : Answers
breaks = record works { rename = some (platform 1); remove = some (platform 2) }

abbrev pub sample_path : Text
sample_path = text "s"

abbrev pub empty_outbox : InvestigationOutbox
empty_outbox = record { path = sample_path; tasks = [] }

abbrev pub empty_world : World
empty_world = record { outbox = empty_outbox; directory = [] }

abbrev pub sample_platform : Platform
sample_platform = record { sha256 = sample_sha256; lower_wide = λ s. [] }

pub sample_platform-LowersWide : LowersWide sample_platform.lower_wide
unfolding to_lower is_ascii trim_space trim_left trim_right strip
sample_platform-LowersWide = record {
  lower_twice = λ s wide. refl;
  keeps_trimmed = λ s wide trimmed. refl;
}

-- An Event of a service that is out of memory.
abbrev pub sample_event : Event
sample_event = record {
  id = text "1";
  type = text " OOM";
  source = text "k";
  occurred_at = sample_time 5;
  observed_at = sample_time 6;
  environment = text "p";
  service = text "a ";
  node = [];
  workload = [];
  container = [];
  severity = text "High";
  dedupe_key = [];
  attributes = some ((text "x", text "y") ∷ []);
}

abbrev pub nonzero : Text → Bool
nonzero [] = true
nonzero (b ∷ s) = not (b == 0) && nonzero s

pub nonzero-NoNul : (s : Text) → nonzero s ≡ true → NoNul s
nonzero-NoNul [] h = tt
nonzero-NoNul (b ∷ s) h = (λ e. ground arith, nonzero-NoNul s (ground arith))
