-- ===== src/Tests/Queue.antt =====
-- Runs of the Outbox across its file: tasks made, leased and completed, with a failing rename.
use rootforge.Prelude.{ℕ, ◌≡◌, ◌≤◌, refl, none, List, [], ◌∷◌, inl, arith}
use rootforge.Prelude.Int.{pos}
use rootforge.Text.{Text, text, text_eq, is_empty, trim_space, trim_left, trim_right, strip}
use rootforge.Text.Utf8.{is_utf8}
use rootforge.Dict.{lookup}
use rootforge.Failure.{ok}
use rootforge.Outbox.{InvestigationOutbox, open_investigation_outbox}
use rootforge.Outbox.Invariant.{IsValid-nil}
use rootforge.Outbox.Durable.{IsGood}
use rootforge.Outbox.History.{
  Call, ensures, leases, Invocation, IsFair, CallIsFair, run, open_investigation_outbox-run,
}
use rootforge.Tests.Codec.{sample_codec, sample_codec-IsFaithful}
use rootforge.Tests.Sample.{
  sample_sha256, sample_sha256-GivesBytes, sample_time, sample_path, works, breaks, empty_world,
}

abbrev at : ℕ → Call → Invocation
at n c = record { call = c; now = sample_time n; context = none; answers = works }

-- Two Cases are scheduled; the first lease fails on the file system, the second holds.
abbrev calls : List Invocation
calls =
    at 1 (ensures (text "c") 1)
    ∷ (record (at 2 (leases (text "w") (pos 9) (ok (text "k")))) { answers = breaks })
    ∷ at 3 (leases (text "w") (pos 9) (ok (text "k")))
    ∷ []

at-IsFair : (n : ℕ) (c : Call) → 1 ≤ n → CallIsFair c → IsFair sample_path (at n c)
at-IsFair n c later fair = record {
  clock = omega arith;
  apart = unfold text_eq in refl;
  call = fair;
}

empty_world-IsGood :
    IsGood sample_sha256 sample_codec sample_codec-IsFaithful sample_path empty_world.outbox
      empty_world.directory
empty_world-IsGood = record {
  at_path = refl;
  valid = IsValid-nil sample_sha256;
  plain = tt;
  on_disk = unfold lookup in inl (refl, refl);
}

lease_fair : CallIsFair (leases (text "w") (pos 9) (ok (text "k")))
unfolding is_empty is_utf8 trim_space trim_left trim_right strip
lease_fair = (refl, refl, refl)

case_id_fair : CallIsFair (ensures (text "c") 1)
unfolding is_utf8
case_id_fair = refl

breaks-IsFair :
    IsFair sample_path
      (record (at 2 (leases (text "w") (pos 9) (ok (text "k")))) { answers = breaks })
breaks-IsFair = record { clock = omega arith; apart = unfold text_eq in refl; call = lease_fair }

open_investigation_outbox-run_example :
    (found : InvestigationOutbox) × (open_investigation_outbox sample_sha256 sample_codec
        (text "d")
        (ok (text "d"))
        none
        sample_path
        (run sample_sha256 sample_codec calls empty_world).directory
      ≡ ok found)
    × ((k : Text)
        → lookup k found.tasks
          ≡ lookup k (run sample_sha256 sample_codec calls empty_world).outbox.tasks)
open_investigation_outbox-run_example =
    open_investigation_outbox-run sample_sha256 sample_codec sample_codec-IsFaithful
      sample_sha256-GivesBytes sample_path calls empty_world (text "d") (text "d")
      (
        at-IsFair 1 _ (omega arith) case_id_fair,
        (breaks-IsFair, (at-IsFair 3 _ (omega arith) lease_fair, tt)),
      )
      empty_world-IsGood (unfold is_empty in refl)
