-- ===== src/Outbox/History.antt =====
-- Any sequence of calls, by any workers, with any failures of the platform.
use rootforge.Prelude.{ℕ, ◌≡◌, ◌<◌, false, Option, none, List, [], ◌∷◌, All, arith}
use rootforge.Prelude.Int.{ℤ}
use rootforge.Text.{Text, is_empty, text_eq, trim_space}
use rootforge.Clock.{Time, zero_instant, is_zero}
use rootforge.Dict.{lookup}
use rootforge.Failure.{Error, Result, ok}
use rootforge.Platform.{Codec, IsFaithful}
use rootforge.JsonFile.{Directory, Answers}
use rootforge.Outbox.{
  InvestigationOutbox, OutboxDiskState, Reply, ensure_pending, lease_next, complete, retry,
  open_investigation_outbox, truncate,
}
use rootforge.Outbox.Plain.{IsUtf8, IsPlainState, GivesBytes}
use rootforge.Outbox.Durable.{
  IsGood, TokenGiven, TokenIsUtf8, ensure_pending-IsGood, lease_next-IsGood, complete-IsGood,
  retry-IsGood,
}
use rootforge.Outbox.Reopen.{reopen-IsGood}

-- The calls that change an Outbox, with their arguments.
pub data Call : Type 0 where
  ensures : Text → ℕ → Call
  leases : Text → ℤ → Result Text → Call
  completes : Text → Text → Call
  retries : Text → Text → Time → Text → Call

-- A call at a time, under a context, with the answers that the file system gives to it.
pub record Invocation : Type 0 where
  pub call : Call
  pub now : Time
  pub context : Option Error
  pub answers : Answers

pub record World : Type 0 where
  pub outbox : InvestigationOutbox
  pub directory : Directory

abbrev left_by : {R : Type 0} → Reply R → World
left_by r = record { outbox = r.outbox; directory = r.directory }

-- The clock is past year 1, a token that was drawn is not empty, Retry names a time, and the
-- temporary file is not the state file. The strings to be stored are valid UTF-8, the failure text
-- of Retry after it was trimmed and cut to 2048 bytes.
abbrev pub CallIsFair : Call → Type 0
CallIsFair (ensures case_id revision) = IsUtf8 case_id
CallIsFair (leases owner duration token) =
    TokenGiven token × IsUtf8 (trim_space owner) × TokenIsUtf8 token
CallIsFair (retries id token available failure) =
    (is_zero available ≡ false) × IsUtf8 (truncate (trim_space failure) 2048)
CallIsFair (completes id token) = Unit

pub record IsFair (path : Text) (e : Invocation) : Type 0 where
  pub clock : zero_instant < e.now.instant
  pub apart : text_eq e.answers.temporary_name path ≡ false
  pub call : CallIsFair e.call

module _ (sha256 : Text → Text) (codec : Codec OutboxDiskState) where
  dispatch : Call → Invocation → World → World
  dispatch (ensures case_id revision) e w =
      left_by (
        ensure_pending sha256 codec e.context case_id revision e.now e.answers w.outbox w.directory)
  dispatch (leases owner duration token) e w =
      left_by (lease_next codec e.context owner e.now duration token e.answers w.outbox w.directory)
  dispatch (completes id token) e w =
      left_by (complete codec e.context id token e.now e.answers w.outbox w.directory)
  dispatch (retries id token available failure) e w =
      left_by
        (retry codec e.context id token e.now available failure e.answers w.outbox w.directory)

  unfoldable pub step : Invocation → World → World
  unfolding dispatch
  step e w = dispatch e.call e w

  unfoldable pub run : List Invocation → World → World
  unfolding step
  run [] w = w
  run (e ∷ es) w = run es (step e w)

  module _ (faithful : IsFaithful codec IsPlainState) (gives : GivesBytes sha256)
      (path : Text) where
    abbrev GoodWorld : World → Type 0
    GoodWorld w = IsGood sha256 codec faithful path w.outbox w.directory

    dispatch-GoodWorld :
        (c : Call) (e : Invocation) (w : World)
        → zero_instant < e.now.instant
        → text_eq e.answers.temporary_name path ≡ false
        → CallIsFair c
        → GoodWorld w
        → GoodWorld (dispatch c e w)
    unfolding dispatch
    dispatch-GoodWorld (ensures case_id revision) e w n t f g =
        ensure_pending-IsGood sha256 codec faithful path e.context case_id revision e.now e.answers
          w.outbox w.directory t (ground arith) gives f g
    dispatch-GoodWorld (leases owner duration token) e w n t f g =
        lease_next-IsGood sha256 codec faithful path e.context owner e.now duration token e.answers
          w.outbox w.directory t f.0 n f.1 f.2 g
    dispatch-GoodWorld (completes id token) e w n t f g =
        complete-IsGood sha256 codec faithful path e.context id token e.now e.answers w.outbox
          w.directory t (ground arith) g
    dispatch-GoodWorld (retries id token available failure) e w n t f g =
        retry-IsGood sha256 codec faithful path e.context id token e.now available failure e.answers
          w.outbox w.directory t (ground arith) f.0 f.1 g

    -- The state after any sequence of fair calls is valid and on disk, whichever of them failed.
    pub run-GoodWorld :
        (es : List Invocation) (w : World)
        → All (IsFair path) es
        → GoodWorld w
        → GoodWorld (run es w)
    unfolding run
    run-GoodWorld [] w f g = g
    run-GoodWorld (e ∷ es) w f g =
        run-GoodWorld es (step e w) f.1
          (dispatch-GoodWorld e.call e w f.0.clock f.0.apart f.0.call g)

    -- A process that starts with no state file, or with a good one, can be stopped after any
    -- sequence of fair calls, whichever of them failed: the Outbox opens again, and has the same
    -- task under every identifier. The codec gives back states of valid UTF-8 strings, UTC times and
    -- known statuses, SHA-256 gives bytes, and the directory has a name and can be made. In a fair
    -- call the clock is past year 1, the temporary file is not the state file, a drawn token is not
    -- empty, Retry names a time, and the Case identifier, the trimmed owner, the token, and the
    -- failure text, trimmed and cut to 2048 bytes, are valid UTF-8.
    pub open_investigation_outbox-run :
        (es : List Invocation) (w : World) (name made : Text)
        → All (IsFair path) es
        → GoodWorld w
        → is_empty name ≡ false
        → (found : InvestigationOutbox) × (open_investigation_outbox sha256 codec name
              (ok made)
              none
              path
              (run es w).directory
            ≡ ok found)
          × ((k : Text) → lookup k found.tasks ≡ lookup k (run es w).outbox.tasks)
    open_investigation_outbox-run es w name made f g given =
        reopen-IsGood sha256 codec faithful path (run es w).outbox (run es w).directory name made
          given (run-GoodWorld es w f g)
