-- ===== src/Verify/Engine.antt =====
-- verify/verifying_engine.rs, `VerifyingReplayEngine` over a `BufferedDataSource`: a replay that
-- compares a hash of the application's state with each checkpoint on its way. The texts of errors are
-- the errors, and the match rate and the summary are left out.
pub mod Verdicts
pub mod Counts
pub mod Run
pub mod Report
pub mod Stuck
use ai_systems_verification.Base.{
  ℕ, zero, suc, ◌+◌, ◌%◌, ◌^◌, Bool, true, false, ◌&&◌, ◌||◌, List, [], ◌∷◌, ◌++◌, Option, none,
  some, if◌then◌else◌, ◌==◌, replicate,
}
use ai_systems_verification.Base.Signed.{zero_i64}
use ai_systems_verification.Replay.Scheduler
use ai_systems_verification.Replay.Scheduler.{WarpConfig, Float}
use ai_systems_verification.Replay.Source.{BufferedDataSource, DataFrame}
use ai_systems_verification.Replay
use ai_systems_verification.Replay.Engine.{ReplayEngine, StepResult, noop, processed}
use ai_systems_verification.Verify.Checkpoint.{
  Checkpoint, CheckpointError, Parsed, parsed, failed, from_bytes,
}
use ai_systems_verification.Verify.Comparator
use ai_systems_verification.Verify.Comparator.{
  ReplayComparator, CompareResult, same, mismatch, compare,
}

-- `FrameType::Checkpoint`.
abbrev pub checkpoint_frame : ℕ
checkpoint_frame = 0x03

-- `VerificationCallback`, over the application's state.
pub record Callback (C : Type 0) : Type 0 where
  pub compute_state_hash : C → List ℕ
  pub on_frame : C → DataFrame → C
  pub before_verify : C → Checkpoint → C

-- `FixedHashCallback`: its state is the hash.
abbrev pub fixed_hash : Callback (List ℕ)
fixed_hash = record {
  compute_state_hash = λ hash. hash;
  on_frame = λ hash frame. hash;
  before_verify = λ hash checkpoint. hash;
}

pub zeros : List ℕ
zeros = replicate 32 0

pub data VerificationResult : Type 0 where
  matched : ℕ → ℕ → VerificationResult
  mismatched : ℕ → ℕ → List ℕ → List ℕ → VerificationResult
  error : CheckpointError → VerificationResult

abbrev pub is_match : VerificationResult → Bool
is_match (matched sequence timestamp) = true
is_match _ = false

abbrev pub is_mismatch : VerificationResult → Bool
is_mismatch (mismatched sequence timestamp expected actual) = true
is_mismatch _ = false

abbrev pub is_error : VerificationResult → Bool
is_error (error e) = true
is_error _ = false

pub record VerificationStats : Type 0 where
  pub events_processed : ℕ
  pub checkpoints_found : ℕ
  pub checkpoints_matched : ℕ
  pub checkpoints_mismatched : ℕ
  pub errors : ℕ
  pub first_mismatch_sequence : Option ℕ

abbrev pub no_stats : VerificationStats
no_stats = record {
  events_processed = 0;
  checkpoints_found = 0;
  checkpoints_matched = 0;
  checkpoints_mismatched = 0;
  errors = 0;
  first_mismatch_sequence = none;
}

pub is_successful : VerificationStats → Bool
is_successful s = s.checkpoints_mismatched == 0 && s.errors == 0

abbrev pub incr : ℕ → ℕ
incr n = (n + 1) % 2 ^ 64

pub record VerifyConfig (F : Type 0) : Type 0 where
  pub stop_on_mismatch : Bool
  pub stop_on_error : Bool
  pub warp_config : WarpConfig F

pub record VerifyingReplayEngine (F C : Type 0) : Type 0 where
  pub engine : ReplayEngine F
  pub callback : C
  pub comparator : ReplayComparator
  pub config : VerifyConfig F
  pub stats : VerificationStats
  pub results : List VerificationResult

-- `VerifyConfig::default`, `stop_on_mismatch` and `continue_on_error`.
module _ {F : Type 0} where
  pub default : VerifyConfig F
  default = record {
    stop_on_mismatch = false;
    stop_on_error = true;
    warp_config = Scheduler.default;
  }

  pub stop_on_mismatch : VerifyConfig F
  unfolding default
  stop_on_mismatch = record default { stop_on_mismatch = true }

  pub continue_on_error : VerifyConfig F
  unfolding default
  continue_on_error = record default { stop_on_error = false }

  -- Whether a run ends after a result.
  abbrev pub stops : VerifyConfig F → VerificationResult → Bool
  stops config result =
      (config.stop_on_mismatch && is_mismatch result) || (config.stop_on_error && is_error result)

module _ {F C : Type 0} (fl : Float F) (cb : Callback C) where
  unfoldable pub with_config : BufferedDataSource → C → VerifyConfig F → VerifyingReplayEngine F C
  with_config source callback config = record {
    engine = Replay.Engine.with_start_time fl source config.warp_config zero_i64;
    callback = callback;
    comparator = Comparator.new;
    config = config;
    stats = no_stats;
    results = [];
  }

  pub new : BufferedDataSource → C → VerifyingReplayEngine F C
  unfolding with_config default
  new source callback = with_config source callback default

  abbrev pub found : VerifyingReplayEngine F C → VerifyingReplayEngine F C
  found v = record v {
    stats = record (v.stats) { checkpoints_found = incr v.stats.checkpoints_found };
  }

  abbrev pub fails : VerifyingReplayEngine F C → CheckpointError → VerifyingReplayEngine F C
  fails v e = record v {
    stats = record (v.stats) { errors = incr v.stats.errors };
    results = v.results ++ error e ∷ [];
  }

  -- The result of a comparison, counted.
  abbrev pub judged :
      VerifyingReplayEngine F C
      → Checkpoint
      → CompareResult
      → VerificationResult × VerifyingReplayEngine F C
  judged v c same = (
    matched c.sequence c.timestamp,
    record v {
      stats = record (v.stats) { checkpoints_matched = incr v.stats.checkpoints_matched };
      results = v.results ++ matched c.sequence c.timestamp ∷ [];
    },
  )
  judged v c (mismatch original replayed sequence) = (
    mismatched sequence c.timestamp original replayed,
    record v {
      stats = record (v.stats) {
        checkpoints_mismatched = incr v.stats.checkpoints_mismatched;
        first_mismatch_sequence = elim v.stats.first_mismatch_sequence [
          | none ↦ some sequence
          | some first ↦ some first
        ];
      };
      results = v.results ++ mismatched sequence c.timestamp original replayed ∷ [];
    },
  )

  -- What follows once the payload is read, or is not.
  verify_parsed :
      VerifyingReplayEngine F C → Parsed → VerificationResult × VerifyingReplayEngine F C
  verify_parsed v (failed e) = (error e, fails v e)
  verify_parsed v (parsed c) =
      let callback = cb.before_verify v.callback c in
      let actual = cb.compute_state_hash callback in
      let (outcome, comparator) = compare v.comparator c.sequence c.timestamp c.state_hash actual in
      judged (record v { callback = callback; comparator = comparator }) c outcome

  pub verify_checkpoint :
      VerifyingReplayEngine F C → DataFrame → VerificationResult × VerifyingReplayEngine F C
  unfolding verify_parsed
  verify_checkpoint v frame = verify_parsed (found v) (from_bytes frame.payload)

  -- An engine that has seen a frame.
  abbrev pub seen : VerifyingReplayEngine F C → DataFrame → VerifyingReplayEngine F C
  seen v frame = record v {
    stats = record (v.stats) { events_processed = incr v.stats.events_processed };
    callback = cb.on_frame v.callback frame;
  }

  -- What a step makes of the replay's result.
  observe :
      VerifyingReplayEngine F C
      → StepResult
      → StepResult × Option VerificationResult × VerifyingReplayEngine F C
  unfolding verify_checkpoint
  observe v StepResult.completed = (StepResult.completed, none, v)
  observe v noop = (noop, none, v)
  observe v (processed frame schedule) =
      let (verdict, v') = verify_checkpoint (seen v frame) frame in
      if frame.frame_type == checkpoint_frame
      then (processed frame schedule, some verdict, v')
      else (processed frame schedule, none, seen v frame)

  pub step :
      VerifyingReplayEngine F C → StepResult × Option VerificationResult × VerifyingReplayEngine F C
  unfolding observe
  step v =
      let (result, engine) = Replay.Engine.step fl v.engine in
      observe (record v { engine = engine }) result

  pub play : VerifyingReplayEngine F C → VerifyingReplayEngine F C
  play v = record v { engine = Replay.Engine.play v.engine }

  pub pause : VerifyingReplayEngine F C → VerifyingReplayEngine F C
  pause v = record v { engine = Replay.Engine.pause v.engine }

  -- How the loop of `run_with_verification` goes on after a step.
  abbrev onward :
      (VerifyingReplayEngine F C → Option (VerifyingReplayEngine F C))
      → StepResult × Option VerificationResult × VerifyingReplayEngine F C
      → Option (VerifyingReplayEngine F C)
  onward rest (StepResult.completed, verdict, v) = some v
  onward rest (noop, verdict, v) = rest v
  onward rest (processed frame schedule, none, v) = rest v
  onward rest (processed frame schedule, some r, v) = if stops v.config r then some v else rest v

  -- At most `fuel` rounds of the loop; `none` where it has not ended.
  pub run_rounds : ℕ → VerifyingReplayEngine F C → Option (VerifyingReplayEngine F C)
  unfolding step
  run_rounds zero v = none
  run_rounds (suc fuel) v = onward (run_rounds fuel) (step v)

  -- `run_with_verification`; its result is the statistics of the engine that it leaves.
  pub run_with_verification : ℕ → VerifyingReplayEngine F C → Option (VerifyingReplayEngine F C)
  unfolding run_rounds play
  run_with_verification fuel v = run_rounds fuel (play v)

  pub reset : VerifyingReplayEngine F C → VerifyingReplayEngine F C
  reset v = record v {
    engine = Replay.Engine.reset v.engine;
    comparator = Comparator.new;
    stats = no_stats;
    results = [];
  }
