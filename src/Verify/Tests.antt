-- ===== src/Verify/Tests.antt =====
-- Verified replays of three frames, two of them checkpoints.
use ai_systems_verification.Base.{
  ℕ, ◌+◌, ◌≡◌, refl, List, [], ◌∷◌, none, some, true, false, arith, replicate,
}
use ai_systems_verification.Base.Signed.{zero_i64}
use ai_systems_verification.Replay.Scheduler
use ai_systems_verification.Replay.Scheduler.{Float}
use ai_systems_verification.Replay.Source.{BufferedDataSource, DataFrame, remaining}
use ai_systems_verification.Replay.Engine.{with_start_time}
use ai_systems_verification.Verify.Checkpoint.{to_bytes}
use ai_systems_verification.Verify.Engine.{
  VerifyConfig, VerifyingReplayEngine, with_config, fixed_hash, run_with_verification,
  is_successful, stops,
}
use ai_systems_verification.Verify.Engine.Verdicts.{verdicts}
use ai_systems_verification.Verify.Engine.Counts.{all_match, first_mismatch}
use ai_systems_verification.Verify.Engine.Report.{run_with_verification-reports}
use ai_systems_verification.Verify.Engine.Stuck.{run_with_verification_stuck}

abbrev whole : Float ℕ
whole = record {
  scaled = λ (f : ℕ). f;
  of_u32 = λ (n : ℕ). n;
  max_advance = λ (threshold : ℕ) (scaled : ℕ). zero_i64;
}

abbrev good : List ℕ
good = replicate 32 7

abbrev frame_at : ℕ → ℕ → List ℕ → DataFrame
frame_at time kind payload = record {
  timestamp = zero_i64 + time;
  exchange = 1;
  frame_type = kind;
  payload = payload;
}

-- A trade, a checkpoint with the hash of the state, and one with another.
abbrev three_frames : BufferedDataSource
three_frames = record {
  frames =
      frame_at 1 0x12 (9 ∷ [])
      ∷ frame_at 2 0x03 (to_bytes (record { sequence = 0; timestamp = 2; state_hash = good }))
      ∷ frame_at 3 0x03
          (to_bytes (record { sequence = 1; timestamp = 3; state_hash = replicate 32 8 }))
      ∷ [];
  index = 0;
  active = true;
}

abbrev config : VerifyConfig ℕ
config = record { stop_on_mismatch = true; stop_on_error = true; warp_config = Scheduler.default }

run_with_verification-reports_example :
    let due = verdicts fixed_hash (stops config) good three_frames.frames in
    (v' : VerifyingReplayEngine ℕ (List ℕ)) × (run_with_verification whole fixed_hash 4
        (with_config whole fixed_hash three_frames good config)
      ≡ some v')
    × (v'.results ≡ due)
    × (is_successful v'.stats ≡ all_match due)
    × (v'.stats.first_mismatch_sequence ≡ first_mismatch due)
unfolding remaining
run_with_verification-reports_example =
    run_with_verification-reports whole fixed_hash 4 three_frames good config refl (omega arith)
      (omega arith)

abbrev unstarted : VerifyingReplayEngine ℕ (List ℕ)
unstarted =
    with_config whole fixed_hash (record { frames = []; index = 0; active = false }) good config

run_with_verification_stuck_example : run_with_verification whole fixed_hash 100 unstarted ≡ none
unfolding with_config with_start_time
run_with_verification_stuck_example =
    run_with_verification_stuck whole fixed_hash 100 unstarted refl refl refl
