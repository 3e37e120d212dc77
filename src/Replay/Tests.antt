-- ===== src/Replay/Tests.antt =====
-- The replay on concrete clocks, schedules and sources of two frames.
use ai_systems_verification.Base.{
  ℕ, ◌+◌, ◌-◌, ◌*◌, ◌<◌, ◌≡◌, ◌⊎◌, if◌then◌else◌, ◌∷◌, [], refl, true, false, arith,
}
use ai_systems_verification.Base.Signed.{zero_i64, add_i64}
use ai_systems_verification.Replay.Clock
use ai_systems_verification.Replay.Clock.{SimulatedClock, advance_to, advance_to_lem}
use ai_systems_verification.Replay.Scheduler
use ai_systems_verification.Replay.Scheduler.{
  SkipIdleScheduler, Float, schedule, target, schedule_lem, would_warp,
}
use ai_systems_verification.Replay.Source.{BufferedDataSource, DataFrame, remaining}
use ai_systems_verification.Replay.Engine.{
  ReplayEngine, ReplayState, playing, with_start_time, run_to_completion, step_until_event,
}
use ai_systems_verification.Replay.Engine.{play, reset}
use ai_systems_verification.Replay.Engine.Again.{run_to_completion-reset}
use ai_systems_verification.Replay.Engine.Runs.{run_to_completion_lem}
use ai_systems_verification.Replay.Engine.Round.{Ahead, stride}
use ai_systems_verification.Replay.Engine.Until.{Processed, Warped, step_until_event_lem}

-- Factors that are whole numbers.
abbrev whole : Float ℕ
whole = record {
  scaled = λ (f : ℕ). f * 1000;
  of_u32 = λ (n : ℕ). n;
  max_advance = λ (threshold : ℕ) (scaled : ℕ). zero_i64 + 10000 * scaled;
}

abbrev clock_at_5 : SimulatedClock
clock_at_5 = record { current = zero_i64 + 5; paused = false; warp_enabled = true }

abbrev scheduler : SkipIdleScheduler ℕ
scheduler = record {
  config = Scheduler.default;
  total_warped_us = zero_i64;
  warp_count = 0;
  dynamic_max_factor_scaled = 0;
}

abbrev two_frames : BufferedDataSource
two_frames = record {
  frames =
      record { timestamp = zero_i64 + 100; exchange = 1; frame_type = 1; payload = [] }
      ∷ record { timestamp = zero_i64 + 50000; exchange = 1; frame_type = 2; payload = 7 ∷ [] }
      ∷ [];
  index = 0;
  active = true;
}

abbrev engine : ReplayEngine ℕ
engine = record (with_start_time whole two_frames Scheduler.default zero_i64) { state = playing }

schedule_lem_example :
    let (out, s', clock') = schedule whole scheduler clock_at_5 (zero_i64 + 50000) in
    (clock' ≡ record clock_at_5 {
      current = target whole scheduler (zero_i64 + 5) (zero_i64 + 50000) out.warped;
    })
    × (out.remaining_us + clock'.current ≡ zero_i64 + (zero_i64 + 50000))
    × (out.advanced ≡ true)
    × (out.warped ≡ would_warp scheduler out.gap_us true)
    × (out.gap_us + (zero_i64 + 5) ≡ zero_i64 + (zero_i64 + 50000))
    × (s' ≡ (
        if out.warped
        then record scheduler {
          total_warped_us = add_i64 zero_i64 (zero_i64 + clock'.current - (zero_i64 + 5));
          warp_count = 1;
        }
        else scheduler))
schedule_lem_example =
    schedule_lem whole scheduler clock_at_5 (zero_i64 + 50000) (omega arith) (omega arith)
      (omega arith) (omega arith) (omega arith)

run_to_completion_lem_example :
    let (total, e') = run_to_completion whole engine in
    (total ≡ 2) × (e'.state ≡ ReplayState.completed) × (e'.data_source.index ≡ 0 + total)
unfolding with_start_time remaining
run_to_completion_lem_example = run_to_completion_lem whole engine refl refl (omega arith)

abbrev first_frame : DataFrame
first_frame = record { timestamp = zero_i64 + 100; exchange = 1; frame_type = 1; payload = [] }

first_frame-Ahead : Ahead whole engine first_frame
unfolding with_start_time Clock.new Scheduler.new
first_frame-Ahead = record {
  active = refl;
  here = refl;
  time = omega arith;
  clock = omega arith;
  near = omega arith;
  behind = omega arith;
  forward = omega arith;
}

step_until_event_lem_example :
    Processed 1000 whole engine first_frame (step_until_event whole engine)
    ⊎ ((engine.clock.current + 1000 * stride whole engine < first_frame.timestamp)
        × Warped 1000 whole engine (step_until_event whole engine))
step_until_event_lem_example = step_until_event_lem whole engine first_frame first_frame-Ahead

-- Both frames have been played.
abbrev ended : ReplayEngine ℕ
ended = record engine {
  state = ReplayState.completed;
  data_source = record two_frames { index = 2 };
  events_processed = 2;
  session_events = 2;
}

run_to_completion-reset_example :
    let (total, e') = run_to_completion whole (play (reset ended)) in
    (total ≡ 2) × (e'.state ≡ ReplayState.completed) × (e'.data_source.index ≡ total)
unfolding with_start_time
run_to_completion-reset_example = run_to_completion-reset whole ended refl (omega arith)
