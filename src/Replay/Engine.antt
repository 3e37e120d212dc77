-- ===== src/Replay/Engine.antt =====
-- replay/engine.rs, `ReplayEngine`, over a `BufferedDataSource`: the state machine of a replay.
pub mod Runs
pub mod Round
pub mod Until
pub mod Again
use ai_systems_verification.Base.{
  ℕ, zero, suc, ◌+◌, ◌-◌, ◌%◌, ◌^◌, Bool, true, false, not, ◌&&◌, ◌||◌, List, [], ◌∷◌, Option, none,
  some, if◌then◌else◌, ltb, ◌==◌,
}
use ai_systems_verification.Base.Signed.{zero_i64}
use ai_systems_verification.Replay.Clock
use ai_systems_verification.Replay.Clock.{SimulatedClock}
use ai_systems_verification.Replay.Scheduler
use ai_systems_verification.Replay.Scheduler.{
  SkipIdleScheduler, ScheduleResult, WarpConfig, Float, schedule,
}
use ai_systems_verification.Replay.Source
use ai_systems_verification.Replay.Source.{BufferedDataSource, DataFrame}

pub data ReplayMode : Type 0 where
  step_mode : ReplayMode
  real_time : ReplayMode
  fast_forward : ℕ → ReplayMode
  warp_speed : ReplayMode

pub data ReplayState : Type 0 where
  idle : ReplayState
  playing : ReplayState
  paused : ReplayState
  completed : ReplayState

-- `StepResult`: `processed` has the frame and its schedule.
pub data StepResult : Type 0 where
  completed : StepResult
  noop : StepResult
  processed : DataFrame → ScheduleResult → StepResult

pub record ReplayEngine (F : Type 0) : Type 0 where
  pub clock : SimulatedClock
  pub mode : ReplayMode
  pub state : ReplayState
  pub data_source : BufferedDataSource
  pub scheduler : SkipIdleScheduler F
  pub events_processed : ℕ
  pub session_events : ℕ
  pub reader_loaded : Bool

abbrev pub max_steps : ℕ
max_steps = 1000

abbrev pub is_playing : ReplayState → Bool
is_playing playing = true
is_playing _ = false

abbrev pub may_step : ReplayState → Bool
may_step playing = true
may_step paused = true
may_step _ = false

module _ {F : Type 0} where
  -- `with_start_time`, and from the epoch `with_data_source`.
  unfoldable pub with_start_time : Float F → BufferedDataSource → WarpConfig F → ℕ → ReplayEngine F
  unfolding Scheduler.new
  with_start_time fl source config start_time = record {
    clock = Clock.new start_time;
    mode = step_mode;
    state = idle;
    data_source = source;
    scheduler = Scheduler.new fl config;
    events_processed = 0;
    session_events = 0;
    reader_loaded = false;
  }

  pub set_mode : Float F → ReplayEngine F → ReplayMode → ReplayEngine F
  set_mode fl e warp_speed = record e {
    mode = warp_speed;
    clock = Clock.enable_warp e.clock;
    scheduler = Scheduler.set_max_warp_factor fl e.scheduler none;
  }
  set_mode fl e (fast_forward multiplier) = record e {
    mode = fast_forward multiplier;
    clock = Clock.enable_warp e.clock;
    scheduler = Scheduler.set_max_warp_factor fl e.scheduler (some (fl.of_u32 multiplier));
  }
  set_mode fl e step_mode = record e {
    mode = step_mode;
    clock = Clock.disable_warp e.clock;
    scheduler = Scheduler.set_max_warp_factor fl e.scheduler none;
  }
  set_mode fl e real_time = record e {
    mode = real_time;
    clock = Clock.disable_warp e.clock;
    scheduler = Scheduler.set_max_warp_factor fl e.scheduler none;
  }

  pub play : ReplayEngine F → ReplayEngine F
  play e =
      if e.reader_loaded || (e.data_source.active || Source.has_next e.data_source)
      then record e { state = playing; clock = Clock.resume e.clock }
      else e

  pub pause : ReplayEngine F → ReplayEngine F
  pause e =
      if is_playing e.state then record e { state = paused; clock = Clock.pause e.clock } else e

  pub toggle : ReplayEngine F → ReplayEngine F
  unfolding play pause
  toggle e = elim e.state [ playing ↦ pause e | paused ↦ play e | idle ↦ play e | completed ↦ e ]

  -- An event taken from the source and counted, once its schedule is known.
  pub take_event : ReplayEngine F → ScheduleResult → StepResult × ReplayEngine F
  take_event e result =
      let (frame, source) = Source.next e.data_source in
      elim frame [
        | none ↦
            (StepResult.completed, record e { data_source = source; state = ReplayState.completed })
        | some f ↦ (
          processed f result,
          record e {
            data_source = source;
            events_processed = (e.events_processed + 1) % 2 ^ 64;
            session_events = (e.session_events + 1) % 2 ^ 64;
          },
        )
      ]

  pub step : Float F → ReplayEngine F → StepResult × ReplayEngine F
  unfolding take_event
  step fl e =
      if may_step e.state
      then elim (Source.peek_timestamp e.data_source) [
        | none ↦ (StepResult.completed, record e { state = ReplayState.completed })
        | some next_ts ↦
            let (result, scheduler, clock) = schedule fl e.scheduler e.clock next_ts in
            take_event (record e { scheduler = scheduler; clock = clock }) result
      ]
      else (noop, e)

  -- The rounds of `step_until_event`, at most `steps` of them.
  pub step_rounds : ℕ → Float F → ReplayEngine F → StepResult × ReplayEngine F
  unfolding take_event
  step_rounds zero fl e = (noop, e)
  step_rounds (suc steps) fl e = elim (Source.peek_timestamp e.data_source) [
    | none ↦ (StepResult.completed, record e { state = ReplayState.completed })
    | some next_ts ↦
        let (result, scheduler, clock) = schedule fl e.scheduler e.clock next_ts in
        let moved = record e { scheduler = scheduler; clock = clock } in
        let rest = step_rounds steps fl moved in
        if result.remaining_us == zero_i64 then take_event moved result else rest
  ]

  pub step_until_event : Float F → ReplayEngine F → StepResult × ReplayEngine F
  unfolding step_rounds
  step_until_event fl e = step_rounds max_steps fl e

  -- The loop of `tick`, which ends after `max_events` rounds at the latest.
  tick_rounds : ℕ → Float F → ReplayEngine F → ℕ × ReplayEngine F
  unfolding step
  tick_rounds zero fl e = (0, e)
  tick_rounds (suc left) fl e =
      let (result, e') = step fl e in
      let rest = tick_rounds left fl e' in
      elim result [
        | StepResult.completed ↦ (0, e')
        | noop ↦ (0, e')
        | processed f r ↦ (rest.0 + 1, rest.1)
      ]

  pub tick : Float F → ReplayEngine F → ℕ → ℕ × ReplayEngine F
  unfolding tick_rounds
  tick fl e max_events = if is_playing e.state then tick_rounds max_events fl e else (0, e)

  -- The loop of `run_to_completion`, at most `fuel` rounds of it (`Runs` shows what is enough).
  run_rounds : ℕ → Float F → ReplayEngine F → ℕ × ReplayEngine F
  unfolding tick
  run_rounds zero fl e = (0, e)
  run_rounds (suc fuel) fl e =
      let (count, e') = tick fl e 10000 in
      let rest = run_rounds fuel fl e' in if count == 0 then (0, e') else (count + rest.0, rest.1)

  pub run_to_completion : Float F → ReplayEngine F → ℕ × ReplayEngine F
  unfolding run_rounds
  run_to_completion fl e = run_rounds (Source.remaining e.data_source + 1) fl e

  pub reset : ReplayEngine F → ReplayEngine F
  reset e = record e {
    state = idle;
    clock = Clock.resume (Clock.set e.clock zero_i64);
    data_source = Source.reset e.data_source;
    scheduler = Scheduler.reset e.scheduler;
    session_events = 0;
  }
