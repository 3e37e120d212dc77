-- ===== src/Replay/Engine/Round.antt =====
-- A round of `step_until_event` of the replay engine, with a frame ahead.
use ai_systems_verification.Base.{
  ℕ, suc, ◌+◌, ◌-◌, ◌%◌, ◌^◌, ◌≤◌, ◌<◌, ◌≡◌, ◌≢◌, ap, true, Option, some, arith, if◌then◌else◌,
  get_elem?, ◌==◌,
}
use ai_systems_verification.Base.Signed.{zero_i64}
use ai_systems_verification.Replay.Scheduler.{
  Float, ScheduleResult, SkipIdleScheduler, schedule, schedule_lem, target,
}
use ai_systems_verification.Replay.Clock.{SimulatedClock}
use ai_systems_verification.Replay.Source
use ai_systems_verification.Replay.Source.{BufferedDataSource, DataFrame}
use ai_systems_verification.Replay.Engine.{ReplayEngine, processed, take_event, step_rounds}

module _ {F : Type 0} where
  -- What holds of an engine with the frame `f` ahead: the times are near enough for their
  -- difference, and the bound of a warp is not negative.
  pub record Ahead (fl : Float F) (e : ReplayEngine F) (f : DataFrame) : Type 0 where
    pub active : e.data_source.active ≡ true
    pub here : get_elem? e.data_source.frames e.data_source.index ≡ some f
    pub time : f.timestamp < 2 ^ 64
    pub clock : e.clock.current < 2 ^ 64
    pub near : f.timestamp < e.clock.current + 2 ^ 63
    pub behind : e.clock.current ≤ f.timestamp + 2 ^ 63
    pub forward :
        zero_i64
        ≤ fl.max_advance e.scheduler.config.idle_threshold_us e.scheduler.dynamic_max_factor_scaled

  -- The way of a bounded warp.
  abbrev pub stride : Float F → ReplayEngine F → ℕ
  stride fl e =
      fl.max_advance e.scheduler.config.idle_threshold_us e.scheduler.dynamic_max_factor_scaled
      - zero_i64

  -- The engine with its clock at `now`, and the statistics of the warps at those of `s`.
  abbrev pub moved_to : ReplayEngine F → ℕ → SkipIdleScheduler F → ReplayEngine F
  moved_to e now s = record e {
    clock = record (e.clock) { current = now };
    scheduler = record (e.scheduler) {
      total_warped_us = s.total_warped_us;
      warp_count = s.warp_count;
    };
  }

  -- The engine with the next frame taken from the source and counted.
  abbrev pub taken : ReplayEngine F → ReplayEngine F
  taken e = record e {
    data_source = record (e.data_source) { index = e.data_source.index + 1 };
    events_processed = (e.events_processed + 1) % 2 ^ 64;
    session_events = (e.session_events + 1) % 2 ^ 64;
  }

  -- The engine once its clock has been moved towards `f`.
  abbrev pub moved : Float F → ReplayEngine F → DataFrame → ReplayEngine F
  moved fl e f = record e {
    scheduler = (schedule fl e.scheduler e.clock f.timestamp).1;
    clock = (schedule fl e.scheduler e.clock f.timestamp).2;
  }

  -- A round of the loop, and the end of one that has got to the frame.
  pub round :
      (steps : ℕ) (fl : Float F) (e : ReplayEngine F) (f : DataFrame)
      → Ahead fl e f
      → step_rounds (suc steps) fl e ≡ (
          if (schedule fl e.scheduler e.clock f.timestamp).0.remaining_us == zero_i64
          then take_event (moved fl e f) (schedule fl e.scheduler e.clock f.timestamp).0
          else step_rounds steps fl (moved fl e f))
  unfolding step_rounds
  round steps fl e f a = rw (Source.peek_frame e.data_source f a.active a.here, step_rounds)

  pub take :
      (fl : Float F) (e : ReplayEngine F) (f : DataFrame) (r : ScheduleResult)
      → Ahead fl e f
      → take_event (moved fl e f) r ≡ (processed f r, taken (moved fl e f))
  unfolding take_event
  take fl e f r a = rw (
    Source.next_frame e.data_source f a.active a.here,
    ap (λ (p : Option DataFrame × BufferedDataSource). p.1)
        (Source.next_frame e.data_source f a.active a.here),
    take_event,
  )

  -- A schedule moves the clock, and counts a warp.
  pub moved_lem :
      (fl : Float F) (e : ReplayEngine F) (f : DataFrame)
      → Ahead fl e f
      → (moved fl e f ≡ moved_to e (moved fl e f).clock.current (moved fl e f).scheduler)
        × ((moved fl e f).scheduler.warp_count % 2 ^ 64
            ≡ (e.scheduler.warp_count
                + (if (schedule fl e.scheduler e.clock f.timestamp).0.warped then 1 else 0))
              % 2 ^ 64)
  moved_lem fl e f a =
      let (clock, rest, adv, warped, gap, stats) =
        schedule_lem fl e.scheduler e.clock f.timestamp a.time a.clock a.near a.behind a.forward in
      ground arith

  -- A round that does not get to the frame is a bounded warp.
  pub on_the_way_lem :
      (fl : Float F) (e : ReplayEngine F) (f : DataFrame)
      → Ahead fl e f
      → (schedule fl e.scheduler e.clock f.timestamp).0.remaining_us ≢ zero_i64
      → (e.clock.current + stride fl e < f.timestamp)
        × ((moved fl e f).clock.current ≡ e.clock.current + stride fl e)
        × ((schedule fl e.scheduler e.clock f.timestamp).0.warped ≡ true)
  on_the_way_lem fl e f a far =
      let (clock, rest, adv, warped, gap, stats) =
        schedule_lem fl e.scheduler e.clock f.timestamp a.time a.clock a.near a.behind a.forward in
      let at : (moved fl e f).clock.current
          ≡ target fl e.scheduler e.clock.current f.timestamp
              (schedule fl e.scheduler e.clock f.timestamp).0.warped =
        ap (λ (c : SimulatedClock). c.current) clock in
      ground arith
