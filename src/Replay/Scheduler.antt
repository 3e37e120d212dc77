-- ===== src/Replay/Scheduler.antt =====
-- replay/scheduler.rs, `SkipIdleScheduler`: how far a replay moves its clock before the next event.
-- A floating-point factor is a type parameter, and what the code computes with it are parameters.
use ai_systems_verification.Base.{
  ℕ, ◌+◌, ◌-◌, ◌%◌, ◌^◌, ◌≤◌, ◌<◌, ◌≡◌, Bool, true, false, ◌&&◌, Option, none, some, arith,
  if◌then◌else◌, ltb, leb, ◌==◌, max, min, not,
}
use ai_systems_verification.Base.Signed.{zero_i64, max_i64, add_i64, sub_i64}
use ai_systems_verification.Replay.Clock.{SimulatedClock, set}

pub record WarpConfig (F : Type 0) : Type 0 where
  pub idle_threshold_us : ℕ
  pub max_warp_factor : Option F

pub record WarpStats : Type 0 where
  pub total_warped_us : ℕ
  pub warp_count : ℕ

pub record SkipIdleScheduler (F : Type 0) : Type 0 where
  pub config : WarpConfig F
  pub total_warped_us : ℕ
  pub warp_count : ℕ
  pub dynamic_max_factor_scaled : ℕ

pub record ScheduleResult : Type 0 where
  pub advanced : Bool
  pub warped : Bool
  pub gap_us : ℕ
  pub remaining_us : ℕ

-- `(f * 1000.0).round() as u64`, `multiplier as f64`, and
-- `(threshold as f64 * (scaled as f64 / 1000.0)).round() as i64`.
pub record Float (F : Type 0) : Type 0 where
  pub scaled : F → ℕ
  pub of_u32 : ℕ → F
  pub max_advance : ℕ → ℕ → ℕ

module _ {F : Type 0} where
  -- `WarpConfig::default`, `with_threshold`, `real_time`, `instant` and `fast_forward`.
  pub default : WarpConfig F
  default = record { idle_threshold_us = zero_i64 + 10000; max_warp_factor = none }

  pub with_threshold : ℕ → WarpConfig F
  with_threshold threshold_us = record { idle_threshold_us = threshold_us; max_warp_factor = none }

  pub real_time : WarpConfig F
  real_time = record { idle_threshold_us = max_i64; max_warp_factor = none }

  pub instant : WarpConfig F
  instant = record { idle_threshold_us = zero_i64; max_warp_factor = none }

  pub fast_forward : Float F → ℕ → WarpConfig F
  fast_forward fl multiplier = record {
    idle_threshold_us = zero_i64 + 10000;
    max_warp_factor = some (fl.of_u32 multiplier);
  }

  abbrev pub scaled_factor : Float F → Option F → ℕ
  scaled_factor fl none = 0
  scaled_factor fl (some f) = fl.scaled f

  unfoldable pub new : Float F → WarpConfig F → SkipIdleScheduler F
  new fl config = record {
    config = config;
    total_warped_us = zero_i64;
    warp_count = 0;
    dynamic_max_factor_scaled = scaled_factor fl config.max_warp_factor;
  }

  pub set_max_warp_factor : Float F → SkipIdleScheduler F → Option F → SkipIdleScheduler F
  set_max_warp_factor fl s factor = record s { dynamic_max_factor_scaled = scaled_factor fl factor }

  -- The advance of a warp over a gap, and what remains of the gap.
  pub warp_advance : Float F → SkipIdleScheduler F → ℕ → ℕ × ℕ
  warp_advance fl s gap =
      let bound = fl.max_advance s.config.idle_threshold_us s.dynamic_max_factor_scaled in
      if s.dynamic_max_factor_scaled == 0
      then (gap, zero_i64)
      else (if ltb bound gap then (bound, sub_i64 gap bound) else (gap, zero_i64))

  pub would_warp : SkipIdleScheduler F → ℕ → Bool → Bool
  would_warp s gap_us warp_enabled = ltb s.config.idle_threshold_us gap_us && warp_enabled

  pub schedule :
      Float F
      → SkipIdleScheduler F
      → SimulatedClock
      → ℕ
      → ScheduleResult × SkipIdleScheduler F × SimulatedClock
  unfolding warp_advance set
  schedule fl s clock next_event_ts =
      let gap = sub_i64 next_event_ts clock.current in
      let (actual_advance, remaining) = warp_advance fl s gap in
      if leb gap zero_i64
      then (
        record { advanced = false; warped = false; gap_us = gap; remaining_us = zero_i64 },
        s,
        clock,
      )
      else (if ltb s.config.idle_threshold_us gap && clock.warp_enabled
          then (
            record { advanced = true; warped = true; gap_us = gap; remaining_us = remaining },
            record s {
              total_warped_us = add_i64 s.total_warped_us actual_advance;
              warp_count = (s.warp_count + 1) % 2 ^ 64;
            },
            set clock (add_i64 clock.current actual_advance),
          )
          else (
            record { advanced = true; warped = false; gap_us = gap; remaining_us = zero_i64 },
            s,
            set clock next_event_ts,
          ))

  pub stats : SkipIdleScheduler F → WarpStats
  stats s = record { total_warped_us = s.total_warped_us; warp_count = s.warp_count }

  pub reset : SkipIdleScheduler F → SkipIdleScheduler F
  reset s = record s { total_warped_us = zero_i64; warp_count = 0 }

  -- Where a schedule leaves the clock: at the event, if that lies ahead, or short of it where the
  -- warp is bounded.
  abbrev pub target : Float F → SkipIdleScheduler F → ℕ → ℕ → Bool → ℕ
  target fl s now next warped =
      let bound = fl.max_advance s.config.idle_threshold_us s.dynamic_max_factor_scaled in
      if warped && not (s.dynamic_max_factor_scaled == 0)
      then min next (now + bound - zero_i64)
      else max now next

  -- Where the gap to the next event is an `i64` and a bounded warp is not negative: the clock goes to
  -- the later of its time and the event's, save that a warp under a factor goes by the bound at most;
  -- nothing else of the clock changes; what remains of the gap is the time from the clock to the
  -- event; the schedule counts as an advance exactly if the event lies ahead, and as a warp exactly
  -- where `would_warp` says so of a gap ahead; and the statistics gain the way of the clock and one
  -- warp if it is a warp, and nothing else.
  pub schedule_lem :
      (fl : Float F) (s : SkipIdleScheduler F) (clock : SimulatedClock) (next : ℕ)
      → next < 2 ^ 64
      → clock.current < 2 ^ 64
      → next < clock.current + 2 ^ 63
      → clock.current ≤ next + 2 ^ 63
      → zero_i64 ≤ fl.max_advance s.config.idle_threshold_us s.dynamic_max_factor_scaled
      → let (out, s', clock') = schedule fl s clock next in
        (clock' ≡ record clock { current = target fl s clock.current next out.warped })
        × (out.remaining_us + clock'.current ≡ zero_i64 + max clock.current next)
        × (out.advanced ≡ ltb clock.current next)
        × (out.warped ≡ (ltb clock.current next && would_warp s out.gap_us clock.warp_enabled))
        × (out.gap_us + clock.current ≡ zero_i64 + next)
        × (s' ≡ (
            if out.warped
            then record s {
              total_warped_us =
                  add_i64 s.total_warped_us (zero_i64 + clock'.current - clock.current);
              warp_count = (s.warp_count + 1) % 2 ^ 64;
            }
            else s))
  unfolding schedule warp_advance would_warp set
  schedule_lem fl s clock next hn hc ahead behind pos = ground arith
