-- ===== src/Replay/Clock.antt =====
-- replay/simulated_clock.rs, `SimulatedClock`: the clock that a replay moves. Its copies share one
-- state, which is the state here.
use ai_systems_verification.Base.{ℕ, ◌≡◌, Bool, true, false, arith, if◌then◌else◌, ltb, max}
use ai_systems_verification.Base.Signed.{zero_i64, add_i64}

pub record SimulatedClock : Type 0 where
  pub current : ℕ
  pub paused : Bool
  pub warp_enabled : Bool

unfoldable pub new : ℕ → SimulatedClock
new start = record { current = start; paused = false; warp_enabled = true }

pub at_epoch : SimulatedClock
unfolding new
at_epoch = new zero_i64

unfoldable pub set : SimulatedClock → ℕ → SimulatedClock
set clock time = record clock { current = time }

pub advance : SimulatedClock → ℕ → SimulatedClock
advance clock micros = record clock { current = add_i64 clock.current micros }

pub advance_to : SimulatedClock → ℕ → Bool × SimulatedClock
advance_to clock target =
    if ltb clock.current target then (true, record clock { current = target }) else (false, clock)

pub pause : SimulatedClock → SimulatedClock
pause clock = record clock { paused = true }

pub resume : SimulatedClock → SimulatedClock
resume clock = record clock { paused = false }

pub enable_warp : SimulatedClock → SimulatedClock
enable_warp clock = record clock { warp_enabled = true }

pub disable_warp : SimulatedClock → SimulatedClock
disable_warp clock = record clock { warp_enabled = false }

-- `advance_to` sets the later of the two times, says whether that moved the clock, and leaves the
-- rest of the clock as it was. A second call with the same target does nothing.
pub advance_to_lem :
    (clock : SimulatedClock) (target : ℕ)
    → let (moved, clock') = advance_to clock target in
      (clock' ≡ record clock { current = max clock.current target })
      × (moved ≡ ltb clock.current clock'.current)
      × (advance_to clock' target ≡ (false, clock'))
unfolding advance_to
advance_to_lem clock target = ground arith
