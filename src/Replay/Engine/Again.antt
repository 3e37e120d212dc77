-- ===== src/Replay/Engine/Again.antt =====
-- A replay that is reset and played again.
use ai_systems_verification.Base.{
  ◌^◌, ◌<◌, ◌≡◌, refl, Bool, true, ◌||◌, if_true, if_false, false, arith, length,
}
use ai_systems_verification.Replay.Clock
use ai_systems_verification.Replay.Scheduler.{Float}
use ai_systems_verification.Replay.Source
use ai_systems_verification.Replay.Source.{remaining}
use ai_systems_verification.Replay.Engine.{
  ReplayEngine, ReplayState, playing, play, reset, may_step, step, noop, run_to_completion,
}
use ai_systems_verification.Replay.Engine.Runs.{run_to_completion_lem}

or_true : (a b c : Bool) → b ≡ true → (a || (b || c)) ≡ true
or_true a b c h = ground arith

module _ {F : Type 0} where
  pub play_active :
      (e : ReplayEngine F)
      → e.data_source.active ≡ true
      → play e ≡ record e { state = playing; clock = Clock.resume e.clock }
  unfolding play
  play_active e act =
      if_true (or_true e.reader_loaded e.data_source.active (Source.has_next e.data_source) act) _ _

  -- An engine with no journal and a source that is not active is not started.
  pub play_inactive :
      (e : ReplayEngine F) → e.reader_loaded ≡ false → e.data_source.active ≡ false → play e ≡ e
  unfolding play Source.has_next Source.peek
  play_inactive e none_loaded off = rw (none_loaded, off) refl

  -- Neither playing nor paused, an engine does not step.
  pub step_off :
      (fl : Float F) (e : ReplayEngine F) → may_step e.state ≡ false → step fl e ≡ (noop, e)
  unfolding step
  step_off fl e off = if_false off _ _

  play-reset :
      (e : ReplayEngine F)
      → e.data_source.active ≡ true
      → play (reset e) ≡ record (reset e) { state = playing; clock = Clock.resume (reset e).clock }
  unfolding reset Source.reset
  play-reset e act = play_active (reset e) act

  -- Reset and played again, an engine over an active source, whose event counter is a `u64`, runs
  -- over all the frames of the source, wherever it stood and whatever its state was, and is then
  -- completed.
  pub run_to_completion-reset :
      (fl : Float F) (e : ReplayEngine F)
      → e.data_source.active ≡ true
      → e.events_processed < 2 ^ 64
      → let (total, e') = run_to_completion fl (play (reset e)) in
        (total ≡ length e.data_source.frames)
        × (e'.state ≡ ReplayState.completed)
        × (e'.data_source.index ≡ total)
  unfolding reset Source.reset remaining
  run_to_completion-reset fl e act small = rw (play-reset e act) (
      let (all, done, index) =
        run_to_completion_lem fl
          (record (reset e) { state = playing; clock = Clock.resume (reset e).clock }) refl act
          small in
      (omega (arith, all), done, omega (arith, index)))
