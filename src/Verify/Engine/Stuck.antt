-- ===== src/Verify/Engine/Stuck.antt =====
-- A verifying engine whose replay was not started.
use ai_systems_verification.Base.{ℕ, zero, suc, ◌≡◌, refl, ap, ◌∙◌, false, none}
use ai_systems_verification.Replay.Scheduler.{Float}
use ai_systems_verification.Replay.Engine.{ReplayEngine, StepResult, may_step}
use ai_systems_verification.Replay.Engine.Again.{play_inactive, step_off}
use ai_systems_verification.Verify.Engine.{
  Callback, VerifyingReplayEngine, observe, onward, step, run_rounds, play, run_with_verification,
}

module _ {F C : Type 0} (fl : Float F) (cb : Callback C) where
  run_rounds_off :
      (fuel : ℕ) (v : VerifyingReplayEngine F C)
      → may_step v.engine.state ≡ false
      → run_rounds fl cb fuel v ≡ none
  unfolding run_rounds step observe
  run_rounds_off zero v off = refl
  run_rounds_off (suc fuel) v off =
      ap
        (λ (p : StepResult × ReplayEngine F).
          onward fl cb (run_rounds fl cb fuel) (observe fl cb (record v { engine = p.1 }) p.0))
        (step_off fl v.engine off)
      ∙ run_rounds_off fuel v off

  -- On a source that is not active, with no journal loaded, and an engine that is neither playing nor
  -- paused, `run_with_verification` never ends: no number of rounds is enough.
  pub run_with_verification_stuck :
      (fuel : ℕ) (v : VerifyingReplayEngine F C)
      → v.engine.reader_loaded ≡ false
      → v.engine.data_source.active ≡ false
      → may_step v.engine.state ≡ false
      → run_with_verification fl cb fuel v ≡ none
  unfolding run_with_verification play
  run_with_verification_stuck fuel v unloaded off idle =
      ap (λ (e : ReplayEngine F). run_rounds fl cb fuel (record v { engine = e }))
        (play_inactive v.engine unloaded off)
      ∙ run_rounds_off fuel v idle
