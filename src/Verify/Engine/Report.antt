-- ===== src/Verify/Engine/Report.antt =====
-- The report of a run is right.
use ai_systems_verification.Base.{
  ℕ, zero, suc, ◌^◌, ◌<◌, ◌≡◌, sym, ap, ◌∙◌, subst, true, List, Option, none, some, arith, if_true,
  if_false, ◌==◌, inl, inr, Bool-cases, length, drop, length-drop,
}
use mathlib.Core.Option.{some-injective}
use ai_systems_verification.Base.Bytes.{beq_bytes}
use ai_systems_verification.Replay
use ai_systems_verification.Replay.Scheduler.{Float}
use ai_systems_verification.Replay.Source.{BufferedDataSource, remaining}
use ai_systems_verification.Replay.Engine.{
  ReplayEngine, StepResult, processed, noop, with_start_time,
}
use ai_systems_verification.Verify.Checkpoint.{from_bytes, parsed, failed, Parsed}
use ai_systems_verification.Verify.Comparator.{compare}
use ai_systems_verification.Verify.Engine.{
  Callback, VerificationResult, matched, mismatched, error, is_successful, VerifyingReplayEngine,
  VerifyConfig, checkpoint_frame, verify_parsed, verify_checkpoint, found, seen, observe, onward,
  step, play, with_config, run_rounds, run_with_verification, stops, incr,
}
use ai_systems_verification.Verify.Engine.Counts.{
  Counted, Counted-snoc, Counted-events, no_results-Counted, stats_with, comparator_with,
  first_mismatch, all_match, is_successful-all_match,
}
use ai_systems_verification.Verify.Engine.Verdicts.{verdicts, length-verdicts}
use ai_systems_verification.Verify.Engine.Run.{run_with_verification-verdicts}

module _ {F C : Type 0} (fl : Float F) (cb : Callback C) where
  abbrev pub IsCounted : VerifyingReplayEngine F C → Type 0
  IsCounted v = Counted v.stats v.comparator v.results

  verify_parsed-IsCounted :
      (v : VerifyingReplayEngine F C) (p : Parsed)
      → IsCounted v
      → IsCounted (verify_parsed fl cb (found fl cb v) p).1
  unfolding verify_parsed compare stats_with comparator_with
  verify_parsed-IsCounted v (failed e) k = Counted-snoc k (error e)
  verify_parsed-IsCounted v (parsed c) k =
      let actual : List ℕ = cb.compute_state_hash (cb.before_verify v.callback c) in
      elim (Bool-cases (beq_bytes c.state_hash actual)) [
        | inl e ↦ rw e (Counted-snoc k (matched c.sequence c.timestamp))
        | inr e ↦ rw e (Counted-snoc k (mismatched c.sequence c.timestamp c.state_hash actual))
      ]

  observe-IsCounted :
      (v : VerifyingReplayEngine F C) (r : StepResult)
      → IsCounted v
      → IsCounted (observe fl cb v r).2
  unfolding observe verify_checkpoint
  observe-IsCounted v StepResult.completed k = k
  observe-IsCounted v noop k = k
  observe-IsCounted v (processed f r) k =
      let w : VerifyingReplayEngine F C = seen fl cb v f in
      let counted : IsCounted w = Counted-events k (incr v.stats.events_processed) in
      elim (Bool-cases (f.frame_type == checkpoint_frame)) [
        | inl e ↦ rw e (verify_parsed-IsCounted w (from_bytes f.payload) counted)
        | inr e ↦ rw e counted
      ]

  pub step-IsCounted : (v : VerifyingReplayEngine F C) → IsCounted v → IsCounted (step fl cb v).2
  unfolding step
  step-IsCounted v k =
      observe-IsCounted (record v { engine = (Replay.Engine.step fl v.engine).1 })
        (Replay.Engine.step fl v.engine).0 k

  onward-IsCounted :
      (rest : VerifyingReplayEngine F C → Option (VerifyingReplayEngine F C))
      (x : StepResult × Option VerificationResult × VerifyingReplayEngine F C)
      (v' : VerifyingReplayEngine F C)
      → IsCounted x.2
      → ((w : VerifyingReplayEngine F C) → IsCounted w → rest w ≡ some v' → IsCounted v')
      → onward fl cb rest x ≡ some v'
      → IsCounted v'
  onward-IsCounted rest (StepResult.completed, verdict, v) v' k ih e =
      subst IsCounted (some-injective v v' e) k
  onward-IsCounted rest (noop, verdict, v) v' k ih e = ih v k e
  onward-IsCounted rest (processed f r, none, v) v' k ih e = ih v k e
  onward-IsCounted rest (processed f r, some out, v) v' k ih e =
      elim (Bool-cases (stops v.config out)) [
        | inl last ↦ subst IsCounted (some-injective v v' (sym (if_true last _ _) ∙ e)) k
        | inr more ↦ ih v k (sym (if_false more _ _) ∙ e)
      ]

  run_rounds-IsCounted :
      (fuel : ℕ) (v v' : VerifyingReplayEngine F C)
      → IsCounted v
      → run_rounds fl cb fuel v ≡ some v'
      → IsCounted v'
  unfolding run_rounds
  run_rounds-IsCounted zero v v' k e = cc
  run_rounds-IsCounted (suc fuel) v v' k e =
      onward-IsCounted (run_rounds fl cb fuel) (step fl cb v) v' (step-IsCounted v k)
        (λ w kw ew. run_rounds-IsCounted fuel w v' kw ew) e

  -- A new verifying engine over an active source, with fewer frames than its counters can count, runs
  -- to an end. Its run is a success exactly if every verdict on the checkpoints on its way is a match,
  -- and the first mismatch that it names is the first among those verdicts.
  pub run_with_verification-reports :
      (fuel : ℕ) (source : BufferedDataSource) (s : C) (config : VerifyConfig F)
      → source.active ≡ true
      → remaining source < fuel
      → remaining source < 2 ^ 64
      → let due = verdicts cb (stops config) s (drop source.index source.frames) in
        (v' : VerifyingReplayEngine F C) × (run_with_verification fl cb fuel
            (with_config fl cb source s config)
          ≡ some v')
        × (v'.results ≡ due)
        × (is_successful v'.stats ≡ all_match due)
        × (v'.stats.first_mismatch_sequence ≡ first_mismatch due)
  unfolding with_config with_start_time run_with_verification play remaining
  run_with_verification-reports fuel source s config act enough few =
      let v : VerifyingReplayEngine F C = with_config fl cb source s config in
      let (v', done, results) = run_with_verification-verdicts fl cb fuel v act enough in
      let k : IsCounted v' = run_rounds-IsCounted fuel _ v' no_results-Counted done in
      (
        v',
        done,
        results,
        subst (λ rs. is_successful v'.stats ≡ all_match rs) results
            (is_successful-all_match k (
              omega (
                arith,
                ap length results,
                length-verdicts cb (stops config) s (drop source.index source.frames),
                length-drop source.index source.frames,
              ))),
        k.first_lem ∙ ap first_mismatch results,
      )
