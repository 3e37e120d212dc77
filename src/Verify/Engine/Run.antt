-- ===== src/Verify/Engine/Run.antt =====
-- The run of a verifying engine: it ends, and finds what `Verdicts` says.
use ai_systems_verification.Base.{
  ℕ, zero, suc, ◌<◌, ◌≡◌, refl, sym, ap, ap₂, ◌∙◌, subst, true, false, List, [], ◌∷◌, ◌++◌,
  append_assoc, append-nil, Option, none, some, arith, if◌then◌else◌, if_true, if_false, ◌==◌, inl,
  inr, Bool-cases, length, get_elem?, drop,
}
use ai_systems_verification.Base.Bytes.{beq_bytes}
use ai_systems_verification.Replay
use ai_systems_verification.Replay.Clock
use ai_systems_verification.Replay.Engine.Again.{play_active}
use ai_systems_verification.Replay.Scheduler.{Float, ScheduleResult}
use ai_systems_verification.Replay.Source.{DataFrame, remaining}
use ai_systems_verification.Replay.Engine.{
  ReplayEngine, StepResult, ReplayState, processed, playing, is_playing,
}
use ai_systems_verification.Replay.Engine.Runs.{
  get_elem?-cases, playing_may_step, Advanced, step_frame, step_end,
}
use ai_systems_verification.Verify.Checkpoint.{from_bytes, parsed, failed, Parsed}
use ai_systems_verification.Verify.Comparator.{compare}
use ai_systems_verification.Verify.Engine.{
  Callback, VerificationResult, VerifyingReplayEngine, VerifyConfig, checkpoint_frame, stops,
  verify_parsed, verify_checkpoint, found, seen, observe, onward, step, run_rounds,
  run_with_verification, play,
}
use ai_systems_verification.Verify.Engine.Verdicts.{
  verdict_of, state_after, verdict_parsed, state_parsed, verdicts, verdicts_plain, verdicts_last,
  verdicts_more,
}

drop-get_elem? {ℓ} :
    {A : Type ℓ} (xs : List A) (i : ℕ) (x : A)
    → get_elem? xs i ≡ some x
    → drop i xs ≡ x ∷ drop (suc i) xs
drop-get_elem? [] i x h = cc
drop-get_elem? (y ∷ ys) zero x h = cc
drop-get_elem? (y ∷ ys) (suc i) x h = drop-get_elem? ys i x h

drop_end {ℓ} : {A : Type ℓ} (xs : List A) (i : ℕ) → get_elem? xs i ≡ none → drop i xs ≡ []
drop_end [] zero h = refl
drop_end [] (suc i) h = refl
drop_end (y ∷ ys) zero h = cc
drop_end (y ∷ ys) (suc i) h = drop_end ys i h

module _ {F C : Type 0} (fl : Float F) (cb : Callback C) where
  -- What the verification of a checkpoint frame leaves.
  record Verified (v v' : VerifyingReplayEngine F C) (f : DataFrame) (out : VerificationResult)
      : Type 0 where
    verdict : out ≡ verdict_of cb v.callback f
    callback : v'.callback ≡ state_after cb v.callback f
    results : v'.results ≡ v.results ++ verdict_of cb v.callback f ∷ []
    engine : v'.engine ≡ v.engine
    config : v'.config ≡ v.config

  verify_parsed-Verified :
      (v : VerifyingReplayEngine F C) (f : DataFrame) (p : Parsed)
      → let (out, v') = verify_parsed fl cb v p in
        (out ≡ verdict_parsed cb v.callback p)
        × (v'.callback ≡ state_parsed cb v.callback p)
        × (v'.results ≡ v.results ++ verdict_parsed cb v.callback p ∷ [])
        × (v'.engine ≡ v.engine)
        × (v'.config ≡ v.config)
  unfolding verify_parsed compare
  verify_parsed-Verified v f (failed e) = (refl, refl, refl, refl, refl)
  verify_parsed-Verified v f (parsed c) =
      elim (Bool-cases
        (beq_bytes c.state_hash (cb.compute_state_hash (cb.before_verify v.callback c)))) [
          | inl e ↦ rw e (refl, refl, refl, refl, refl)
          | inr e ↦ rw e (refl, refl, refl, refl, refl)
        ]

  verify_checkpoint-Verified :
      (v : VerifyingReplayEngine F C) (f : DataFrame)
      → let (out, v') = verify_checkpoint fl cb v f in Verified v v' f out
  unfolding verify_checkpoint verdict_of state_after
  verify_checkpoint-Verified v f =
      let (verdict, callback, results, engine, config) =
        verify_parsed-Verified (found fl cb v) f (from_bytes f.payload) in
      record {
        verdict = verdict;
        callback = callback;
        results = results;
        engine = engine;
        config = config;
      }

  -- The engine behind a frame, once the frame is counted and seen.
  abbrev at : VerifyingReplayEngine F C → DataFrame → VerifyingReplayEngine F C
  at v f = seen fl cb (record v { engine = (Replay.Engine.step fl v.engine).1 }) f

  step-at :
      (v : VerifyingReplayEngine F C) (f : DataFrame) (r : ScheduleResult)
      → (Replay.Engine.step fl v.engine).0 ≡ processed f r
      → step fl cb v ≡ (
          if f.frame_type == checkpoint_frame
          then (
            processed f r,
            some (verify_checkpoint fl cb (at v f) f).0,
            (verify_checkpoint fl cb (at v f) f).1,
          )
          else (processed f r, none, at v f))
  unfolding step observe
  step-at v f r out =
      ap (observe fl cb (record v { engine = (Replay.Engine.step fl v.engine).1 })) out

  run_at_frame :
      (fuel : ℕ) (v : VerifyingReplayEngine F C) (f : DataFrame) (r : ScheduleResult)
      → (Replay.Engine.step fl v.engine).0 ≡ processed f r
      → (f.frame_type == checkpoint_frame) ≡ false
      → run_rounds fl cb (suc fuel) v ≡ run_rounds fl cb fuel (at v f)
  unfolding run_rounds
  run_at_frame fuel v f r out plain =
      ap (onward fl cb (run_rounds fl cb fuel)) (step-at v f r out ∙ if_false plain _ _)

  run_at_checkpoint :
      (fuel : ℕ) (v : VerifyingReplayEngine F C) (f : DataFrame) (r : ScheduleResult)
      → (Replay.Engine.step fl v.engine).0 ≡ processed f r
      → (f.frame_type == checkpoint_frame) ≡ true
      → let (out, v') = verify_checkpoint fl cb (at v f) f in
        run_rounds fl cb (suc fuel) v
        ≡ (if stops v'.config out then some v' else run_rounds fl cb fuel v')
  unfolding run_rounds
  run_at_checkpoint fuel v f r out here =
      ap (onward fl cb (run_rounds fl cb fuel)) (step-at v f r out ∙ if_true here _ _)

  run_end :
      (fuel : ℕ) (v : VerifyingReplayEngine F C) (e : ReplayEngine F)
      → Replay.Engine.step fl v.engine ≡ (StepResult.completed, e)
      → run_rounds fl cb (suc fuel) v ≡ some (record v { engine = e })
  unfolding run_rounds step observe
  run_end fuel v e out =
      ap
        (λ (p : StepResult × ReplayEngine F).
          onward fl cb (run_rounds fl cb fuel) (observe fl cb (record v { engine = p.1 }) p.0))
        out

  -- A run from `v` has ended in `v'`.
  abbrev Ended : VerifyingReplayEngine F C → Option (VerifyingReplayEngine F C) → Type 0
  Ended v out =
      (v' : VerifyingReplayEngine F C) × (out ≡ some v')
      × (v'.results
          ≡ v.results
            ++ verdicts cb (stops v.config) v.callback
                (drop v.engine.data_source.index v.engine.data_source.frames))

  -- The frames behind the one that a step takes.
  behind :
      (v : VerifyingReplayEngine F C) (f : DataFrame)
      → get_elem? v.engine.data_source.frames v.engine.data_source.index ≡ some f
      → Advanced v.engine (Replay.Engine.step fl v.engine).1
      → let source = (Replay.Engine.step fl v.engine).1.data_source in
        drop v.engine.data_source.index v.engine.data_source.frames
        ≡ f ∷ drop source.index source.frames
  behind v f here a =
      drop-get_elem? v.engine.data_source.frames v.engine.data_source.index f here
      ∙ ap (λ (i : ℕ). f ∷ drop i v.engine.data_source.frames) (sym a.index)
      ∙ ap
          (λ (fs : List DataFrame).
            f ∷ drop (Replay.Engine.step fl v.engine).1.data_source.index fs)
          (sym a.frames)

  module _ (fuel : ℕ) (v : VerifyingReplayEngine F C) (f : DataFrame) (r : ScheduleResult)
      (here : get_elem? v.engine.data_source.frames v.engine.data_source.index ≡ some f)
      (out : (Replay.Engine.step fl v.engine).0 ≡ processed f r)
      (a : Advanced v.engine (Replay.Engine.step fl v.engine).1) where
    plain-Ended :
        (f.frame_type == checkpoint_frame) ≡ false
        → Ended (at v f) (run_rounds fl cb fuel (at v f))
        → Ended v (run_rounds fl cb (suc fuel) v)
    plain-Ended plain (v', e, found_rest) = (
      v',
      run_at_frame fuel v f r out plain ∙ e,
      found_rest
          ∙ sym (
              ap (λ (fs : List DataFrame). v.results ++ verdicts cb (stops v.config) v.callback fs)
                (behind v f here a)
              ∙ ap (λ (l : List VerificationResult). v.results ++ l)
                  (verdicts_plain cb (stops v.config) v.callback f _ plain)),
    )

    checkpoint-Ended :
        (f.frame_type == checkpoint_frame) ≡ true
        → let w = (verify_checkpoint fl cb (at v f) f).1 in
          Ended w (run_rounds fl cb fuel w) → Ended v (run_rounds fl cb (suc fuel) v)
    checkpoint-Ended ck (v', e, found_rest) =
        let w : VerifyingReplayEngine F C = (verify_checkpoint fl cb (at v f) f).1 in
        let k : Verified (at v f) w f (verify_checkpoint fl cb (at v f) f).0 =
          verify_checkpoint-Verified (at v f) f in
        let verdict : VerificationResult = verdict_of cb (cb.on_frame v.callback f) f in
        let same : stops w.config (verify_checkpoint fl cb (at v f) f).0 ≡ stops v.config verdict =
          ap₂ (λ (c : VerifyConfig F) (x : VerificationResult). stops c x) k.config k.verdict in
        let all : (fs : List VerificationResult)
            → verdicts cb (stops v.config) v.callback (
                f
                ∷ drop (Replay.Engine.step fl v.engine).1.data_source.index
                    (Replay.Engine.step fl v.engine).1.data_source.frames)
              ≡ fs
            → v.results ++ fs
              ≡ v.results
                ++ verdicts cb (stops v.config) v.callback
                    (drop v.engine.data_source.index v.engine.data_source.frames) =
          λ fs q. sym (
            ap (λ (fs : List DataFrame). v.results ++ verdicts cb (stops v.config) v.callback fs)
              (behind v f here a)
            ∙ ap (λ (l : List VerificationResult). v.results ++ l) q) in
        elim (Bool-cases (stops v.config verdict)) [
          | inl last ↦ (
            w,
            run_at_checkpoint fuel v f r out ck ∙ if_true (same ∙ last) _ _,
            k.results ∙ all _ (verdicts_last cb (stops v.config) v.callback f _ ck last),
          )
          | inr more ↦ (
            v',
            run_at_checkpoint fuel v f r out ck ∙ if_false (same ∙ more) _ _ ∙ e,
            found_rest
                ∙ (λ i.
                    k.results i
                    ++ verdicts cb (stops (k.config i)) (k.callback i)
                        (drop (k.engine i).data_source.index (k.engine i).data_source.frames))
                ∙ append_assoc v.results (verdict ∷ []) _
                ∙ all _ (verdicts_more cb (stops v.config) v.callback f _ ck more),
          )
        ]

  run_rounds-Ended :
      (fuel : ℕ) (v : VerifyingReplayEngine F C)
      → is_playing v.engine.state ≡ true
      → v.engine.data_source.active ≡ true
      → remaining v.engine.data_source < fuel
      → Ended v (run_rounds fl cb fuel v)
  unfolding remaining verdicts
  run_rounds-Ended zero v on act enough = absurd (omega arith)
  run_rounds-Ended (suc fuel) v on act enough =
      elim (get_elem?-cases v.engine.data_source.frames v.engine.data_source.index) [
        | inr (le, here) ↦ (
          _,
          run_end fuel v _ (step_end fl v.engine (playing_may_step v.engine.state on) act here),
          sym (append-nil v.results)
              ∙ ap
                  (λ (fs : List DataFrame). v.results ++ verdicts cb (stops v.config) v.callback fs)
                  (sym (drop_end v.engine.data_source.frames v.engine.data_source.index here)),
        )
        | inl (lt, f, here) ↦
            let (r, out, a) =
              step_frame fl v.engine f (playing_may_step v.engine.state on) act here in
            let left : remaining (Replay.Engine.step fl v.engine).1.data_source < fuel =
              omega (arith, a.index, ap length a.frames) in
            elim (Bool-cases (f.frame_type == checkpoint_frame)) [
              | inr plain ↦
                  plain-Ended fuel v f r here out a plain
                    (run_rounds-Ended fuel (at v f) (ap is_playing a.state ∙ on) a.active left)
              | inl ck ↦
                  let engine = (verify_checkpoint-Verified (at v f) f).engine in
                  checkpoint-Ended fuel v f r here out a ck (
                    run_rounds-Ended fuel (verify_checkpoint fl cb (at v f) f).1
                      (ap (λ (e : ReplayEngine F). is_playing e.state) engine
                        ∙ ap is_playing a.state
                        ∙ on)
                      (ap (λ (e : ReplayEngine F). e.data_source.active) engine ∙ a.active)
                      (subst (λ (e : ReplayEngine F). remaining e.data_source < fuel) (sym engine)
                        left))
            ]
      ]

  -- A run over an active source ends, and adds to the results exactly the verdicts on the checkpoints
  -- among the frames that were left, in order, up to the first at which the configuration stops it.
  pub run_with_verification-verdicts :
      (fuel : ℕ) (v : VerifyingReplayEngine F C)
      → v.engine.data_source.active ≡ true
      → remaining v.engine.data_source < fuel
      → (v' : VerifyingReplayEngine F C) × (run_with_verification fl cb fuel v ≡ some v')
        × (v'.results
            ≡ v.results
              ++ verdicts cb
                  (stops v.config)
                  v.callback
                  (drop v.engine.data_source.index v.engine.data_source.frames))
  unfolding run_with_verification play remaining
  run_with_verification-verdicts fuel v act enough =
      let e : ReplayEngine F = v.engine in
      let on : Replay.Engine.play e ≡ record e { state = playing; clock = Clock.resume e.clock } =
        play_active e act in
      let (v', done, found_all) =
        run_rounds-Ended fuel
          (record v { engine = record e { state = playing; clock = Clock.resume e.clock } }) refl
          act enough in
      (
        v',
        ap (λ (e : ReplayEngine F). run_rounds fl cb fuel (record v { engine = e })) on ∙ done,
        found_all,
      )
