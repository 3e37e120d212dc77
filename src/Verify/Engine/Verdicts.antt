-- ===== src/Verify/Engine/Verdicts.antt =====
-- What a verified replay should find: the verdicts on the checkpoints among the frames, in order, up
-- to the first that ends the run. This says nothing of engines, clocks or counters.
use ai_systems_verification.Base.{
  ◌≡◌, ◌≤◌, arith, length, ◌∙◌, ap, if_true, if_false, Bool, true, false, List, [], ◌∷◌,
  if◌then◌else◌, ◌==◌,
}
use ai_systems_verification.Base.Bytes.{beq_bytes}
use ai_systems_verification.Replay.Source.{DataFrame}
use ai_systems_verification.Verify.Checkpoint.{Checkpoint, Parsed, from_bytes, parsed, failed}
use ai_systems_verification.Verify.Engine.{
  Callback, VerificationResult, matched, mismatched, error, checkpoint_frame,
}

module _ {C : Type 0} (cb : Callback C) where
  -- The verdict on a checkpoint frame, by the application's state behind the frame.
  abbrev pub verdict_on : C → Checkpoint → VerificationResult
  verdict_on s c =
      let actual = cb.compute_state_hash (cb.before_verify s c) in
      if beq_bytes c.state_hash actual
      then matched c.sequence c.timestamp
      else mismatched c.sequence c.timestamp c.state_hash actual

  abbrev pub verdict_parsed : C → Parsed → VerificationResult
  verdict_parsed s (failed e) = error e
  verdict_parsed s (parsed c) = verdict_on s c

  abbrev pub state_parsed : C → Parsed → C
  state_parsed s (failed e) = s
  state_parsed s (parsed c) = cb.before_verify s c

  unfoldable pub verdict_of : C → DataFrame → VerificationResult
  verdict_of s f = verdict_parsed s (from_bytes f.payload)

  unfoldable pub state_after : C → DataFrame → C
  state_after s f = state_parsed s (from_bytes f.payload)

  unfoldable pub verdicts :
      (VerificationResult → Bool) → C → List DataFrame → List VerificationResult
  unfolding verdict_of state_after
  verdicts stop s [] = []
  verdicts stop s (f ∷ fs) =
      let seen = cb.on_frame s f in
      let onward = verdicts stop seen fs in
      let rest = verdicts stop (state_after seen f) fs in
      if f.frame_type == checkpoint_frame
      then verdict_of seen f ∷ (if stop (verdict_of seen f) then [] else rest)
      else onward

  pub length-verdicts :
      (stop : VerificationResult → Bool) (s : C) (fs : List DataFrame)
      → length (verdicts stop s fs) ≤ length fs
  unfolding verdicts
  length-verdicts stop s [] = omega arith
  length-verdicts stop s (f ∷ fs) =
      let seen = cb.on_frame s f in
      ground (arith, length-verdicts stop seen fs, length-verdicts stop (state_after seen f) fs)

  module _ (stop : VerificationResult → Bool) (s : C) (f : DataFrame) (fs : List DataFrame) where
    pub verdicts_plain :
        (f.frame_type == checkpoint_frame) ≡ false
        → verdicts stop s (f ∷ fs) ≡ verdicts stop (cb.on_frame s f) fs
    unfolding verdicts
    verdicts_plain plain = if_false plain _ _

    pub verdicts_last :
        (f.frame_type == checkpoint_frame) ≡ true
        → stop (verdict_of (cb.on_frame s f) f) ≡ true
        → verdicts stop s (f ∷ fs) ≡ verdict_of (cb.on_frame s f) f ∷ []
    unfolding verdicts
    verdicts_last here last =
        if_true here _ _
        ∙ ap (λ (l : List VerificationResult). verdict_of (cb.on_frame s f) f ∷ l)
            (if_true last _ _)

    pub verdicts_more :
        (f.frame_type == checkpoint_frame) ≡ true
        → stop (verdict_of (cb.on_frame s f) f) ≡ false
        → verdicts stop s (f ∷ fs)
          ≡ verdict_of (cb.on_frame s f) f ∷ verdicts stop (state_after (cb.on_frame s f) f) fs
    unfolding verdicts
    verdicts_more here more =
        if_true here _ _
        ∙ ap (λ (l : List VerificationResult). verdict_of (cb.on_frame s f) f ∷ l)
            (if_false more _ _)
