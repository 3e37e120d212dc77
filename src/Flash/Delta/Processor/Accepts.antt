-- ===== src/Flash/Delta/Processor/Accepts.antt =====
-- Which updates the processor applies.
use ai_systems_verification.Base.{
  ◌≡◌, refl, sym, ◌∙◌, subst, ◌⊎◌, inl, inr, Bool, true, false, Option, none, some, Option-cases,
}
use mathlib.Core.Option.{none-ne-some}
use ai_systems_verification.Flash.Book.{PriceLevel, Calls, OrderBook, apply_delta}
use ai_systems_verification.Flash.Delta.{DeltaUpdate, DeltaError, DeltaResult, ok, err}
use ai_systems_verification.Flash.Delta.Tracker.{
  SequenceTracker, SequenceCheckResult, in_order, gap, out_of_order,
}
use ai_systems_verification.Flash.Delta.Validator.{
  Checks, DeltaValidationConfig, validate, asked, IsValidUpdate, validate-IsValidUpdate,
  IsValidUpdate-validate,
}
use ai_systems_verification.Flash.Delta.Processor.{
  DeltaProcessor, DeltaApplyResult, tracked, processed, Both, after_validation, after_check,
  process_delta, more,
}

abbrev pub is_gap : SequenceCheckResult → Bool
is_gap (gap g) = true
is_gap in_order = false
is_gap out_of_order = false

module _ {I F Q : Type 0} (c : Calls I F Q) (k : Checks F Q)
    (changed : Option (PriceLevel F Q) → Option (PriceLevel F Q) → Bool) where
  -- The check of the number of an update.
  abbrev pub checked : DeltaProcessor F → DeltaUpdate F Q → SequenceCheckResult × SequenceTracker
  checked p d = tracked p.config.track_sequences d.sequence p.sequence_tracker

  -- What goes with the answer to an update, where the number was found to be `check`.
  abbrev pub Fits :
      SequenceCheckResult
      → DeltaProcessor F
      → OrderBook I F Q
      → DeltaUpdate F Q
      → DeltaResult F DeltaApplyResult
      → Both c k changed
      → Type 0
  Fits check p b d (err e) (p', b') =
      (b' ≡ b)
      × (p'.stats.deltas_rejected ≡ more p.stats.deltas_rejected)
      × (p'.stats.deltas_applied ≡ p.stats.deltas_applied)
      × ((is_gap check ≡ true)
          ⊎ ((p.config.validate_before_apply ≡ true) × ¬ IsValidUpdate k p.config.validation d))
  Fits check p b d (ok r) (p', b') =
      (b' ≡ apply_delta c b d.side d.levels d.timestamp)
      × (p'.stats.deltas_rejected ≡ p.stats.deltas_rejected)
      × (p'.stats.deltas_applied ≡ more p.stats.deltas_applied)
      × (is_gap check ≡ false)
      × (p.config.validate_before_apply ≡ true → IsValidUpdate k p.config.validation d)

  asked-refuses :
      (on : Bool) (config : DeltaValidationConfig F) (d : DeltaUpdate F Q) (e : DeltaError F)
      → asked on (validate k config d) ≡ some e
      → (on ≡ true) × ¬ IsValidUpdate k config d
  asked-refuses true config d e fails =
      (refl, λ good. none-ne-some e (sym (IsValidUpdate-validate k config d good) ∙ fails))
  asked-refuses false config d e fails = absurd (none-ne-some e fails)

  asked-passes :
      (on : Bool) (config : DeltaValidationConfig F) (d : DeltaUpdate F Q)
      → asked on (validate k config d) ≡ none
      → on ≡ true
      → IsValidUpdate k config d
  asked-passes true config d passes wanted = validate-IsValidUpdate k config d passes
  asked-passes false config d passes wanted = cc

  -- What the answer comes to, whichever it is.
  abbrev pub Answered :
      SequenceCheckResult
      → DeltaProcessor F
      → OrderBook I F Q
      → DeltaUpdate F Q
      → DeltaResult F DeltaApplyResult × Both c k changed
      → Type 0
  Answered check p b d out =
      Fits check p b d out.0 out.1 × (out.1.0.sequence_tracker ≡ p.sequence_tracker)

  after_validation-Answered :
      (check : SequenceCheckResult) (p : DeltaProcessor F) (b : OrderBook I F Q)
      (d : DeltaUpdate F Q)
      → is_gap check ≡ false
      → Answered check p b d (
          after_validation c k changed
            (asked p.config.validate_before_apply (validate k p.config.validation d))
            p
            b
            d)
  after_validation-Answered check p b d none_missing =
      let on : Bool = p.config.validate_before_apply in
      let found = asked on (validate k p.config.validation d) in
      let good = λ (o : Option (DeltaError F)).
        Answered check p b d (after_validation c k changed o p b d) in
      elim (Option-cases found) [
        | inl passes ↦
            subst good (sym passes)
              ((refl, refl, refl, none_missing, asked-passes on p.config.validation d passes), refl)
        | inr (e, fails) ↦
            subst good (sym fails)
              ((refl, refl, refl, inr (asked-refuses on p.config.validation d e fails)), refl)
      ]

  after_check-Answered :
      (check : SequenceCheckResult) (p : DeltaProcessor F) (b : OrderBook I F Q)
      (d : DeltaUpdate F Q)
      → Answered check p b d (after_check c k changed check p b d)
  after_check-Answered (gap g) p b d = ((refl, refl, refl, inl refl), refl)
  after_check-Answered in_order p b d = after_validation-Answered in_order p b d refl
  after_check-Answered out_of_order p b d = after_validation-Answered out_of_order p b d refl

  -- An update is refused exactly if its number leaves a gap or it is validated and not valid; then the
  -- book is unchanged and the refusal is counted. Else, also if its number is old, the book is what
  -- `apply_delta` makes of it, and that is counted. Either way the tracker has seen the number.
  pub process_delta_lem :
      (p : DeltaProcessor F) (b : OrderBook I F Q) (d : DeltaUpdate F Q)
      → let (out, both) = process_delta c k changed p b d in
        let (check, tracker) = checked p d in
        Fits check p b d out both × (both.0.sequence_tracker ≡ tracker)
  unfolding process_delta
  process_delta_lem p b d =
      let (check, tracker) = checked p d in
      after_check-Answered check (record (processed p) { sequence_tracker = tracker }) b d
