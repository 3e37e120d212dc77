-- ===== src/Flash/Delta/Processor/Keeps.antt =====
-- What holds of the processor and its book after any updates.
use ai_systems_verification.Base.{
  ℕ, ◌+◌, ◌%◌, ◌^◌, ◌≡◌, refl, Bool, true, false, List, [], ◌∷◌, Option, none, some, arith,
}
use ai_systems_verification.Flash.Book.{PriceLevel, Calls, OrderBook, OrderBookConfig, apply_delta}
use ai_systems_verification.Flash.Book.Sums.{IsExact}
use ai_systems_verification.Flash.Book.Sides.{AreCounts}
use ai_systems_verification.Flash.Book.Invariant.{IsBook, delta-IsBook, new-IsBook}
use ai_systems_verification.Flash.Book
use ai_systems_verification.Flash.Delta.{DeltaUpdate, DeltaBatch, DeltaError}
use ai_systems_verification.Flash.Delta.Tracker.{
  SequenceTracker, SequenceCheckResult, in_order, gap, out_of_order,
}
use ai_systems_verification.Flash.Delta.Validator.{
  Checks, validate, validate_batch, asked, AreValid, AreValidUpdates, validate-IsValidUpdate,
  validate_batch-AreValidUpdates,
}
use ai_systems_verification.Flash.Delta.Processor
use ai_systems_verification.Flash.Delta.Processor.{
  DeltaProcessor, DeltaProcessorConfig, tracked, processed, rejected, applied, gap_counted, Both,
  more, after_validation, after_check, process_delta, apply_updates, after_batch_validation,
  after_batch_check, process_batch, reset, reset_with_sequence,
}

module _ {I F Q : Type 0} (c : Calls I F Q) (k : Checks F Q)
    (changed : Option (PriceLevel F Q) → Option (PriceLevel F Q) → Bool) where
  pub data Op : Type 0 where
    one : DeltaUpdate F Q → Op
    batch : DeltaBatch F Q → Op
    was_reset : Op
    was_reset_with : ℕ → Op

  pub run : Both c k changed → Op → Both c k changed
  run (p, b) (one d) = (process_delta c k changed p b d).1
  run (p, b) (batch ds) = (process_batch c k changed p b ds).1
  run (p, b) was_reset = (reset p, b)
  run (p, b) (was_reset_with n) = (reset_with_sequence p n, b)

  pub run_all : Both c k changed → List Op → Both c k changed
  unfolding run
  run_all both [] = both
  run_all both (o ∷ os) = run_all (run both o) os

  -- The processor validates quantities; what was processed was applied or refused; and the book is one.
  pub record IsRun (both : Both c k changed) : Type 0 where
    pub validates : both.0.config.validate_before_apply ≡ true
    pub quantities : both.0.config.validation.validate_quantities ≡ true
    pub balance :
        both.0.stats.deltas_processed
        ≡ (both.0.stats.deltas_applied + both.0.stats.deltas_rejected) % 2 ^ 64
    pub book : IsBook c both.1

module _ {I F Q : Type 0} {c : Calls I F Q} (ex : IsExact c) (k : Checks F Q)
    (changed : Option (PriceLevel F Q) → Option (PriceLevel F Q) → Bool)
    (signed : (q : Q)
      → k.is_negative q ≡ false
      → c.is_positive q ≡ false
      → q ≡ c.zero_quantity) where
  AreValid-AreCounts :
      (p : DeltaProcessor F) (ls : List (PriceLevel F Q))
      → p.config.validation.validate_quantities ≡ true
      → AreValid k p.config.validation ls
      → AreCounts c ls
  AreValid-AreCounts p [] on h = tt
  AreValid-AreCounts p (l ∷ ls) on (h, hs) =
      (signed l.quantity (h.1 on), AreValid-AreCounts p ls on hs)

  after_validation-IsRun :
      (check : Option (DeltaError F)) (p : DeltaProcessor F) (b : OrderBook I F Q)
      (d : DeltaUpdate F Q)
      → IsRun c k changed (p, b)
      → (check ≡ none → AreValid k p.config.validation d.levels)
      → IsRun c k changed (after_validation c k changed check (processed p) b d).1
  after_validation-IsRun (some e) p b d h valid = record {
    validates = h.validates;
    quantities = h.quantities;
    balance = omega (arith, h.balance);
    book = h.book;
  }
  after_validation-IsRun none p b d h valid = record {
    validates = h.validates;
    quantities = h.quantities;
    balance = omega (arith, h.balance);
    book =
        delta-IsBook ex b d.side d.levels d.timestamp
          (AreValid-AreCounts p d.levels h.quantities (valid refl)) h.book;
  }

  -- What a check that is asked for lets through.
  asked-none :
      {A : Type 0} (on : Bool) (check : Option A) → on ≡ true → asked on check ≡ none → check ≡ none
  asked-none true check wanted passes = passes
  asked-none false check wanted passes = cc

  passes-AreValid :
      (p : DeltaProcessor F) (d : DeltaUpdate F Q)
      → p.config.validate_before_apply ≡ true
      → asked p.config.validate_before_apply (validate k p.config.validation d) ≡ none
      → AreValid k p.config.validation d.levels
  passes-AreValid p d on passes =
      (validate-IsValidUpdate k p.config.validation d
        (asked-none p.config.validate_before_apply (validate k p.config.validation d) on passes)).1

  -- The tracker does not matter.
  moved :
      (p : DeltaProcessor F) (b : OrderBook I F Q) (tracker : SequenceTracker)
      → IsRun c k changed (p, b)
      → IsRun c k changed (record p { sequence_tracker = tracker }, b)
  moved p b tracker h = record {
    validates = h.validates;
    quantities = h.quantities;
    balance = h.balance;
    book = h.book;
  }

  after_check-IsRun :
      (check : SequenceCheckResult) (tracker : SequenceTracker) (p : DeltaProcessor F)
      (b : OrderBook I F Q) (d : DeltaUpdate F Q)
      → IsRun c k changed (p, b)
      → IsRun c k changed
          (after_check c k changed check
            (record (processed p) { sequence_tracker = tracker })
            b
            d).1
  after_check-IsRun (gap g) tracker p b d h = record {
    validates = h.validates;
    quantities = h.quantities;
    balance = omega (arith, h.balance);
    book = h.book;
  }
  after_check-IsRun in_order tracker p b d h =
      after_validation-IsRun
        (asked p.config.validate_before_apply (validate k p.config.validation d))
        (record p { sequence_tracker = tracker }) b d (moved p b tracker h)
        (passes-AreValid p d h.validates)
  after_check-IsRun out_of_order tracker p b d h =
      after_validation-IsRun
        (asked p.config.validate_before_apply (validate k p.config.validation d))
        (record p { sequence_tracker = tracker }) b d (moved p b tracker h)
        (passes-AreValid p d h.validates)

  apply_updates-IsRun :
      (p : DeltaProcessor F) (b : OrderBook I F Q) (ds : List (DeltaUpdate F Q))
      → IsRun c k changed (p, b)
      → AreValidUpdates k p.config.validation ds
      → IsRun c k changed (apply_updates c k changed (p, b) ds)
  unfolding apply_updates
  apply_updates-IsRun p b [] h valid = h
  apply_updates-IsRun p b (d ∷ ds) h (valid, rest) =
      apply_updates-IsRun (applied (processed p)) (apply_delta c b d.side d.levels d.timestamp) ds
        (after_validation-IsRun none p b d h (λ passes. valid.1)) rest

  after_batch_validation-IsRun :
      (check : Option (DeltaError F)) (p : DeltaProcessor F) (b : OrderBook I F Q)
      (ds : List (DeltaUpdate F Q))
      → IsRun c k changed (p, b)
      → (check ≡ none → AreValidUpdates k p.config.validation ds)
      → IsRun c k changed (after_batch_validation c k changed check p b ds).1
  after_batch_validation-IsRun (some e) p b ds h valid = h
  after_batch_validation-IsRun none p b ds h valid = apply_updates-IsRun p b ds h (valid refl)

  passes-AreValidUpdates :
      (p : DeltaProcessor F) (ds : List (DeltaUpdate F Q))
      → p.config.validate_before_apply ≡ true
      → asked p.config.validate_before_apply (validate_batch k p.config.validation ds) ≡ none
      → AreValidUpdates k p.config.validation ds
  passes-AreValidUpdates p ds on passes = validate_batch-AreValidUpdates k p.config.validation ds (
      asked-none p.config.validate_before_apply (validate_batch k p.config.validation ds) on passes)

  after_batch_check-IsRun :
      (check : SequenceCheckResult) (p : DeltaProcessor F) (b : OrderBook I F Q)
      (ds : List (DeltaUpdate F Q))
      → IsRun c k changed (p, b)
      → IsRun c k changed (after_batch_check c k changed check p b ds).1
  after_batch_check-IsRun (gap g) p b ds h = record {
    validates = h.validates;
    quantities = h.quantities;
    balance = h.balance;
    book = h.book;
  }
  after_batch_check-IsRun in_order p b ds h =
      after_batch_validation-IsRun
        (asked p.config.validate_before_apply (validate_batch k p.config.validation ds)) p b ds h
        (passes-AreValidUpdates p ds h.validates)
  after_batch_check-IsRun out_of_order p b ds h =
      after_batch_validation-IsRun
        (asked p.config.validate_before_apply (validate_batch k p.config.validation ds)) p b ds h
        (passes-AreValidUpdates p ds h.validates)

  run-IsRun :
      (p : DeltaProcessor F) (b : OrderBook I F Q) (o : Op c k changed)
      → IsRun c k changed (p, b)
      → IsRun c k changed (run c k changed (p, b) o)
  unfolding run process_delta process_batch reset reset_with_sequence
  run-IsRun p b (one d) h =
      let (check, tracker) = tracked p.config.track_sequences d.sequence p.sequence_tracker in
      after_check-IsRun check tracker p b d h
  run-IsRun p b (batch ds) h =
      let (check, tracker) = tracked p.config.track_sequences ds.sequence p.sequence_tracker in
      after_batch_check-IsRun check (record p { sequence_tracker = tracker }) b ds.updates
        (moved p b tracker h)
  run-IsRun p b was_reset h = moved p b _ h
  run-IsRun p b (was_reset_with n) h = moved p b _ h

  run_all_keeps :
      (both : Both c k changed) (os : List (Op c k changed))
      → IsRun c k changed both
      → IsRun c k changed (run_all c k changed both os)
  unfolding run_all
  run_all_keeps both [] h = h
  run_all_keeps both (o ∷ os) h =
      run_all_keeps (run c k changed both o) os (run-IsRun both.0 both.1 o h)

  -- Where the decimals are exact and a quantity that is not negative and not positive is zero: a
  -- processor that validates quantities and a book, both new, come through any updates and batches
  -- with the book's invariant, and with as many updates processed as applied and refused.
  pub run_all-IsRun :
      (config : DeltaProcessorConfig F) (instrument : I) (book_config : OrderBookConfig)
      (tap : Bool) (os : List (Op c k changed))
      → config.validate_before_apply ≡ true
      → config.validation.validate_quantities ≡ true
      → IsRun c k changed
          (run_all c k changed (Processor.new config, Book.new c instrument book_config tap) os)
  unfolding Processor.new
  run_all-IsRun config instrument book_config tap os validates quantities =
      run_all_keeps _ os (record {
        validates = validates;
        quantities = quantities;
        balance = refl;
        book = new-IsBook ex instrument book_config tap;
      })
