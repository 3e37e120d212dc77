-- ===== src/Flash/Delta/Tests.antt =====
-- Updates of a small order book: prices and quantities are numbers, all finite and none negative.
use ai_systems_verification.Base.{
  ℕ, ◌≡◌, refl, Bool, true, false, not, List, [], ◌∷◌, Option, none, some, arith, ltb, ◌==◌, max,
}
use ai_systems_verification.Flash.Book.{PriceLevel, bid, ask, OrderBook, apply_delta}
use ai_systems_verification.Flash.Book.Tests.{calls, calls-IsExact, level, two_levels}
use ai_systems_verification.Flash.Book
use ai_systems_verification.Flash.Delta.{DeltaUpdate, with_sequence}
use ai_systems_verification.Flash.Delta.Tracker.{
  SequenceTracker, default, record_sequence, start_recovery, complete_recovery,
}
use ai_systems_verification.Flash.Delta.Tracker
use ai_systems_verification.Flash.Delta.Tracker.Walk.{
  Reach, here, next, recorded, IsTracking, Reach-IsTracking, answer, record_sequence_lem,
}
use ai_systems_verification.Flash.Delta.Validator.{Checks, DeltaValidationConfig}
use ai_systems_verification.Flash.Delta.Processor.{
  DeltaProcessor, DeltaProcessorConfig, process_delta,
}
use ai_systems_verification.Flash.Delta.Processor
use ai_systems_verification.Flash.Delta.Processor.Accepts.{checked, Fits, process_delta_lem}
use ai_systems_verification.Flash.Delta.Processor.Keeps.{
  Op, one, batch, was_reset, run_all, IsRun, run_all-IsRun,
}

abbrev first_number : SequenceTracker
first_number = (record_sequence (Tracker.new default) 7).1

walk : Reach (Tracker.new default) (record_sequence first_number 9).1
walk = next (next here (recorded (Tracker.new default) 7)) (recorded first_number 9)

Reach-IsTracking_example : IsTracking default.max_gaps (record_sequence first_number 9).1
Reach-IsTracking_example = Reach-IsTracking default walk

record_sequence_lem_example :
    let (out, t) = record_sequence first_number 9 in
    (out ≡ answer 8 9) × (t.last_sequence ≡ some (max 7 9))
unfolding record_sequence Tracker.new
record_sequence_lem_example =
    record_sequence_lem first_number 7 9
      (Reach-IsTracking default (next here (recorded (Tracker.new default) 7))) refl (omega arith)

abbrev checks : Checks ℕ ℕ
checks = record { is_finite = λ p. true; less = λ a b. ltb a b; is_negative = λ q. false }

abbrev validation : DeltaValidationConfig ℕ
validation = record {
  validate_prices = true;
  validate_quantities = true;
  validate_timestamps = false;
  max_price = 1000;
  min_price = 0;
  max_levels_per_update = 2;
}

abbrev updates : List (DeltaUpdate ℕ ℕ)
updates = with_sequence 7 bid (level 100 3 ∷ []) 1 ∷ with_sequence 8 ask (level 2000 3 ∷ []) 2 ∷ []

abbrev changed : Option (PriceLevel ℕ ℕ) → Option (PriceLevel ℕ ℕ) → Bool
changed none none = false
changed none (some b) = true
changed (some a) none = true
changed (some a) (some b) = not (a.price == b.price)

abbrev config : DeltaProcessorConfig ℕ
config = record {
  validate_before_apply = true;
  track_sequences = true;
  auto_request_snapshot = true;
  max_pending_gaps = 5;
  validation = validation;
  sequence = default;
}

abbrev processor : DeltaProcessor ℕ
processor = Processor.new config

abbrev book : OrderBook ℕ ℕ ℕ
book = Book.new calls 0 two_levels false

process_delta_lem_example :
    let d = with_sequence 7 bid (level 100 3 ∷ []) 1 in
    let (out, both) = process_delta calls checks changed processor book d in
    let (check, tracker) = checked calls checks changed processor d in
    Fits calls checks changed check processor book d out both × (both.0.sequence_tracker ≡ tracker)
process_delta_lem_example =
    process_delta_lem calls checks changed processor book (with_sequence 7 bid (level 100 3 ∷ []) 1)

abbrev operations : List (Op calls checks changed)
operations =
    one (with_sequence 7 bid (level 100 3 ∷ []) 1)
    ∷ one (with_sequence 9 bid (level 99 2 ∷ []) 2)
    ∷ was_reset
    ∷ batch (record { sequence = some 20; updates = updates; timestamp = 3 })
    ∷ []

number-signed : (q : ℕ) → false ≡ false → ltb 0 q ≡ false → q ≡ 0
number-signed q natural low = ground arith

run_all-IsRun_example :
    IsRun calls checks changed (run_all calls checks changed (processor, book) operations)
run_all-IsRun_example =
    run_all-IsRun calls-IsExact checks changed number-signed config 0 two_levels false operations
      refl refl
