-- ===== src/Flash/Delta.antt =====
-- book/delta.rs: updates of an order book and the processor that checks them.
pub mod Tracker
pub mod Validator
pub mod Processor
pub mod Tests
use ai_systems_verification.Base.{
  ℕ, ◌+◌, Bool, true, false, List, [], ◌∷◌, Option, none, some, length, ◌==◌,
}
use ai_systems_verification.Flash.Book.{PriceLevel, Side, bid, ask}

pub record DeltaUpdate (F Q : Type 0) : Type 0 where
  pub sequence : Option ℕ
  pub side : Side
  pub levels : List (PriceLevel F Q)
  pub timestamp : ℕ

pub record DeltaBatch (F Q : Type 0) : Type 0 where
  pub sequence : Option ℕ
  pub updates : List (DeltaUpdate F Q)
  pub timestamp : ℕ

-- The reason of an invalid price stands for its text.
pub data PriceFault : Type 0 where
  not_finite : PriceFault
  below_minimum : PriceFault
  above_maximum : PriceFault

-- `DeltaError`, as far as it is raised.
pub data DeltaError (F : Type 0) : Type 0 where
  sequence_gap : ℕ → ℕ → DeltaError F
  invalid_price : F → PriceFault → DeltaError F
  invalid_quantity : DeltaError F
  too_many_levels : ℕ → ℕ → DeltaError F

-- `DeltaResult`.
pub data DeltaResult (F A : Type 0) : Type 0 where
  ok : A → DeltaResult F A
  err : DeltaError F → DeltaResult F A

module _ {F Q : Type 0} where
  pub new : Side → List (PriceLevel F Q) → ℕ → DeltaUpdate F Q
  new side levels timestamp = record {
    sequence = none;
    side = side;
    levels = levels;
    timestamp = timestamp;
  }

  pub with_sequence : ℕ → Side → List (PriceLevel F Q) → ℕ → DeltaUpdate F Q
  with_sequence sequence side levels timestamp = record {
    sequence = some sequence;
    side = side;
    levels = levels;
    timestamp = timestamp;
  }

  abbrev pub level_count : DeltaUpdate F Q → ℕ
  level_count d = length d.levels

  pub is_bid : DeltaUpdate F Q → Bool
  is_bid d = elim d.side [ bid ↦ true | ask ↦ false ]

  pub is_ask : DeltaUpdate F Q → Bool
  is_ask d = elim d.side [ bid ↦ false | ask ↦ true ]

  pub total_levels : List (DeltaUpdate F Q) → ℕ
  total_levels [] = 0
  total_levels (d ∷ ds) = level_count d + total_levels ds
