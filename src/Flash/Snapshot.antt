-- ===== src/Flash/Snapshot.antt =====
-- book/snapshot.rs: the validation of snapshots, the differences of two, and the processor that applies
-- them. The tests of `f64` and of `Decimal` are parameters. The metadata, JSON and bincode are left out.
pub mod Validator
pub mod Processor
pub mod Diff
pub mod Tests
use ai_systems_verification.Base.{ℕ, Bool}
use ai_systems_verification.Flash.Book.{Side}
use ai_systems_verification.Flash.Delta.{PriceFault}

-- `is_finite` is neither NaN nor infinite; `less` and `at_least` are `<` and `>=` of `f64`.
pub record Checks (F Q : Type 0) : Type 0 where
  pub is_finite : F → Bool
  pub less : F → F → Bool
  pub at_least : F → F → Bool
  pub is_negative : Q → Bool

-- `SnapshotError`, as far as it is raised; a `PriceFault` or a `SizeFault` stands for the text.
pub data SizeFault : Type 0 where
  both_empty : SizeFault
  side_empty : Side → SizeFault
  too_few : Side → ℕ → ℕ → SizeFault

pub data SnapshotError (F : Type 0) : Type 0 where
  invalid_price : F → ℕ → PriceFault → SnapshotError F
  invalid_quantity : F → SnapshotError F
  crossed_book : F → F → SnapshotError F
  duplicate_level : F → Side → SnapshotError F
  empty_snapshot : SizeFault → SnapshotError F

pub record ValidationConfig (F : Type 0) : Type 0 where
  pub allow_crossed : Bool
  pub max_price : F
  pub min_price : F
  pub allow_duplicates : Bool
  pub min_levels_per_side : ℕ
  pub allow_empty_side : Bool
