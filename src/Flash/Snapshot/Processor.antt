-- ===== src/Flash/Snapshot/Processor.antt =====
-- book/snapshot.rs, `SnapshotProcessor`. The validator holds the configuration of the processor's
-- validation; the statistics, which no operation changes, are left out. `u64` wraps.
pub mod Applied
use ai_systems_verification.Base.{
  ℕ, ◌+◌, ◌%◌, ◌^◌, Bool, true, false, List, Option, none, some, if◌then◌else◌, ◌==◌,
}
use ai_systems_verification.Flash.Book.{PriceLevel, Calls, OrderBook, apply_snapshot}
use ai_systems_verification.Flash.Delta.Validator.{asked}
use ai_systems_verification.Flash.Snapshot.{Checks, SnapshotError, ValidationConfig}
use ai_systems_verification.Flash.Snapshot.Validator.{validate}

pub record SnapshotProcessorConfig (F : Type 0) : Type 0 where
  pub validate_before_apply : Bool
  pub compute_diff : Bool
  pub compute_checksum : Bool
  pub validation : ValidationConfig F

pub record SnapshotProcessor (F : Type 0) : Type 0 where
  pub last_sequence : Option ℕ
  pub config : SnapshotProcessorConfig F

module _ {F : Type 0} where
  pub new : SnapshotProcessorConfig F → SnapshotProcessor F
  new config = record { last_sequence = none; config = config }

  pub record_sequence : SnapshotProcessor F → ℕ → SnapshotProcessor F
  record_sequence p sequence = record p { last_sequence = some sequence }

  pub check_sequence_gap : SnapshotProcessor F → ℕ → Option (ℕ × ℕ)
  check_sequence_gap p new_sequence = elim p.last_sequence [
    | none ↦ none
    | some last ↦
        let expected = (last + 1) % 2 ^ 64 in
        if new_sequence == expected then none else some (expected, new_sequence)
  ]

module _ {I F Q : Type 0} (c : Calls I F Q) (k : Checks F Q) where
  -- What follows the validation: no error is `Ok(())`.
  abbrev pub after_validation :
      Option (SnapshotError F)
      → OrderBook I F Q
      → OrderBook I F Q
      → Option (SnapshotError F) × OrderBook I F Q
  after_validation none b after = (none, after)
  after_validation (some e) b after = (some e, b)

  unfoldable pub apply_with_validation :
      SnapshotProcessor F
      → OrderBook I F Q
      → List (PriceLevel F Q)
      → List (PriceLevel F Q)
      → ℕ
      → Option (SnapshotError F) × OrderBook I F Q
  apply_with_validation p b bids asks timestamp =
      after_validation
        (asked p.config.validate_before_apply (validate c k p.config.validation bids asks)) b
        (apply_snapshot c b bids asks timestamp)
