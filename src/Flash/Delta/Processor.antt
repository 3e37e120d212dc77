-- ===== src/Flash/Delta/Processor.antt =====
-- book/delta.rs, `DeltaProcessor`. The validator holds the configuration of the processor's
-- validation. Times are left out, and so are the counters of a result that are always 0. `u64` wraps.
pub mod Accepts
pub mod Keeps
use ai_systems_verification.Base.{
  ℕ, ◌+◌, ◌%◌, ◌^◌, Bool, true, false, List, [], ◌∷◌, Option, none, some, if◌then◌else◌, not,
}
use ai_systems_verification.Flash.Book.{PriceLevel, Calls, OrderBook, apply_delta}
use ai_systems_verification.Flash.Book.Levels.{last}
use ai_systems_verification.Flash.Delta
use ai_systems_verification.Flash.Delta.Tracker
use ai_systems_verification.Flash.Delta.{
  DeltaUpdate, DeltaBatch, DeltaError, sequence_gap, DeltaResult, ok, err, level_count,
  total_levels,
}
use ai_systems_verification.Flash.Delta.Tracker.{
  SequenceTracker, SequenceConfig, SequenceGap, SequenceCheckResult, in_order, gap, out_of_order,
  record_sequence, needs_recovery,
}
use ai_systems_verification.Flash.Delta.Validator.{
  Checks, DeltaValidationConfig, validate, validate_batch, asked,
}

pub record DeltaApplyResult : Type 0 where
  pub best_bid_changed : Bool
  pub best_ask_changed : Bool

pub record BatchApplyResult : Type 0 where
  pub updates_applied : ℕ
  pub total_levels : ℕ
  pub best_bid_changed : Bool
  pub best_ask_changed : Bool

pub record DeltaProcessorStats : Type 0 where
  pub deltas_processed : ℕ
  pub deltas_applied : ℕ
  pub deltas_rejected : ℕ
  pub sequence_gaps_detected : ℕ
  pub snapshots_requested : ℕ

pub record DeltaProcessorConfig (F : Type 0) : Type 0 where
  pub validate_before_apply : Bool
  pub track_sequences : Bool
  pub auto_request_snapshot : Bool
  pub max_pending_gaps : ℕ
  pub validation : DeltaValidationConfig F
  pub sequence : SequenceConfig

pub record DeltaProcessor (F : Type 0) : Type 0 where
  pub config : DeltaProcessorConfig F
  pub sequence_tracker : SequenceTracker
  pub stats : DeltaProcessorStats

pub data SnapshotRequestReason : Type 0 where
  gap_found : SnapshotRequestReason
  book_corruption : SnapshotRequestReason
  initial_subscription : SnapshotRequestReason
  manual_request : SnapshotRequestReason

pub record SnapshotRequest : Type 0 where
  pub reason : SnapshotRequestReason
  pub gap : Option SequenceGap

abbrev pub more : ℕ → ℕ
more n = (n + 1) % 2 ^ 64

-- The check of a number, if numbers are tracked and there is one.
abbrev pub tracked : Bool → Option ℕ → SequenceTracker → SequenceCheckResult × SequenceTracker
tracked false sequence t = (in_order, t)
tracked true none t = (in_order, t)
tracked true (some sequence) t = record_sequence t sequence

module _ {F : Type 0} where
  pub new : DeltaProcessorConfig F → DeltaProcessor F
  unfolding Tracker.new
  new config = record {
    config = config;
    sequence_tracker = Tracker.new config.sequence;
    stats = record {
      deltas_processed = 0;
      deltas_applied = 0;
      deltas_rejected = 0;
      sequence_gaps_detected = 0;
      snapshots_requested = 0;
    };
  }

  pub reset : DeltaProcessor F → DeltaProcessor F
  unfolding Tracker.reset
  reset p = record p { sequence_tracker = Tracker.reset p.sequence_tracker }

  pub reset_with_sequence : DeltaProcessor F → ℕ → DeltaProcessor F
  unfolding Tracker.reset_with_sequence
  reset_with_sequence p sequence = record p {
    sequence_tracker = Tracker.reset_with_sequence p.sequence_tracker sequence;
  }

  abbrev pub needs_snapshot : DeltaProcessor F → Bool
  needs_snapshot p = needs_recovery p.sequence_tracker

  pub create_snapshot_request : DeltaProcessor F → Option SnapshotRequest
  unfolding last
  create_snapshot_request p =
      if not (needs_snapshot p)
      then none
      else some (record { reason = gap_found; gap = last p.sequence_tracker.gaps })

  abbrev pub processed : DeltaProcessor F → DeltaProcessor F
  processed p = record p {
    stats = record (p.stats) { deltas_processed = more p.stats.deltas_processed };
  }

  abbrev pub rejected : DeltaProcessor F → DeltaProcessor F
  rejected p = record p {
    stats = record (p.stats) { deltas_rejected = more p.stats.deltas_rejected };
  }

  abbrev pub applied : DeltaProcessor F → DeltaProcessor F
  applied p = record p { stats = record (p.stats) { deltas_applied = more p.stats.deltas_applied } }

  abbrev pub gap_counted : DeltaProcessor F → DeltaProcessor F
  gap_counted p = record p {
    stats = record (p.stats) { sequence_gaps_detected = more p.stats.sequence_gaps_detected };
  }

-- `changed` is `!=` of two best levels.
module _ {I F Q : Type 0} (c : Calls I F Q) (k : Checks F Q)
    (changed : Option (PriceLevel F Q) → Option (PriceLevel F Q) → Bool) where
  -- A processor and the book that it is given.
  abbrev pub Both : Type 0
  Both = DeltaProcessor F × OrderBook I F Q

  -- The outcome of the validation of a delta, and what follows.
  abbrev pub after_validation :
      Option (DeltaError F)
      → DeltaProcessor F
      → OrderBook I F Q
      → DeltaUpdate F Q
      → DeltaResult F DeltaApplyResult × Both
  after_validation (some e) p b d = (err e, (rejected p, b))
  after_validation none p b d =
      let after = apply_delta c b d.side d.levels d.timestamp in
      (
        ok (record {
          best_bid_changed = changed b.best_bid after.best_bid;
          best_ask_changed = changed b.best_ask after.best_ask;
        }),
        (applied p, after),
      )

  abbrev pub after_check :
      SequenceCheckResult
      → DeltaProcessor F
      → OrderBook I F Q
      → DeltaUpdate F Q
      → DeltaResult F DeltaApplyResult × Both
  after_check (gap g) p b d =
      (err (sequence_gap g.expected g.received), (rejected (gap_counted p), b))
  after_check in_order p b d =
      after_validation (asked p.config.validate_before_apply (validate k p.config.validation d)) p b
        d
  after_check out_of_order p b d =
      after_validation (asked p.config.validate_before_apply (validate k p.config.validation d)) p b
        d

  unfoldable pub process_delta :
      DeltaProcessor F → OrderBook I F Q → DeltaUpdate F Q → DeltaResult F DeltaApplyResult × Both
  unfolding record_sequence validate
  process_delta p b d =
      let (check, tracker) = tracked p.config.track_sequences d.sequence p.sequence_tracker in
      after_check check (record (processed p) { sequence_tracker = tracker }) b d

  -- The loop over the updates of a batch.
  unfoldable pub apply_updates : Both → List (DeltaUpdate F Q) → Both
  apply_updates both [] = both
  apply_updates (p, b) (d ∷ ds) =
      apply_updates (applied (processed p), apply_delta c b d.side d.levels d.timestamp) ds

  abbrev pub after_batch_validation :
      Option (DeltaError F)
      → DeltaProcessor F
      → OrderBook I F Q
      → List (DeltaUpdate F Q)
      → DeltaResult F BatchApplyResult × Both
  after_batch_validation (some e) p b ds = (err e, (p, b))
  after_batch_validation none p b ds =
      let (p', after) = apply_updates (p, b) ds in
      (
        ok (record {
          updates_applied = Delta.total_levels ds;
          total_levels = Delta.total_levels ds;
          best_bid_changed = changed b.best_bid after.best_bid;
          best_ask_changed = changed b.best_ask after.best_ask;
        }),
        (p', after),
      )

  abbrev pub after_batch_check :
      SequenceCheckResult
      → DeltaProcessor F
      → OrderBook I F Q
      → List (DeltaUpdate F Q)
      → DeltaResult F BatchApplyResult × Both
  after_batch_check (gap g) p b ds = (err (sequence_gap g.expected g.received), (gap_counted p, b))
  after_batch_check in_order p b ds =
      after_batch_validation
        (asked p.config.validate_before_apply (validate_batch k p.config.validation ds)) p b ds
  after_batch_check out_of_order p b ds =
      after_batch_validation
        (asked p.config.validate_before_apply (validate_batch k p.config.validation ds)) p b ds

  unfoldable pub process_batch :
      DeltaProcessor F → OrderBook I F Q → DeltaBatch F Q → DeltaResult F BatchApplyResult × Both
  unfolding record_sequence validate_batch apply_updates Delta.total_levels
  process_batch p b batch =
      let (check, tracker) = tracked p.config.track_sequences batch.sequence p.sequence_tracker in
      after_batch_check check (record p { sequence_tracker = tracker }) b batch.updates
