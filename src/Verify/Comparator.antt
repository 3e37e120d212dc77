-- ===== src/Verify/Comparator.antt =====
-- verify/comparator.rs: the count of the checkpoints of a replay and the record of those that differ.
-- The match rate, a floating-point number, and the text of the summary are left out.
use ai_systems_verification.Base.{
  ℕ, ◌+◌, ◌%◌, ◌^◌, Bool, List, [], ◌∷◌, ◌++◌, if◌then◌else◌, length, ◌==◌,
}
use ai_systems_verification.Base.Bytes.{beq_bytes}

pub data CompareResult : Type 0 where
  same : CompareResult
  mismatch : List ℕ → List ℕ → ℕ → CompareResult

pub record MismatchRecord : Type 0 where
  pub sequence : ℕ
  pub timestamp : ℕ
  pub original_hash : List ℕ
  pub replayed_hash : List ℕ

pub record ReplayComparator : Type 0 where
  pub mismatches : List MismatchRecord
  pub checkpoints_compared : ℕ
  pub checkpoints_matched : ℕ

unfoldable pub new : ReplayComparator
new = record { mismatches = []; checkpoints_compared = 0; checkpoints_matched = 0 }

unfoldable pub compare :
    ReplayComparator → ℕ → ℕ → List ℕ → List ℕ → CompareResult × ReplayComparator
compare c sequence timestamp original replayed =
    let counted = record c { checkpoints_compared = (c.checkpoints_compared + 1) % 2 ^ 64 } in
    if beq_bytes original replayed
    then (same, record counted { checkpoints_matched = (c.checkpoints_matched + 1) % 2 ^ 64 })
    else (
      mismatch original replayed sequence,
      record counted {
        mismatches =
            c.mismatches
            ++ record {
              sequence = sequence;
              timestamp = timestamp;
              original_hash = original;
              replayed_hash = replayed;
            }
              ∷ [];
      },
    )

pub is_successful : ReplayComparator → Bool
is_successful c = length c.mismatches == 0
