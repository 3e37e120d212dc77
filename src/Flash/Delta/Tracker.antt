-- ===== src/Flash/Delta/Tracker.antt =====
-- book/delta.rs, `SequenceTracker`: the order of the numbers of the updates. The time of the last
-- update is left out, since no operation reads it. `u64` wraps.
pub mod Walk
use ai_systems_verification.Base.{
  ℕ, zero, suc, ◌+◌, ◌-◌, ◌%◌, ◌^◌, ◌≤◌, ◌<◌, ◌≡◌, ◌≢◌, refl, sym, ◌∙◌, subst, if_true, if_false,
  Bool-cases, inl, inr, Bool, true, false, List, [], ◌∷◌, ◌++◌, Option, none, some, arith,
  if◌then◌else◌, ltb, ◌==◌, length, drop, length-append, length-drop,
}

-- network/reconnect.rs, `SequenceGap`.
pub record SequenceGap : Type 0 where
  pub expected : ℕ
  pub received : ℕ

-- `saturating_sub`.
pub gap_size : SequenceGap → ℕ
gap_size g = g.received - g.expected

pub data SequenceState : Type 0 where
  uninitialized : SequenceState
  normal : SequenceState
  gap_detected : SequenceState
  recovering : SequenceState

pub data SequenceCheckResult : Type 0 where
  in_order : SequenceCheckResult
  gap : SequenceGap → SequenceCheckResult
  out_of_order : SequenceCheckResult

pub record SequenceConfig : Type 0 where
  pub reorder_window : ℕ
  pub max_gaps : ℕ
  pub recovery_timeout_us : ℕ

pub default : SequenceConfig
default = record { reorder_window = 10; max_gaps = 5; recovery_timeout_us = 30000000 }

pub record SequenceTracker : Type 0 where
  pub config : SequenceConfig
  pub last_sequence : Option ℕ
  pub expected_next : Option ℕ
  pub gaps : List SequenceGap
  pub state : SequenceState

unfoldable pub new : SequenceConfig → SequenceTracker
new config = record {
  config = config;
  last_sequence = none;
  expected_next = none;
  gaps = [];
  state = uninitialized;
}

abbrev pub succ : ℕ → ℕ
succ n = (n + 1) % 2 ^ 64

-- The tracker that has come to a sequence number.
abbrev pub at : SequenceTracker → ℕ → SequenceTracker
at t sequence = record t { last_sequence = some sequence; expected_next = some (succ sequence) }

-- `while self.gaps.len() > max { self.gaps.remove(0); }`
abbrev pub trimmed : ℕ → List SequenceGap → List SequenceGap
trimmed max gaps = drop (length gaps - max) gaps

-- `self.expected_next.unwrap_or(sequence)`.
abbrev pub expected_or : Option ℕ → ℕ → ℕ
expected_or none sequence = sequence
expected_or (some n) sequence = n

abbrev pub missing : SequenceTracker → ℕ → SequenceGap
missing t sequence = record { expected = expected_or t.expected_next sequence; received = sequence }

-- The tracker behind a gap.
abbrev pub jumped : SequenceTracker → ℕ → SequenceTracker
jumped t sequence = record (at t sequence) {
  gaps = trimmed t.config.max_gaps (t.gaps ++ missing t sequence ∷ []);
  state = gap_detected;
}

-- What a tracker that has seen a number makes of the next.
abbrev pub record_next : SequenceTracker → ℕ → SequenceCheckResult × SequenceTracker
record_next t sequence =
    let expected = expected_or t.expected_next sequence in
    if sequence == expected
    then (in_order, at t sequence)
    else (if ltb expected sequence
        then (gap (missing t sequence), jumped t sequence)
        else (out_of_order, t))

abbrev pub is_new : SequenceState → Bool
is_new uninitialized = true
is_new _ = false

-- `record`, which is a word of the language.
unfoldable pub record_sequence : SequenceTracker → ℕ → SequenceCheckResult × SequenceTracker
record_sequence t sequence =
    if is_new t.state
    then (in_order, record (at t sequence) { state = normal })
    else record_next t sequence

unfoldable pub reset : SequenceTracker → SequenceTracker
reset t = record t { last_sequence = none; expected_next = none; gaps = []; state = uninitialized }

unfoldable pub reset_with_sequence : SequenceTracker → ℕ → SequenceTracker
reset_with_sequence t sequence = record (at t sequence) { gaps = []; state = normal }

abbrev pub is_gap : SequenceState → Bool
is_gap gap_detected = true
is_gap _ = false

abbrev pub needs_recovery : SequenceTracker → Bool
needs_recovery t = is_gap t.state

unfoldable pub start_recovery : SequenceTracker → SequenceTracker
start_recovery t = if needs_recovery t then record t { state = recovering } else t

unfoldable pub complete_recovery : SequenceTracker → ℕ → SequenceTracker
complete_recovery t new_sequence = record (at t new_sequence) { gaps = []; state = normal }
