-- ===== src/Tap.antt =====
-- blackbox/crates/blackbox/src/tap: what an application records, tap/traits.rs `Tap`, in the null tap
-- and in the journal tap. The mutex of the journal tap is taken to be free of panics, and a call holds
-- it from its start to its end, so that calls come one after another.
pub mod Recorded
pub mod Tests
use ai_systems_verification.Base.{ℕ, ◌+◌, ◌%◌, ◌^◌, Bool, true, false, List, Option, none, some}
use ai_systems_verification.Journal.Format.Kind.{
  RecordType, raw_frame, state_change, order_submit, checkpoint,
}
use ai_systems_verification.Journal.Writer.{JournalWriter, write, write_with_timestamp}
use ai_systems_verification.Verify.Checkpoint
use ai_systems_verification.Verify.Checkpoint.{to_bytes}

-- The time that a journal writer stamps a record with: its clock's, if it has one, or the system's.
pub record Now : Type 0 where
  pub clock : Option ℕ
  pub system : ℕ

-- A call of the `Tap` trait.
pub data Event : Type 0 where
  ingress : ℕ → List ℕ → ℕ → Event
  internal : ℕ → List ℕ → ℕ → Event
  egress : ℕ → List ℕ → ℕ → Event
  state : List ℕ → ℕ → Event

pub record JournalTap : Type 0 where
  pub writer : Option JournalWriter
  pub active : Bool
  pub checkpoint_seq : ℕ

unfoldable pub new : JournalWriter → JournalTap
new writer = record { writer = some writer; active = true; checkpoint_seq = 0 }

unfoldable pub inactive : JournalTap
inactive = record { writer = none; active = false; checkpoint_seq = 0 }

-- The result of the write is dropped.
abbrev written : JournalTap → Now → RecordType → ℕ → List ℕ → JournalTap
written t now record_type exchange payload = elim t.writer [
  | none ↦ t
  | some w ↦ record t {
    writer = some (write w now.clock now.system record_type exchange payload).1;
  }
]

pub record_ingress : JournalTap → Now → ℕ → List ℕ → ℕ → JournalTap
record_ingress t now exchange payload timestamp = written t now raw_frame exchange payload

pub record_internal : JournalTap → Now → ℕ → List ℕ → ℕ → JournalTap
record_internal t now event_type payload timestamp =
    written t now state_change (event_type % 2 ^ 8) payload

pub record_egress : JournalTap → Now → ℕ → List ℕ → ℕ → JournalTap
record_egress t now exchange payload timestamp = written t now order_submit exchange payload

pub record_checkpoint : JournalTap → List ℕ → ℕ → JournalTap
record_checkpoint t state_hash timestamp = elim t.writer [
  | none ↦ t
  | some w ↦
      let bytes = to_bytes (Checkpoint.new t.checkpoint_seq timestamp state_hash) in
      record t {
        writer = some (write_with_timestamp w checkpoint 0 bytes timestamp).1;
        checkpoint_seq = (t.checkpoint_seq + 1) % 2 ^ 64;
      }
]

pub is_active : JournalTap → Bool
is_active t = t.active

pub record_event : JournalTap → Now → Event → JournalTap
unfolding record_ingress record_internal record_egress record_checkpoint
record_event t now (ingress exchange payload timestamp) =
    record_ingress t now exchange payload timestamp
record_event t now (internal event_type payload timestamp) =
    record_internal t now event_type payload timestamp
record_event t now (egress exchange payload timestamp) =
    record_egress t now exchange payload timestamp
record_event t now (state state_hash timestamp) = record_checkpoint t state_hash timestamp
