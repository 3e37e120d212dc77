-- ===== src/Verify/Checkpoint/Builder.antt =====
-- verify/checkpoint.rs, `CheckpointBuilder`.
use ai_systems_verification.Base.{
  ℕ, ◌^◌, ◌<◌, ◌≡◌, refl, List, ◌++◌, Option, none, some, length, replicate,
}
use ai_systems_verification.Verify.Checkpoint.{
  Checkpoint, Parsed, parsed, failed, missing_hash, to_bytes, from_bytes, from_bytes-to_bytes,
}

pub record CheckpointBuilder : Type 0 where
  pub sequence : ℕ
  pub timestamp : ℕ
  pub state_hash : Option (List ℕ)

pub new : CheckpointBuilder
new = record { sequence = 0; timestamp = 0; state_hash = none }

pub sequence : CheckpointBuilder → ℕ → CheckpointBuilder
sequence b seq = record b { sequence = seq }

pub timestamp : CheckpointBuilder → ℕ → CheckpointBuilder
timestamp b ts = record b { timestamp = ts }

pub hash : CheckpointBuilder → List ℕ → CheckpointBuilder
hash b h = record b { state_hash = some h }

pub build : CheckpointBuilder → Checkpoint
build b = record {
  sequence = b.sequence;
  timestamp = b.timestamp;
  state_hash = elim b.state_hash [ none ↦ replicate 32 0 | some h ↦ h ];
}

pub build_checked : CheckpointBuilder → Parsed
build_checked b = elim b.state_hash [
  | none ↦ failed missing_hash
  | some h ↦ parsed (record { sequence = b.sequence; timestamp = b.timestamp; state_hash = h })
]

-- A checkpoint built from a sequence number, a time and a hash is the one that its bytes are read as;
-- without a hash the checked build is an error, and the other has a hash of zeros.
pub build-from_bytes :
    (b : CheckpointBuilder) (seq ts : ℕ) (h rest : List ℕ)
    → seq < 2 ^ 64
    → ts < 2 ^ 64
    → length h ≡ 32
    → (build_checked (hash (timestamp (sequence b seq) ts) h)
        ≡ from_bytes (to_bytes (build (hash (timestamp (sequence b seq) ts) h)) ++ rest))
      × (build_checked (timestamp (sequence new seq) ts) ≡ failed missing_hash)
      × ((build (timestamp (sequence new seq) ts)).state_hash ≡ replicate 32 0)
unfolding build_checked build new hash timestamp sequence
build-from_bytes b seq ts h rest hs ht hl = (
  rw (
      from_bytes-to_bytes {c = record { sequence = seq; timestamp = ts; state_hash = h }}
        (record { sequence_lt = hs; timestamp_lt = ht; hash_len = hl }) rest),
  refl,
  refl,
)
