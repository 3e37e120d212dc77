-- ===== src/Verify/Checkpoint.antt =====
-- verify/checkpoint.rs: a checkpoint, its builder, and the 48 bytes that it takes in a journal. A
-- time stamp is the bit pattern of its `i64`, a hash is a list of 32 bytes.
pub mod Builder
use ai_systems_verification.Base.{
  ℕ, zero, suc, ◌+◌, ◌^◌, ◌≤◌, ◌<◌, ◌≡◌, refl, ap, ◌∙◌, Bool, List, [], ◌∷◌, ◌++◌, append_assoc,
  append-nil, Option, none, some, arith, if◌then◌else◌, if_true, if_false, ltb, lt→ltb,
  le→ltb_false, length, length-append, get_or, map, replicate,
}
use ai_systems_verification.Base.Bytes.{
  to_le, from_le, beq_bytes, length-to_le, from_le-to_le, layout, pack, layout-pack_then,
  length-pack_of,
}

abbrev pub checkpoint_data_size : ℕ
checkpoint_data_size = 48

pub record Checkpoint : Type 0 where
  pub sequence : ℕ
  pub timestamp : ℕ
  pub state_hash : List ℕ

pub data CheckpointError : Type 0 where
  invalid_size : ℕ → ℕ → CheckpointError
  missing_hash : CheckpointError
  verification_failed : ℕ → List ℕ → List ℕ → CheckpointError

-- `Result<Checkpoint, CheckpointError>`.
pub data Parsed : Type 0 where
  parsed : Checkpoint → Parsed
  failed : CheckpointError → Parsed

unfoldable pub new : ℕ → ℕ → List ℕ → Checkpoint
new sequence timestamp state_hash = record {
  sequence = sequence;
  timestamp = timestamp;
  state_hash = state_hash;
}

abbrev fields : Checkpoint → List (List ℕ)
fields c = to_le 8 c.sequence ∷ to_le 8 c.timestamp ∷ c.state_hash ∷ []

abbrev widths : List ℕ
widths = 8 ∷ 8 ∷ 32 ∷ []

abbrev of_fields : List (List ℕ) → Checkpoint
of_fields ps = record {
  sequence = from_le (get_or ps 0 []);
  timestamp = from_le (get_or ps 1 []);
  state_hash = get_or ps 2 [];
}

-- `CheckpointData::to_bytes`.
unfoldable pub to_bytes : Checkpoint → List ℕ
to_bytes c = pack (fields c)

pub from_bytes : List ℕ → Parsed
from_bytes bytes =
    if ltb (length bytes) checkpoint_data_size
    then failed (invalid_size checkpoint_data_size (length bytes))
    else parsed (of_fields (layout widths bytes))

pub verify : Checkpoint → List ℕ → Bool
verify c expected = beq_bytes c.state_hash expected

pub is_after : Checkpoint → Checkpoint → Bool
is_after c other = ltb other.sequence c.sequence

-- The ranges of the Rust types.
pub record IsTyped (c : Checkpoint) : Type 0 where
  pub sequence_lt : c.sequence < 2 ^ 64
  pub timestamp_lt : c.timestamp < 2 ^ 64
  pub hash_len : length c.state_hash ≡ 32

module _ {c : Checkpoint} (t : IsTyped c) where
  widths-fields : map length (fields c) ≡ widths
  widths-fields = simp (length-to_le, t.hash_len)

  of_fields-fields : of_fields (fields c) ≡ c
  of_fields-fields = ground (arith, from_le-to_le 8 c.sequence, from_le-to_le 8 c.timestamp)

  pub length-to_bytes : length (to_bytes c) ≡ checkpoint_data_size
  unfolding to_bytes
  length-to_bytes = length-pack_of (fields c) widths-fields

  -- A checkpoint takes 48 bytes, and is read back from them, whatever follows.
  pub from_bytes-to_bytes : (rest : List ℕ) → from_bytes (to_bytes c ++ rest) ≡ parsed c
  unfolding from_bytes to_bytes
  from_bytes-to_bytes rest =
      if_false
        (le→ltb_false (length (to_bytes c ++ rest)) checkpoint_data_size
          (omega (arith, length-append (to_bytes c) rest, length-to_bytes)))
        _ _
      ∙ ap (λ (ps : List (List ℕ)). parsed (of_fields ps))
          (layout-pack_then (fields c) rest widths-fields)
      ∙ ap parsed of_fields-fields

-- Fewer than 48 bytes are an error.
pub from_bytes_short :
    (bs : List ℕ)
    → length bs < checkpoint_data_size
    → from_bytes bs ≡ failed (invalid_size checkpoint_data_size (length bs))
unfolding from_bytes
from_bytes_short bs short = if_true (lt→ltb (length bs) checkpoint_data_size short) _ _
