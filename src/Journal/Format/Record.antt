-- ===== src/Journal/Format/Record.antt =====
-- journal/format.rs, `RecordHeader`: the 24 bytes before each record's payload.
use ai_systems_verification.Base.{
  ℕ, ◌^◌, ◌<◌, ◌≡◌, ◌∙◌, ap, refl, ◌++◌, replicate, List, [], ◌∷◌, arith, length, get_or, map, drop,
}
use ai_systems_verification.Base.Bytes.{
  AreBytes, to_le, from_le, layout, pack, layout-pack_of, length-pack_of, from_le-to_le,
  from_le-take, AreBytes-drop, length-to_le,
}
use ai_systems_verification.Journal.Format.{record_header_size}
use ai_systems_verification.Journal.Format.Kind.{RecordType, as_u16}

pub record RecordHeader : Type 0 where
  pub timestamp : ℕ
  pub payload_size : ℕ
  pub record_type : ℕ
  pub exchange_id : ℕ
  pub flags : ℕ
  pub sequence_number : ℕ
  pub crc32 : ℕ

pub new : ℕ → RecordType → ℕ → ℕ → ℕ → RecordHeader
new timestamp record_type exchange_id payload_size sequence_number = record {
  timestamp = timestamp;
  payload_size = payload_size;
  record_type = as_u16 record_type;
  exchange_id = exchange_id;
  flags = 0;
  sequence_number = sequence_number;
  crc32 = 0;
}

-- `repr(C, packed)`: the fields in order, each little-endian in its width.
abbrev fields : RecordHeader → List (List ℕ)
fields h =
    to_le 8 h.timestamp
    ∷ to_le 4 h.payload_size
    ∷ to_le 2 h.record_type
    ∷ to_le 1 h.exchange_id
    ∷ to_le 1 h.flags
    ∷ to_le 4 h.sequence_number
    ∷ to_le 4 h.crc32
    ∷ []

abbrev widths : List ℕ
widths = 8 ∷ 4 ∷ 2 ∷ 1 ∷ 1 ∷ 4 ∷ 4 ∷ []

pub to_bytes : RecordHeader → List ℕ
to_bytes h = pack (fields h)

abbrev of_fields : List (List ℕ) → RecordHeader
of_fields ps = record {
  timestamp = from_le (get_or ps 0 []);
  payload_size = from_le (get_or ps 1 []);
  record_type = from_le (get_or ps 2 []);
  exchange_id = from_le (get_or ps 3 []);
  flags = from_le (get_or ps 4 []);
  sequence_number = from_le (get_or ps 5 []);
  crc32 = from_le (get_or ps 6 []);
}

pub from_bytes : List ℕ → RecordHeader
from_bytes bs = of_fields (layout widths bs)

-- The ranges of the Rust types.
pub record IsTyped (h : RecordHeader) : Type 0 where
  pub timestamp_lt : h.timestamp < 2 ^ 64
  pub payload_size_lt : h.payload_size < 2 ^ 32
  pub record_type_lt : h.record_type < 2 ^ 16
  pub exchange_id_lt : h.exchange_id < 2 ^ 8
  pub flags_lt : h.flags < 2 ^ 8
  pub sequence_number_lt : h.sequence_number < 2 ^ 32
  pub crc32_lt : h.crc32 < 2 ^ 32

widths-fields : {h : RecordHeader} → IsTyped h → map length (fields h) ≡ widths
widths-fields v = simp (length-to_le)

of_fields-fields : {h : RecordHeader} → IsTyped h → of_fields (fields h) ≡ h
of_fields-fields {h} v = ground (
  arith,
  from_le-to_le 8 h.timestamp,
  from_le-to_le 4 h.payload_size,
  from_le-to_le 2 h.record_type,
  from_le-to_le 1 h.exchange_id,
  from_le-to_le 1 h.flags,
  from_le-to_le 4 h.sequence_number,
  from_le-to_le 4 h.crc32,
)

-- A record header is read back from its bytes.
pub from_bytes-to_bytes : {h : RecordHeader} → IsTyped h → from_bytes (to_bytes h) ≡ h
unfolding from_bytes to_bytes
from_bytes-to_bytes {h} v =
    ap of_fields (layout-pack_of (fields h) (widths-fields v)) ∙ of_fields-fields v

pub length-to_bytes : {h : RecordHeader} → IsTyped h → length (to_bytes h) ≡ record_header_size
unfolding to_bytes
length-to_bytes {h} v = length-pack_of (fields h) (widths-fields v)

-- The first eight bytes are the time stamp.
pub to_bytes-timestamp :
    (h : RecordHeader) → (rest : List ℕ) × (to_bytes h ≡ to_le 8 h.timestamp ++ rest)
unfolding to_bytes
to_bytes-timestamp h = (_, refl)

-- Bytes that are all zero are a header of record type 0.
pub record_type-zeros : (from_bytes (replicate 24 0)).record_type ≡ 0
unfolding from_bytes from_le
record_type-zeros = refl

-- The size of a payload has 32 bits, whatever the bytes of the header.
pub payload_size-lt : (bs : List ℕ) → AreBytes bs → (from_bytes bs).payload_size < 2 ^ 32
unfolding from_bytes
payload_size-lt bs h = from_le-take 4 (drop 8 bs) (AreBytes-drop 8 bs h)
