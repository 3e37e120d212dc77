-- ===== src/Journal/Format/Schema.antt =====
-- journal/format.rs, `SchemaBlockHeader` and `SchemaBlock`: the embedded schema behind the file header.
use ai_systems_verification.Base.{
  ℕ, ◌+◌, ◌^◌, ◌<◌, ◌≡◌, refl, ◌∙◌, ap, List, [], ◌∷◌, none, some, arith, if◌then◌else◌, not,
  replicate, length, get_or, map,
}
use ai_systems_verification.Base.Bytes.{
  to_le, from_le, beq_bytes, layout, pack, layout-pack_of, length-pack_of, from_le-to_le,
  length-to_le,
}
use ai_systems_verification.Journal.Format.{
  schema_magic, schema_block_header_size, invalid_schema_magic, Verdict,
}

pub record SchemaBlockHeader : Type 0 where
  pub magic : List ℕ
  pub xml_uncompressed : ℕ
  pub xml_compressed : ℕ
  pub compression : ℕ
  pub reserved : List ℕ

-- The module `compression`.
abbrev pub no_compression : ℕ
no_compression = 0

abbrev pub zstd : ℕ
zstd = 1

unfoldable pub new : ℕ → ℕ → ℕ → SchemaBlockHeader
new uncompressed_size compressed_size compression = record {
  magic = schema_magic;
  xml_uncompressed = uncompressed_size;
  xml_compressed = compressed_size;
  compression = compression;
  reserved = replicate 15 0;
}

unfoldable pub validate : SchemaBlockHeader → Verdict
validate h = if not (beq_bytes h.magic schema_magic) then some invalid_schema_magic else none

-- `repr(C, packed)`: the fields in order, each little-endian in its width.
abbrev fields : SchemaBlockHeader → List (List ℕ)
fields h =
    h.magic
    ∷ to_le 4 h.xml_uncompressed
    ∷ to_le 4 h.xml_compressed
    ∷ to_le 1 h.compression
    ∷ h.reserved
    ∷ []

abbrev widths : List ℕ
widths = 8 ∷ 4 ∷ 4 ∷ 1 ∷ 15 ∷ []

pub to_bytes : SchemaBlockHeader → List ℕ
to_bytes h = pack (fields h)

abbrev of_fields : List (List ℕ) → SchemaBlockHeader
of_fields ps = record {
  magic = get_or ps 0 [];
  xml_uncompressed = from_le (get_or ps 1 []);
  xml_compressed = from_le (get_or ps 2 []);
  compression = from_le (get_or ps 3 []);
  reserved = get_or ps 4 [];
}

pub from_bytes : List ℕ → SchemaBlockHeader
from_bytes bs = of_fields (layout widths bs)

-- The ranges of the Rust types.
pub record IsTyped (h : SchemaBlockHeader) : Type 0 where
  pub magic_len : length h.magic ≡ 8
  pub xml_uncompressed_lt : h.xml_uncompressed < 2 ^ 32
  pub xml_compressed_lt : h.xml_compressed < 2 ^ 32
  pub compression_lt : h.compression < 2 ^ 8
  pub reserved_len : length h.reserved ≡ 15

widths-fields : {h : SchemaBlockHeader} → IsTyped h → map length (fields h) ≡ widths
widths-fields v = simp (length-to_le, v.magic_len, v.reserved_len)

of_fields-fields : {h : SchemaBlockHeader} → IsTyped h → of_fields (fields h) ≡ h
of_fields-fields {h} v = ground (
  arith,
  from_le-to_le 4 h.xml_uncompressed,
  from_le-to_le 4 h.xml_compressed,
  from_le-to_le 1 h.compression,
)

-- A schema block header is read back from its bytes.
pub from_bytes-to_bytes : {h : SchemaBlockHeader} → IsTyped h → from_bytes (to_bytes h) ≡ h
unfolding from_bytes to_bytes
from_bytes-to_bytes {h} v =
    ap of_fields (layout-pack_of (fields h) (widths-fields v)) ∙ of_fields-fields v

pub length-to_bytes :
    {h : SchemaBlockHeader} → IsTyped h → length (to_bytes h) ≡ schema_block_header_size
unfolding to_bytes
length-to_bytes {h} v = length-pack_of (fields h) (widths-fields v)

pub new-IsTyped :
    (u z k : ℕ)
    → u < 2 ^ 32
    → z < 2 ^ 32
    → k < 256
    → IsTyped (new u z k) × ((new u z k).magic ≡ schema_magic)
unfolding new
new-IsTyped u z k hu hz hk = (omega arith, refl)

pub record SchemaBlock : Type 0 where
  pub header : SchemaBlockHeader
  pub contents : List ℕ

unfoldable pub total_size : SchemaBlock → ℕ
total_size b = schema_block_header_size + length b.contents
