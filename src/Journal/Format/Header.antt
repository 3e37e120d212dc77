-- ===== src/Journal/Format/Header.antt =====
-- journal/format.rs, `FileHeader`: the 128 bytes at the start of every journal file.
use ai_systems_verification.Base.{
  ℕ, ◌+◌, ◌^◌, ◌<◌, ◌≡◌, ◌∙◌, ap, List, [], ◌∷◌, none, some, arith, if◌then◌else◌, ltb, not,
  replicate, length, get_or, map,
}
use ai_systems_verification.Base.Bytes.{
  to_le, from_le, beq_bytes, layout, pack, layout-pack_of, length-pack_of, from_le-to_le,
  length-to_le,
}
use ai_systems_verification.Journal.Format.{
  file_magic, format_version_major, format_version_minor, schema_version_major,
  schema_version_minor, file_header_size, invalid_magic, unsupported_version, Verdict,
}

pub record FileHeader : Type 0 where
  pub magic : List ℕ
  pub format_major : ℕ
  pub format_minor : ℕ
  pub schema_major : ℕ
  pub schema_minor : ℕ
  pub header_size : ℕ
  pub schema_offset : ℕ
  pub schema_size : ℕ
  pub first_record : ℕ
  pub session_start : ℕ
  pub session_end : ℕ
  pub record_count : ℕ
  pub flags : ℕ
  pub reserved_1 : ℕ
  pub schema_hash : ℕ
  pub checksum : List ℕ
  pub reserved_2 : List ℕ

-- `new_with_session_start`.
unfoldable pub new_with_session_start : ℕ → FileHeader
new_with_session_start session_start = record {
  magic = file_magic;
  format_major = format_version_major;
  format_minor = format_version_minor;
  schema_major = schema_version_major;
  schema_minor = schema_version_minor;
  header_size = file_header_size;
  schema_offset = file_header_size;
  schema_size = 0;
  first_record = 0;
  session_start = session_start;
  session_end = 0;
  record_count = 0;
  flags = 0;
  reserved_1 = 0;
  schema_hash = 0;
  checksum = replicate 32 0;
  reserved_2 = replicate 24 0;
}

unfoldable pub validate : FileHeader → Verdict
validate h =
    if not (beq_bytes h.magic file_magic)
    then some invalid_magic
    else (if ltb format_version_major h.format_major
        then some (unsupported_version h.format_major h.format_minor)
        else none)

-- `repr(C, packed)`: the fields in order, each little-endian in its width.
abbrev fields : FileHeader → List (List ℕ)
fields h =
    h.magic
    ∷ to_le 1 h.format_major
    ∷ to_le 1 h.format_minor
    ∷ to_le 1 h.schema_major
    ∷ to_le 1 h.schema_minor
    ∷ to_le 4 h.header_size
    ∷ to_le 8 h.schema_offset
    ∷ to_le 8 h.schema_size
    ∷ to_le 8 h.first_record
    ∷ to_le 8 h.session_start
    ∷ to_le 8 h.session_end
    ∷ to_le 8 h.record_count
    ∷ to_le 2 h.flags
    ∷ to_le 2 h.reserved_1
    ∷ to_le 4 h.schema_hash
    ∷ h.checksum
    ∷ h.reserved_2
    ∷ []

abbrev widths : List ℕ
widths = 8 ∷ 1 ∷ 1 ∷ 1 ∷ 1 ∷ 4 ∷ 8 ∷ 8 ∷ 8 ∷ 8 ∷ 8 ∷ 8 ∷ 2 ∷ 2 ∷ 4 ∷ 32 ∷ 24 ∷ []

pub to_bytes : FileHeader → List ℕ
to_bytes h = pack (fields h)

abbrev of_fields : List (List ℕ) → FileHeader
of_fields ps = record {
  magic = get_or ps 0 [];
  format_major = from_le (get_or ps 1 []);
  format_minor = from_le (get_or ps 2 []);
  schema_major = from_le (get_or ps 3 []);
  schema_minor = from_le (get_or ps 4 []);
  header_size = from_le (get_or ps 5 []);
  schema_offset = from_le (get_or ps 6 []);
  schema_size = from_le (get_or ps 7 []);
  first_record = from_le (get_or ps 8 []);
  session_start = from_le (get_or ps 9 []);
  session_end = from_le (get_or ps 10 []);
  record_count = from_le (get_or ps 11 []);
  flags = from_le (get_or ps 12 []);
  reserved_1 = from_le (get_or ps 13 []);
  schema_hash = from_le (get_or ps 14 []);
  checksum = get_or ps 15 [];
  reserved_2 = get_or ps 16 [];
}

pub from_bytes : List ℕ → FileHeader
from_bytes bs = of_fields (layout widths bs)

-- `with_schema`; the block's total size is the argument.
unfoldable pub with_schema : FileHeader → ℕ → ℕ → FileHeader
with_schema h total_size schema_hash = record h {
  schema_offset = file_header_size;
  schema_size = total_size;
  first_record = file_header_size + total_size;
  schema_hash = schema_hash;
}

-- The ranges of the Rust types.
pub record IsTyped (h : FileHeader) : Type 0 where
  pub magic_len : length h.magic ≡ 8
  pub format_major_lt : h.format_major < 256
  pub format_minor_lt : h.format_minor < 256
  pub schema_major_lt : h.schema_major < 256
  pub schema_minor_lt : h.schema_minor < 256
  pub header_size_lt : h.header_size < 2 ^ 32
  pub schema_offset_lt : h.schema_offset < 2 ^ 64
  pub schema_size_lt : h.schema_size < 2 ^ 64
  pub first_record_lt : h.first_record < 2 ^ 64
  pub session_start_lt : h.session_start < 2 ^ 64
  pub session_end_lt : h.session_end < 2 ^ 64
  pub record_count_lt : h.record_count < 2 ^ 64
  pub flags_lt : h.flags < 2 ^ 16
  pub reserved_1_lt : h.reserved_1 < 2 ^ 16
  pub schema_hash_lt : h.schema_hash < 2 ^ 32
  pub checksum_len : length h.checksum ≡ 32
  pub reserved_2_len : length h.reserved_2 ≡ 24

widths-fields : {h : FileHeader} → IsTyped h → map length (fields h) ≡ widths
widths-fields v = simp (length-to_le, v.magic_len, v.checksum_len, v.reserved_2_len)

of_fields-fields : {h : FileHeader} → IsTyped h → of_fields (fields h) ≡ h
of_fields-fields {h} v = ground (
  arith,
  from_le-to_le 1 h.format_major,
  from_le-to_le 1 h.format_minor,
  from_le-to_le 1 h.schema_major,
  from_le-to_le 1 h.schema_minor,
  from_le-to_le 4 h.header_size,
  from_le-to_le 8 h.schema_offset,
  from_le-to_le 8 h.schema_size,
  from_le-to_le 8 h.first_record,
  from_le-to_le 8 h.session_start,
  from_le-to_le 8 h.session_end,
  from_le-to_le 8 h.record_count,
  from_le-to_le 2 h.flags,
  from_le-to_le 2 h.reserved_1,
  from_le-to_le 4 h.schema_hash,
)

-- A header is read back from its bytes.
pub from_bytes-to_bytes : {h : FileHeader} → IsTyped h → from_bytes (to_bytes h) ≡ h
unfolding from_bytes to_bytes
from_bytes-to_bytes {h} v =
    ap of_fields (layout-pack_of (fields h) (widths-fields v)) ∙ of_fields-fields v

pub length-to_bytes : {h : FileHeader} → IsTyped h → length (to_bytes h) ≡ file_header_size
unfolding to_bytes
length-to_bytes {h} v = length-pack_of (fields h) (widths-fields v)
