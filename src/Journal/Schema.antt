-- ===== src/Journal/Schema.antt =====
-- journal/schema.rs: the embedded schema block. The schema text and its hash are written by the build
-- script, and zstd and crc32fast are libraries: all four are parameters.
pub mod RoundTrip
pub mod NewHeader
use ai_systems_verification.Base.{
  ℕ, ◌+◌, ◌%◌, ◌^◌, Bool, true, false, not, List, [], ◌∷◌, ◌++◌, Option, none, some, if◌then◌else◌,
  ◌==◌, ltb, length, take, drop,
}
use ai_systems_verification.Base.Bytes.{beq_bytes, slice}
use ai_systems_verification.Journal.Format.{schema_magic, schema_block_header_size}
use ai_systems_verification.Journal.Format.Header.{FileHeader, new_with_session_start, with_schema}
use ai_systems_verification.Journal.Format.Schema
use ai_systems_verification.Journal.Format.Schema.{
  SchemaBlockHeader, SchemaBlock, total_size, zstd, no_compression,
}

-- `SchemaError`; the texts of the messages are left out.
pub data SchemaError : Type 0 where
  compression_failed : SchemaError
  decompression_failed : SchemaError
  hash_mismatch : ℕ → ℕ → SchemaError
  invalid_header : SchemaError
  buffer_too_small : ℕ → ℕ → SchemaError

pub data Result {ℓ} (A : Type ℓ) : Type ℓ where
  ok : A → Result A
  err : SchemaError → Result A

-- What follows a success; an error ends the whole computation.
abbrev and_then {ℓ κ} : {A : Type ℓ} {B : Type κ} → (A → Result B) → Result A → Result B
and_then next (err problem) = err problem
and_then next (ok value) = next value

infixl 5 ◌>>=◌ ◌>>◌
abbrev pub ◌>>=◌ {κ ℓ} : {A : Type κ} {B : Type ℓ} → Result A → (A → Result B) → Result B
first >>= next = and_then next first

abbrev pub ◌>>◌ {ℓ} : {B : Type ℓ} → Result (Unit {0}) → Result B → Result B
first >> second = and_then (λ _. second) first

-- An error unless the test holds.
abbrev require : Bool → SchemaError → Result (Unit {0})
require test problem = if test then ok tt else err problem

abbrev or_fail {ℓ} : {A : Type ℓ} → Option A → SchemaError → Result A
or_fail none e = err e
or_fail (some a) e = ok a

-- The libraries that the schema module calls: zstd both ways, the CRC, and the check that bytes are
-- UTF-8. `none` is an error of the library.
pub record Codec : Type 0 where
  pub encode_all : List ℕ → Option (List ℕ)
  pub decode_all : List ℕ → Option (List ℕ)
  pub hash : List ℕ → ℕ
  pub is_utf8 : List ℕ → Bool

-- `SCHEMA_XML` and `SCHEMA_HASH`, from the build.
pub record Embedded : Type 0 where
  pub xml : List ℕ
  pub xml_hash : ℕ

module _ (c : Codec) where
  pub verify_hash : List ℕ → ℕ → Result (Unit {0})
  verify_hash xml expected =
      let actual = c.hash xml in
      if not (actual == expected) then err (hash_mismatch expected actual) else ok tt

  unfoldable pub create_block : Embedded → Bool → Result SchemaBlock
  create_block e compress =
      let uncompressed_size = length e.xml % 2 ^ 32 in
      if compress
      then (do
        compressed ← or_fail (c.encode_all e.xml) compression_failed
        ok (record {
          header = Schema.new uncompressed_size (length compressed % 2 ^ 32) zstd;
          contents = compressed;
        }))
      else ok (record {
        header = Schema.new uncompressed_size uncompressed_size no_compression;
        contents = e.xml;
      })

  pub parse_block : List ℕ → Result (SchemaBlockHeader × List ℕ)
  parse_block bytes = do
    require (not (ltb (length bytes) schema_block_header_size))
        (buffer_too_small schema_block_header_size (length bytes))
    let header = Schema.from_bytes (take schema_block_header_size bytes)
    require (beq_bytes header.magic schema_magic) invalid_header
    let size = schema_block_header_size + header.xml_compressed
    require (not (ltb (length bytes) size)) (buffer_too_small size (length bytes))
    let payload = slice bytes schema_block_header_size header.xml_compressed
    xml ←
        if header.compression == zstd
        then or_fail (c.decode_all payload) decompression_failed
        else ok payload
    require (length xml == header.xml_uncompressed) decompression_failed
    require (c.is_utf8 xml) invalid_header
    ok (header, xml)

  pub serialize_block : SchemaBlock → List ℕ
  serialize_block block = Schema.to_bytes block.header ++ block.contents

  -- `now` is the system clock's time, which `FileHeader::new` reads.
  unfoldable pub create_journal_header : Embedded → Bool → ℕ → Result (FileHeader × SchemaBlock)
  create_journal_header e compress now = do
    block ← create_block e compress
    ok (with_schema (new_with_session_start now) (total_size block) e.xml_hash, block)
