-- ===== src/Journal/Reader/Open.antt =====
-- journal/reader.rs: opening a journal, the checks of its header, and the schema that it embeds. The
-- sums are those of a release build: they wrap, where a debug build would panic.
pub mod Accepted
use ai_systems_verification.Base.{
  ℕ, ◌+◌, ◌-◌, ◌^◌, ◌%◌, ◌≡◌, Bool, true, false, not, List, Option, none, some, if◌then◌else◌, ltb,
  ◌==◌, ◌||◌, length, take,
}
use ai_systems_verification.Journal.Format.{file_header_size, schema_block_header_size, HeaderError}
use ai_systems_verification.Journal.Format.Header
use ai_systems_verification.Journal.Format.Header.{FileHeader}
use ai_systems_verification.Journal.Format.Schema
use ai_systems_verification.Journal.Format.Schema.{
  SchemaBlockHeader, SchemaBlock, zstd, no_compression,
}
use ai_systems_verification.Journal.Schema.{Codec}
use ai_systems_verification.Journal.Reader.{
  ReaderError, file_too_small, invalid_header, invalid_schema_block, schema_decompress,
  schema_hash_mismatch, ReaderConfig, JournalReader, add_usize, range,
}

-- A result, an error, or a panic.
pub data Outcome {ℓ} (A : Type ℓ) : Type ℓ where
  opened : A → Outcome A
  refused : ReaderError → Outcome A
  panicked : Outcome A

infixl 5 ◌>>=◌ ◌>>◌
abbrev pub ◌>>=◌ {ℓ κ} : {A : Type ℓ} {B : Type κ} → Outcome A → (A → Outcome B) → Outcome B
opened a >>= f = f a
refused e >>= f = refused e
panicked >>= f = panicked

abbrev pub ◌>>◌ {ℓ} : {B : Type ℓ} → Outcome (Unit {0}) → Outcome B → Outcome B
m >> k = m >>= λ _. k

abbrev pub guard : Bool → ReaderError → Outcome (Unit {0})
guard true e = opened tt
guard false e = refused e

abbrev pub slice_of {ℓ} : {A : Type ℓ} → Option A → Outcome A
slice_of none = panicked
slice_of (some a) = opened a

abbrev pub or_refuse {ℓ} : {A : Type ℓ} → Option A → ReaderError → Outcome A
or_refuse none e = refused e
or_refuse (some a) e = opened a

abbrev pub verdict : Option HeaderError → (HeaderError → ReaderError) → Outcome (Unit {0})
verdict none f = opened tt
verdict (some e) f = refused (f e)

-- `ReaderConfig::default`, `lenient`, `fast` and `skip_schema_hash`.
pub default : ReaderConfig
default = record { verify_crc = true; skip_corrupt = false; verify_schema_hash = true }

pub lenient : ReaderConfig
lenient = record { verify_crc = true; skip_corrupt = true; verify_schema_hash = true }

pub fast : ReaderConfig
fast = record { verify_crc = false; skip_corrupt = false; verify_schema_hash = false }

pub skip_schema_hash : ReaderConfig
skip_schema_hash = record { verify_crc = true; skip_corrupt = false; verify_schema_hash = false }

module _ (c : Codec) where
  pub extract_schema : List ℕ → ℕ → ℕ → Outcome (List ℕ)
  extract_schema mmap offset size = do
    guard (not (ltb size schema_block_header_size)) (file_too_small schema_block_header_size size)
    header_bytes ← slice_of (range mmap offset (add_usize offset schema_block_header_size))
    let header = Schema.from_bytes header_bytes
    verdict (Schema.validate header) invalid_schema_block
    let data_offset = add_usize offset schema_block_header_size
    let data_end = add_usize data_offset header.xml_compressed
    guard (not (ltb (length mmap) data_end)) (file_too_small data_end (length mmap))
    contents ← slice_of (range mmap data_offset data_end)
    xml ←
        if header.compression == no_compression
        then opened contents
        else (if header.compression == zstd
            then or_refuse (c.decode_all contents) schema_decompress
            else refused schema_decompress)
    guard (c.is_utf8 xml) schema_decompress
    opened xml

  -- `mmap` is the whole file.
  pub open_with_config : List ℕ → ReaderConfig → Outcome JournalReader
  open_with_config mmap config = do
    guard (not (ltb (length mmap) file_header_size)) (file_too_small file_header_size (length mmap))
    let header = Header.from_bytes (take file_header_size mmap)
    verdict (Header.validate header) invalid_header
    let schema_end = add_usize header.schema_offset header.schema_size
    guard (not (ltb (length mmap) schema_end)) (file_too_small schema_end (length mmap))
    schema_xml ← extract_schema mmap header.schema_offset header.schema_size
    let actual = c.hash schema_xml
    guard (not config.verify_schema_hash || actual == header.schema_hash)
        (schema_hash_mismatch header.schema_hash actual)
    opened (record {
      mmap = mmap;
      header = header;
      schema_xml = schema_xml;
      read_position = header.first_record;
      records_read = 0;
      finished = false;
      config = config;
    })

-- `read_schema_block`.
pub read_schema_block : JournalReader → Outcome SchemaBlock
read_schema_block r = do
  let offset = r.header.schema_offset
  let size = r.header.schema_size
  guard (not (ltb size schema_block_header_size)) (file_too_small schema_block_header_size size)
  header_bytes ← slice_of (range r.mmap offset (add_usize offset schema_block_header_size))
  let header = Schema.from_bytes header_bytes
  verdict (Schema.validate header) invalid_schema_block
  let data_offset = add_usize offset schema_block_header_size
  contents ← slice_of (range r.mmap data_offset (add_usize data_offset header.xml_compressed))
  opened (record { header = header; contents = contents })
