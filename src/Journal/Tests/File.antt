-- ===== src/Journal/Tests/File.antt =====
-- The file's parts on a small schema and small records.
use ai_systems_verification.Base.{
  ℕ, ◌^◌, ◌<◌, ◌≤◌, ◌≡◌, ◌≢◌, ◌↔◌, refl, sym, ap, subst, length-append, true, false, List, [], ◌∷◌,
  ◌++◌, none, some, arith, length, max,
}
use ai_systems_verification.Journal.Format.{
  file_header_size, schema_block_header_size, record_header_size, file_footer_size, footer_magic,
}
use ai_systems_verification.Journal.Format.Header
use ai_systems_verification.Journal.Format.Header.{FileHeader, new_with_session_start, with_schema}
use ai_systems_verification.Journal.Format.Schema
use ai_systems_verification.Journal.Format.Schema.{SchemaBlock, zstd, total_size}
use ai_systems_verification.Journal.Format.Record
use ai_systems_verification.Journal.Format.Record.{RecordHeader}
use ai_systems_verification.Journal.Format.Footer
use ai_systems_verification.Journal.Format.Footer.{FileFooter}
use ai_systems_verification.Journal.Format.Packed.{packed-round_trip}
use ai_systems_verification.Journal.Schema.{
  Codec, Embedded, ok, create_block, parse_block, serialize_block, create_journal_header,
}
use ai_systems_verification.Journal.Schema.RoundTrip.{IsSound, parse_block-create_block}
use ai_systems_verification.Journal.Schema.NewHeader.{
  Describes, Embeds, create_journal_header-Describes, length-serialize_block,
}
use ai_systems_verification.Journal.Reader.{
  JournalReader, ReaderConfig, seek, rewind, next, unfinished, panicked,
}
use ai_systems_verification.Journal.Reader.Moves.{seek_lem}
use ai_systems_verification.Journal.Format.Kind.{}
use ai_systems_verification.Journal.Reader.Progress.{next-finished}
use ai_systems_verification.Journal.Reader.Open.{opened, open_with_config}
use ai_systems_verification.Journal.Reader.Open.Accepted.{open_with_config-opened}

-- A codec that compresses nothing, and a hash that sees nothing.
abbrev pub hash : List ℕ → ℕ
hash bs = 5

pub hash_lt : (bs : List ℕ) → hash bs < 2 ^ 32
hash_lt bs = omega arith

abbrev pub codec : Codec
codec = record {
  encode_all = λ bs. some bs;
  decode_all = λ bs. some bs;
  hash = hash;
  is_utf8 = λ bs. true;
}

abbrev pub embedded : Embedded
embedded = record { xml = b'<' ∷ b'/' ∷ b'>' ∷ []; xml_hash = 5 }

some_lem : {A : Type 0} {x y : A} → some x ≡ some y → x ≡ y
some_lem e = cc

pub sound : IsSound codec embedded
sound = record {
  lossless = λ z e. ap some (some_lem (sym e));
  small = λ z e. subst (λ l. length l < 2 ^ 32) (some_lem e) (omega arith);
  xml_small = omega arith;
  text = refl;
}

abbrev pub block : SchemaBlock
block = record { header = Schema.new 3 3 zstd; contents = embedded.xml }

abbrev pub header : FileHeader
header = with_schema (new_with_session_start 9) (total_size block) 5

pub header-made : create_journal_header codec embedded true 9 ≡ ok (header, block)
unfolding create_journal_header create_block
header-made = refl

create_block-made : create_block codec embedded true ≡ ok block
unfolding create_block
create_block-made = refl

pub described : Describes embedded header block × Embeds codec embedded block
described =
    create_journal_header-Describes codec embedded true 9 header block sound (omega arith)
      (omega arith) header-made

parse_block-create_block_example :
    parse_block codec (serialize_block codec block ++ 1 ∷ 2 ∷ []) ≡ ok (block.header, embedded.xml)
parse_block-create_block_example =
    parse_block-create_block codec embedded true block (1 ∷ 2 ∷ []) sound create_block-made

create_journal_header-Describes_example :
    Describes embedded header block × Embeds codec embedded block
create_journal_header-Describes_example =
    create_journal_header-Describes codec embedded true 9 header block sound (omega arith)
      (omega arith) header-made

abbrev record_header : RecordHeader
record_header = record {
  timestamp = 77;
  payload_size = 3;
  record_type = 0x0100;
  exchange_id = 2;
  flags = 0;
  sequence_number = 1;
  crc32 = 5;
}

abbrev footer : FileFooter
footer = record { magic = footer_magic; total_records = 1; total_bytes = 300; final_timestamp = 77 }

packed-round_trip_example :
    ((length (Header.to_bytes header) ≡ file_header_size)
      × (Header.from_bytes (Header.to_bytes header) ≡ header))
    × ((length (Schema.to_bytes block.header) ≡ schema_block_header_size)
        × (Schema.from_bytes (Schema.to_bytes block.header) ≡ block.header))
    × ((length (Record.to_bytes record_header) ≡ record_header_size)
        × (Record.from_bytes (Record.to_bytes record_header) ≡ record_header))
    × ((length (Footer.to_bytes footer) ≡ file_footer_size)
        × (Footer.from_bytes (Footer.to_bytes footer) ≡ footer))
packed-round_trip_example =
    packed-round_trip header block.header record_header footer described.0.typed described.1.typed
      (omega arith) (omega arith)

-- The file of a journal with no records: the header, the schema and a footer.
abbrev file : List ℕ
file = Header.to_bytes header ++ (serialize_block codec block ++ Footer.to_bytes footer)

abbrev pub strict : ReaderConfig
strict = record { verify_crc = true; skip_corrupt = false; verify_schema_hash = true }

abbrev reader : JournalReader
reader = record {
  mmap = file;
  header = header;
  schema_xml = embedded.xml;
  read_position = header.first_record;
  records_read = 0;
  finished = false;
  config = strict;
}

file_small : length file < 2 ^ 63
file_small = omega (
  arith,
  length-append (Header.to_bytes header) (serialize_block codec block ++ Footer.to_bytes footer),
  length-append (serialize_block codec block) (Footer.to_bytes footer),
  length-serialize_block codec described.1,
  Header.length-to_bytes described.0.typed,
  packed-round_trip_example.3.0,
)

open_with_config-opened_example : open_with_config codec file strict ≡ opened reader
open_with_config-opened_example =
    open_with_config-opened codec embedded header block (Footer.to_bytes footer) file strict sound
      refl described.0 described.1 refl file_small

-- A record of one byte whose CRC is not what `hash` says, and nothing behind it.
abbrev corrupt : JournalReader
corrupt = record reader {
  mmap =
      9 ∷ 8 ∷ 0 ∷ 0 ∷ 0 ∷ 0 ∷ 0 ∷ 0 ∷ 1 ∷ 0 ∷ 0 ∷ 0 ∷ 2 ∷ 0 ∷ 7 ∷ 0 ∷ 0 ∷ 0 ∷ 0 ∷ 0 ∷ 99 ∷ 0 ∷ 0 ∷ 0
      ∷ 255 ∷ [];
  read_position = 0;
  config = record strict { verify_crc = true; skip_corrupt = true };
}

next-finished_example :
    let (n, r') = next hash corrupt in
    (n ≢ unfinished)
    × (n ≢ panicked)
    × (r'.mmap ≡ corrupt.mmap)
    × (r'.read_position ≤ max 0 (length corrupt.mmap))
next-finished_example = next-finished hash corrupt (omega arith) (omega arith) (omega arith)

seek_lem_example :
    let (out, r') = seek reader 7 in
    ((out ≡ none) ↔ ((reader.header.first_record ≤ 7) × (7 ≤ length reader.mmap)))
    × (r' ≡ elim out [
      | none ↦ record reader { read_position = 7; finished = false }
      | some e ↦ reader
    ])
    × (rewind r' ≡ rewind reader)
seek_lem_example = seek_lem reader 7
