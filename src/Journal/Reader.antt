-- ===== src/Journal/Reader.antt =====
-- journal/reader.rs: the journal's reader over the bytes of the file. `usize` has 64 bits, its sums
-- wrap, and a slice out of range panics. Opening and mapping the file are taken to succeed.
pub mod Open
pub mod Progress
pub mod ReadBack
pub mod Moves
use ai_systems_verification.Base.{
  ℕ, zero, suc, ◌+◌, ◌-◌, ◌%◌, ◌^◌, Bool, true, false, not, ◌&&◌, List, [], ◌∷◌, Option, none, some,
  if◌then◌else◌, ltb, leb, ◌==◌, length, take, drop,
}
use ai_systems_verification.Base.Bytes.{beq_bytes, slice}
use ai_systems_verification.Journal.Format.{
  file_header_size, record_header_size, file_footer_size, footer_magic, HeaderError,
}
use ai_systems_verification.Journal.Format.Header.{FileHeader}
use ai_systems_verification.Journal.Format.Footer
use ai_systems_verification.Journal.Format.Footer.{FileFooter}
use ai_systems_verification.Journal.Format.Record
use ai_systems_verification.Journal.Format.Record.{RecordHeader}

abbrev pub add_usize : ℕ → ℕ → ℕ
add_usize a b = (a + b) % 2 ^ 64

-- `&bytes[start..end]`; `none` is the panic of a range that does not lie inside.
abbrev pub range : List ℕ → ℕ → ℕ → Option (List ℕ)
range bytes start end =
    if leb start end && leb end (length bytes) then some (slice bytes start (end - start)) else none

-- `ReaderError`; the texts of the messages are left out, and so is what only the system reports.
pub data ReaderError : Type 0 where
  seek_before_first : ReaderError
  seek_past_end : ReaderError
  invalid_header : HeaderError → ReaderError
  corrupt_record : ℕ → ℕ → ℕ → ReaderError
  unexpected_eof : ℕ → ℕ → ReaderError
  file_too_small : ℕ → ℕ → ReaderError
  schema_decompress : ReaderError
  invalid_schema_block : HeaderError → ReaderError
  schema_hash_mismatch : ℕ → ℕ → ReaderError

pub record Entry : Type 0 where
  pub header : RecordHeader
  pub payload : List ℕ
  pub offset : ℕ

pub record ReaderConfig : Type 0 where
  pub verify_crc : Bool
  pub skip_corrupt : Bool
  pub verify_schema_hash : Bool

pub record JournalReader : Type 0 where
  pub mmap : List ℕ
  pub header : FileHeader
  pub schema_xml : List ℕ
  pub read_position : ℕ
  pub records_read : ℕ
  pub finished : Bool
  pub config : ReaderConfig

-- What `next` returns. `unfinished` is the model's own: the fuel ran out.
pub data Next : Type 0 where
  no_more : Next
  got : Entry → Next
  failed : ReaderError → Next
  panicked : Next
  unfinished : Next

-- One pass of `read_next`, up to the recursive call that skips a corrupt record.
pub data Pass : Type 0 where
  done : Next → JournalReader → Pass
  again : JournalReader → Pass

abbrev pub finish : JournalReader → JournalReader
finish r = record r { finished = true }

abbrev pub advance : JournalReader → ℕ → JournalReader
advance r position = record r {
  read_position = position;
  records_read = (r.records_read + 1) % 2 ^ 64;
}

abbrev pub all_zero : List ℕ → Bool
all_zero [] = true
all_zero (b ∷ bs) = b == 0 && all_zero bs

pub has_more : JournalReader → Bool
has_more r = not r.finished && leb (add_usize r.read_position record_header_size) (length r.mmap)

pub rewind : JournalReader → JournalReader
rewind r = record r { read_position = r.header.first_record; records_read = 0; finished = false }

-- `seek`: the error, or none.
pub seek : JournalReader → ℕ → Option ReaderError × JournalReader
seek r offset =
    if ltb offset r.header.first_record
    then (some seek_before_first, r)
    else (if ltb (length r.mmap) offset
        then (some seek_past_end, r)
        else (none, record r { read_position = offset; finished = false }))

-- Whether the footer's magic number stands at the read position.
pub at_footer : JournalReader → Option Bool
at_footer r =
    let end = add_usize r.read_position 8 in
    if leb end (length r.mmap)
    then elim (range r.mmap r.read_position end) [
      | none ↦ none
      | some magic ↦ some (beq_bytes magic footer_magic)
    ]
    else some false

module _ (hash : List ℕ → ℕ) where
  -- From the payload's bytes on.
  pub check_record : JournalReader → RecordHeader → List ℕ → ℕ → Pass
  check_record r header payload payload_end =
      let actual = hash payload in
      if r.config.verify_crc && not (actual == header.crc32)
      then (if r.config.skip_corrupt
          then again (advance r payload_end)
          else done (failed (corrupt_record r.read_position header.crc32 actual)) (finish r))
      else done (got (record { header = header; payload = payload; offset = r.read_position }))
          (advance r payload_end)

  -- From the header's bytes on; `header_end` is where they end.
  pub read_payload : JournalReader → List ℕ → ℕ → Pass
  read_payload r header_bytes header_end =
      let header = Record.from_bytes header_bytes in
      let payload_end = add_usize header_end header.payload_size in
      if all_zero header_bytes
      then done no_more (finish r)
      else (if ltb (length r.mmap) payload_end
          then done (failed (unexpected_eof header.payload_size (length r.mmap - header_end)))
              (finish r)
          else elim (range r.mmap header_end payload_end) [
            | none ↦ done panicked r
            | some payload ↦ check_record r header payload payload_end
          ])

  pub read_header : JournalReader → Pass
  read_header r =
      let header_end = add_usize r.read_position record_header_size in
      if ltb (length r.mmap) header_end
      then done (failed (unexpected_eof record_header_size (length r.mmap - r.read_position)))
          (finish r)
      else elim (range r.mmap r.read_position header_end) [
        | none ↦ done panicked r
        | some bytes ↦ read_payload r bytes header_end
      ]

  pub pass : JournalReader → Pass
  pass r =
      if r.finished
      then done no_more r
      else (if ltb (length r.mmap) (add_usize r.read_position record_header_size)
          then done no_more (finish r)
          else elim (at_footer r) [
            | none ↦ done panicked r
            | some true ↦ done no_more (finish r)
            | some false ↦ read_header r
          ])

  pub read_next : ℕ → JournalReader → Next × JournalReader
  read_next zero r = (unfinished, r)
  read_next (suc fuel) r = elim (pass r) [ done n r' ↦ (n, r') | again r' ↦ read_next fuel r' ]

  -- `Iterator::next`. Each pass moves on by a header at least (`Progress`).
  pub next : JournalReader → Next × JournalReader
  unfolding read_next
  next r = read_next (length r.mmap + 1) r

  -- The records that a loop over the iterator sees until it ends or fails, at most `fuel` of them,
  -- and what ended it.
  pub collect : ℕ → JournalReader → List Entry × Next
  collect zero r = ([], unfinished)
  collect (suc fuel) r =
      let (n, r') = next r in
      let rest = collect fuel r' in
      elim n [
        | got e ↦ (e ∷ rest.0, rest.1)
        | no_more ↦ ([], no_more)
        | failed e ↦ ([], failed e)
        | panicked ↦ ([], panicked)
        | unfinished ↦ ([], unfinished)
      ]

-- `read_footer`: at the read position, else at the end of the file. The outer `none` is a panic.
footer_at : List ℕ → ℕ → Option FileFooter → Option (Option FileFooter)
footer_at mmap start otherwise = elim (range mmap start (add_usize start 8)) [
  | none ↦ none
  | some magic ↦
      if beq_bytes magic footer_magic
      then some (some (Footer.from_bytes (slice mmap start file_footer_size)))
      else some otherwise
]

pub read_footer : JournalReader → Option (Option FileFooter)
unfolding footer_at
read_footer r =
    let at_end =
      if leb file_footer_size (length r.mmap)
      then footer_at r.mmap (length r.mmap - file_footer_size) none
      else some none in
    if leb (add_usize r.read_position file_footer_size) (length r.mmap)
    then elim (footer_at r.mmap r.read_position none) [
      | none ↦ none
      | some none ↦ at_end
      | some (some f) ↦ some (some f)
    ]
    else at_end
