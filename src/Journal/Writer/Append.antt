-- ===== src/Journal/Writer/Append.antt =====
-- journal/writer.rs, `JournalWriter::append`: an existing journal opened for writing. Opening and
-- mapping the file are taken to succeed.
use ai_systems_verification.Base.{
  ℕ, ◌+◌, ◌%◌, ◌^◌, ◌≤◌, ◌≡◌, refl, sym, ap, ◌∙◌, true, false, List, ◌++◌, append_assoc, append-nil,
  none, some, arith, if◌then◌else◌, if_true, ltb, le→ltb_false, ◌==◌, eq→==, length, length-append,
  take,
}
use ai_systems_verification.Base.Bytes.{take-append_of}
use ai_systems_verification.Journal.Format.{file_header_size, file_footer_size, HeaderError}
use ai_systems_verification.Journal.Format.Header
use ai_systems_verification.Journal.Format.Header.{FileHeader}
use ai_systems_verification.Journal.Format.Schema.{SchemaBlock}
use ai_systems_verification.Journal.Entry.{BufferEntry}
use ai_systems_verification.Journal.Ring
use ai_systems_verification.Journal.Ring.{Ring}
use ai_systems_verification.Journal.Ring.Refine.{new_refines}
use ai_systems_verification.Journal.Schema.{Codec, Embedded, serialize_block}
use ai_systems_verification.Journal.Schema.NewHeader.{Describes, Embeds, length-serialize_block}
use ai_systems_verification.Journal.Writer.{Background, JournalWriter}
use ai_systems_verification.Journal.Writer.Config.{
  WriterConfig, ConfigError, validate, IsValid, validate-IsValid,
}
use ai_systems_verification.Journal.Writer.Create.{shared_state, IsNew}

-- The writer and its thread, the error, or the panic of a ring that is too large.
pub data Appending : Type 0 where
  appended : JournalWriter → Background → Appending
  bad_config : ConfigError → Appending
  too_small : Appending
  bad_header : HeaderError → Appending
  not_empty : Appending
  panicked : Appending

-- What `append` does with a header that it has read.
append_to : WriterConfig → List ℕ → FileHeader → Appending
append_to config file header = elim (Header.validate header) [
  | some error ↦ bad_header error
  | none ↦
      if header.record_count == 0
      then elim (Ring.new {A = BufferEntry} config.ring_buffer_capacity) [
        | none ↦ panicked
        | some ring ↦
            appended
              (record {
                shared = shared_state ring header.first_record;
                sequence = header.record_count % 2 ^ 32;
                closed = false;
                sync_on_close = config.sync_on_close;
              })
              (record { mmap = file; sequence = 0; spin_count = 0; running = true })
      ]
      else not_empty
]

-- `append`, by the bytes of the file.
pub append : WriterConfig → List ℕ → Appending
unfolding append_to
append config file = elim (validate config) [
  | some error ↦ bad_config error
  | none ↦
      if ltb (length file) file_header_size
      then too_small
      else append_to config file (Header.from_bytes (take file_header_size file))
]

append-append_to :
    (config : WriterConfig) (file : List ℕ) (h : FileHeader)
    → IsValid config
    → file_header_size ≤ length file
    → Header.from_bytes (take file_header_size file) ≡ h
    → append config file ≡ append_to config file h
unfolding append
append-append_to config file h valid large header =
    rw ((validate-IsValid config).1 valid, le→ltb_false _ _ large, append)
      (ap (append_to config file) header)

append_to_lem :
    (config : WriterConfig) (file : List ℕ) (h : FileHeader) (r : Ring BufferEntry)
    → Header.validate h ≡ none
    → h.record_count ≡ 0
    → Ring.new config.ring_buffer_capacity ≡ some r
    → append_to config file h
      ≡ appended
          (record {
            shared = shared_state r h.first_record;
            sequence = h.record_count % 2 ^ 32;
            closed = false;
            sync_on_close = config.sync_on_close;
          })
          (record { mmap = file; sequence = 0; spin_count = 0; running = true })
unfolding append_to
append_to_lem config file h r ok none_yet made =
    rw (ok, made, append_to) (if_true (eq→== _ _ none_yet) _ _)

-- A journal whose header counts no records is opened in the state of a new journal, whatever stands
-- behind its schema: also the records of a journal that was never closed count as free space.
pub append-IsNew :
    (c : Codec) (hash : List ℕ → ℕ) (e : Embedded) (config : WriterConfig) (h : FileHeader)
    (block : SchemaBlock) (free file : List ℕ)
    → Describes e h block
    → Embeds c e block
    → h.record_count ≡ 0
    → IsValid config
    → config.ring_buffer_capacity ≤ 2 ^ 62
    → file ≡ (Header.to_bytes h ++ serialize_block c block) ++ free
    → file_footer_size ≤ length free
    → length file ≤ 2 ^ 32
    → (w : JournalWriter) × (b : Background) × (append config file ≡ appended w b)
      × IsNew hash config (Header.to_bytes h ++ serialize_block c block) w b
unfolding shared_state
append-IsNew c hash e config h block free file d m none_yet valid slots bytes room small =
    let hdr : List ℕ = Header.to_bytes h in
    let sch : List ℕ = serialize_block c block in
    let (r, rnew, holds, cap, size) =
      new_refines {A = BufferEntry} config.ring_buffer_capacity (omega arith) in
    let n : length hdr ≡ file_header_size = Header.length-to_bytes d.typed in
    let len : length (hdr ++ sch) ≡ h.first_record =
      length-append hdr sch ∙ omega (arith, n, length-serialize_block c m, d.first) in
    let total : length file ≡ h.first_record + length free =
      ap length bytes ∙ length-append (hdr ++ sch) free ∙ ap (λ (k : ℕ). k + length free) len in
    let header : Header.from_bytes (take file_header_size file) ≡ h =
      ap (λ (l : List ℕ). Header.from_bytes (take file_header_size l))
        (bytes ∙ append_assoc hdr sch free)
      ∙ ap Header.from_bytes (take-append_of hdr (sch ++ free) n)
      ∙ Header.from_bytes-to_bytes d.typed in
    let w : JournalWriter = record {
      shared = shared_state r h.first_record;
      sequence = h.record_count % 2 ^ 32;
      closed = false;
      sync_on_close = config.sync_on_close;
    } in
    let b : Background = record { mmap = file; sequence = 0; spin_count = 0; running = true } in
    let v : IsNew hash config (hdr ++ sch) w b = record {
      free = free;
      stored = record {
        bytes = bytes ∙ ap (λ (l : List ℕ). l ++ free) (sym (append-nil (hdr ++ sch)));
        position = sym len ∙ ap length (sym (append-nil (hdr ++ sch)));
        footer_room = omega arith;
        small = small;
        sequence = refl;
        last_lt = omega arith;
        count = refl;
      };
      holds = holds;
      capacity = cap;
      small_ring = omega arith;
      on = refl;
      up = refl;
      running = refl;
      none_pushed = omega (arith, none_yet);
    } in
    (
      w,
      b,
      append-append_to config file h valid (omega (arith, d.first)) header
          ∙ append_to_lem config file h r d.valid none_yet rnew,
      v,
    )
