-- ===== src/Journal/Writer/Create.antt =====
-- journal/writer.rs, `JournalWriter::new` and `with_clock`: a new journal. The operating system's
-- calls are taken to succeed; a new file is filled with zeros.
use ai_systems_verification.Base.{
  ℕ, ◌+◌, ◌^◌, ◌≤◌, ◌<◌, ◌≡◌, refl, sym, ap, ◌∙◌, true, false, List, [], ◌++◌, append-nil, Option,
  none, some, arith, if◌then◌else◌, ltb, le→ltb_false, length, length-append, replicate,
  length-replicate, length-drop, drop,
}
use ai_systems_verification.Base.Bytes.{copy_at, copy_at_two}
use ai_systems_verification.Journal.Format.{
  file_header_size, file_footer_size, schema_block_header_size,
}
use ai_systems_verification.Journal.Format.Header
use ai_systems_verification.Journal.Format.Header.{FileHeader}
use ai_systems_verification.Journal.Format.Schema.{SchemaBlock}
use ai_systems_verification.Journal.Entry.{BufferEntry}
use ai_systems_verification.Journal.Ring
use ai_systems_verification.Journal.Ring.{Ring}
use ai_systems_verification.Journal.Schema.{
  Codec, Embedded, SchemaError, ok, err, serialize_block, create_journal_header,
}
use ai_systems_verification.Journal.Writer.{Shared, Background, JournalWriter, add_usize}
use ai_systems_verification.Journal.Ring.Contents.{Holds}
use ai_systems_verification.Journal.Ring.Refine.{new_refines}
use ai_systems_verification.Journal.Schema.RoundTrip.{IsSound}
use ai_systems_verification.Journal.Schema.NewHeader.{
  Describes, Embeds, length-serialize_block, create_journal_header-Describes,
}
use ai_systems_verification.Journal.Writer.Log.{Stored}
use ai_systems_verification.Journal.Writer.Config.{
  WriterConfig, ConfigError, validate, IsValid, validate-IsValid,
}

-- The writer and its thread, an error, or the panic of a schema that the file has no room for or of
-- a ring that is too large.
pub data Creation : Type 0 where
  created : JournalWriter → Background → Creation
  bad_config : ConfigError → Creation
  bad_schema : SchemaError → Creation
  panicked : Creation

-- `SharedState::new`, with the write position at the first record.
unfoldable pub shared_state : Ring BufferEntry → ℕ → Shared
shared_state ring first_record = record {
  ring = ring;
  shutdown = false;
  degraded = false;
  records_written = 0;
  write_position = first_record;
  last_timestamp = 0;
}

-- The file once its header and its schema block are in place.
unfoldable pub initial_file : FileHeader → List ℕ → ℕ → List ℕ
initial_file header schema_bytes file_size =
    copy_at (copy_at (replicate file_size 0) 0 (Header.to_bytes header)) file_header_size
      schema_bytes

-- `with_clock` sets the session's start from the clock, `new` leaves the system's time there.
unfoldable pub start_time : Option ℕ → FileHeader → FileHeader
start_time none h = h
start_time (some now) h = record h { session_start = now }

-- `new`, and with a clock's time `with_clock`.
pub create : Codec → Embedded → WriterConfig → Option ℕ → ℕ → Creation
unfolding shared_state initial_file
create c e config clock_now system_now = elim (validate config) [
  | some error ↦ bad_config error
  | none ↦ elim (create_journal_header c e config.compress_schema system_now) [
    | err error ↦ bad_schema error
    | ok (header0, block) ↦
        let header = start_time clock_now header0 in
        let schema_bytes = serialize_block c block in
        if ltb config.file_size (add_usize file_header_size (length schema_bytes))
        then panicked
        else elim (Ring.new {A = BufferEntry} config.ring_buffer_capacity) [
          | none ↦ panicked
          | some ring ↦
              created
                (record {
                  shared = shared_state ring header.first_record;
                  sequence = 0;
                  closed = false;
                  sync_on_close = config.sync_on_close;
                })
                (record {
                  mmap = initial_file header schema_bytes config.file_size;
                  sequence = 0;
                  spin_count = 0;
                  running = true;
                })
        ]
  ]
]

-- A journal in its first state: nothing in the ring or in the file behind the header and the schema.
pub record IsNew (hash : List ℕ → ℕ) (config : WriterConfig) (pre : List ℕ) (w : JournalWriter)
    (b : Background) : Type 0 where
  pub free : List ℕ
  pub stored : Stored hash w.shared b pre [] free
  pub holds : Holds w.shared.ring []
  pub capacity : config.ring_buffer_capacity ≤ Ring.max_size w.shared.ring + 1
  pub small_ring : w.shared.ring.capacity < 2 ^ 64
  pub on : w.closed ≡ false
  pub up : w.shared.shutdown ≡ false
  pub running : b.running ≡ true
  pub none_pushed : w.sequence ≡ 0

start_time-Describes :
    {e : Embedded} {h : FileHeader} {b : SchemaBlock} (now : Option ℕ)
    → ((t : ℕ) → now ≡ some t → t < 2 ^ 64)
    → Describes e h b
    → Describes e (start_time now h) b
unfolding start_time Header.validate
start_time-Describes none lt v = v
start_time-Describes {e} {h} {b} (some t) lt v = record {
  typed = ground (arith, lt t refl);
  valid = v.valid;
  offset = v.offset;
  size = v.size;
  first = v.first;
  schema_hash = v.schema_hash;
}

module _ (c : Codec) where
  initial_file_lem :
      {e : Embedded} {b : SchemaBlock} (h : FileHeader) (file_size : ℕ)
      → Describes e h b
      → Embeds c e b
      → h.first_record ≤ file_size
      → initial_file h (serialize_block c b) file_size
        ≡ (Header.to_bytes h ++ serialize_block c b) ++ drop h.first_record (replicate file_size 0)
  unfolding initial_file
  initial_file_lem {e} {b} h file_size d m fits =
      let hdr : List ℕ = Header.to_bytes h in
      let sch : List ℕ = serialize_block c b in
      let n : length hdr ≡ file_header_size = Header.length-to_bytes d.typed in
      let m' : length sch ≡ schema_block_header_size + length b.contents =
        length-serialize_block c m in
      let all : List ℕ = replicate file_size 0 in
      let zeros : length all ≡ file_size = length-replicate file_size 0 in
      copy_at_two [] all hdr sch all 0 file_header_size refl refl (omega arith)
        (omega (arith, d.first))
      ∙ ap (λ (k : ℕ). (hdr ++ sch) ++ drop k all) (omega (arith, d.first))

  -- With a valid configuration whose file has room for the header, the schema and a footer, a new
  -- journal starts, empty, with the first record's place behind the schema.
  pub create-IsNew :
      (hash : List ℕ → ℕ) (e : Embedded) (config : WriterConfig) (now : Option ℕ) (system_now : ℕ)
      (h0 : FileHeader) (block : SchemaBlock)
      → ((t : ℕ) → now ≡ some t → t < 2 ^ 64)
      → system_now < 2 ^ 64
      → IsSound c e
      → e.xml_hash < 2 ^ 32
      → IsValid config
      → config.ring_buffer_capacity ≤ 2 ^ 62
      → create_journal_header c e config.compress_schema system_now ≡ ok (h0, block)
      → h0.first_record + file_footer_size ≤ config.file_size
      → (w : JournalWriter) × (b : Background) × (create c e config now system_now ≡ created w b)
        × IsNew hash config (Header.to_bytes (start_time now h0) ++ serialize_block c block) w b
        × let pre = Header.to_bytes (start_time now h0) ++ serialize_block c block in
          (b.mmap ≡ pre ++ drop (length pre) (replicate config.file_size 0))
  unfolding create shared_state
  create-IsNew hash e config now system_now h0 block now_lt system_lt sound hash_lt valid small made
        room =
      let (d0, m) =
        create_journal_header-Describes c e config.compress_schema system_now h0 block sound
          system_lt hash_lt made in
      let h : FileHeader = start_time now h0 in
      let d : Describes e h block = start_time-Describes now now_lt d0 in
      let pre : List ℕ = Header.to_bytes h ++ serialize_block c block in
      let (r, rnew, holds, cap, size) =
        new_refines {A = BufferEntry} config.ring_buffer_capacity (omega arith) in
      let sch : length (serialize_block c block)
          ≡ schema_block_header_size + length block.contents =
        length-serialize_block c m in
      let len : length pre ≡ h.first_record =
        length-append (Header.to_bytes h) (serialize_block c block)
        ∙ omega (arith, Header.length-to_bytes d.typed, d.first) in
      let first : h.first_record ≡ h0.first_record = d.first ∙ sym d0.first in
      let all : List ℕ = replicate config.file_size 0 in
      let zeros : length all ≡ config.file_size = length-replicate config.file_size 0 in
      let file = initial_file_lem h config.file_size d m (omega arith) in
      let file_size : length (initial_file h (serialize_block c block) config.file_size)
          ≡ config.file_size =
        ap length file
        ∙ length-append pre (drop h.first_record (replicate config.file_size 0))
        ∙ omega (arith, length-drop h.first_record all, zeros) in
      let inside : ltb config.file_size
            (add_usize file_header_size (length (serialize_block c block)))
          ≡ false =
        le→ltb_false _ _ (omega (arith, d0.first, valid.file_size_le)) in
      let w : JournalWriter = record {
        shared = shared_state r h.first_record;
        sequence = 0;
        closed = false;
        sync_on_close = config.sync_on_close;
      } in
      let b : Background = record {
        mmap = initial_file h (serialize_block c block) config.file_size;
        sequence = 0;
        spin_count = 0;
        running = true;
      } in
      let whole : b.mmap ≡ pre ++ drop (length pre) all =
        file ∙ ap (λ (k : ℕ). pre ++ drop k all) (sym len) in
      let v : IsNew hash config pre w b = record {
        free = drop (length pre) all;
        stored = record {
          bytes =
              whole
              ∙ ap (λ (l : List ℕ). l ++ drop (length pre) (replicate config.file_size 0))
                  (sym (append-nil pre));
          position = sym len ∙ ap length (sym (append-nil pre));
          footer_room = omega arith;
          small = omega (arith, valid.file_size_le);
          sequence = refl;
          last_lt = omega arith;
          count = refl;
        };
        holds = holds;
        capacity = cap;
        small_ring = omega arith;
        on = refl;
        up = refl;
        running = refl;
        none_pushed = refl;
      } in
      (w, b, rw ((validate-IsValid config).1 valid, made, inside, rnew, create), v, whole)
