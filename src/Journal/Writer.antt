-- ===== src/Journal/Writer.antt =====
-- journal/writer.rs: the writer that the application calls, and the background thread that moves the
-- ring's entries into the memory map. The map is a list of bytes. File and map calls of the operating
-- system are taken to succeed; the clock's time is an argument. `usize` and `u64` have 64 bits.
pub mod Config
pub mod Log
pub mod Rounds
pub mod Step
pub mod Close
pub mod Create
pub mod Append
pub mod Finish
pub mod Balance
pub mod Flush
pub mod Writes
pub mod Session
use ai_systems_verification.Base.{
  ℕ, zero, suc, ◌+◌, ◌%◌, ◌^◌, Bool, true, false, not, ◌&&◌, List, [], ◌∷◌, Option, none, some,
  if◌then◌else◌, ltb, leb, ◌==◌, length, take,
}
use ai_systems_verification.Base.Bytes.{copy_at}
use ai_systems_verification.Journal.Format.{file_header_size, record_header_size, file_footer_size}
use ai_systems_verification.Journal.Format.Header
use ai_systems_verification.Journal.Format.Header.{FileHeader}
use ai_systems_verification.Journal.Format.Footer
use ai_systems_verification.Journal.Format.Record
use ai_systems_verification.Journal.Format.Record.{RecordHeader}
use ai_systems_verification.Journal.Format.Kind.{RecordType, as_u16}
use ai_systems_verification.Journal.Entry
use ai_systems_verification.Journal.Entry.{BufferEntry, as_slice}
use ai_systems_verification.Journal.Ring
use ai_systems_verification.Journal.Ring.{Ring, Popped, nothing, item, undefined}

abbrev pub spin_iterations : ℕ
spin_iterations = 100

abbrev pub add_usize : ℕ → ℕ → ℕ
add_usize a b = (a + b) % 2 ^ 64

-- `SharedState`: what the two threads share.
pub record Shared : Type 0 where
  pub ring : Ring BufferEntry
  pub shutdown : Bool
  pub degraded : Bool
  pub records_written : ℕ
  pub write_position : ℕ
  pub last_timestamp : ℕ

-- The locals of `background_writer`; `running` is false once its loop has ended.
pub record Background : Type 0 where
  pub mmap : List ℕ
  pub sequence : ℕ
  pub spin_count : ℕ
  pub running : Bool

-- The branch that has popped nothing: the thread ends if it is told to and the ring is empty.
abbrev pub idle_round : Shared → Background → Background
idle_round s b =
    if s.shutdown && Ring.is_empty s.ring
    then record b { running = false }
    else (if leb spin_iterations (b.spin_count + 1)
        then record b { spin_count = 0 }
        else record b { spin_count = b.spin_count + 1 })

module _ (hash : List ℕ → ℕ) where
  -- The header that the background thread builds for an entry.
  unfoldable pub record_header : ℕ → BufferEntry → RecordHeader
  record_header sequence e = record {
    timestamp = e.timestamp;
    payload_size = Entry.len e.payload % 2 ^ 32;
    record_type = e.record_type;
    exchange_id = e.exchange_id;
    flags = 0;
    sequence_number = sequence;
    crc32 = hash (as_slice e.payload);
  }

  -- The body of the branch that has popped an entry.
  pub store_entry : BufferEntry → Shared → Background → Shared × Background
  store_entry e s b =
      let total_size = add_usize record_header_size (Entry.len e.payload) in
      let write_pos = s.write_position in
      let new_pos = add_usize write_pos total_size in
      let header_at = copy_at b.mmap write_pos (Record.to_bytes (record_header b.sequence e)) in
      if ltb (length b.mmap) (add_usize new_pos file_footer_size)
      then (record s { degraded = true }, record b { spin_count = 0 })
      else (
        record s {
          write_position = new_pos;
          records_written = (s.records_written + 1) % 2 ^ 64;
          last_timestamp = e.timestamp;
        },
        record b {
          mmap = copy_at header_at (add_usize write_pos record_header_size) (as_slice e.payload);
          sequence = (b.sequence + 1) % 2 ^ 32;
          spin_count = 0;
        },
      )

  -- One round of the loop of `background_writer`. A read of an empty slot cannot happen
  -- (`Ring.Refine.pop_refines`); it is taken to change nothing.
  pub round : Shared → Background → Shared × Background
  unfolding store_entry
  round s b =
      let (out, ring') = Ring.pop s.ring in
      elim out [
        | nothing ↦ (s, idle_round s b)
        | item e ↦ store_entry e (record s { ring = ring' }) b
        | undefined ↦ (s, b)
      ]

  -- The rounds of the loop while no one else runs, at most `fuel` of them.
  pub run : ℕ → Shared → Background → Shared × Background
  run zero s b = (s, b)
  run (suc fuel) s b =
      let (s', b') = round s b in elim b'.running [ true ↦ run fuel s' b' | false ↦ (s', b') ]

-- The application's side.
pub record JournalWriter : Type 0 where
  pub shared : Shared
  pub sequence : ℕ
  pub closed : Bool
  pub sync_on_close : Bool

pub data WriteError : Type 0 where
  degraded : WriteError
  closed : WriteError

-- `Result<(), WriterError>` of a write: no error, or the error.
pub write_with_timestamp :
    JournalWriter → RecordType → ℕ → List ℕ → ℕ → Option WriteError × JournalWriter
write_with_timestamp w record_type exchange_id payload timestamp =
    let entry = Entry.new (as_u16 record_type) exchange_id timestamp payload in
    let (pushed, ring') = Ring.try_push w.shared.ring entry in
    if w.closed
    then (some WriteError.closed, w)
    else (if pushed
        then (
          none,
          record w {
            shared = record (w.shared) { ring = ring' };
            sequence = (w.sequence + 1) % 2 ^ 32;
          },
        )
        else (if w.shared.degraded then (some WriteError.degraded, w) else (none, w)))

-- `write` takes its time stamp from the clock, or the system's time if there is no clock.
unfoldable pub write :
    JournalWriter → Option ℕ → ℕ → RecordType → ℕ → List ℕ → Option WriteError × JournalWriter
unfolding write_with_timestamp
write w clock_now system_now record_type exchange_id payload =
    write_with_timestamp w record_type exchange_id payload
      (elim clock_now [ none ↦ system_now | some now ↦ now ])

-- One look of `flush`'s loop at the shared state: whether it ends.
pub flush_done : JournalWriter → Bool
flush_done w =
    if leb w.sequence w.shared.records_written
    then true
    else (w.shared.degraded && Ring.is_empty w.shared.ring)

-- `write_footer`: the header at the start gets its counts, the footer goes behind the records.
pub write_footer : Shared → List ℕ → List ℕ
write_footer s mmap =
    let header = Header.from_bytes (take file_header_size mmap) in
    let updated = record header {
      record_count = s.records_written;
      session_end = s.last_timestamp;
    } in
    let counted = copy_at mmap 0 (Header.to_bytes updated) in
    let total_bytes = (s.write_position + file_footer_size) % 2 ^ 64 in
    let footer = Footer.new s.records_written total_bytes s.last_timestamp in
    if leb (add_usize s.write_position file_footer_size) (length mmap)
    then copy_at counted s.write_position (Footer.to_bytes footer)
    else counted

-- `close_internal`: the thread is told to end and runs until it has, then the footer is written.
-- `b` is the thread's state at that moment; `Close` shows that the fuel is enough.
pub close : (List ℕ → ℕ) → JournalWriter → Background → JournalWriter × Background
close hash w b =
    let (s', b') =
      run hash (w.shared.ring.capacity + 1) (record (w.shared) { shutdown = true }) b in
    if w.closed
    then (w, b)
    else (record w { shared = s'; closed = true }, record b' { mmap = write_footer s' b'.mmap })
