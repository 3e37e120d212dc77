-- ===== src/Journal/Tests/Session.antt =====
-- A small session: a journal is made, written to, closed and read.
use ai_systems_verification.Base.{
  ◌<◌, length-append, ap, ◌∙◌, append-nil, length-append, ℕ, ◌+◌, ◌%◌, ◌^◌, ◌≤◌, ◌≡◌, refl, true,
  false, List, [], ◌∷◌, ◌++◌, none, some, arith, length, replicate, drop,
}
use ai_systems_verification.Journal.Format.{file_footer_size}
use ai_systems_verification.Journal.Format.Header
use ai_systems_verification.Journal.Format.Header.{FileHeader, new_with_session_start, with_schema}
use ai_systems_verification.Journal.Format.Kind.{raw_frame, as_u16}
use ai_systems_verification.Journal.Format.Schema.{total_size}
use ai_systems_verification.Journal.Entry
use ai_systems_verification.Journal.Entry.{BufferEntry, as_slice, as_slice-from_slice}
use ai_systems_verification.Journal.Ring
use ai_systems_verification.Journal.Schema.{serialize_block}
use ai_systems_verification.Journal.Writer.{Background, JournalWriter, write_footer, close}
use ai_systems_verification.Journal.Writer.Config.{WriterConfig, min_file_size}
use ai_systems_verification.Journal.Writer.Create.{create, created, start_time, IsNew, create-IsNew}
use ai_systems_verification.Journal.Writer.Append.{append, appended, append-IsNew}
use ai_systems_verification.Journal.Writer.Log.{encode_all}
use ai_systems_verification.Journal.Writer.Step.{keep, room_left}
use ai_systems_verification.Journal.Writer.Close.{Closed, close-Closed}
use ai_systems_verification.Journal.Writer.Finish.{closed_header, closed_footer, write_footer-bytes}
use ai_systems_verification.Journal.Writer.Writes.{entry_of}
use ai_systems_verification.Journal.Writer.Session.{
  Session, Event, written, turn, step, steps, step_accepts, turn_accepts, IsGood, steps-IsGood,
}
use ai_systems_verification.Journal.Reader.{JournalReader, no_more, collect}
use ai_systems_verification.Journal.Reader.Open.{opened, open_with_config}
use ai_systems_verification.Journal.RoundTrip.{IsReadable, recorded}
use ai_systems_verification.Journal.Writer.Flush.{flush, Flushed, flush-stores}
use ai_systems_verification.Journal.RoundTrip.Session.{started, IsNew-IsGood, close-collect}
use ai_systems_verification.Journal.Tests.File.{
  hash, hash_lt, codec, embedded, sound, block, header, header-made, described, strict,
}

abbrev config : WriterConfig
config = record {
  ring_buffer_capacity = 16;
  file_size = min_file_size;
  compress_schema = true;
  sync_on_close = false;
  prefault_pages = false;
}

abbrev pre : List ℕ
pre = Header.to_bytes header ++ serialize_block codec block

first_state :
    (w : JournalWriter) × (b : Background) × (create codec embedded config none 9 ≡ created w b)
    × IsNew hash config pre w b
    × (b.mmap ≡ pre ++ drop (length pre) (replicate config.file_size 0))
unfolding with_schema total_size start_time
first_state =
    create-IsNew codec hash embedded config none 9 header block (λ t e. absurd cc) (omega arith)
      sound (omega arith) (omega arith) (omega arith) header-made (omega arith)

create-IsNew_example :
    (w : JournalWriter) × (b : Background) × (create codec embedded config none 9 ≡ created w b)
    × IsNew hash config
        (Header.to_bytes (start_time none header) ++ serialize_block codec block)
        w
        b
    × let pre = Header.to_bytes (start_time none header) ++ serialize_block codec block in
      (b.mmap ≡ pre ++ drop (length pre) (replicate config.file_size 0))
unfolding with_schema total_size
create-IsNew_example =
    create-IsNew codec hash embedded config none 9 header block (λ t e. absurd cc) (omega arith)
      sound (omega arith) (omega arith) (omega arith) header-made (omega arith)

abbrev writer : JournalWriter
writer = first_state.0

abbrev background : Background
background = first_state.1

is_new : IsNew hash config pre writer background
is_new = first_state.3

abbrev frame : BufferEntry
frame = entry_of raw_frame 2 (1 ∷ 2 ∷ 3 ∷ []) 77

frame-IsReadable : IsReadable frame
unfolding Entry.new Entry.len Entry.from_slice as_u16
frame-IsReadable = record {
  typed = record {
    record_type_lt = omega arith;
    exchange_id_lt = omega arith;
    timestamp_lt = omega arith;
    payload_lt = omega arith;
  };
  short = omega arith;
  kind = omega arith;
  time = omega arith;
}

abbrev events : List Event
events =
    written raw_frame 2 (1 ∷ 2 ∷ 3 ∷ []) 77 ∷ turn ∷ written raw_frame 2 (1 ∷ 2 ∷ 3 ∷ []) 77 ∷ []

steps-IsGood_example :
    IsGood hash pre
      (room_left writer.shared background)
      (steps hash (started writer background) events)
steps-IsGood_example =
    steps-IsGood hash hash_lt (started writer background) events
      (frame-IsReadable.typed, (frame-IsReadable.typed, tt)) (IsNew-IsGood is_new)

close-Closed_example :
    let (w', b') = close hash writer background in
    Closed hash hash_lt w' b' pre ([] ++ keep (room_left writer.shared background) [])
close-Closed_example =
    close-Closed hash hash_lt writer background pre [] [] _ tt is_new.stored is_new.holds is_new.on
      is_new.running

write_footer-bytes_example :
    write_footer writer.shared background.mmap
    ≡ (Header.to_bytes (closed_header header writer.shared) ++ serialize_block codec block)
      ++ (encode_all hash 0 []
          ++ (closed_footer writer.shared ++ drop file_footer_size is_new.free))
write_footer-bytes_example =
    write_footer-bytes hash header (serialize_block codec block) [] described.0.typed is_new.stored

close-collect_example :
    let s = steps hash (started writer background) events in
    let (w', b') = close hash s.writer s.background in
    let kept = keep (room_left writer.shared background) s.accepted in
    (b'.running ≡ false)
    × ((r : JournalReader) × (open_with_config codec b'.mmap strict ≡ opened r)
        × (r.header.record_count ≡ length kept % 2 ^ 64)
        × (collect hash 5 r ≡ (recorded hash 0 header.first_record kept, no_more)))
close-collect_example =
    close-collect codec hash_lt embedded config header block strict writer background events 5 sound
      refl described.0 described.1 is_new (frame-IsReadable, (frame-IsReadable, tt)) (omega arith)

new_file : background.mmap ≡ pre ++ is_new.free
new_file = is_new.stored.bytes ∙ ap (λ (l : List ℕ). l ++ is_new.free) (append-nil pre)

room_in_new : file_footer_size ≤ length is_new.free
room_in_new = omega (
  arith,
  is_new.stored.footer_room,
  is_new.stored.position,
  ap length is_new.stored.bytes,
  length-append (pre ++ []) is_new.free,
)

-- The new journal's file, before anything is written to it, opened again to append.
append-IsNew_example :
    (w : JournalWriter) × (b : Background) × (append config background.mmap ≡ appended w b)
    × IsNew hash config (Header.to_bytes header ++ serialize_block codec block) w b
unfolding with_schema new_with_session_start
append-IsNew_example =
    append-IsNew codec hash embedded config header block is_new.free background.mmap described.0
      described.1 refl (omega arith) (omega arith) new_file (omega (arith, room_in_new))
      is_new.stored.small

events_few : length (steps hash (started writer background) events).accepted < 2 ^ 32
events_few =
    let s0 : Session = started writer background in
    let s1 : Session = step hash s0 (written raw_frame 2 (1 ∷ 2 ∷ 3 ∷ []) 77) in
    let s2 : Session = step hash s1 turn in
    let one : length s1.accepted < 2 =
      step_accepts hash (λ l. length l < 2) s0 raw_frame 2 (1 ∷ 2 ∷ 3 ∷ []) 77 (omega arith)
        (omega arith) in
    let still : length s2.accepted < 2 = turn_accepts hash (λ l. length l < 2) s1 one in
    step_accepts hash (λ l. length l < 2 ^ 32) s2 raw_frame 2 (1 ∷ 2 ∷ 3 ∷ []) 77
      (omega (arith, still)) (omega (arith, still, length-append s2.accepted (frame ∷ [])))

-- After these events a flush stores both entries.
flush-stores_example :
    let s = steps hash (started writer background) events in
    (w : JournalWriter) × (b : Background) × (flush hash
        (s.writer.shared.ring.capacity + 1)
        s.writer
        s.background
      ≡ some (none, (w, b)))
    × Flushed hash hash_lt w b pre (keep (room_left writer.shared background) s.accepted)
flush-stores_example =
    let s : Session = steps hash (started writer background) events in
    flush-stores hash hash_lt s (s.writer.shared.ring.capacity + 1)
      (steps-IsGood hash hash_lt (started writer background) events
        (frame-IsReadable.typed, (frame-IsReadable.typed, tt)) (IsNew-IsGood is_new))
      events_few (omega arith) (omega arith)
