-- ===== src/Lib.antt =====
-- A verification library for a trading system: its flight recorder "blackbox"
-- (blackbox/crates/blackbox/src), a journal that market data and orders are written to and read back
-- from, with its tap, its replay and the verification of a replay, and of the trading engine "flash"
-- (flash/src) the order manager, the order book and the health of its connections.
--
-- Parts. An application hands records to a `JournalWriter`, which puts them into a lock-free ring
-- (journal/ring_buffer.rs). A background thread takes them out, gives each a header with a sequence
-- number and a CRC, and copies both into a memory-mapped file (journal/writer.rs). The file starts with
-- a header and an embedded schema (journal/format.rs, journal/schema.rs), and ends with a footer that
-- `close` writes. A `JournalReader` opens such a file and iterates over its records
-- (journal/reader.rs). A `JournalTap` (tap/journal_tap.rs) is what an application calls: it turns the
-- events into writes, and a checkpoint of the application's state into a record of its hash. A
-- `ReplayEngine` (replay/engine.rs) takes frames from a data source (replay/data_source.rs) and lets a
-- scheduler (replay/scheduler.rs) move a simulated clock (replay/simulated_clock.rs) to the time of
-- each. A `VerifyingReplayEngine` (verify/verifying_engine.rs) does that and, at each checkpoint
-- (verify/checkpoint.rs), compares (verify/comparator.rs) the recorded hash with that of the replayed
-- state. The order manager (order/manager.rs) keeps the pending orders, counts what becomes of them,
-- and hands a payload to a tap for every submission, cancellation and modification. The order book
-- (book/orderbook.rs) keeps the levels of both sides; a `DeltaProcessor` (book/delta.rs) checks the
-- sequence numbers and the levels of updates before it applies them to a book, and a
-- `SnapshotProcessor` (book/snapshot.rs) the levels of a snapshot. A `HeartbeatManager`
-- (network/heartbeat.rs) keeps the health of the connections to exchanges.
--
-- Files. Base has what all parts share: tests and Boolean equality on numbers (Base/Tests), lists
-- (Base/Lists), masks and wrap-around (Base/Masks, Base/Wrap), little-endian bytes and packed layouts
-- (Base/Bytes), signed numbers (Base/Signed), maps as lists of pairs (Base/Assoc).
--   Journal/Ring      ring_buffer.rs, `RingBuffer`, one call at a time; Ring/Queue is the queue that it
--                     implements, Ring/Threads the same operations as two threads that interleave at
--                     every access to shared memory.
--   Journal/Entry     ring_buffer.rs, `Payload` and `BufferEntry`.
--   Journal/Format    format.rs: one module for each packed structure, and one for the record types.
--   Journal/Schema    schema.rs: the schema block.
--   Journal/Writer    writer.rs: the shared state, a write, a round of the background thread, the
--                     footer and `close`; Writer/Config and Writer/Create make a new journal,
--                     Writer/Append opens an existing one, Writer/Session has writes and
--                     rounds in any order, Writer/Flush has `flush`.
--   Journal/Reader    reader.rs: the iterator, `seek`, `rewind` and `read_footer`; Reader/Open opens.
--   Journal/RoundTrip the writer and the reader together.
--   Tap               tap/: the calls of the `Tap` trait and the journal tap; Tap/Recorded has the
--                     entries that a sequence of calls stands for.
--   Replay            replay/: Replay/Clock, Replay/Scheduler, Replay/Source and Replay/Engine, one for
--                     each file above; Engine/Runs is about steps, ticks and whole runs, Engine/Round
--                     and Engine/Until about `step_until_event`, Engine/Again about a replay that is
--                     reset.
--   Verify            verify/: Verify/Checkpoint, Verify/Comparator and Verify/Engine, one for each file
--                     above; Engine/Verdicts is the reference that goes over the frames, Engine/Run and
--                     Engine/Report compare a run with it, Engine/Counts is about the statistics, and
--                     Engine/Stuck about a run that does not end.
--   Flash/Order       order/types.rs, and in Order/Manager order/manager.rs: the operations, the
--                     invariant of any sequence of them (Manager/Invariant) and what each answers
--                     (Manager/Answers).
--   Flash/Book        book/orderbook.rs: the operations, on the types of Book/Types; Book/Levels is the
--                     sorted map of one side, Book/Loops the loops over one side; Book/Sums, Book/Sides,
--                     Book/Totals and Book/KeptSides are about one side, Book/Invariant and
--                     Book/Answers about the book.
--   Flash/Delta       book/delta.rs: Delta/Tracker the sequence tracker, and in Tracker/Walk its steps as
--                     a relation; Delta/Validator; Delta/Processor, with Processor/Accepts about one
--                     update and Processor/Keeps about any number of them.
--   Flash/Snapshot    book/snapshot.rs: Snapshot/Validator, with what it accepts in Validator/Valid,
--                     Validator/Distinct, Validator/Crossed and Validator/Accepted; Snapshot/Diff, with
--                     Diff/Patch about the differences of two snapshots; Snapshot/Processor, with
--                     Processor/Applied about the book behind a snapshot.
--   Flash/Heartbeat   network/heartbeat.rs: the manager; Heartbeat/Calls has the status that a sequence of
--                     calls stands for, Heartbeat/Statuses compares the manager with it.
-- The modules named Tests run the parts on small inputs.
--
-- State and operations. The memory map is a list of bytes, the ring a list of optional values with its
-- two indices, and an operation takes the state and returns the new one. In the journal and in a
-- checkpoint an `i64` is its bit pattern; in the replay it is the number plus 2^63, so that the order of
-- numbers is kept. Sums and differences of `i64`, `u64` and `usize` wrap at 2^64, a slice out of range is
-- a panic, which is a value of the model. The CRC, zstd, the UTF-8 check, the schema text and the
-- journal's clock are parameters, and so are a floating-point number, the replay's warp factor, and what
-- is computed with it, and the callback of the verifying engine, over a state of any type. The order
-- manager's hash map is a list of pairs with distinct keys; prices, quantities and instruments are type
-- parameters. A side of the order book, a `BTreeMap` by price, is the list of its levels in ascending
-- order; the key of a level is the rank of its price in the order of `OrderedFloat`, a parameter, as are
-- the arithmetic of `Decimal`, with the laws of exact sums as named hypotheses (Book/Sums), and bincode.
--
-- Loops. The recursion of `read_next` runs on fuel of one pass more than the file has bytes, `close` and
-- `clear` on one round more than the ring has slots; theorems show that this is enough.
-- `flush` runs on as many looks as the ring has slots, with a round of the thread between two looks.
-- `run_to_completion` runs on one round more than frames are left, since each round but the last takes
-- one; `step_until_event` has the source's own limit of 1000 rounds. `run_with_verification` runs on any
-- fuel, of which one round more than frames are left is enough for an active source. The loop that drops
-- levels of a side runs on as many rounds as the side has levels, since each drops one.
--
-- Not modelled: failures of file and map calls, texts of errors, the live, null and journal data sources
-- of a replay, its `load`, `progress` and averages, the state hash and the report of a verification, the
-- floating-point results of the order book, the metadata and the serialization of snapshots, the book's
-- thread-safe wrapper, heartbeat calls that interleave, and every part of the repository but those named
-- above.
pub mod Base
pub mod Journal
pub mod Flash
pub mod Replay
pub mod Verify
pub mod Tap
