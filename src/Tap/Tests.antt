-- ===== src/Tap/Tests.antt =====
-- A tap over a journal with a ring of four slots.
use ai_systems_verification.Base.{
  ℕ, ◌-◌, ◌≡◌, refl, List, [], ◌∷◌, ◌++◌, none, some, true, false, arith, replicate, take,
}
use ai_systems_verification.Journal.Entry.{BufferEntry, as_slice}
use ai_systems_verification.Journal.Ring
use ai_systems_verification.Journal.Ring.{Ring}
use ai_systems_verification.Journal.Ring.Contents.{Holds}
use ai_systems_verification.Journal.Ring.Refine.{new_refines}
use ai_systems_verification.Journal.Writer.{JournalWriter}
use ai_systems_verification.Verify.Checkpoint
use ai_systems_verification.Verify.Checkpoint.{from_bytes, parsed}
use ai_systems_verification.Tap.{Now, Event, ingress, egress, state, new}
use ai_systems_verification.Tap.Recorded.{
  Open, entry, entries, record_all, record_all-Open, from_bytes-entry,
}

four_slots : (r : Ring BufferEntry) × (Ring.new 4 ≡ some r) × Holds r []
four_slots =
    let (r, made, holds, least, most) = new_refines {A = BufferEntry} 4 (omega arith) in
    (r, made, holds)

abbrev writer : JournalWriter
writer = record {
  shared = record {
    ring = four_slots.0;
    shutdown = false;
    degraded = false;
    records_written = 0;
    write_position = 64;
    last_timestamp = 0;
  };
  sequence = 0;
  closed = false;
  sync_on_close = true;
}

abbrev capacity : ℕ
capacity = Ring.max_size four_slots.0

abbrev now : Now
now = record { clock = none; system = 12 }

abbrev events : List (Now × Event)
events =
    (now, ingress 2 (1 ∷ []) 10) ∷ (now, state (replicate 32 1) 11) ∷ (now, egress 2 [] 12) ∷ []

new-Open : Open (new writer) capacity []
unfolding new
new-Open = record {
  writer = writer;
  here = refl;
  not_closed = refl;
  size = refl;
  holds = four_slots.2;
}

record_all-Open_example :
    Open (record_all (new writer) events) capacity ([] ++ take (capacity - 0) (entries 0 events))
    × ((record_all (new writer) events).active ≡ true)
unfolding new
record_all-Open_example = record_all-Open (new writer) capacity [] events new-Open

from_bytes-entry_example :
    let e = entry 3 now (state (replicate 32 1) 11) in
    (from_bytes (as_slice e.payload) ≡ parsed (Checkpoint.new 3 11 (replicate 32 1)))
    × (e.timestamp ≡ 11)
from_bytes-entry_example =
    from_bytes-entry 3 now (replicate 32 1) 11 (omega arith) (omega arith) refl
