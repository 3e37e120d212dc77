-- ===== src/Tap/Recorded.antt =====
-- What a journal tap hands to its journal.
use ai_systems_verification.Base.{
  ℕ, zero, suc, ◌+◌, ◌-◌, ◌%◌, ◌^◌, ◌<◌, ◌≡◌, refl, sym, ap, ap₂, ◌∙◌, subst, Bool, false, not,
  ◌&&◌, List, [], ◌∷◌, ◌++◌, append_assoc, append-nil, Option, none, some, arith, if◌then◌else◌,
  ltb, lt→ltb, le→ltb_false, length, length-append, take, dec_lt,
}
use ai_systems_verification.Journal.Format.Kind.{
  RecordType, raw_frame, state_change, order_submit, checkpoint,
}
use ai_systems_verification.Journal.Entry
use ai_systems_verification.Journal.Entry.{BufferEntry, as_slice, as_slice-from_slice}
use ai_systems_verification.Journal.Ring
use ai_systems_verification.Journal.Ring.Contents.{Holds}
use ai_systems_verification.Journal.Writer.{JournalWriter, write, write_with_timestamp}
use ai_systems_verification.Journal.Writer.Writes.{
  entry_of, write_lem, closed-write, max_size-write,
}
use ai_systems_verification.Verify.Checkpoint
use ai_systems_verification.Verify.Checkpoint.{
  IsTyped, parsed, from_bytes, to_bytes, from_bytes-to_bytes,
}
use ai_systems_verification.Tap.{
  Now, Event, ingress, internal, egress, state, JournalTap, record_ingress, record_internal,
  record_egress, record_checkpoint, record_event,
}

abbrev stamp : Now → ℕ
stamp now = elim now.clock [ none ↦ now.system | some time ↦ time ]

-- The entry for an event, and the number of the next checkpoint.
pub entry : ℕ → Now → Event → BufferEntry
entry seq now (ingress exchange payload timestamp) = entry_of raw_frame exchange payload (stamp now)
entry seq now (internal kind payload timestamp) =
    entry_of state_change (kind % 2 ^ 8) payload (stamp now)
entry seq now (egress exchange payload timestamp) =
    entry_of order_submit exchange payload (stamp now)
entry seq now (state state_hash timestamp) =
    entry_of checkpoint 0 (to_bytes (Checkpoint.new seq timestamp state_hash)) timestamp

abbrev pub next_seq : ℕ → Event → ℕ
next_seq seq (state state_hash timestamp) = (seq + 1) % 2 ^ 64
next_seq seq (ingress exchange payload timestamp) = seq
next_seq seq (internal kind payload timestamp) = seq
next_seq seq (egress exchange payload timestamp) = seq

pub entries : ℕ → List (Now × Event) → List BufferEntry
unfolding entry
entries seq [] = []
entries seq ((now, e) ∷ es) = entry seq now e ∷ entries (next_seq seq e) es

pub record_all : JournalTap → List (Now × Event) → JournalTap
unfolding record_event
record_all t [] = t
record_all t ((now, e) ∷ es) = record_all (record_event t now e) es

-- The tap writes to an open journal whose ring holds `pending`.
pub record Open (t : JournalTap) (m : ℕ) (pending : List BufferEntry) : Type 0 where
  pub writer : JournalWriter
  pub here : t.writer ≡ some writer
  pub not_closed : writer.closed ≡ false
  pub size : Ring.max_size writer.shared.ring ≡ m
  pub holds : Holds writer.shared.ring pending

abbrev queued : ℕ → List BufferEntry → BufferEntry → List BufferEntry
queued m pending e = if ltb (length pending) m then pending ++ e ∷ [] else pending

-- What an event leaves.
abbrev Recorded : ℕ → List BufferEntry → JournalTap → Now → Event → Type 0
Recorded m pending t now e =
    Open (record_event t now e) m (queued m pending (entry t.checkpoint_seq now e))
    × ((record_event t now e).checkpoint_seq ≡ next_seq t.checkpoint_seq e)
    × ((record_event t now e).active ≡ t.active)

module _ {m : ℕ} {pending : List BufferEntry} where
  -- A write of an open tap.
  write-Open :
      {t : JournalTap} (k : Open t m pending) (seq : ℕ) (ty : RecordType) (x : ℕ) (p : List ℕ)
      (ts : ℕ)
      → Open
          (record t {
            writer = some (write_with_timestamp k.writer ty x p ts).1;
            checkpoint_seq = seq;
          })
          m
          (queued m pending (entry_of ty x p ts))
  write-Open k seq ty x p ts =
      let (out, holds, kept) = write_lem k.writer ty x p ts pending k.holds in
      record {
        writer = (write_with_timestamp k.writer ty x p ts).1;
        here = refl;
        not_closed = closed-write k.writer ty x p ts ∙ k.not_closed;
        size = max_size-write k.writer ty x p ts ∙ k.size;
        holds =
            subst (Holds (write_with_timestamp k.writer ty x p ts).1.shared.ring)
              (ap₂
                (λ (b : Bool) (n : ℕ).
                  if not b && ltb (length pending) n
                  then pending ++ entry_of ty x p ts ∷ []
                  else pending)
                k.not_closed k.size)
              holds;
      }

  record_event-Recorded :
      {t : JournalTap} (k : Open t m pending) (now : Now) (e : Event)
      → Recorded m pending (record t { writer = some k.writer }) now e
  unfolding record_event record_ingress record_internal record_egress record_checkpoint entry write
  record_event-Recorded {t} k now (ingress x p ts) =
      (write-Open k t.checkpoint_seq raw_frame x p (stamp now), refl, refl)
  record_event-Recorded {t} k now (internal x p ts) =
      (write-Open k t.checkpoint_seq state_change (x % 2 ^ 8) p (stamp now), refl, refl)
  record_event-Recorded {t} k now (egress x p ts) =
      (write-Open k t.checkpoint_seq order_submit x p (stamp now), refl, refl)
  record_event-Recorded {t} k now (state h ts) = (
    write-Open k ((t.checkpoint_seq + 1) % 2 ^ 64) checkpoint 0
        (to_bytes (Checkpoint.new t.checkpoint_seq ts h)) ts,
    refl,
    refl,
  )

  record_event_lem :
      (t : JournalTap) (k : Open t m pending) (now : Now) (e : Event) → Recorded m pending t now e
  record_event_lem t k now e =
      subst (λ (o : Option JournalWriter). Recorded m pending (record t { writer = o }) now e)
        (sym k.here) (record_event-Recorded k now e)

take_nil : (n : ℕ) → take {A = BufferEntry} n [] ≡ []
take_nil zero = refl
take_nil (suc n) = refl

queued-take :
    (m : ℕ) (pending : List BufferEntry) (e : BufferEntry) (es : List BufferEntry)
    → queued m pending e ++ take (m - length (queued m pending e)) es
      ≡ pending ++ take (m - length pending) (e ∷ es)
queued-take m pending e es = elim (dec_lt (length pending) m) [
  | yes lt ↦
      let l : m - length pending ≡ suc (m - length (pending ++ e ∷ [])) =
        omega (arith, length-append pending (e ∷ [])) in
      rw (lt→ltb (length pending) m lt, l) (append_assoc pending (e ∷ []) _)
  | no le ↦
      let l : m - length pending ≡ 0 = omega arith in
      rw (le→ltb_false (length pending) m (omega arith), l) refl
]

-- While no thread takes anything out of the ring, a tap over an open journal queues the entries of
-- the events that it is given, in order, as far as there is room, and drops the others. Checkpoints
-- are numbered one after another, the dropped ones included.
pub record_all-Open :
    (t : JournalTap) (m : ℕ) (pending : List BufferEntry) (es : List (Now × Event))
    → Open t m pending
    → Open (record_all t es) m (pending ++ take (m - length pending) (entries t.checkpoint_seq es))
      × ((record_all t es).active ≡ t.active)
unfolding record_all entries
record_all-Open t m pending [] k = (
  subst (Open t m)
      (sym (
        ap (λ (l : List BufferEntry). pending ++ l) (take_nil (m - length pending))
        ∙ append-nil pending))
      k,
  refl,
)
record_all-Open t m pending ((now, e) ∷ es) k =
    let (k', seq, active) = record_event_lem t k now e in
    let (all, same) =
      record_all-Open (record_event t now e) m (queued m pending (entry t.checkpoint_seq now e)) es
        k' in
    (
      subst (Open (record_all (record_event t now e) es) m)
          (ap
              (λ (n : ℕ).
                queued m pending (entry t.checkpoint_seq now e)
                ++ take (m - length (queued m pending (entry t.checkpoint_seq now e)))
                    (entries n es))
              seq
            ∙ queued-take m pending (entry t.checkpoint_seq now e)
                (entries (next_seq t.checkpoint_seq e) es))
          all,
      same ∙ active,
    )

-- The entry of a checkpoint is one that the verifier reads: its sequence number, its time and its
-- hash.
pub from_bytes-entry :
    (seq : ℕ) (now : Now) (state_hash : List ℕ) (timestamp : ℕ)
    → seq < 2 ^ 64
    → timestamp < 2 ^ 64
    → length state_hash ≡ 32
    → let e = entry seq now (state state_hash timestamp) in
      (from_bytes (as_slice e.payload) ≡ parsed (Checkpoint.new seq timestamp state_hash))
      × (e.timestamp ≡ timestamp)
unfolding entry Entry.new Checkpoint.new
from_bytes-entry seq now h ts hs ht hl = (
  ap from_bytes (as_slice-from_slice _ ∙ sym (append-nil _))
      ∙ from_bytes-to_bytes {c = Checkpoint.new seq ts h}
          (record { sequence_lt = hs; timestamp_lt = ht; hash_len = hl }) [],
  refl,
)
