-- ===== src/Journal/Writer/Session.antt =====
-- A writer in use: writes by the application and rounds of the background thread, in any order.
use ai_systems_verification.Base.{
  ℕ, ◌+◌, ◌^◌, ◌<◌, ◌≡◌, sym, ap, ◌∙◌, inl, inr, true, false, List, [], ◌∷◌, ◌++◌, append_assoc,
  arith, if◌then◌else◌, leb, dec_lt, Bool-cases, length, length-append, ◌%◌,
}
use ai_systems_verification.Journal.Format.Kind.{RecordType}
use ai_systems_verification.Journal.Entry.{BufferEntry}
use ai_systems_verification.Journal.Ring
use ai_systems_verification.Journal.Ring.Contents.{Holds}
use ai_systems_verification.Journal.Ring.Refine.{pop_refines}
use ai_systems_verification.Journal.Writer.{
  Shared, Background, JournalWriter, round, write_with_timestamp, idle_round, spin_iterations,
}
use ai_systems_verification.Journal.Writer.Log.{IsTyped, Stored}
use ai_systems_verification.Journal.Writer.Writes.{
  entry_of, push-room, push-full, write_pushed, write_dropped,
}
use ai_systems_verification.Journal.Writer.Balance.{Balance, Advanced-Balance}
use ai_systems_verification.Journal.Writer.Step.{
  keep, AllTyped, room_left, Stored-same, round-Advanced,
}

-- A call of `write_with_timestamp` with its arguments, or a round of the background thread.
pub data Event : Type 0 where
  written : RecordType → ℕ → List ℕ → ℕ → Event
  turn : Event

-- The state of both sides, and the entries that the ring has accepted so far.
pub record Session : Type 0 where
  pub writer : JournalWriter
  pub background : Background
  pub accepted : List BufferEntry

module _ (hash : List ℕ → ℕ) where
  pub step : Session → Event → Session
  step s (written t x p ts) =
      let (out, w) = write_with_timestamp s.writer t x p ts in
      let (pushed, ring) = Ring.try_push s.writer.shared.ring (entry_of t x p ts) in
      record s {
        writer = w;
        accepted = if pushed then s.accepted ++ entry_of t x p ts ∷ [] else s.accepted;
      }
  step s turn =
      let (shared, background) = round hash s.writer.shared s.background in
      record s { writer = record (s.writer) { shared = shared }; background = background }

  abbrev pub steps : Session → List Event → Session
  steps s [] = s
  steps s (e ∷ es) = steps (step s e) es

module _ (hash : List ℕ → ℕ) where
  -- A predicate on the accepted entries is kept where the entry written has it.
  pub step_accepts :
      (P : List BufferEntry → Type 0) (s : Session) (t : RecordType) (x : ℕ) (p : List ℕ) (ts : ℕ)
      → P s.accepted
      → P (s.accepted ++ entry_of t x p ts ∷ [])
      → P (step hash s (written t x p ts)).accepted
  unfolding step
  step_accepts P s t x p ts old new =
      elim (Bool-cases (Ring.try_push s.writer.shared.ring (entry_of t x p ts)).0) [
        | inl e ↦ rw e new
        | inr e ↦ rw e old
      ]

  pub turn_accepts :
      (P : List BufferEntry → Type 0) (s : Session) → P s.accepted → P (step hash s turn).accepted
  unfolding step
  turn_accepts P s old = old

-- The entries of the writes of a sequence of events.
abbrev pub entries : List Event → List BufferEntry
entries [] = []
entries (written t x p ts ∷ es) = entry_of t x p ts ∷ entries es
entries (turn ∷ es) = entries es

-- As long as fewer than 2^32 entries were accepted, the writer counts them, and each is stored, waits
-- or was dropped.
abbrev pub Counts : Session → List BufferEntry → List BufferEntry → Type 0
Counts s es pending =
    length s.accepted < 2 ^ 32
    → (s.writer.sequence ≡ length s.accepted) × Balance s.writer es pending

-- The invariant: the file holds `es` behind `pre`, the ring holds `pending`, and what is and will be
-- kept of these and of any entries to come is what a file of `room` bytes keeps of all that were
-- accepted.
pub record IsGood (hash : List ℕ → ℕ) (pre : List ℕ) (room : ℕ) (s : Session) : Type 0 where
  pub es : List BufferEntry
  pub free : List ℕ
  pub pending : List BufferEntry
  pub stored : Stored hash s.writer.shared s.background pre es free
  pub holds : Holds s.writer.shared.ring pending
  pub typed : AllTyped pending
  pub on : s.writer.closed ≡ false
  pub up : s.writer.shared.shutdown ≡ false
  pub running : s.background.running ≡ true
  pub balance : Counts s es pending
  pub kept :
      (more : List BufferEntry)
      → es ++ keep (room_left s.writer.shared s.background) (pending ++ more)
        ≡ keep room (s.accepted ++ more)

AllTyped-snoc :
    (es : List BufferEntry) (e : BufferEntry) → AllTyped es → IsTyped e → AllTyped (es ++ e ∷ [])
AllTyped-snoc [] e t te = (te, tt)
AllTyped-snoc (d ∷ es) e (td, t) te = (td, AllTyped-snoc es e t te)

idle_lem :
    (s : Shared) (b : Background)
    → s.shutdown ≡ false
    → (n : ℕ) × (idle_round s b ≡ record b { spin_count = n })
idle_lem s b up = elim (Bool-cases (leb spin_iterations (b.spin_count + 1))) [
  | inl e ↦ (0, rw (up, e))
  | inr e ↦ (b.spin_count + 1, rw (up, e))
]

module _ (hash : List ℕ → ℕ) (hash_lt : (bs : List ℕ) → hash bs < 2 ^ 32) where
  round_idle :
      (s : Shared) (b : Background)
      → Holds s.ring []
      → s.shutdown ≡ false
      → (n : ℕ) × (round hash s b ≡ (s, record b { spin_count = n }))
  unfolding round
  round_idle s b h up =
      let (n, e) = idle_lem s b up in
      (n, rw ((pop_refines h).0, round) (ap (λ (k : Background). (s, k)) e))

  turn-of :
      {pre : List ℕ} {room : ℕ} (s : Session) (es pending : List BufferEntry) (free : List ℕ)
      → Stored hash s.writer.shared s.background pre es free
      → Holds s.writer.shared.ring pending
      → AllTyped pending
      → s.writer.closed ≡ false
      → s.writer.shared.shutdown ≡ false
      → s.background.running ≡ true
      → Counts s es pending
      → ((more : List BufferEntry)
          → es ++ keep (room_left s.writer.shared s.background) (pending ++ more)
            ≡ keep room (s.accepted ++ more))
      → IsGood hash pre room (step hash s turn)
  unfolding step
  turn-of {pre} {room} s es [] free v h t on up running balance kept =
      let (n, e) = round_idle s.writer.shared s.background h up in
      rw e (record {
        es = es;
        free = free;
        pending = [];
        stored =
            Stored-same hash hash_lt v s.writer.shared.ring s.writer.shared.degraded n
              s.background.running;
        holds = h;
        typed = tt;
        on = on;
        up = up;
        running = running;
        balance = λ few. (
          (balance few).0,
          record {
            dropped = (balance few).1.dropped;
            sum = (balance few).1.sum;
            told = (balance few).1.told;
          },
        );
        kept = kept;
      })
  turn-of {pre} {room} s es (e ∷ pending) free v h (te, t) on up running balance kept =
      let a =
        round-Advanced hash hash_lt s.writer.shared s.background pre es e pending free te v h in
      record {
        es = a.now;
        free = a.free;
        pending = pending;
        stored = a.stored;
        holds = a.holds;
        typed = t;
        on = on;
        up = a.shutdown ∙ up;
        running = a.running ∙ running;
        balance = λ few. ((balance few).0, Advanced-Balance hash (balance few).1 a);
        kept = λ more. a.kept (pending ++ more) ∙ kept more;
      }

  written-Counts :
      (s : Session) (e : BufferEntry) (ring : Ring.Ring BufferEntry) (es pending : List BufferEntry)
      → length (s.accepted ++ e ∷ []) < 2 ^ 32
      → Counts s es pending
      → let w = record (s.writer) {
        shared = record (s.writer.shared) { ring = ring };
        sequence = (s.writer.sequence + 1) % 2 ^ 32;
      } in
        (w.sequence ≡ length (s.accepted ++ e ∷ [])) × Balance w es (pending ++ e ∷ [])
  written-Counts s e ring es pending few counts =
      let longer = length-append s.accepted (e ∷ []) in
      let (number, k) = counts (omega (arith, longer)) in
      (
        omega (arith, longer, number),
        record {
          dropped = k.dropped;
          sum = omega (arith, longer, number, k.sum, length-append pending (e ∷ []));
          told = k.told;
        },
      )

  turn-IsGood :
      {pre : List ℕ} {room : ℕ} (s : Session)
      → IsGood hash pre room s
      → IsGood hash pre room (step hash s turn)
  turn-IsGood s g =
      turn-of s g.es g.pending g.free g.stored g.holds g.typed g.on g.up g.running g.balance g.kept

  written-IsGood :
      {pre : List ℕ} {room : ℕ} (s : Session) (t : RecordType) (x : ℕ) (p : List ℕ) (ts : ℕ)
      → IsTyped (entry_of t x p ts)
      → IsGood hash pre room s
      → IsGood hash pre room (step hash s (written t x p ts))
  unfolding step
  written-IsGood {pre} {room} s t x p ts te g =
      let e : BufferEntry = entry_of t x p ts in
      elim (dec_lt (length g.pending) (Ring.max_size s.writer.shared.ring)) [
        | yes lt ↦
            let (ring', pushed, holds) = push-room e g.holds lt in
            rw (write_pushed s.writer t x p ts ring' g.on pushed, pushed)
              (record {
                es = g.es;
                free = g.free;
                pending = g.pending ++ e ∷ [];
                stored =
                    Stored-same hash hash_lt g.stored ring' s.writer.shared.degraded
                      s.background.spin_count s.background.running;
                holds = holds;
                typed = AllTyped-snoc g.pending e g.typed te;
                on = g.on;
                up = g.up;
                running = g.running;
                balance = λ few. written-Counts s e ring' g.es g.pending few g.balance;
                kept = λ more.
                    ap
                      (λ (l : List BufferEntry).
                        g.es ++ keep (room_left s.writer.shared s.background) l)
                      (append_assoc g.pending (e ∷ []) more)
                    ∙ g.kept (e ∷ more)
                    ∙ ap (keep room) (sym (append_assoc s.accepted (e ∷ []) more));
              })
        | no le ↦
            let full : (Ring.try_push s.writer.shared.ring e).0 ≡ false =
              push-full e g.holds (omega arith) in
            rw (write_dropped s.writer t x p ts g.on full, full) g
      ]

  -- Every event keeps the invariant.
  pub steps-IsGood :
      {pre : List ℕ} {room : ℕ} (s : Session) (events : List Event)
      → AllTyped (entries events)
      → IsGood hash pre room s
      → IsGood hash pre room (steps hash s events)
  steps-IsGood s [] t g = g
  steps-IsGood s (written k x p ts ∷ es) (te, t) g =
      steps-IsGood (step hash s (written k x p ts)) es t (written-IsGood s k x p ts te g)
  steps-IsGood s (turn ∷ es) t g = steps-IsGood (step hash s turn) es t (turn-IsGood s g)
