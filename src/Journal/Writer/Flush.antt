-- ===== src/Journal/Writer/Flush.antt =====
-- journal/writer.rs, `flush`: it looks at the shared state until everything that was pushed is stored.
-- Between two looks it yields, and the background thread takes a round.
use ai_systems_verification.Base.{
  ℕ, zero, suc, ◌^◌, ◌≤◌, ◌<◌, ◌≡◌, sym, ap, ◌∙◌, subst, List, [], ◌∷◌, ◌++◌, append-nil, true,
  false, arith, length, Option, none, some, if◌then◌else◌, if_true, if_false,
}
use ai_systems_verification.Journal.Entry.{BufferEntry}
use ai_systems_verification.Journal.Ring.Contents.{Holds}
use ai_systems_verification.Journal.Ring.Refine.{observers_lem}
use ai_systems_verification.Journal.Writer.{
  JournalWriter, Background, WriteError, round, flush_done,
}
use ai_systems_verification.Journal.Writer.Log.{Stored}
use ai_systems_verification.Journal.Writer.Balance.{Balance, Advanced-Balance}
use ai_systems_verification.Journal.Writer.Session.{Session, IsGood}
use ai_systems_verification.Journal.Writer.Step.{
  keep, AllTyped, room_left, Advanced, round-Advanced,
}

module _ (hash : List ℕ → ℕ) where
  -- The loop, for at most `fuel` looks; `none` where it has not ended.
  pub flush_rounds : ℕ → JournalWriter → Background → Option (JournalWriter × Background)
  flush_rounds zero w b = none
  flush_rounds (suc fuel) w b =
      let (shared, b') = round hash w.shared b in
      let rest = flush_rounds fuel (record w { shared = shared }) b' in
      if flush_done w then some (w, b) else rest

  -- The result where the loop ends: no error is `Ok(())`.
  abbrev flushed :
      Option (JournalWriter × Background)
      → Option (Option WriteError × (JournalWriter × Background))
  flushed none = none
  flushed (some p) = some (none, p)

  pub flush :
      ℕ → JournalWriter → Background → Option (Option WriteError × (JournalWriter × Background))
  unfolding flush_rounds
  flush fuel w b =
      if w.closed then some (some WriteError.closed, (w, b)) else flushed (flush_rounds fuel w b)

module _ (hash : List ℕ → ℕ) (hash_lt : (bs : List ℕ) → hash bs < 2 ^ 32) where
  -- A flush of `w` that ended: the ring is empty, and what fitted of its entries is stored.
  pub record Flushed (w : JournalWriter) (b : Background) (pre : List ℕ) (es : List BufferEntry)
      : Type 0 where
    pub drained : Holds w.shared.ring []
    pub free : List ℕ
    pub stored : Stored hash w.shared b pre es free

  done_empty :
      (w : JournalWriter) (b : Background) (pre : List ℕ) (es : List BufferEntry) (free : List ℕ)
      → Stored hash w.shared b pre es free
      → Holds w.shared.ring []
      → w.sequence < 2 ^ 32
      → Balance w es []
      → flush_done w ≡ true
  unfolding flush_done
  done_empty w b pre es free v h small k =
      ground (arith, v.count, (observers_lem h).1, k.sum, k.told)

  not_done :
      (w : JournalWriter) (b : Background) (pre : List ℕ) (es pending : List BufferEntry)
      (e : BufferEntry) (free : List ℕ)
      → Stored hash w.shared b pre es free
      → Holds w.shared.ring (e ∷ pending)
      → w.sequence < 2 ^ 32
      → Balance w es (e ∷ pending)
      → flush_done w ≡ false
  unfolding flush_done
  not_done w b pre es pending e free v h small k =
      ground (arith, v.count, (observers_lem h).1, k.sum)

  -- Where the loop ends, with what is kept.
  abbrev pub Ends : List ℕ → List BufferEntry → Option (JournalWriter × Background) → Type 0
  Ends pre kept out =
      (w : JournalWriter) × (b : Background) × (out ≡ some (w, b)) × Flushed w b pre kept

  flush_rounds_end :
      (fuel : ℕ) (w : JournalWriter) (b : Background)
      → flush_done w ≡ true
      → flush_rounds hash (suc fuel) w b ≡ some (w, b)
  unfolding flush_rounds
  flush_rounds_end fuel w b done = if_true done _ _

  flush_rounds_more :
      (fuel : ℕ) (w : JournalWriter) (b : Background)
      → flush_done w ≡ false
      → flush_rounds hash (suc fuel) w b
        ≡ flush_rounds hash fuel
            (record w { shared = (round hash w.shared b).0 })
            (round hash w.shared b).1
  unfolding flush_rounds
  flush_rounds_more fuel w b going = if_false going _ _

  flush_rounds-Flushed :
      (fuel : ℕ) (w : JournalWriter) (b : Background) (pre : List ℕ) (es pending : List BufferEntry)
      (free : List ℕ)
      → AllTyped pending
      → Stored hash w.shared b pre es free
      → Holds w.shared.ring pending
      → w.sequence < 2 ^ 32
      → Balance w es pending
      → length pending < fuel
      → Ends pre (es ++ keep (room_left w.shared b) pending) (flush_rounds hash fuel w b)
  flush_rounds-Flushed zero w b pre es pending free t v h small k lt = absurd (omega arith)
  flush_rounds-Flushed (suc fuel) w b pre es [] free t v h small k lt = (
    w,
    b,
    flush_rounds_end fuel w b (done_empty w b pre es free v h small k),
    subst (Flushed w b pre) (sym (append-nil es)) (record { drained = h; free = free; stored = v }),
  )
  flush_rounds-Flushed (suc fuel) w b pre es (e ∷ pending) free (te, t) v h small k lt =
      let a : Advanced hash w.shared b pre es e pending (round hash w.shared b).0
          (round hash w.shared b).1 =
        round-Advanced hash hash_lt w.shared b pre es e pending free te v h in
      let w1 : JournalWriter = record w { shared = (round hash w.shared b).0 } in
      let b1 : Background = (round hash w.shared b).1 in
      subst (Ends pre (es ++ keep (room_left w.shared b) (e ∷ pending)))
        (sym (flush_rounds_more fuel w b (not_done w b pre es pending e free v h small k)))
        (subst (λ (l : List BufferEntry). Ends pre l (flush_rounds hash fuel w1 b1))
          (a.kept pending)
          (flush_rounds-Flushed fuel w1 b1 pre a.now pending a.free t a.stored a.holds small
            (Advanced-Balance hash k a) (omega arith)))

  -- A flush of an open writer ends, with one look more than entries wait as enough, where its 32-bit
  -- counter has not wrapped and what was pushed is stored, waits or was dropped: it returns without an
  -- error, the ring is empty, and every entry that was in it is stored behind the others or did not fit.
  pub flush-Flushed :
      (fuel : ℕ) (w : JournalWriter) (b : Background) (pre : List ℕ) (es pending : List BufferEntry)
      (free : List ℕ)
      → AllTyped pending
      → Stored hash w.shared b pre es free
      → Holds w.shared.ring pending
      → w.closed ≡ false
      → w.sequence < 2 ^ 32
      → Balance w es pending
      → length pending < fuel
      → (w' : JournalWriter) × (b' : Background) × (flush hash fuel w b ≡ some (none, (w', b')))
        × Flushed w' b' pre (es ++ keep (room_left w.shared b) pending)
  unfolding flush
  flush-Flushed fuel w b pre es pending free t v h on small k lt =
      let (w', b', out, good) =
        flush_rounds-Flushed fuel w b pre es pending free t v h small k lt in
      (w', b', if_false on _ _ ∙ ap (flushed hash) out, good)

  -- After any writes and rounds of the thread on a new writer that accepted fewer than 2^32 entries, a
  -- flush ends with as many looks as the ring has slots, without an error. The ring is then empty, and
  -- the file holds exactly what it has room for of all entries that were accepted so far.
  pub flush-stores :
      {pre : List ℕ} {room : ℕ} (s : Session) (fuel : ℕ)
      → IsGood hash pre room s
      → length s.accepted < 2 ^ 32
      → s.writer.shared.ring.capacity ≤ fuel
      → 0 < fuel
      → (w : JournalWriter) × (b : Background) × (flush hash fuel s.writer s.background
          ≡ some (none, (w, b)))
        × Flushed w b pre (keep room s.accepted)
  flush-stores {pre} {room} s fuel g few enough some_fuel =
      let (number, k) = g.balance few in
      let (w, b, out, good) =
        flush-Flushed fuel s.writer s.background pre g.es g.pending g.free g.typed g.stored g.holds
          g.on (omega (arith, number)) k (omega (arith, (observers_lem g.holds).3)) in
      let all : g.es ++ keep (room_left s.writer.shared s.background) g.pending
          ≡ keep room s.accepted =
        ap (λ (l : List BufferEntry). g.es ++ keep (room_left s.writer.shared s.background) l)
          (sym (append-nil g.pending))
        ∙ g.kept []
        ∙ ap (keep room) (append-nil s.accepted) in
      (w, b, out, subst (Flushed w b pre) all good)
