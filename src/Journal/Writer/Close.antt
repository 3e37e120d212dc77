-- ===== src/Journal/Writer/Close.antt =====
-- The end of a writer: `close` waits for the thread, which stores what the ring still holds.
use ai_systems_verification.Base.{
  ℕ, zero, suc, ◌+◌, ◌^◌, ◌<◌, ◌≡◌, refl, sym, ap, ◌∙◌, subst, List, [], ◌∷◌, ◌++◌, append-nil,
  true, false, arith, length,
}
use ai_systems_verification.Journal.Entry.{BufferEntry}
use ai_systems_verification.Journal.Ring.Contents.{Holds}
use ai_systems_verification.Journal.Ring.Refine.{pop_refines, observers_lem}
use ai_systems_verification.Journal.Writer.{
  JournalWriter, close, write_footer, Shared, Background, round, run,
}
use ai_systems_verification.Journal.Writer.Log.{Stored}
use ai_systems_verification.Journal.Writer.Step.{
  keep, AllTyped, room_left, Advanced, Stored-same, round-Advanced,
}
use ai_systems_verification.Journal.Writer.Rounds.{}

module _ (hash : List ℕ → ℕ) (hash_lt : (bs : List ℕ) → hash bs < 2 ^ 32) where
  -- The thread has ended: the ring is empty, and the file holds the records `es` behind `pre`.
  pub record Ended (s : Shared) (b : Background) (pre : List ℕ) (es : List BufferEntry)
      : Type 0 where
    pub stopped : b.running ≡ false
    pub drained : Holds s.ring []
    pub free : List ℕ
    pub stored : Stored hash s b pre es free

  round_end :
      (s : Shared) (b : Background)
      → Holds s.ring []
      → s.shutdown ≡ true
      → round hash s b ≡ (s, record b { running = false })
  unfolding round
  round_end s b h down = rw ((pop_refines h).0, down, (observers_lem h).1, round)

  run-stop :
      (fuel : ℕ) (s : Shared) (b : Background)
      → (round hash s b).1.running ≡ false
      → run hash (suc fuel) s b ≡ round hash s b
  unfolding run
  run-stop fuel s b off = ground arith

  run-more :
      (fuel : ℕ) (s : Shared) (b : Background)
      → (round hash s b).1.running ≡ true
      → run hash (suc fuel) s b ≡ run hash fuel (round hash s b).0 (round hash s b).1
  unfolding run
  run-more fuel s b on = ground arith

  abbrev EndedAt : List ℕ → List BufferEntry → Shared × Background → Type 0
  EndedAt pre es (s, b) = Ended s b pre es

  -- With the end asked for and more rounds than entries, the thread stops; every entry that was in
  -- the ring is in the file or did not fit.
  pub run-Ended :
      (fuel : ℕ) (s : Shared) (b : Background) (pre : List ℕ) (es pending : List BufferEntry)
      (free : List ℕ)
      → AllTyped pending
      → Stored hash s b pre es free
      → Holds s.ring pending
      → s.shutdown ≡ true
      → b.running ≡ true
      → length pending < fuel
      → EndedAt pre (es ++ keep (room_left s b) pending) (run hash fuel s b)
  run-Ended zero s b pre es pending free t v h down on lt = absurd (omega arith)
  run-Ended (suc fuel) s b pre es [] free t v h down on lt =
      let e : round hash s b ≡ (s, record b { running = false }) = round_end s b h down in
      let off : (round hash s b).1.running ≡ false =
        ap (λ (r : Shared × Background). r.1.running) e in
      subst (EndedAt pre (es ++ [])) (sym (run-stop fuel s b off ∙ e)) (record {
        stopped = refl;
        drained = h;
        free = free;
        stored =
            subst
              (λ (l : List BufferEntry). Stored hash s (record b { running = false }) pre l free)
              (sym (append-nil es))
              (Stored-same hash hash_lt v s.ring s.degraded b.spin_count false);
      })
  run-Ended (suc fuel) s b pre es (e ∷ pending) free (te, t) v h down on lt =
      let a : Advanced hash s b pre es e pending (round hash s b).0 (round hash s b).1 =
        round-Advanced hash hash_lt s b pre es e pending free te v h in
      subst (EndedAt pre (es ++ keep (room_left s b) (e ∷ pending)))
        (sym (run-more fuel s b (a.running ∙ on)))
        (subst
          (λ (l : List BufferEntry).
            EndedAt pre l (run hash fuel (round hash s b).0 (round hash s b).1))
          (a.kept pending)
          (run-Ended fuel (round hash s b).0 (round hash s b).1 pre a.now pending a.free t a.stored
            a.holds (a.shutdown ∙ down) (a.running ∙ on) (omega arith)))

  -- What a call of `close` on an open writer leaves: the thread has ended with everything that was in
  -- the ring stored or dropped, and the footer is written.
  pub record Closed (w : JournalWriter) (b : Background) (pre : List ℕ) (kept : List BufferEntry)
      : Type 0 where
    pub closed : w.closed ≡ true
    pub stopped : b.running ≡ false
    pub drained : Holds w.shared.ring []
    pub before : Background
    pub free : List ℕ
    pub stored : Stored hash w.shared before pre kept free
    pub footer : b.mmap ≡ write_footer w.shared before.mmap

  pub close-Closed :
      (w : JournalWriter) (b : Background) (pre : List ℕ) (es pending : List BufferEntry)
      (free : List ℕ)
      → AllTyped pending
      → Stored hash w.shared b pre es free
      → Holds w.shared.ring pending
      → w.closed ≡ false
      → b.running ≡ true
      → let (w', b') = close hash w b in
        Closed w' b' pre (es ++ keep (room_left w.shared b) pending)
  unfolding close
  close-Closed w b pre es pending free t v h opn on =
      let s : Shared = record (w.shared) { shutdown = true } in
      let down : Stored hash s b pre es free = record {
        bytes = v.bytes;
        position = v.position;
        footer_room = v.footer_room;
        small = v.small;
        sequence = v.sequence;
        last_lt = v.last_lt;
        count = v.count;
      } in
      let ended : EndedAt pre (es ++ keep (room_left s b) pending)
          (run hash (w.shared.ring.capacity + 1) s b) =
        run-Ended (w.shared.ring.capacity + 1) s b pre es pending free t down h refl on
          (omega (arith, (observers_lem h).3)) in
      rw opn (record {
        closed = refl;
        stopped = ended.stopped;
        drained = ended.drained;
        before = (run hash (w.shared.ring.capacity + 1) s b).1;
        free = ended.free;
        stored = ended.stored;
        footer = refl;
      })
