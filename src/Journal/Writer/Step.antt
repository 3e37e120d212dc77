-- ===== src/Journal/Writer/Step.antt =====
-- A round of the background thread that stores or drops an entry, and what it leaves to be kept.
use ai_systems_verification.Base.{
  ℕ, ◌+◌, ◌-◌, ◌^◌, ◌≤◌, ◌<◌, ◌≡◌, refl, sym, ap, ◌∙◌, subst, List, [], ◌∷◌, ◌++◌, append_assoc,
  Bool, true, false, arith, ltb, lt→ltb, le→ltb_false, dec_lt, length, drop, ◌⊎◌, inl, inr,
  length-append,
}
use ai_systems_verification.Journal.Format.{record_header_size, file_footer_size}
use ai_systems_verification.Journal.Entry
use ai_systems_verification.Journal.Entry.{BufferEntry}
use ai_systems_verification.Journal.Ring
use ai_systems_verification.Journal.Ring.Contents.{Holds}
use ai_systems_verification.Journal.Ring.Refine.{pop_refines}
use ai_systems_verification.Journal.Writer.{Shared, Background, store_entry, round}
use ai_systems_verification.Journal.Writer.Log.{IsTyped, Stored}
use ai_systems_verification.Journal.Writer.Rounds.{
  store_fits, store_full, store_keeps, write_position-store, degraded-store,
}

-- The bytes that a record takes.
abbrev pub record_size : BufferEntry → ℕ
record_size e = record_header_size + Entry.len e.payload

-- What the thread is to keep of a queue of entries, with `room` bytes left for records: an entry
-- that does not fit is dropped, and a smaller one behind it may still be kept.
abbrev pub keep : ℕ → List BufferEntry → List BufferEntry
keep room [] = []
keep room (e ∷ es) = elim (ltb room (record_size e)) [
  | true ↦ keep room es
  | false ↦ e ∷ keep (room - record_size e) es
]

abbrev pub AllTyped : List BufferEntry → Type 0
AllTyped [] = Unit
AllTyped (e ∷ es) = IsTyped e × AllTyped es

-- The room for records that a state has left.
abbrev pub room_left : Shared → Background → ℕ
room_left s b = length b.mmap - (s.write_position + file_footer_size)

-- The round from `(s, b)` to `(s', b')` has taken `e` from the ring: the file holds the records `now`,
-- and what will be kept of any entries to come is what would have been kept of them behind `e`.
pub record Advanced (hash : List ℕ → ℕ) (s : Shared) (b : Background) (pre : List ℕ)
    (es : List BufferEntry) (e : BufferEntry) (pending : List BufferEntry) (s' : Shared)
    (b' : Background) : Type 0 where
  pub now : List BufferEntry
  pub free : List ℕ
  pub stored : Stored hash s' b' pre now free
  pub holds : Holds s'.ring pending
  pub shutdown : s'.shutdown ≡ s.shutdown
  pub running : b'.running ≡ b.running
  pub counted :
      ((length now ≡ length es + 1) × (s'.degraded ≡ s.degraded))
      ⊎ ((length now ≡ length es) × (s'.degraded ≡ true))
  pub kept :
      (more : List BufferEntry)
      → now ++ keep (room_left s' b') more ≡ es ++ keep (room_left s b) (e ∷ more)

module _ (hash : List ℕ → ℕ) (hash_lt : (bs : List ℕ) → hash bs < 2 ^ 32) where
  round_item :
      (s : Shared) (b : Background) (e : BufferEntry) (es : List BufferEntry)
      → Holds s.ring (e ∷ es)
      → round hash s b ≡ store_entry hash e (record s { ring = (Ring.pop s.ring).1 }) b
  unfolding round
  round_item s b e es h = rw ((pop_refines h).0, round)

  -- The fields that `Stored` speaks of.
  pub Stored-same :
      {s : Shared} {b : Background} {pre : List ℕ} {es : List BufferEntry} {free : List ℕ}
      → Stored hash s b pre es free
      → (r : Ring.Ring BufferEntry) (d : Bool) (n : ℕ) (k : Bool)
      → Stored hash
          (record s { ring = r; degraded = d })
          (record b { spin_count = n; running = k })
          pre
          es
          free
  Stored-same v r d n k = record {
    bytes = v.bytes;
    position = v.position;
    footer_room = v.footer_room;
    small = v.small;
    sequence = v.sequence;
    last_lt = v.last_lt;
    count = v.count;
  }

  keep-full :
      (room : ℕ) (e : BufferEntry) (es : List BufferEntry)
      → room < record_size e
      → keep room (e ∷ es) ≡ keep room es
  keep-full room e es h = rw (lt→ltb _ _ h, keep)

  keep-fits :
      (room room' : ℕ) (e : BufferEntry) (es : List BufferEntry)
      → room ≡ room' + record_size e
      → keep room (e ∷ es) ≡ e ∷ keep room' es
  keep-fits room room' e es h =
      rw (le→ltb_false room (record_size e) (omega arith), keep)
        (ap (λ (n : ℕ). e ∷ keep n es) (omega arith))

  store-Advanced :
      (s : Shared) (b : Background) (pre : List ℕ) (es : List BufferEntry) (e : BufferEntry)
      (pending : List BufferEntry) (free : List ℕ) (ring' : Ring.Ring BufferEntry)
      → IsTyped e
      → Stored hash s b pre es free
      → Holds ring' pending
      → let (s', b') = store_entry hash e (record s { ring = ring' }) b in
        Advanced hash s b pre es e pending s' b'
  store-Advanced s b pre es e pending free ring' t v h =
      let s1 : Shared = record s { ring = ring' } in
      let v1 : Stored hash s1 b pre es free =
        Stored-same v ring' s.degraded b.spin_count b.running in
      let kept = store_keeps hash hash_lt e s1 b in
      let holds : Holds (store_entry hash e s1 b).0.ring pending =
        subst (λ (r : Ring.Ring BufferEntry). Holds r pending) (sym kept.0) h in
      elim (dec_lt (room_left s b) (record_size e)) [
        | yes full ↦
            subst (λ (p : Shared × Background). Advanced hash s b pre es e pending p.0 p.1)
              (sym (
                store_full hash hash_lt e s1 b t v.small (omega (arith, v.footer_room))
                  (omega (arith, v.footer_room))))
              (record {
                now = es;
                free = free;
                stored = Stored-same v ring' true 0 b.running;
                holds = h;
                shutdown = refl;
                running = refl;
                counted = inr (refl, refl);
                kept = λ more.
                    ap (λ (l : List BufferEntry). es ++ l)
                      (sym (keep-full (room_left s b) e more full));
              })
        | no fits ↦
            let room : s1.write_position + record_size e + file_footer_size ≤ length b.mmap =
              omega (arith, v.footer_room) in
            let left : room_left s b
                ≡ room_left (store_entry hash e s1 b).0 (store_entry hash e s1 b).1
                  + record_size e =
              omega (arith, kept.3, write_position-store hash hash_lt s1 b t v.small room) in
            record {
              now = es ++ e ∷ [];
              free = drop (record_size e) free;
              stored = store_fits hash hash_lt t v1 room;
              holds = holds;
              shutdown = kept.1;
              running = kept.2;
              counted = inl (
                omega (arith, length-append es (e ∷ [])),
                degraded-store hash hash_lt s1 b t v.small room,
              );
              kept = λ more.
                  append_assoc es (e ∷ []) _
                  ∙ ap (λ (l : List BufferEntry). es ++ l)
                      (sym (keep-fits (room_left s b) _ e more left));
            }
      ]

  -- A round over a ring that is not empty.
  pub round-Advanced :
      (s : Shared) (b : Background) (pre : List ℕ) (es : List BufferEntry) (e : BufferEntry)
      (pending : List BufferEntry) (free : List ℕ)
      → IsTyped e
      → Stored hash s b pre es free
      → Holds s.ring (e ∷ pending)
      → Advanced hash s b pre es e pending (round hash s b).0 (round hash s b).1
  round-Advanced s b pre es e pending free t v h =
      subst (λ (p : Shared × Background). Advanced hash s b pre es e pending p.0 p.1)
        (sym (round_item s b e pending h))
        (store-Advanced s b pre es e pending free _ t v (pop_refines h).1)
