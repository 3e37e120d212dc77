-- ===== src/Journal/Writer/Writes.antt =====
-- What a write does, on every branch.
use ai_systems_verification.Base.{
  ℕ, ◌+◌, ◌%◌, ◌^◌, ◌<◌, ◌≤◌, ◌≡◌, refl, ap, ◌∙◌, subst, Bool, true, false, List, [], ◌∷◌, ◌++◌,
  none, some, arith, if◌then◌else◌, if_true, if_false, ltb, lt→ltb, le→ltb_false, length, not, ◌&&◌,
  Bool-cases, inl, inr, dec_lt,
}
use ai_systems_verification.Journal.Format.Kind.{RecordType, as_u16}
use ai_systems_verification.Journal.Entry
use ai_systems_verification.Journal.Entry.{BufferEntry}
use ai_systems_verification.Journal.Ring
use ai_systems_verification.Journal.Ring.{Ring}
use ai_systems_verification.Journal.Ring.Contents.{Holds}
use ai_systems_verification.Journal.Ring.Refine.{try_push_refines, max_size-try_push}
use ai_systems_verification.Journal.Writer.{JournalWriter, WriteError, write_with_timestamp}

-- The entry of a write.
abbrev pub entry_of : RecordType → ℕ → List ℕ → ℕ → BufferEntry
entry_of record_type exchange_id payload timestamp =
    Entry.new (as_u16 record_type) exchange_id timestamp payload

abbrev queued : Bool → List BufferEntry → BufferEntry → Bool × List BufferEntry
queued room pending e = if room then (true, pending ++ e ∷ []) else (false, pending)

-- What pushing onto a ring that holds `pending` does, whether there is room or not.
pub push-room :
    {r : Ring BufferEntry} {pending : List BufferEntry} (e : BufferEntry)
    → Holds r pending
    → length pending < Ring.max_size r
    → (r' : Ring BufferEntry) × (Ring.try_push r e ≡ (true, r')) × Holds r' (pending ++ e ∷ [])
push-room {r} {pending} e h lt =
    let (done, holds) = try_push_refines e h in
    let room : ltb (length pending) (Ring.max_size r) ≡ true = lt→ltb _ _ lt in
    (
      (Ring.try_push r e).1,
      ap (λ (k : Bool). (k, (Ring.try_push r e).1))
          (done ∙ ap (λ (b : Bool). (queued b pending e).0) room),
      subst (Holds (Ring.try_push r e).1) (ap (λ (b : Bool). (queued b pending e).1) room) holds,
    )

pub push-full :
    {r : Ring BufferEntry} {pending : List BufferEntry} (e : BufferEntry)
    → Holds r pending
    → Ring.max_size r ≤ length pending
    → (Ring.try_push r e).0 ≡ false
push-full {r} {pending} e h le =
    let room : ltb (length pending) (Ring.max_size r) ≡ false = le→ltb_false _ _ le in
    (try_push_refines e h).0 ∙ ap (λ (b : Bool). (queued b pending e).0) room

module _ (w : JournalWriter) (t : RecordType) (x : ℕ) (p : List ℕ) (ts : ℕ) where
  pub write_closed : w.closed ≡ true → write_with_timestamp w t x p ts ≡ (some WriteError.closed, w)
  unfolding write_with_timestamp
  write_closed c = if_true c _ _

  pub write_pushed :
      (ring' : Ring BufferEntry)
      → w.closed ≡ false
      → Ring.try_push w.shared.ring (entry_of t x p ts) ≡ (true, ring')
      → write_with_timestamp w t x p ts ≡ (
        none,
        record w {
          shared = record (w.shared) { ring = ring' };
          sequence = (w.sequence + 1) % 2 ^ 32;
        },
      )
  unfolding write_with_timestamp
  write_pushed ring' c e = if_false c _ _ ∙ rw e

  pub write_dropped :
      w.closed ≡ false
      → (Ring.try_push w.shared.ring (entry_of t x p ts)).0 ≡ false
      → write_with_timestamp w t x p ts
        ≡ (if w.shared.degraded then some WriteError.degraded else none, w)
  unfolding write_with_timestamp
  write_dropped c e = if_false c _ _ ∙ if_false e _ _ ∙ ground arith

  -- No write changes the capacity of the ring.
  pub max_size-write :
      Ring.max_size (write_with_timestamp w t x p ts).1.shared.ring ≡ Ring.max_size w.shared.ring
  unfolding write_with_timestamp
  max_size-write = ground (arith, max_size-try_push w.shared.ring (entry_of t x p ts))

  pub write_lem :
      (pending : List BufferEntry)
      → Holds w.shared.ring pending
      → let (out, w') = write_with_timestamp w t x p ts in
        let room = not w.closed && ltb (length pending) (Ring.max_size w.shared.ring) in
        (out ≡ (
          if w.closed
          then some WriteError.closed
          else (if not room && w.shared.degraded then some WriteError.degraded else none)))
        × Holds w'.shared.ring (if room then pending ++ entry_of t x p ts ∷ [] else pending)
        × (w' ≡ (
            if room
            then record w {
              shared = record (w.shared) { ring = w'.shared.ring };
              sequence = (w.sequence + 1) % 2 ^ 32;
            }
            else w))
  write_lem pending h = elim (Bool-cases w.closed) [
    | inl c ↦ rw (write_closed c, c) (refl, h, refl)
    | inr c ↦ elim (dec_lt (length pending) (Ring.max_size w.shared.ring)) [
      | yes lt ↦
          let (ring', e, holds) = push-room (entry_of t x p ts) h lt in
          rw (write_pushed ring' c e, c, lt→ltb (length pending) (Ring.max_size w.shared.ring) lt)
            (refl, holds, refl)
      | no le ↦
          rw
            (
              write_dropped c (push-full (entry_of t x p ts) h (omega arith)),
              c,
              le→ltb_false (length pending) (Ring.max_size w.shared.ring) (omega arith),
            )
            (refl, h, refl)
    ]
  ]

  -- No write closes or opens the writer.
  pub closed-write : (write_with_timestamp w t x p ts).1.closed ≡ w.closed
  unfolding write_with_timestamp
  closed-write = ground arith
