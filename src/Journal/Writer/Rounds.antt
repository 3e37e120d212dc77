-- ===== src/Journal/Writer/Rounds.antt =====
-- What the rounds of the background thread do to the file.
use ai_systems_verification.Base.{
  ℕ, ◌+◌, ◌%◌, ◌^◌, ◌≤◌, ◌<◌, ◌≡◌, refl, sym, ap, ap₂, ◌∙◌, List, [], ◌∷◌, ◌++◌, append_assoc, true,
  false, arith, ltb, lt→ltb, le→ltb_false, length, length-append, drop,
}
use ai_systems_verification.Base.Bytes.{copy_at, copy_at_two, length-copy_at}
use ai_systems_verification.Journal.Format.{record_header_size, file_footer_size}
use ai_systems_verification.Journal.Format.Record
use ai_systems_verification.Journal.Entry
use ai_systems_verification.Journal.Entry.{BufferEntry, as_slice}
use ai_systems_verification.Journal.Writer.{
  Shared, Background, record_header, store_entry, add_usize,
}
use ai_systems_verification.Journal.Writer.Log.{
  IsTyped, encode, encode_all, encode_all-snoc, Stored,
}

next_bytes :
    (hash : List ℕ → ℕ) (pre : List ℕ) (es : List BufferEntry) (e : BufferEntry) (n : ℕ)
    → n ≡ length es % 2 ^ 32
    → pre ++ encode_all hash 0 (es ++ e ∷ [])
      ≡ (pre ++ encode_all hash 0 es)
        ++ (Record.to_bytes (record_header hash n e) ++ as_slice e.payload)
unfolding encode
next_bytes hash pre es e n h =
    ap (λ (l : List ℕ). pre ++ l)
      (encode_all-snoc hash 0 es e (omega arith)
        ∙ ap (λ (k : ℕ). encode_all hash 0 es ++ encode hash k e) {y = n} (omega arith))
    ∙ sym (append_assoc pre (encode_all hash 0 es) _)

module _ (hash : List ℕ → ℕ) (hash_lt : (bs : List ℕ) → hash bs < 2 ^ 32) where
  pub record_header-IsTyped :
      {e : BufferEntry} (sequence : ℕ)
      → IsTyped e
      → sequence < 2 ^ 32
      → Record.IsTyped (record_header hash sequence e)
  unfolding record_header
  record_header-IsTyped {e} sequence t h = record {
    timestamp_lt = t.timestamp_lt;
    payload_size_lt = omega arith;
    record_type_lt = t.record_type_lt;
    exchange_id_lt = t.exchange_id_lt;
    flags_lt = omega arith;
    sequence_number_lt = h;
    crc32_lt = hash_lt (as_slice e.payload);
  }

  pub length-encode :
      {e : BufferEntry} (sequence : ℕ)
      → IsTyped e
      → sequence < 2 ^ 32
      → length (encode hash sequence e) ≡ record_header_size + Entry.len e.payload
  unfolding encode Entry.len
  length-encode {e} sequence t h =
      length-append (Record.to_bytes (record_header hash sequence e)) (as_slice e.payload)
      ∙ ap (λ (n : ℕ). n + length (as_slice e.payload))
          (Record.length-to_bytes (record_header-IsTyped sequence t h))

  -- An entry that fits is stored behind the others.
  pub store_fits :
      {e : BufferEntry} {s : Shared} {b : Background} {pre : List ℕ} {es : List BufferEntry}
      {free : List ℕ}
      → IsTyped e
      → Stored hash s b pre es free
      → s.write_position + (record_header_size + Entry.len e.payload) + file_footer_size
        ≤ length b.mmap
      → Stored hash
          (store_entry hash e s b).0
          (store_entry hash e s b).1
          pre
          (es ++ e ∷ [])
          (drop (record_header_size + Entry.len e.payload) free)
  unfolding store_entry Entry.len
  store_fits {e} {s} {b} {pre} {es} {free} t v fits =
      let hdr : List ℕ = Record.to_bytes (record_header hash b.sequence e) in
      let body : List ℕ = as_slice e.payload in
      let before : List ℕ = pre ++ encode_all hash 0 es in
      let size : length hdr ≡ record_header_size =
        Record.length-to_bytes (record_header-IsTyped b.sequence t (omega arith)) in
      let room : length b.mmap ≡ length before + length free =
        ap length v.bytes ∙ length-append before free in
      let pos : s.write_position ≡ length before = v.position in
      let goes_in : ltb (length b.mmap) (
            add_usize (add_usize s.write_position (add_usize record_header_size (length body)))
              file_footer_size)
          ≡ false =
        le→ltb_false _ _ (omega arith) in
      let next : pre ++ encode_all hash 0 (es ++ e ∷ []) ≡ before ++ (hdr ++ body) =
        next_bytes hash pre es e b.sequence v.sequence in
      let written : copy_at (copy_at b.mmap s.write_position hdr)
            (add_usize s.write_position record_header_size) body
          ≡ (before ++ (hdr ++ body)) ++ drop (length hdr + length body) free =
        copy_at_two before free hdr body b.mmap s.write_position _ v.bytes pos (omega arith)
          (omega arith) in
      let lens : length (
            copy_at (copy_at b.mmap s.write_position hdr)
              (add_usize s.write_position record_header_size) body)
          ≡ length b.mmap =
        length-copy_at (copy_at b.mmap s.write_position hdr) _ body
        ∙ length-copy_at b.mmap s.write_position hdr in
      rw goes_in (record {
        bytes = written ∙ ap₂ (λ (l : List ℕ) (k : ℕ). l ++ drop k free) (sym next) (omega arith);
        position =
            omega
              (arith, ap length next, length-append before (hdr ++ body), length-append hdr body);
        footer_room = omega (arith, lens);
        small = omega (arith, lens);
        sequence = omega (arith, length-append es (e ∷ []));
        last_lt = t.timestamp_lt;
        count = omega (arith, length-append es (e ∷ []));
      })

  -- What storing an entry leaves as it was, whether it fits or not.
  pub store_keeps :
      (e : BufferEntry) (s : Shared) (b : Background)
      → let (s', b') = store_entry hash e s b in
        (s'.ring ≡ s.ring)
        × (s'.shutdown ≡ s.shutdown)
        × (b'.running ≡ b.running)
        × (length b'.mmap ≡ length b.mmap)
  unfolding store_entry
  store_keeps e s b =
      let (wp, hdr) : ℕ × List ℕ =
        (s.write_position, Record.to_bytes (record_header hash b.sequence e)) in
      ground (
        arith,
        length-copy_at (copy_at b.mmap wp hdr) (add_usize wp record_header_size)
            (as_slice e.payload),
        length-copy_at b.mmap wp hdr,
      )

  pub write_position-store :
      {e : BufferEntry} (s : Shared) (b : Background)
      → IsTyped e
      → length b.mmap ≤ 2 ^ 32
      → s.write_position + (record_header_size + Entry.len e.payload) + file_footer_size
        ≤ length b.mmap
      → (store_entry hash e s b).0.write_position
        ≡ s.write_position + (record_header_size + Entry.len e.payload)
  unfolding store_entry
  write_position-store {e} s b t small fits =
      rw
        (le→ltb_false (length b.mmap)
          (add_usize
            (add_usize s.write_position (add_usize record_header_size (Entry.len e.payload)))
            file_footer_size)
          (omega arith))
        (omega arith)

  -- An entry that fits does not degrade the writer.
  pub degraded-store :
      {e : BufferEntry} (s : Shared) (b : Background)
      → IsTyped e
      → length b.mmap ≤ 2 ^ 32
      → s.write_position + (record_header_size + Entry.len e.payload) + file_footer_size
        ≤ length b.mmap
      → (store_entry hash e s b).0.degraded ≡ s.degraded
  unfolding store_entry
  degraded-store {e} s b t small fits =
      rw
        (le→ltb_false (length b.mmap)
          (add_usize
            (add_usize s.write_position (add_usize record_header_size (Entry.len e.payload)))
            file_footer_size)
          (omega arith))
        refl

  -- An entry that does not fit is dropped, and the writer is degraded from then on.
  pub store_full :
      (e : BufferEntry) (s : Shared) (b : Background)
      → IsTyped e
      → length b.mmap ≤ 2 ^ 32
      → s.write_position ≤ length b.mmap
      → length b.mmap
        < s.write_position + (record_header_size + Entry.len e.payload) + file_footer_size
      → store_entry hash e s b ≡ (record s { degraded = true }, record b { spin_count = 0 })
  unfolding store_entry Entry.len
  store_full e s b t small pos full =
      let over : ltb (length b.mmap) (
            add_usize
              (add_usize s.write_position (add_usize record_header_size (Entry.len e.payload)))
              file_footer_size)
          ≡ true =
        lt→ltb _ _ (omega arith) in
      rw over
