-- ===== src/Journal/Reader/ReadBack.antt =====
-- One pass of the reader over a record, and over what ends the records.
use ai_systems_verification.Base.{
  ℕ, ◌+◌, ◌-◌, ◌^◌, ◌≤◌, ◌<◌, ◌≡◌, ◌≢◌, inl, inr, refl, sym, ap, ◌∙◌, List, [], ◌∷◌, ◌++◌,
  append_assoc, true, false, some, arith, ltb, leb, le→ltb_false, lt→ltb, le→leb, eq→==, Bool-cases,
  if_true, if_false, length, length-append, replicate,
}
use ai_systems_verification.Base.Bytes.{
  to_le, from_le, beq_bytes, beq_bytes_iff, slice, slice-middle, from_le-to_le, length-to_le,
}
use ai_systems_verification.Journal.Format.{record_header_size, footer_magic}
use ai_systems_verification.Journal.Format.Record
use ai_systems_verification.Journal.Format.Record.{
  RecordHeader, IsTyped, to_bytes-timestamp, record_type-zeros,
}
use ai_systems_verification.Journal.Reader.{
  JournalReader, no_more, got, done, range, add_usize, all_zero, advance, finish, check_record,
  read_payload, read_header, at_footer, pass,
}

-- The time stamp whose bytes are the footer's magic number.
abbrev pub footer_number : ℕ
footer_number = 0x444e584f424b4c42

footer_number_lem : from_le footer_magic ≡ footer_number
unfolding from_le
footer_number_lem = refl

not_footer : (t : ℕ) → t < 2 ^ 64 → t ≢ footer_number → beq_bytes (to_le 8 t) footer_magic ≡ false
not_footer t lt ne = elim (Bool-cases (beq_bytes (to_le 8 t) footer_magic)) [
  | inl yes' ↦ absurd (
      ne (sym (from_le-to_le 8 t lt) ∙ ap from_le ((beq_bytes_iff _ _).0 yes') ∙ footer_number_lem))
  | inr no' ↦ no'
]

zeros_of : (bs : List ℕ) → all_zero bs ≡ true → bs ≡ replicate (length bs) 0
zeros_of [] h = refl
zeros_of (b ∷ bs) h = ground (arith, zeros_of bs)

not_zeros :
    {h : RecordHeader} → IsTyped h → h.record_type ≢ 0 → all_zero (Record.to_bytes h) ≡ false
not_zeros {h} t ne = elim (Bool-cases (all_zero (Record.to_bytes h))) [
  | inl z ↦ absurd (
      ne (
        ap (λ (k : RecordHeader). k.record_type) (sym (Record.from_bytes-to_bytes t))
        ∙ ap (λ (bs : List ℕ). (Record.from_bytes bs).record_type)
            (zeros_of _ z ∙ ap (λ (n : ℕ). replicate n 0) (Record.length-to_bytes t))
        ∙ record_type-zeros))
  | inr no' ↦ no'
]

-- A range that starts and ends where a part does.
pub range-middle :
    (pre xs post all : List ℕ) {i j : ℕ}
    → all ≡ pre ++ (xs ++ post)
    → i ≡ length pre
    → j ≡ length pre + length xs
    → range all i j ≡ some xs
range-middle pre xs post all {i} {j} e ei ej =
    let size : length all ≡ length pre + (length xs + length post) =
      ap length e
      ∙ length-append pre (xs ++ post)
      ∙ ap (λ (n : ℕ). length pre + n) (length-append xs post) in
    rw (le→leb i j (omega arith), le→leb j (length all) (omega arith))
      (ap (λ (l : List ℕ). some (slice l i (j - i))) e
        ∙ ap some (slice-middle pre xs post ei (omega arith)))

module _ (hash : List ℕ → ℕ) where
  -- The header and payload of a record that a writer has made.
  pub record Written (h : RecordHeader) (payload : List ℕ) : Type 0 where
    pub typed : IsTyped h
    pub size : h.payload_size ≡ length payload
    pub crc : h.crc32 ≡ hash payload
    pub kind : h.record_type ≢ 0
    pub time : h.timestamp ≢ footer_number

  check_record-ok :
      (r : JournalReader) (h : RecordHeader) (payload : List ℕ) (end : ℕ)
      → h.crc32 ≡ hash payload
      → check_record hash r h payload end
        ≡ done
            (got (record { header = h; payload = payload; offset = r.read_position }))
            (advance r end)
  unfolding check_record
  check_record-ok r h payload end e = ground (arith, eq→== (hash payload) h.crc32 (sym e))

  -- What stands at the read position of a reader.
  record At (r : JournalReader) (pre rest payload : List ℕ) (h : RecordHeader) : Type 0 where
    file : r.mmap ≡ pre ++ (Record.to_bytes h ++ (payload ++ rest))
    pos : r.read_position ≡ length pre
    on : r.finished ≡ false
    small : length r.mmap < 2 ^ 63

  At-size :
      {r : JournalReader} {pre rest payload : List ℕ} {h : RecordHeader}
      → Written h payload
      → At r pre rest payload h
      → length r.mmap ≡ length pre + (record_header_size + (length payload + length rest))
  At-size {pre} {rest} {payload} {h} w a = omega (
    arith,
    ap length a.file,
    length-append pre (Record.to_bytes h ++ (payload ++ rest)),
    length-append (Record.to_bytes h) (payload ++ rest),
    length-append payload rest,
    Record.length-to_bytes w.typed,
  )

  at_footer-record :
      {r : JournalReader} {pre rest payload : List ℕ} {h : RecordHeader}
      → Written h payload
      → At r pre rest payload h
      → at_footer r ≡ some false
  unfolding at_footer
  at_footer-record {r} {pre} {rest} {payload} {h} w a =
      let (more, e) = to_bytes-timestamp h in
      let size : length r.mmap
          ≡ length pre + (record_header_size + (length payload + length rest)) =
        At-size w a in
      let first : range r.mmap r.read_position (add_usize r.read_position 8)
          ≡ some (to_le 8 h.timestamp) =
        range-middle pre (to_le 8 h.timestamp) (more ++ (payload ++ rest)) r.mmap
          (a.file
            ∙ ap (λ (l : List ℕ). pre ++ (l ++ (payload ++ rest))) e
            ∙ ap (λ (l : List ℕ). pre ++ l)
                (append_assoc (to_le 8 h.timestamp) more (payload ++ rest)))
          a.pos (omega (arith, a.pos, a.small, length-to_le 8 h.timestamp)) in
      let inside : leb (add_usize r.read_position 8) (length r.mmap) ≡ true =
        le→leb _ _ (omega (arith, a.pos, a.small)) in
      rw (first, inside, not_footer h.timestamp w.typed.timestamp_lt w.time)

  read_payload-record :
      {r : JournalReader} {pre rest payload : List ℕ} {h : RecordHeader}
      → Written h payload
      → At r pre rest payload h
      → (header_end : ℕ) → header_end ≡ r.read_position + record_header_size
      → read_payload hash r (Record.to_bytes h) header_end
        ≡ done
            (got (record { header = h; payload = payload; offset = r.read_position }))
            (advance r (r.read_position + (record_header_size + length payload)))
  unfolding read_payload
  read_payload-record {r} {pre} {rest} {payload} {h} w a header_end he =
      let size : length r.mmap
          ≡ length pre + (record_header_size + (length payload + length rest)) =
        At-size w a in
      let end : add_usize header_end h.payload_size
          ≡ r.read_position + (record_header_size + length payload) =
        omega (arith, a.pos, a.small, w.size) in
      let body : range r.mmap header_end (add_usize header_end h.payload_size) ≡ some payload =
        range-middle (pre ++ Record.to_bytes h) payload rest r.mmap
          (a.file ∙ sym (append_assoc pre (Record.to_bytes h) (payload ++ rest)))
          (omega
            (arith, a.pos, length-append pre (Record.to_bytes h), Record.length-to_bytes w.typed))
          (omega (
            arith,
            a.pos,
            length-append pre (Record.to_bytes h),
            Record.length-to_bytes w.typed,
            end,
          )) in
      let inside : ltb (length r.mmap) (add_usize header_end h.payload_size) ≡ false =
        le→ltb_false _ _ (omega (arith, a.pos, end)) in
      rw (Record.from_bytes-to_bytes w.typed, not_zeros w.typed w.kind, inside, body)
        (rw (Record.from_bytes-to_bytes w.typed) (
          check_record-ok r h payload _ w.crc
          ∙ ap
              (λ (n : ℕ).
                done (got (record { header = h; payload = payload; offset = r.read_position }))
                  (advance r n))
              end))

  read_header-record :
      {r : JournalReader} {pre rest payload : List ℕ} {h : RecordHeader}
      → Written h payload
      → At r pre rest payload h
      → read_header hash r
        ≡ done
            (got (record { header = h; payload = payload; offset = r.read_position }))
            (advance r (r.read_position + (record_header_size + length payload)))
  unfolding read_header
  read_header-record {r} {pre} {rest} {payload} {h} w a =
      let size : length r.mmap
          ≡ length pre + (record_header_size + (length payload + length rest)) =
        At-size w a in
      let end : add_usize r.read_position record_header_size
          ≡ r.read_position + record_header_size =
        omega (arith, a.pos, a.small) in
      let head : range r.mmap r.read_position (add_usize r.read_position record_header_size)
          ≡ some (Record.to_bytes h) =
        range-middle pre (Record.to_bytes h) (payload ++ rest) r.mmap a.file a.pos
          (omega (arith, a.pos, end, Record.length-to_bytes w.typed)) in
      let inside : ltb (length r.mmap) (add_usize r.read_position record_header_size) ≡ false =
        le→ltb_false _ _ (omega (arith, a.pos, end)) in
      rw (inside, head) (read_payload-record w a _ end)

  -- A pass at a record yields it and moves behind it.
  pub pass-record :
      (r : JournalReader) (pre rest payload : List ℕ) (h : RecordHeader)
      → Written h payload
      → r.mmap ≡ pre ++ (Record.to_bytes h ++ (payload ++ rest))
      → r.read_position ≡ length pre
      → r.finished ≡ false
      → length r.mmap < 2 ^ 63
      → pass hash r
        ≡ done
            (got (record { header = h; payload = payload; offset = r.read_position }))
            (advance r (r.read_position + (record_header_size + length payload)))
  unfolding pass
  pass-record r pre rest payload h w file pos on small =
      let a : At r pre rest payload h = record { file = file; pos = pos; on = on; small = small } in
      let inside : ltb (length r.mmap) (add_usize r.read_position record_header_size) ≡ false =
        le→ltb_false _ _ (omega (arith, At-size w a)) in
      if_false on _ _ ∙ if_false inside _ _ ∙ rw (at_footer-record w a) (read_header-record w a)

-- What ends the records: too few bytes for a header, the footer's magic number, or a header's length
-- of zeros, the part of the file that was never written.
pub data EndsRecords (tail : List ℕ) : Type 0 where
  short : length tail < record_header_size → EndsRecords tail
  footer : (rest : List ℕ) → tail ≡ footer_magic ++ rest → 16 ≤ length rest → EndsRecords tail
  zeros : (rest : List ℕ) → tail ≡ replicate record_header_size 0 ++ rest → EndsRecords tail

module _ (hash : List ℕ → ℕ) where
  -- A pass there ends the reading, with no error.
  pub pass-end :
      (r : JournalReader) (pre tail : List ℕ)
      → EndsRecords tail
      → r.mmap ≡ pre ++ tail
      → r.read_position ≡ length pre
      → r.finished ≡ false
      → length r.mmap < 2 ^ 63
      → pass hash r ≡ done no_more (finish r)
  unfolding pass at_footer read_header read_payload
  pass-end r pre tail (short lt) file pos on small =
      let over : ltb (length r.mmap) (add_usize r.read_position record_header_size) ≡ true =
        lt→ltb _ _ (omega (arith, ap length file, length-append pre tail)) in
      if_false on _ _ ∙ if_true over _ _
  pass-end r pre tail (footer rest e long) file pos on small =
      let size : length r.mmap ≡ length pre + (8 + length rest) =
        ap length file
        ∙ length-append pre tail
        ∙ ap (λ (l : List ℕ). length pre + length l) e
        ∙ omega arith in
      let inside : ltb (length r.mmap) (add_usize r.read_position record_header_size) ≡ false =
        le→ltb_false _ _ (omega arith) in
      let inside8 : leb (add_usize r.read_position 8) (length r.mmap) ≡ true =
        le→leb _ _ (omega arith) in
      let first : range r.mmap r.read_position (add_usize r.read_position 8) ≡ some footer_magic =
        range-middle pre footer_magic rest r.mmap (file ∙ ap (λ (l : List ℕ). pre ++ l) e) pos
          (omega arith) in
      if_false on _ _ ∙ if_false inside _ _ ∙ rw (first, inside8)
  pass-end r pre tail (zeros rest e) file pos on small =
      let size : length r.mmap ≡ length pre + (record_header_size + length rest) =
        ap length file
        ∙ length-append pre tail
        ∙ ap (λ (l : List ℕ). length pre + length l) e
        ∙ omega arith in
      let inside : ltb (length r.mmap) (add_usize r.read_position record_header_size) ≡ false =
        le→ltb_false _ _ (omega arith) in
      let file' : r.mmap ≡ pre ++ (replicate 24 0 ++ rest) =
        file ∙ ap (λ (l : List ℕ). pre ++ l) e in
      let first : range r.mmap r.read_position (add_usize r.read_position 8)
          ≡ some (replicate 8 0) =
        range-middle pre (replicate 8 0) (replicate 16 0 ++ rest) r.mmap file' pos (omega arith) in
      let inside8 : leb (add_usize r.read_position 8) (length r.mmap) ≡ true =
        le→leb _ _ (omega arith) in
      let head : range r.mmap r.read_position (add_usize r.read_position record_header_size)
          ≡ some (replicate 24 0) =
        range-middle pre (replicate 24 0) rest r.mmap file' pos (omega arith) in
      if_false on _ _ ∙ if_false inside _ _ ∙ rw (first, inside8) (if_false inside _ _ ∙ rw head)
