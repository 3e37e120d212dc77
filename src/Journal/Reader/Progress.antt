-- ===== src/Journal/Reader/Progress.antt =====
-- The recursion of `read_next` ends: every skipped record moves the read position on.
use ai_systems_verification.Base.{
  ℕ, zero, suc, ◌+◌, ◌-◌, ◌^◌, ◌≤◌, ◌<◌, ◌≡◌, ◌≢◌, refl, sym, ap, ◌∙◌, List, [], ◌∷◌, arith, length,
  subst, max, drop, inl, inr, ◌⊎◌,
}
use ai_systems_verification.Base.Bytes.{slice, AreBytes, AreBytes-take, AreBytes-drop}
use ai_systems_verification.Journal.Format.Record.{RecordHeader, payload_size-lt}
use ai_systems_verification.Journal.Format.Record
use ai_systems_verification.Journal.Format.{record_header_size}
use ai_systems_verification.Journal.Reader.{
  JournalReader, Next, unfinished, Pass, done, again, add_usize, check_record, read_payload,
  read_header, at_footer, pass, read_next, next, no_more, panicked, got, failed, collect, Entry,
}

-- What a pass that skips a record does to the reader.
pub record Skipped (r r' : JournalReader) : Type 0 where
  pub moved : r.read_position + record_header_size ≤ r'.read_position
  pub inside : r'.read_position ≤ length r.mmap
  pub same_file : r'.mmap ≡ r.mmap

-- `next` has returned without a panic, and the reader can be used again.
abbrev Returned : JournalReader → Next × JournalReader → Type 0
Returned r (n, r') =
    (n ≢ unfinished)
    × (n ≢ panicked)
    × (r'.mmap ≡ r.mmap)
    × (r'.read_position ≤ max r.read_position (length r.mmap))

Pass-cases :
    (p : Pass)
    → ((n : Next) × (r : JournalReader) × (p ≡ done n r)) ⊎ ((r : JournalReader) × (p ≡ again r))
Pass-cases (done n r) = inl (n, r, refl)
Pass-cases (again r) = inr (r, refl)

module _ (hash : List ℕ → ℕ) where
  check_record-again :
      (r r' : JournalReader) (h : RecordHeader) (payload : List ℕ) (end : ℕ)
      → check_record hash r h payload end ≡ again r'
      → (r'.read_position ≡ end) × (r'.mmap ≡ r.mmap)
  unfolding check_record
  check_record-again r r' h payload end e = ground arith

  read_payload-again :
      (r r' : JournalReader) (bytes : List ℕ) (header_end : ℕ)
      → read_payload hash r bytes header_end ≡ again r'
      → (header_end ≤ r'.read_position) × (r'.read_position ≤ length r.mmap) × (r'.mmap ≡ r.mmap)
  unfolding read_payload
  read_payload-again r r' bytes header_end e =
      let size : ℕ = (Record.from_bytes bytes).payload_size in
      let payload_end : ℕ = add_usize header_end size in
      ground (
        arith,
        check_record-again r r' (Record.from_bytes bytes)
            (slice r.mmap header_end (payload_end - header_end)) payload_end,
      )

  read_header-again :
      (r r' : JournalReader)
      → r.read_position < 2 ^ 64
      → read_header hash r ≡ again r'
      → Skipped r r'
  unfolding read_header
  read_header-again r r' typed e =
      let header_end : ℕ = add_usize r.read_position record_header_size in
      ground (
        arith,
        read_payload-again r r' (slice r.mmap r.read_position (header_end - r.read_position))
            header_end,
      )

  pub pass-again :
      (r r' : JournalReader) → r.read_position < 2 ^ 64 → pass hash r ≡ again r' → Skipped r r'
  unfolding pass
  pass-again r r' typed e = ground (arith, read_header-again r r')

  -- A pass that returns does so without a panic, on the same file, and not behind its end.
  pass-returns :
      (r r' : JournalReader) (n : Next)
      → r.read_position ≤ 2 ^ 63
      → length r.mmap < 2 ^ 63
      → AreBytes r.mmap
      → pass hash r ≡ done n r'
      → Returned r (n, r')
  unfolding pass read_header read_payload check_record at_footer
  pass-returns r r' n low small bytes e =
      let header_end : ℕ = add_usize r.read_position record_header_size in
      let header : List ℕ = slice r.mmap r.read_position (header_end - r.read_position) in
      let size : (Record.from_bytes header).payload_size < 2 ^ 32 = payload_size-lt header (
        AreBytes-take (header_end - r.read_position) (drop r.read_position r.mmap)
          (AreBytes-drop r.read_position r.mmap bytes)) in
      ground arith

  pub read_next-done :
      (fuel : ℕ) (r r' : JournalReader) (n : Next)
      → pass hash r ≡ done n r'
      → read_next hash (suc fuel) r ≡ (n, r')
  unfolding read_next
  read_next-done fuel r r' n e = rw (e, read_next)

  pub read_next-again :
      (fuel : ℕ) (r r' : JournalReader)
      → pass hash r ≡ again r'
      → read_next hash (suc fuel) r ≡ read_next hash fuel r'
  unfolding read_next
  read_next-again fuel r r' e = rw (e, read_next)

  read_next-returns :
      (fuel : ℕ) (r : JournalReader)
      → r.read_position ≤ 2 ^ 63
      → length r.mmap < 2 ^ 63
      → AreBytes r.mmap
      → length r.mmap - r.read_position < fuel
      → Returned r (read_next hash fuel r)
  read_next-returns zero r low small bytes lt = absurd (omega arith)
  read_next-returns (suc fuel) r low small bytes lt = elim (Pass-cases (pass hash r)) [
    | inl (n, r', d) ↦
        subst (Returned r) (sym (read_next-done fuel r r' n d))
          (pass-returns r r' n low small bytes d)
    | inr (r', a) ↦
        let s : Skipped r r' = pass-again r r' (omega arith) a in
        let len : length r'.mmap ≡ length r.mmap = ap length s.same_file in
        let (ends, safe, file, at) =
          read_next-returns fuel r' (omega (arith, s.inside)) (omega arith)
            (subst AreBytes (sym s.same_file) bytes) (omega (arith, s.moved, s.inside)) in
        subst (Returned r) (sym (read_next-again fuel r r' a))
          (ends, safe, file ∙ s.same_file, omega (arith, at, s.inside, len))
  ]

  -- On a file of less than 2^63 bytes, whatever these are, and from a position of at most 2^63, `next`
  -- returns and does not panic: however many corrupt records it skips, its recursion ends. The file
  -- is as it was, and the position is not behind both the old one and the end of the file, so that
  -- `next` can be called again.
  pub next-finished :
      (r : JournalReader)
      → r.read_position ≤ 2 ^ 63
      → length r.mmap < 2 ^ 63
      → AreBytes r.mmap
      → let (n, r') = next hash r in
        (n ≢ unfinished)
        × (n ≢ panicked)
        × (r'.mmap ≡ r.mmap)
        × (r'.read_position ≤ max r.read_position (length r.mmap))
  unfolding next
  next-finished r low small bytes =
      read_next-returns (length r.mmap + 1) r low small bytes (omega arith)

  pub next-done :
      (r r' : JournalReader) (n : Next) → pass hash r ≡ done n r' → next hash r ≡ (n, r')
  unfolding next
  next-done r r' n e =
      ap (λ (k : ℕ). read_next hash k r) {x = length r.mmap + 1} {y = suc (length r.mmap)}
        (omega arith)
      ∙ read_next-done (length r.mmap) r r' n e

  abbrev collect_on : Next × JournalReader → List Entry × Next → List Entry × Next
  collect_on (n, r') rest = elim n [
    | got e ↦ (e ∷ rest.0, rest.1)
    | no_more ↦ ([], no_more)
    | failed e ↦ ([], failed e)
    | panicked ↦ ([], panicked)
    | unfinished ↦ ([], unfinished)
  ]

  pub collect-got :
      (fuel : ℕ) (r r' : JournalReader) (e : Entry)
      → next hash r ≡ (got e, r')
      → collect hash (suc fuel) r ≡ (e ∷ (collect hash fuel r').0, (collect hash fuel r').1)
  unfolding collect
  collect-got fuel r r' e h =
      ap (λ (p : Next × JournalReader). collect_on p (collect hash fuel p.1)) h

  pub collect-end :
      (fuel : ℕ) (r r' : JournalReader)
      → next hash r ≡ (no_more, r')
      → collect hash (suc fuel) r ≡ ([], no_more)
  unfolding collect
  collect-end fuel r r' h =
      ap (λ (p : Next × JournalReader). collect_on p (collect hash fuel p.1)) h
