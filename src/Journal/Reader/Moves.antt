-- ===== src/Journal/Reader/Moves.antt =====
-- `seek`, `rewind` and `read_footer`.
use ai_systems_verification.Base.{
  ℕ, ◌+◌, ◌^◌, ◌≤◌, ◌<◌, ◌≡◌, ◌↔◌, refl, sym, ap, ◌∙◌, true, false, List, ◌++◌, append_assoc, none,
  some, arith, leb, le→leb, dec_lt, lt→ltb, le→ltb_false, if_true, length, length-append,
}
use ai_systems_verification.Base.Bytes.{beq_bytes, beq_bytes_iff, slice, slice-middle}
use ai_systems_verification.Journal.Format.{file_footer_size, footer_magic}
use ai_systems_verification.Journal.Format.Footer
use ai_systems_verification.Journal.Format.Footer.{FileFooter}
use ai_systems_verification.Journal.Reader.{
  JournalReader, seek, rewind, footer_at, read_footer, add_usize, range,
}
use ai_systems_verification.Journal.Reader.ReadBack.{range-middle}

-- `seek` moves to an offset exactly if it is neither before the first record nor behind the end of
-- the file. The reader is then no longer finished, and otherwise unchanged; a refused `seek` changes
-- nothing. `rewind` undoes any of it.
pub seek_lem :
    (r : JournalReader) (offset : ℕ)
    → let (out, r') = seek r offset in
      ((out ≡ none) ↔ ((r.header.first_record ≤ offset) × (offset ≤ length r.mmap)))
      × (r'
          ≡ elim out [ none ↦ record r { read_position = offset; finished = false } | some e ↦ r ])
      × (rewind r' ≡ rewind r)
unfolding seek rewind
seek_lem r offset = elim (dec_lt offset r.header.first_record) [
  | yes before ↦ rw (lt→ltb _ _ before) (ground arith, refl, refl)
  | no from ↦ elim (dec_lt (length r.mmap) offset) [
    | yes past ↦
        rw (le→ltb_false offset r.header.first_record (omega arith), lt→ltb _ _ past)
          (ground arith, refl, refl)
    | no within ↦
        rw
          (
            le→ltb_false offset r.header.first_record (omega arith),
            le→ltb_false (length r.mmap) offset (omega arith),
          )
          (ground arith, refl, refl)
  ]
]

-- A reader that stands at a footer, as it does when a loop has read all records, returns it.
pub read_footer_lem :
    (r : JournalReader) (pre rest : List ℕ) (f : FileFooter)
    → Footer.IsTyped f
    → f.magic ≡ footer_magic
    → r.mmap ≡ pre ++ (Footer.to_bytes f ++ rest)
    → r.read_position ≡ length pre
    → length r.mmap < 2 ^ 63
    → read_footer r ≡ some (some f)
unfolding read_footer footer_at
read_footer_lem r pre rest f t m file pos small =
    let (more, front, long) = Footer.to_bytes-front f in
    let n : length (Footer.to_bytes f) ≡ file_footer_size = Footer.length-to_bytes t in
    let size : length r.mmap ≡ length pre + (file_footer_size + length rest) = omega (
      arith,
      ap length file,
      length-append pre (Footer.to_bytes f ++ rest),
      length-append (Footer.to_bytes f) rest,
    ) in
    let split : r.mmap ≡ pre ++ (f.magic ++ (more ++ rest)) =
      file
      ∙ ap (λ (l : List ℕ). pre ++ (l ++ rest)) front
      ∙ ap (λ (l : List ℕ). pre ++ l) (append_assoc f.magic more rest) in
    let first : range r.mmap r.read_position (add_usize r.read_position 8) ≡ some f.magic =
      range-middle pre f.magic (more ++ rest) r.mmap split pos (omega (arith, t.magic_len)) in
    let whole : slice r.mmap r.read_position file_footer_size ≡ Footer.to_bytes f =
      ap (λ (l : List ℕ). slice l r.read_position file_footer_size) file
      ∙ slice-middle pre (Footer.to_bytes f) rest pos (sym n) in
    let inside : leb (add_usize r.read_position file_footer_size) (length r.mmap) ≡ true =
      le→leb _ _ (omega arith) in
    let magic : beq_bytes f.magic footer_magic ≡ true = (beq_bytes_iff _ _).1 m in
    if_true inside _ _ ∙ rw (first, magic, whole, Footer.from_bytes-to_bytes t)
