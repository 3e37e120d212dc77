-- ===== src/Journal/Format/Footer.antt =====
-- journal/format.rs, `FileFooter`: written when a journal is closed cleanly.
use ai_systems_verification.Base.{
  ℕ, ◌^◌, ◌<◌, ◌≡◌, ◌∙◌, ap, refl, ◌++◌, List, [], ◌∷◌, none, some, arith, if◌then◌else◌, not,
  length, length-append, get_or, map,
}
use ai_systems_verification.Base.Bytes.{
  to_le, from_le, beq_bytes, layout, pack, layout-pack_of, length-pack_of, from_le-to_le,
  length-to_le,
}
use ai_systems_verification.Journal.Format.{
  footer_magic, file_footer_size, invalid_footer_magic, Verdict,
}

pub record FileFooter : Type 0 where
  pub magic : List ℕ
  pub total_records : ℕ
  pub total_bytes : ℕ
  pub final_timestamp : ℕ

pub new : ℕ → ℕ → ℕ → FileFooter
new total_records total_bytes final_timestamp = record {
  magic = footer_magic;
  total_records = total_records;
  total_bytes = total_bytes;
  final_timestamp = final_timestamp;
}

pub validate : FileFooter → Verdict
validate h = if not (beq_bytes h.magic footer_magic) then some invalid_footer_magic else none

-- `repr(C, packed)`: the fields in order, each little-endian in its width.
abbrev fields : FileFooter → List (List ℕ)
fields h =
    h.magic ∷ to_le 8 h.total_records ∷ to_le 8 h.total_bytes ∷ to_le 8 h.final_timestamp ∷ []

abbrev widths : List ℕ
widths = 8 ∷ 8 ∷ 8 ∷ 8 ∷ []

pub to_bytes : FileFooter → List ℕ
to_bytes h = pack (fields h)

abbrev of_fields : List (List ℕ) → FileFooter
of_fields ps = record {
  magic = get_or ps 0 [];
  total_records = from_le (get_or ps 1 []);
  total_bytes = from_le (get_or ps 2 []);
  final_timestamp = from_le (get_or ps 3 []);
}

pub from_bytes : List ℕ → FileFooter
from_bytes bs = of_fields (layout widths bs)

-- The ranges of the Rust types.
pub record IsTyped (h : FileFooter) : Type 0 where
  pub magic_len : length h.magic ≡ 8
  pub total_records_lt : h.total_records < 2 ^ 64
  pub total_bytes_lt : h.total_bytes < 2 ^ 64
  pub final_timestamp_lt : h.final_timestamp < 2 ^ 64

widths-fields : {h : FileFooter} → IsTyped h → map length (fields h) ≡ widths
widths-fields v = simp (length-to_le, v.magic_len)

of_fields-fields : {h : FileFooter} → IsTyped h → of_fields (fields h) ≡ h
of_fields-fields {h} v = ground (
  arith,
  from_le-to_le 8 h.total_records,
  from_le-to_le 8 h.total_bytes,
  from_le-to_le 8 h.final_timestamp,
)

-- A footer is read back from its bytes.
pub from_bytes-to_bytes : {h : FileFooter} → IsTyped h → from_bytes (to_bytes h) ≡ h
unfolding from_bytes to_bytes
from_bytes-to_bytes {h} v =
    ap of_fields (layout-pack_of (fields h) (widths-fields v)) ∙ of_fields-fields v

pub length-to_bytes : {h : FileFooter} → IsTyped h → length (to_bytes h) ≡ file_footer_size
unfolding to_bytes
length-to_bytes {h} v = length-pack_of (fields h) (widths-fields v)

-- A new footer has the ranges of its fields, and its magic number in front.
pub new-IsTyped :
    (n total last : ℕ) → n < 2 ^ 64 → total < 2 ^ 64 → last < 2 ^ 64 → IsTyped (new n total last)
unfolding new
new-IsTyped n total last hn ht hl = omega arith

pub to_bytes-front :
    (f : FileFooter) → (rest : List ℕ) × (to_bytes f ≡ f.magic ++ rest) × (length rest ≡ 24)
unfolding to_bytes
to_bytes-front f =
    let (n, total, last) : ℕ × ℕ × ℕ = (f.total_records, f.total_bytes, f.final_timestamp) in
    (
      to_le 8 n ++ (to_le 8 total ++ (to_le 8 last ++ [])),
      refl,
      omega (
        arith,
        length-append (to_le 8 n) (to_le 8 total ++ (to_le 8 last ++ [])),
        length-append (to_le 8 total) (to_le 8 last ++ []),
        length-append (to_le 8 last) [],
        length-to_le 8 n,
        length-to_le 8 total,
        length-to_le 8 last,
      ),
    )

pub to_bytes-magic :
    (n total last : ℕ)
    → (rest : List ℕ) × (to_bytes (new n total last) ≡ footer_magic ++ rest) × (length rest ≡ 24)
unfolding new
to_bytes-magic n total last = to_bytes-front (new n total last)
