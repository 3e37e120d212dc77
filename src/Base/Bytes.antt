-- ===== src/Base/Bytes.antt =====
-- Bytes and the little-endian layout of `repr(C, packed)` records.
use native.Mathlib.Nat.{pow-suc}
use ai_systems_verification.Base.{
  ℕ, zero, suc, ◌+◌, ◌*◌, ◌/◌, ◌%◌, ◌^◌, ◌≤◌, ◌<◌, ◌≡◌, refl, ap, ap₂, subst, ◌↔◌, Bool, true,
  false, ◌&&◌, List, [], ◌∷◌, ◌++◌, arith, map, ◌==◌, length, take, drop, length-drop,
  take-append-drop, length-append, append-nil, append_assoc, ◌∙◌, sym,
}

-- The `n` bytes of an unsigned integer, the least significant first.
unfoldable pub to_le : ℕ → ℕ → List ℕ
to_le zero v = []
to_le (suc n) v = v % 256 ∷ to_le n (v / 256)

unfoldable pub from_le : List ℕ → ℕ
from_le [] = 0
from_le (b ∷ bs) = b + 256 * from_le bs

-- Every element is a byte.
abbrev pub AreBytes : List ℕ → Type 0
AreBytes [] = Unit
AreBytes (b ∷ bs) = (b < 256) × AreBytes bs

abbrev pub beq_bytes : List ℕ → List ℕ → Bool
beq_bytes [] [] = true
beq_bytes [] (y ∷ ys) = false
beq_bytes (x ∷ xs) [] = false
beq_bytes (x ∷ xs) (y ∷ ys) = x == y && beq_bytes xs ys

pub beq_bytes_iff : (xs ys : List ℕ) → (beq_bytes xs ys ≡ true) ↔ (xs ≡ ys)
beq_bytes_iff [] [] = ground arith
beq_bytes_iff [] (y ∷ ys) = ground arith
beq_bytes_iff (x ∷ xs) [] = ground arith
beq_bytes_iff (x ∷ xs) (y ∷ ys) = ground (arith, beq_bytes_iff xs ys)

pub length-to_le : (n v : ℕ) → length (to_le n v) ≡ n
unfolding to_le
length-to_le zero v = refl
length-to_le (suc n) v = ap suc (length-to_le n (v / 256))

pub to_le-AreBytes : (n v : ℕ) → AreBytes (to_le n v)
unfolding to_le
to_le-AreBytes zero v = tt
to_le-AreBytes (suc n) v = (omega arith, to_le-AreBytes n (v / 256))

pub from_le-lt : (bs : List ℕ) → AreBytes bs → from_le bs < 256 ^ length bs
unfolding from_le
from_le-lt [] h = omega arith
from_le-lt (b ∷ bs) (hb, h) = omega (arith, from_le-lt bs h, pow-suc 256 (length bs))

pub from_le-take : (n : ℕ) (bs : List ℕ) → AreBytes bs → from_le (take n bs) < 256 ^ n
unfolding from_le
from_le-take zero bs h = omega arith
from_le-take (suc n) [] h = omega (arith, pow-suc 256 n, from_le-take n [] tt)
from_le-take (suc n) (b ∷ bs) (hb, h) = omega (arith, pow-suc 256 n, from_le-take n bs h)

pub AreBytes-take : (n : ℕ) (bs : List ℕ) → AreBytes bs → AreBytes (take n bs)
AreBytes-take zero bs h = tt
AreBytes-take (suc n) [] h = tt
AreBytes-take (suc n) (b ∷ bs) (hb, h) = (hb, AreBytes-take n bs h)

pub AreBytes-drop : (n : ℕ) (bs : List ℕ) → AreBytes bs → AreBytes (drop n bs)
AreBytes-drop zero bs h = h
AreBytes-drop (suc n) [] h = tt
AreBytes-drop (suc n) (b ∷ bs) (hb, h) = AreBytes-drop n bs h

-- A number that fits is read back from its bytes.
pub from_le-to_le : (n v : ℕ) → v < 256 ^ n → from_le (to_le n v) ≡ v
unfolding to_le from_le
from_le-to_le zero v h = omega arith
from_le-to_le (suc n) v h = omega (arith, from_le-to_le n (v / 256) (omega (arith, pow-suc 256 n)))

-- The bytes of the number that a list of bytes stands for are that list.
pub to_le-from_le : (bs : List ℕ) → AreBytes bs → to_le (length bs) (from_le bs) ≡ bs
unfolding to_le from_le
to_le-from_le [] h = refl
to_le-from_le (b ∷ bs) (hb, h) =
    ap₂ ◌∷◌ (omega arith)
      (let e : (b + 256 * from_le bs) / 256 ≡ from_le bs = omega arith in rw e (to_le-from_le bs h))

-- `&bytes[start..start + n]`, where the range lies inside.
abbrev pub slice {ℓ} : {A : Type ℓ} → List A → ℕ → ℕ → List A
slice bs start n = take n (drop start bs)

-- Writing `xs` over the bytes from `i` on. What would pass the end is cut off; the code
-- panics there, and its writes are proved to lie inside.
abbrev pub copy_at {ℓ} : {A : Type ℓ} → List A → ℕ → List A → List A
copy_at [] i xs = []
copy_at (b ∷ bs) i [] = b ∷ bs
copy_at (b ∷ bs) zero (x ∷ xs) = x ∷ copy_at bs zero xs
copy_at (b ∷ bs) (suc i) (x ∷ xs) = b ∷ copy_at bs i (x ∷ xs)

module _ {ℓ} {A : Type ℓ} where
  pub length-copy_at : (bs : List A) (i : ℕ) (xs : List A) → length (copy_at bs i xs) ≡ length bs
  length-copy_at [] i xs = refl
  length-copy_at (b ∷ bs) i [] = refl
  length-copy_at (b ∷ bs) zero (x ∷ xs) = ap suc (length-copy_at bs zero xs)
  length-copy_at (b ∷ bs) (suc i) (x ∷ xs) = ap suc (length-copy_at bs i (x ∷ xs))

  -- A write that lies inside: what stands before it stays, and so does what stands behind.
  pub copy_at-append :
      (pre free xs : List A)
      → length xs ≤ length free
      → copy_at (pre ++ free) (length pre) xs ≡ pre ++ (xs ++ drop (length xs) free)
  copy_at-append [] [] [] h = refl
  copy_at-append [] [] (x ∷ xs) h = absurd (omega arith)
  copy_at-append [] (f ∷ free) [] h = refl
  copy_at-append [] (f ∷ free) (x ∷ xs) h = ap (◌∷◌ x) (copy_at-append [] free xs (omega arith))
  copy_at-append (p ∷ pre) free [] h = refl
  copy_at-append (p ∷ pre) free (x ∷ xs) h = ap (◌∷◌ p) (copy_at-append pre free (x ∷ xs) h)

module _ {ℓ} {A : Type ℓ} where
  drop-nil : (n : ℕ) → drop n (let l : List A = [] in l) ≡ []
  drop-nil zero = refl
  drop-nil (suc n) = refl

  pub drop-drop : (n m : ℕ) (xs : List A) → drop m (drop n xs) ≡ drop (n + m) xs
  drop-drop zero m xs = ap (λ (k : ℕ). drop k xs) (omega arith)
  drop-drop (suc n) m [] = drop-nil m ∙ sym (drop-nil (suc n + m))
  drop-drop (suc n) m (x ∷ xs) =
      drop-drop n m xs ∙ ap (λ (k : ℕ). drop k (x ∷ xs)) {x = suc (n + m)} (omega arith)

  -- Two writes one behind the other.
  pub copy_at_two :
      (pre free xs ys all : List A) (i j : ℕ)
      → all ≡ pre ++ free
      → i ≡ length pre
      → j ≡ length pre + length xs
      → length xs + length ys ≤ length free
      → copy_at (copy_at all i xs) j ys ≡ (pre ++ (xs ++ ys)) ++ drop (length xs + length ys) free
  copy_at_two pre free xs ys all i j ea ei ej h =
      let rest : List A = drop (length xs) free in
      ap (λ (l : List A). copy_at (copy_at l i xs) j ys) ea
      ∙ ap (λ (k : ℕ). copy_at (copy_at (pre ++ free) k xs) j ys) ei
      ∙ ap (λ (l : List A). copy_at l j ys)
          (copy_at-append pre free xs (omega arith) ∙ sym (append_assoc pre xs rest))
      ∙ ap (λ (k : ℕ). copy_at ((pre ++ xs) ++ rest) k ys) (ej ∙ sym (length-append pre xs))
      ∙ copy_at-append (pre ++ xs) rest ys (omega (arith, length-drop (length xs) free))
      ∙ ap (λ (l : List A). (pre ++ xs) ++ (ys ++ l)) (drop-drop (length xs) (length ys) free)
      ∙ sym (append_assoc (pre ++ xs) ys (drop (length xs + length ys) free))
      ∙ ap (λ (l : List A). l ++ drop (length xs + length ys) free) (append_assoc pre xs ys)

-- The consecutive fields of a packed record, by their widths.
abbrev pub layout : List ℕ → List ℕ → List (List ℕ)
layout [] bs = []
layout (w ∷ ws) bs = take w bs ∷ layout ws (drop w bs)

-- The bytes of a packed record: its fields one after another.
abbrev pub pack : List (List ℕ) → List ℕ
pack [] = []
pack (p ∷ ps) = p ++ pack ps

abbrev pub total : List ℕ → ℕ
total [] = 0
total (w ∷ ws) = w + total ws

module _ {ℓ} {A : Type ℓ} where
  pub take-append : (xs ys : List A) → take (length xs) (xs ++ ys) ≡ xs
  take-append [] ys = refl
  take-append (x ∷ xs) ys = ap (◌∷◌ x) (take-append xs ys)

  pub drop-append : (xs ys : List A) → drop (length xs) (xs ++ ys) ≡ ys
  drop-append [] ys = refl
  drop-append (x ∷ xs) ys = drop-append xs ys

module _ {ℓ} {A : Type ℓ} where
  pub take-append_of : (xs ys : List A) {n : ℕ} → length xs ≡ n → take n (xs ++ ys) ≡ xs
  take-append_of xs ys e = subst (λ n. take n (xs ++ ys) ≡ xs) e (take-append xs ys)

  pub drop-append_of : (xs ys : List A) {n : ℕ} → length xs ≡ n → drop n (xs ++ ys) ≡ ys
  drop-append_of xs ys e = subst (λ n. drop n (xs ++ ys) ≡ ys) e (drop-append xs ys)

  pub take_all : (xs : List A) {n : ℕ} → length xs ≡ n → take n xs ≡ xs
  take_all xs {n} e =
      subst (λ (ys : List A). take n ys ≡ xs) (append-nil xs) (take-append_of xs [] e)

module _ {ℓ} {A : Type ℓ} where
  -- A slice that starts and ends where a part does is that part.
  pub slice-middle :
      (pre xs post : List A) {i n : ℕ}
      → i ≡ length pre
      → n ≡ length xs
      → slice (pre ++ (xs ++ post)) i n ≡ xs
  slice-middle pre xs post {i} {n} ei en =
      ap (take n) (drop-append_of pre (xs ++ post) (sym ei)) ∙ take-append_of xs post (sym en)

-- The fields of a packed record are read back.
pub layout-pack : (ps : List (List ℕ)) → layout (map length ps) (pack ps) ≡ ps
layout-pack [] = refl
layout-pack (p ∷ ps) = rw (take-append p (pack ps), drop-append p (pack ps), layout-pack ps)

pub layout-pack_of :
    (ps : List (List ℕ)) {ws : List ℕ} → map length ps ≡ ws → layout ws (pack ps) ≡ ps
layout-pack_of ps e = subst (λ ws. layout ws (pack ps) ≡ ps) e (layout-pack ps)

layout-pack_more :
    (ps : List (List ℕ)) (rest : List ℕ) → layout (map length ps) (pack ps ++ rest) ≡ ps
layout-pack_more [] rest = refl
layout-pack_more (p ∷ ps) rest = rw (
  append_assoc p (pack ps) rest,
  take-append p (pack ps ++ rest),
  drop-append p (pack ps ++ rest),
  layout-pack_more ps rest,
)

-- So are they where more bytes follow.
pub layout-pack_then :
    (ps : List (List ℕ)) (rest : List ℕ) {ws : List ℕ}
    → map length ps ≡ ws
    → layout ws (pack ps ++ rest) ≡ ps
layout-pack_then ps rest e =
    subst (λ ws. layout ws (pack ps ++ rest) ≡ ps) e (layout-pack_more ps rest)

-- A run of bytes of the right length is the record of its fields.
pub pack-layout : (ws bs : List ℕ) → length bs ≡ total ws → pack (layout ws bs) ≡ bs
pack-layout [] [] h = refl
pack-layout [] (b ∷ bs) h = absurd (omega arith)
pack-layout (w ∷ ws) bs h =
    rw (pack-layout ws (drop w bs) (omega (arith, length-drop w bs))) (take-append-drop w bs)

pub length-pack : (ps : List (List ℕ)) → length (pack ps) ≡ total (map length ps)
length-pack [] = refl
length-pack (p ∷ ps) = omega (arith, length-append p (pack ps), length-pack ps)

pub length-pack_of :
    (ps : List (List ℕ)) {ws : List ℕ} → map length ps ≡ ws → length (pack ps) ≡ total ws
length-pack_of ps e = subst (λ ws. length (pack ps) ≡ total ws) e (length-pack ps)
