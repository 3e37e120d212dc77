-- ===== src/Journal/Ring/Capacity.antt =====
-- The capacity that `RingBuffer::new` chooses, and the masked index arithmetic that it makes right.
use native.Mathlib.Nat.{
  pow-suc, one-le-pow, pow-le-pow_right, mod-eq_of_lt, mod-lt, add-mod_right, add-mul-mod_self_left,
}
use ai_systems_verification.Base.{
  ℕ, zero, suc, ◌+◌, ◌-◌, ◌*◌, ◌%◌, ◌^◌, ◌≤◌, ◌<◌, ◌≡◌, refl, sym, ap, ◌∙◌, some, arith, inl, inr,
  Bool-cases, leb, max, length, length-replicate, dec_lt, none,
}
use ai_systems_verification.Base.Masks.{bit_and_mask}
use ai_systems_verification.Base.Wrap.{mod_distance}
use ai_systems_verification.Journal.Ring.{
  Ring, double_until, next_power_of_two, fresh, new, next_index, len,
}

-- A power of two that is large enough, and less than twice as large.
pub record Rounded (n q : ℕ) : Type 0 where
  pub exponent : ℕ
  pub exponent_lt : exponent < 64
  pub is_power : q ≡ 2 ^ exponent
  pub large : n ≤ q
  pub least : q < n * 2

double_until-Rounded :
    (f e p n : ℕ)
    → p ≡ 2 ^ e
    → e + f ≡ 63
    → n ≤ 2 ^ 63
    → p < n * 2
    → (q : ℕ) × (double_until f p n ≡ some q) × Rounded n q
unfolding double_until
double_until-Rounded zero e p n hp hf hn least = (
  p,
  (let big : p ≡ 2 ^ 63 = hp ∙ ap (λ (t : ℕ). 2 ^ t) {y = 63} (omega arith) in ground arith),
  (let big : p ≡ 2 ^ 63 = hp ∙ ap (λ (t : ℕ). 2 ^ t) {y = 63} (omega arith) in
      record {
        exponent = e;
        exponent_lt = omega arith;
        is_power = hp;
        large = omega arith;
        least = least;
      }),
)
double_until-Rounded (suc f) e p n hp hf hn least = elim (Bool-cases (leb n p)) [
  | inl t ↦ (
    p,
    rw t,
    record {
      exponent = e;
      exponent_lt = omega arith;
      is_power = hp;
      large = ground arith;
      least = least;
    },
  )
  | inr t ↦ rw t (
      double_until-Rounded f (suc e) (p * 2) n (rw hp (sym (pow-suc 2 e))) (omega arith) hn
        (ground arith))
]

pub next_power_of_two-Rounded :
    (n : ℕ) → 0 < n → n ≤ 2 ^ 63 → (q : ℕ) × (next_power_of_two n ≡ some q) × Rounded n q
unfolding next_power_of_two
next_power_of_two-Rounded n pos h = double_until-Rounded 63 0 1 n refl refl h (omega arith)

-- What `RingBuffer::new` establishes of the fields that no operation changes.
pub record Shape {ℓ} {A : Type ℓ} (r : Ring A) : Type 0 where
  pub exponent : ℕ
  pub exponent_pos : 0 < exponent
  pub exponent_lt : exponent < 64
  pub cap : r.capacity ≡ 2 ^ exponent
  pub mask_lem : r.mask + 1 ≡ 2 ^ exponent
  pub slots : length r.buffer ≡ r.capacity

exponent_pos_of_two : (e q : ℕ) → q ≡ 2 ^ e → 2 ≤ q → 0 < e
exponent_pos_of_two zero q h two = omega arith
exponent_pos_of_two (suc e) q h two = omega arith

pow_split : (k j : ℕ) → 2 ^ (k + j) ≡ 2 ^ k * 2 ^ j
pow_split k zero = ap (λ (t : ℕ). 2 ^ t) {y = k} (omega arith) ∙ omega arith
pow_split k (suc j) =
    ap (λ (t : ℕ). 2 ^ t) {y = suc (k + j)} (omega arith)
    ∙ omega (arith, pow-suc 2 (k + j), ap (λ (t : ℕ). 2 ^ k * t) (pow-suc 2 j), pow_split k j)

-- A power of two that fits divides the word.
word_multiple : (e c : ℕ) → e < 64 → c ≡ 2 ^ e → (d : ℕ) × (c * suc d ≡ 2 ^ 64)
word_multiple e c h hc = (
  2 ^ (64 - e) - 1,
  (let whole : 2 ^ (e + (64 - e)) ≡ 2 ^ 64 = ap (λ (t : ℕ). 2 ^ t) {y = 64} (omega arith) in
      let pos : suc (2 ^ (64 - e) - 1) ≡ 2 ^ (64 - e) =
        omega (arith, one-le-pow (64 - e) 2 (omega arith)) in
      rw (pos, hc) (sym (pow_split e (64 - e)) ∙ whole)),
)

-- So a difference that wraps at the word is the same index as one that wraps at the capacity.
wrap_sub_mod :
    (h t c d : ℕ)
    → h < c
    → t < c
    → c * suc d ≡ 2 ^ 64
    → (h + 2 ^ 64 - t) % 2 ^ 64 % c ≡ (h + c - t) % c
wrap_sub_mod h t c d hh ht e = elim (dec_lt h t) [
  | yes p ↦
      ap (λ (x : ℕ). x % c) {y = h + c - t + c * d} (omega arith)
      ∙ add-mul-mod_self_left (h + c - t) c d
  | no p ↦
      ap (λ (x : ℕ). x % c) {y = h - t} (omega arith)
      ∙ sym (add-mod_right (h - t) c)
      ∙ ap (λ (x : ℕ). x % c) {y = h + c - t} (omega arith)
]

module _ {ℓ} {A : Type ℓ} where
  -- A buffer of any capacity up to 2^63 can be made, and holds at least what was asked for.
  pub new-Shape :
      (capacity : ℕ)
      → capacity ≤ 2 ^ 63
      → (q : ℕ) × (new {A = A} capacity ≡ some (fresh q))
        × Shape {A = A} (fresh q)
        × Rounded (max capacity 2) q
  unfolding new
  new-Shape capacity h =
      let (q, e, v) = next_power_of_two-Rounded (max capacity 2) (omega arith) (omega arith) in
      (q, rw e, shape q v, v)
    where
      shape : (q : ℕ) → Rounded (max capacity 2) q → Shape {A = A} (fresh q)
      shape q v = record {
        exponent = v.exponent;
        exponent_pos = exponent_pos_of_two v.exponent q v.is_power (omega arith);
        exponent_lt = v.exponent_lt;
        cap = v.is_power;
        mask_lem = omega arith;
        slots = length-replicate q none;
      }

  small : {r : Ring A} → Shape r → (i : ℕ) → i < r.capacity → i + 1 < 2 ^ 64
  small v i h =
      omega (arith, pow-le-pow_right {n = 2} (omega arith) {i = v.exponent} {j = 63} (omega arith))

  pub next_index_lem :
      {r : Ring A} → Shape r → (i : ℕ) → i < r.capacity → next_index r i ≡ (i + 1) % r.capacity
  next_index_lem {r} v i h = omega (
    arith,
    pow-le-pow_right {n = 2} (omega arith) {i = v.exponent} {j = 63} (omega arith),
    bit_and_mask v.exponent ((i + 1) % 2 ^ 64) r.mask v.mask_lem,
    ap (λ (c : ℕ). (i + 1) % c) v.cap,
    ap (λ (x : ℕ). x % 2 ^ v.exponent) {y = i + 1}
        ((mod-eq_of_lt {n = i + 1} {m = 2 ^ 64} (small v i h))),
  )

  pub len_lem :
      {r : Ring A} (n : ℕ)
      → Shape r
      → r.tail < r.capacity
      → n < r.capacity
      → r.head ≡ (r.tail + n) % r.capacity
      → len r ≡ n
  unfolding len
  len_lem {r} n v ht hn e =
      let (d, whole) = word_multiple v.exponent r.capacity v.exponent_lt v.cap in
      bit_and_mask v.exponent ((r.head + 2 ^ 64 - r.tail) % 2 ^ 64) r.mask v.mask_lem
      ∙ ap (λ (c : ℕ). (r.head + 2 ^ 64 - r.tail) % 2 ^ 64 % c) (sym v.cap)
      ∙ wrap_sub_mod r.head r.tail r.capacity d
          (omega (arith, mod-lt (r.tail + n) {m = r.capacity} (omega arith))) ht whole
      ∙ ap (λ (h : ℕ). (h + r.capacity - r.tail) % r.capacity) e
      ∙ mod_distance r.tail n r.capacity ht hn
