-- ===== src/Base/Masks.antt =====
-- `x & (2^k - 1)` as a remainder, at every width: the masks of the power-of-two ring indices.
use Prim.Native.Nat.{
  ℕ, zero, suc, ◌+◌, ◌*◌, ◌/◌, ◌%◌, ◌^◌, ◌≤◌, ◌<◌, min, bit_and, digits, bit_and-bitwise,
}
use mathlib.Core.Path.{◌≡◌, refl, ap}
use native.Mathlib.Omega.{arith}
use native.Mathlib.Nat.{pow-suc, one-le-pow}

-- The recursion on binary digits that the native conjunction stands for.
abbrev conj : ℕ → ℕ → ℕ → ℕ
conj fuel x y = digits (λ y. zero) min fuel x y

-- Any two amounts of fuel that cover the left number give one result.
conj_fuel : (f g x y : ℕ) → x ≤ f → x ≤ g → conj f x y ≡ conj g x y
conj_fuel zero zero x y p q = refl
conj_fuel zero (suc g) zero y p q = refl
conj_fuel zero (suc g) (suc x) y p q = absurd (omega arith)
conj_fuel (suc f) zero zero y p q = refl
conj_fuel (suc f) zero (suc x) y p q = absurd (omega arith)
conj_fuel (suc f) (suc g) zero y p q = refl
conj_fuel (suc f) (suc g) (suc x) y p q =
    omega (arith, conj_fuel f g (suc x / 2) (y / 2) (omega arith) (omega arith))

-- One digit of a conjunction.
bit_and_digit : (x y : ℕ) → bit_and x y ≡ bit_and (x / 2) (y / 2) * 2 + min (x % 2) (y % 2)
bit_and_digit zero y = omega (arith, bit_and-bitwise 0 y, bit_and-bitwise 0 (y / 2))
bit_and_digit (suc x) y = omega (
  arith,
  bit_and-bitwise (suc x) y,
  bit_and-bitwise (suc x / 2) (y / 2),
  conj_fuel x (suc x / 2) (suc x / 2) (y / 2) (omega arith) (omega arith),
)

bit_and-zero_below : (n x : ℕ) → x ≤ n → bit_and x 0 ≡ 0
bit_and-zero_below zero x h = let e : x ≡ 0 = omega arith in rw e refl
bit_and-zero_below (suc n) zero h = refl
bit_and-zero_below (suc n) (suc x) h =
    omega (arith, bit_and_digit (suc x) 0, bit_and-zero_below n (suc x / 2) (omega arith))

-- Splitting off the last digit of a remainder.
mod_double : (x p : ℕ) → 0 < p → x % (p * 2) ≡ x / 2 % p * 2 + x % 2
mod_double x p h = grind arith

-- A mask of `k` ones keeps the remainder by `2 ^ k`.
pub bit_and_mask : (k x m : ℕ) → m + 1 ≡ 2 ^ k → bit_and x m ≡ x % 2 ^ k
bit_and_mask zero x m h =
    let e : m ≡ 0 = omega arith in rw e (omega (arith, bit_and-zero_below x x (omega arith)))
bit_and_mask (suc k) x m h = omega (
  arith,
  bit_and_digit x m,
  pow-suc 2 k,
  ap (λ (t : ℕ). x % t) (pow-suc 2 k),
  mod_double x (2 ^ k) (one-le-pow k 2 (omega arith)),
  bit_and_mask k (x / 2) (m / 2) (omega (arith, pow-suc 2 k)),
)
