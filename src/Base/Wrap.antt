-- ===== src/Base/Wrap.antt =====
-- Indices that go round at a capacity.
use native.Mathlib.Nat.{mod-add-mod, mod-eq_of_lt, mod-eq-sub-mod, mod-lt}
use ai_systems_verification.Base.{
  ℕ, ◌+◌, ◌-◌, ◌%◌, ◌≤◌, ◌<◌, ◌≡◌, ◌≢◌, ◌⊎◌, inl, inr, ◌∙◌, arith, dec_lt,
}

-- Below two rounds a remainder takes off one round or none.
pub mod_cases : (s c : ℕ) → s < c + c → ((s < c) × (s % c ≡ s)) ⊎ ((c ≤ s) × (s % c ≡ s - c))
mod_cases s c h = elim (dec_lt s c) [
  | yes p ↦ inl (p, mod-eq_of_lt p)
  | no p ↦ inr (
    omega arith,
    mod-eq-sub-mod {n = s} {m = c} (omega arith) ∙ mod-eq_of_lt {n = s - c} {m = c} (omega arith),
  )
]

-- One round more is the same index.
pub mod_shift : (a b c : ℕ) → (a % c + b) % c ≡ (a + b) % c
mod_shift a b c = mod-add-mod a c b

-- Two positions less than one round apart are different indices.
pub mod-ne_within : (a d c : ℕ) → 0 < d → d < c → a % c ≢ (a + d) % c
mod-ne_within a d c hd hc e = omega (
  arith,
  mod-lt a {m = c} (omega arith),
  mod_shift a d c,
  mod_cases (a % c + d) c (omega (arith, mod-lt a {m = c} (omega arith))),
)

-- The distance from the one index to the other, as `wrapping_sub` under the mask computes it.
pub mod_distance : (t n c : ℕ) → t < c → n < c → ((t + n) % c + c - t) % c ≡ n
mod_distance t n c ht hn = elim (mod_cases (t + n) c (omega arith)) [
  | inl (p, e) ↦ omega (arith, mod_cases ((t + n) % c + c - t) c (omega arith))
  | inr (p, e) ↦ omega (arith, mod_cases ((t + n) % c + c - t) c (omega arith))
]
