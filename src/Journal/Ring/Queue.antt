-- ===== src/Journal/Ring/Queue.antt =====
-- What the ring promises: a first-in first-out queue of at most `most` values, oldest first.
use ai_systems_verification.Base.{
  ℕ, Bool, true, false, List, [], ◌∷◌, ◌++◌, if◌then◌else◌, ltb, length,
}
use ai_systems_verification.Journal.Ring.{Popped, nothing, item}

module _ {ℓ} {A : Type ℓ} where
  abbrev pub push : ℕ → List A → A → Bool × List A
  push most q x = if ltb (length q) most then (true, q ++ x ∷ []) else (false, q)

  abbrev pub pop : List A → Popped A × List A
  pop [] = (nothing, [])
  pop (x ∷ q) = (item x, q)
