-- ===== src/Flash/Book/Levels/Order.antt =====
-- The levels stay in ascending order.
use ai_systems_verification.Base.{ℕ, suc, ◌≤◌, List, [], ◌∷◌, arith}
use ai_systems_verification.Flash.Book.Levels.{insert, remove, without_first, without_last}

module _ {L : Type 0} (key : L → ℕ) where
  -- In strictly ascending order, from `b` on.
  abbrev pub From : ℕ → List L → Type 0
  From b [] = Unit {0}
  From b (x ∷ xs) = (b ≤ key x) × From (suc (key x)) xs

  pub From-weaken : (a b : ℕ) (xs : List L) → a ≤ b → From b xs → From a xs
  From-weaken a b [] le h = tt
  From-weaken a b (x ∷ xs) le h = (omega arith, h.1)

  pub From-insert : (b : ℕ) (l : L) (xs : List L) → b ≤ key l → From b xs → From b (insert key l xs)
  unfolding insert
  From-insert b l [] le h = (le, tt)
  From-insert b l (x ∷ xs) le h =
      ground (arith, From-insert (suc (key x)) l xs, From-weaken (suc (key l)) (suc (key x)) xs)

  pub From-remove : (b k : ℕ) (xs : List L) → From b xs → From b (remove key k xs)
  unfolding remove
  From-remove b k [] h = tt
  From-remove b k (x ∷ xs) h =
      ground (arith, From-remove (suc (key x)) k xs, From-weaken b (suc (key x)) xs)

  pub From-without_first : (b : ℕ) (xs : List L) → From b xs → From b (without_first xs)
  From-without_first b [] h = tt
  From-without_first b (x ∷ xs) h = From-weaken b (suc (key x)) xs (omega arith) h.1

  pub From-without_last : (b : ℕ) (xs : List L) → From b xs → From b (without_last xs)
  unfolding without_last
  From-without_last b [] h = tt
  From-without_last b (x ∷ []) h = tt
  From-without_last b (x ∷ y ∷ ys) h = (h.0, From-without_last (suc (key x)) (y ∷ ys) h.1)
