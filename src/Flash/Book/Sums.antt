-- ===== src/Flash/Book/Sums.antt =====
-- The quantities of one side add up, where the arithmetic of decimals is exact, as that of
-- `rust_decimal` is as long as results have at most 28 digits.
use ai_systems_verification.Base.{
  ℕ, suc, ◌≡◌, refl, List, [], ◌∷◌, some, arith, inl, inr, Option-cases,
}
use ai_systems_verification.Flash.Book.{PriceLevel, Calls, key, without}
use ai_systems_verification.Flash.Book.Levels.{
  get, insert, remove, first, last, without_first, without_last,
}
use ai_systems_verification.Flash.Book.Levels.Order.{From}
use ai_systems_verification.Flash.Book.Levels.Find.{get_below, remove_missing, last-none}

module _ {I F Q : Type 0} (c : Calls I F Q) where
  -- `sub_add` takes back what was added; `add_swap` adds in any order.
  pub record IsExact : Type 0 where
    pub sub_add : (a b : Q) → c.sub (c.add a b) b ≡ a
    pub add_swap : (a b d : Q) → c.add (c.add a b) d ≡ c.add (c.add a d) b
    pub add_zero : (a : Q) → c.add a c.zero_quantity ≡ a

  abbrev pub sum : List (PriceLevel F Q) → Q
  sum [] = c.zero_quantity
  sum (x ∷ xs) = c.add (sum xs) x.quantity

module _ {I F Q : Type 0} {c : Calls I F Q} (ex : IsExact c) where
  sum-remove :
      (k : ℕ) (xs : List (PriceLevel F Q)) (l : PriceLevel F Q)
      → get (key c) k xs ≡ some l
      → sum c xs ≡ c.add (sum c (remove (key c) k xs)) l.quantity
  unfolding get remove
  sum-remove k [] l h = cc
  sum-remove k (x ∷ xs) l h =
      ground
        (arith, sum-remove k xs l, ex.add_swap (sum c (remove (key c) k xs)) l.quantity x.quantity)

  pub sum-insert :
      (b : ℕ) (l : PriceLevel F Q) (xs : List (PriceLevel F Q))
      → From (key c) b xs
      → sum c (insert (key c) l xs) ≡ c.add (sum c (remove (key c) (key c l) xs)) l.quantity
  unfolding get insert remove
  sum-insert b l [] h = refl
  sum-insert b l (x ∷ xs) h = ground (
    arith,
    sum-insert (suc (key c x)) l xs,
    get_below (key c) (key c l) (suc (key c x)) xs,
    remove_missing (key c) (key c l) xs,
    ex.add_swap (sum c (remove (key c) (key c l) xs)) l.quantity x.quantity,
  )

  -- What the code subtracts before it writes or removes a level.
  pub without-sum :
      (k : ℕ) (xs : List (PriceLevel F Q))
      → without c (get (key c) k xs) (sum c xs) ≡ sum c (remove (key c) k xs)
  without-sum k xs = elim (Option-cases (get (key c) k xs)) [
    | inl missing ↦ rw (missing, remove_missing (key c) k xs missing) refl
    | inr (l, here) ↦ rw (here, sum-remove k xs l here) (ex.sub_add _ _)
  ]

  pub without-first :
      (xs : List (PriceLevel F Q)) → without c (first xs) (sum c xs) ≡ sum c (without_first xs)
  without-first [] = refl
  without-first (x ∷ xs) = ex.sub_add (sum c xs) x.quantity

  sum-without_last :
      (xs : List (PriceLevel F Q)) (y : PriceLevel F Q)
      → last xs ≡ some y
      → sum c xs ≡ c.add (sum c (without_last xs)) y.quantity
  unfolding last without_last
  sum-without_last [] y h = cc
  sum-without_last (x ∷ []) y h = ground arith
  sum-without_last (x ∷ z ∷ zs) y h = ground (
    arith,
    sum-without_last (z ∷ zs) y,
    ex.add_swap (sum c (without_last (z ∷ zs))) y.quantity x.quantity,
  )

  pub without-last :
      (xs : List (PriceLevel F Q)) → without c (last xs) (sum c xs) ≡ sum c (without_last xs)
  unfolding last without_last
  without-last xs = elim (Option-cases (last xs)) [
    | inl nothing ↦ rw (last-none (key c) xs nothing) refl
    | inr (y, here) ↦ rw (here, sum-without_last xs y here) (ex.sub_add _ _)
  ]
