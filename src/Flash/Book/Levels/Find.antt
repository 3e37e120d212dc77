-- ===== src/Flash/Book/Levels/Find.antt =====
-- What is found among the levels, how many there are, and which are the first and the last.
use ai_systems_verification.Base.{
  ℕ, zero, suc, ◌-◌, ◌≤◌, ◌<◌, ◌≡◌, ◌≢◌, refl, ap, List, [], ◌∷◌, none, some, arith, if◌then◌else◌,
  ◌==◌, length, take,
}
use ai_systems_verification.Flash.Book.Levels.{get, insert, remove, first, last, without_last}
use ai_systems_verification.Flash.Book.Levels.Order.{From}

module _ {L : Type 0} (key : L → ℕ) where
  pub get-insert :
      (k : ℕ) (l : L) (xs : List L)
      → get key k (insert key l xs) ≡ (if key l == k then some l else get key k xs)
  unfolding get insert
  get-insert k l [] = refl
  get-insert k l (x ∷ xs) = ground (arith, get-insert k l xs)

  pub get-remove_other :
      (j k : ℕ) (xs : List L) → j ≢ k → get key j (remove key k xs) ≡ get key j xs
  unfolding get remove
  get-remove_other j k [] ne = refl
  get-remove_other j k (x ∷ xs) ne = ground (arith, get-remove_other j k xs ne)

  pub get_below : (k b : ℕ) (xs : List L) → k < b → From key b xs → get key k xs ≡ none
  unfolding get
  get_below k b [] lt h = refl
  get_below k b (x ∷ xs) lt h = ground (arith, get_below k (suc (key x)) xs)

  pub get-remove_same : (k b : ℕ) (xs : List L) → From key b xs → get key k (remove key k xs) ≡ none
  unfolding get remove
  get-remove_same k b [] h = refl
  get-remove_same k b (x ∷ xs) h =
      ground (arith, get-remove_same k (suc (key x)) xs h.1, get_below k (suc (key x)) xs)

  pub remove_missing : (k : ℕ) (xs : List L) → get key k xs ≡ none → remove key k xs ≡ xs
  unfolding get remove
  remove_missing k [] h = refl
  remove_missing k (x ∷ xs) h = ground (arith, remove_missing k xs)

  pub key-get : (k : ℕ) (xs : List L) (l : L) → get key k xs ≡ some l → key l ≡ k
  unfolding get
  key-get k [] l h = cc
  key-get k (x ∷ xs) l h = ground (arith, key-get k xs l)

  From-last : (b : ℕ) (xs : List L) (y : L) → From key b xs → last xs ≡ some y → b ≤ key y
  unfolding last
  From-last b [] y h e = cc
  From-last b (x ∷ xs) y h e = ground (arith, From-last (suc (key x)) xs y)

  pub last-none : (xs : List L) → last xs ≡ none → xs ≡ []
  unfolding last
  last-none [] h = refl
  last-none (x ∷ xs) h = ground arith

  -- The last level has the greatest key, and the first the least.
  pub get-le-last :
      (k b : ℕ) (xs : List L) (l y : L)
      → From key b xs
      → get key k xs ≡ some l
      → last xs ≡ some y
      → key l ≤ key y
  unfolding last get
  get-le-last k b [] l y h here end = cc
  get-le-last k b (x ∷ xs) l y h here end =
      ground (arith, From-last (suc (key x)) xs y, get-le-last k (suc (key x)) xs l y, last-none xs)

  get-above : (k b : ℕ) (xs : List L) (l : L) → From key b xs → get key k xs ≡ some l → b ≤ key l
  unfolding get
  get-above k b [] l h here = cc
  get-above k b (x ∷ xs) l h here = ground (arith, get-above k (suc (key x)) xs l)

  pub first-le-get :
      (k b : ℕ) (xs : List L) (l y : L)
      → From key b xs
      → get key k xs ≡ some l
      → first xs ≡ some y
      → key y ≤ key l
  unfolding get
  first-le-get k b [] l y h here front = cc
  first-le-get k b (x ∷ xs) l y h here front = ground (arith, get-above k (suc (key x)) xs l)

  pub length-insert : (l : L) (xs : List L) → length (insert key l xs) ≤ suc (length xs)
  unfolding insert
  length-insert l [] = omega arith
  length-insert l (x ∷ xs) = ground (arith, length-insert l xs)

  pub length-remove : (k : ℕ) (xs : List L) → length (remove key k xs) ≤ length xs
  unfolding remove
  length-remove k [] = omega arith
  length-remove k (x ∷ xs) = ground (arith, length-remove k xs)

module _ {L : Type 0} where
  pub length-without_last : (xs : List L) → length (without_last xs) ≡ length xs - 1
  unfolding without_last
  length-without_last [] = refl
  length-without_last (x ∷ []) = refl
  length-without_last (x ∷ y ∷ ys) = omega (arith, length-without_last (y ∷ ys))

  pub take-without_last :
      (n : ℕ) (xs : List L) → n < length xs → take n (without_last xs) ≡ take n xs
  unfolding without_last
  take-without_last zero [] h = refl
  take-without_last zero (x ∷ []) h = refl
  take-without_last zero (x ∷ y ∷ ys) h = refl
  take-without_last (suc n) [] h = refl
  take-without_last (suc n) (x ∷ []) h = absurd (omega arith)
  take-without_last (suc n) (x ∷ y ∷ ys) h = ap (◌∷◌ x) (take-without_last n (y ∷ ys) (omega arith))

  pub take_short : (n : ℕ) (xs : List L) → length xs ≤ n → take n xs ≡ xs
  take_short zero [] h = refl
  take_short zero (x ∷ xs) h = absurd (omega arith)
  take_short (suc n) [] h = refl
  take_short (suc n) (x ∷ xs) h = ap (◌∷◌ x) (take_short n xs (omega arith))
