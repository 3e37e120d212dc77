-- ===== src/Flash/Book/Levels.antt =====
-- `BTreeMap<OrderedFloat<f64>, PriceLevel>` as far as the order book uses it: the levels, in the order
-- of their keys. The key of a level is the rank of its price in the order of `OrderedFloat`.
pub mod Order
pub mod Find
use ai_systems_verification.Base.{
  ℕ, zero, suc, ◌+◌, ◌-◌, Bool, true, false, List, [], ◌∷◌, ◌++◌, Option, none, some, if◌then◌else◌,
  ltb, ◌==◌, length, take, drop,
}

module _ {L : Type 0} (key : L → ℕ) where
  unfoldable pub get : ℕ → List L → Option L
  get k [] = none
  get k (x ∷ xs) = if key x == k then some x else get k xs

  unfoldable pub insert : L → List L → List L
  insert l [] = l ∷ []
  insert l (x ∷ xs) =
      let onward = x ∷ insert l xs in
      if ltb (key l) (key x) then l ∷ x ∷ xs else (if key x == key l then l ∷ xs else onward)

  unfoldable pub remove : ℕ → List L → List L
  remove k [] = []
  remove k (x ∷ xs) = let onward = x ∷ remove k xs in if key x == k then xs else onward

module _ {L : Type 0} where
  abbrev pub first : List L → Option L
  first [] = none
  first (x ∷ xs) = some x

  unfoldable pub last : List L → Option L
  last [] = none
  last (x ∷ xs) = elim (last xs) [ none ↦ some x | some y ↦ some y ]

  -- `pop_first` and `pop_last`: what they leave.
  abbrev pub without_first : List L → List L
  without_first [] = []
  without_first (x ∷ xs) = xs

  unfoldable pub without_last : List L → List L
  without_last [] = []
  without_last (x ∷ xs) = elim xs [ [] ↦ [] | y ∷ ys ↦ x ∷ without_last xs ]
