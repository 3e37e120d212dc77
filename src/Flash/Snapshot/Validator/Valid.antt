-- ===== src/Flash/Snapshot/Validator/Valid.antt =====
-- What a valid snapshot is, and which levels and numbers of levels the validator accepts.
use ai_systems_verification.Base.{
  ℕ, ◌+◌, ◌≤◌, ◌<◌, ◌≡◌, refl, ◌↔◌, true, false, not, List, [], ◌∷◌, Option, none, some, ltb,
  length, arith,
}
use ai_systems_verification.Flash.Book.{PriceLevel, Calls, key}
use ai_systems_verification.Flash.Book.Sides.{Apart}
use ai_systems_verification.Flash.Delta.Validator.{or_else}
use ai_systems_verification.Flash.Snapshot.{Checks, ValidationConfig}
use ai_systems_verification.Flash.Snapshot.Validator.{validate_levels, check_sizes}

pub or_else-none : {A : Type 0} (a b : Option A) → or_else a b ≡ none ↔ ((a ≡ none) × (b ≡ none))
or_else-none none b = (λ e. (refl, e), λ e. e.1)
or_else-none (some x) b = (λ e. cc, λ e. cc)

module _ {I F Q : Type 0} (c : Calls I F Q) (k : Checks F Q) (config : ValidationConfig F) where
  -- On finite prices `<` and `>=` are those of the ranks.
  pub record IsOrder : Type 0 where
    pub less_lem :
        (a b : F)
        → k.is_finite a ≡ true
        → k.is_finite b ≡ true
        → k.less a b ≡ ltb (c.rank a) (c.rank b)
    pub at_least_lem :
        (a b : F)
        → k.is_finite a ≡ true
        → k.is_finite b ≡ true
        → k.at_least a b ≡ not (ltb (c.rank a) (c.rank b))

  abbrev pub IsValid : PriceLevel F Q → Type 0
  IsValid l =
      (k.is_finite l.price ≡ true)
      × (k.less l.price config.min_price ≡ false)
      × (k.less config.max_price l.price ≡ false)
      × (k.is_negative l.quantity ≡ false)

  abbrev pub AreValid : List (PriceLevel F Q) → Type 0
  AreValid [] = Unit {0}
  AreValid (l ∷ ls) = IsValid l × AreValid ls

  -- Each side that has levels has enough, and a side may be empty only where that is allowed.
  abbrev pub Sized : List (PriceLevel F Q) → List (PriceLevel F Q) → Type 0
  Sized bids asks =
      (0 < length bids → config.min_levels_per_side ≤ length bids)
      × (0 < length asks → config.min_levels_per_side ≤ length asks)
      × (length bids ≡ 0 → config.allow_empty_side ≡ true)
      × (length asks ≡ 0 → config.allow_empty_side ≡ true)
      × (length bids + length asks ≡ 0 → config.min_levels_per_side ≡ 0)

  -- All levels are below a rank.
  abbrev pub AllBelow : ℕ → List (PriceLevel F Q) → Type 0
  AllBelow n [] = Unit {0}
  AllBelow n (l ∷ ls) = (key c l < n) × AllBelow n ls

  -- Every bid is below every ask.
  abbrev pub Uncrossed : List (PriceLevel F Q) → List (PriceLevel F Q) → Type 0
  Uncrossed bids [] = Unit {0}
  Uncrossed bids (a ∷ asks) = AllBelow (key c a) bids × Uncrossed bids asks

  abbrev pub Accepts : List (PriceLevel F Q) → List (PriceLevel F Q) → Type 0
  Accepts bids asks =
      AreValid bids
      × AreValid asks
      × Sized bids asks
      × (config.allow_crossed ≡ false → Uncrossed bids asks)
      × (config.allow_duplicates ≡ false → Apart c bids × Apart c asks)

  pub validate_levels-AreValid :
      (i : ℕ) (ls : List (PriceLevel F Q)) → validate_levels c k config i ls ≡ none → AreValid ls
  unfolding validate_levels
  validate_levels-AreValid i [] e = tt
  validate_levels-AreValid i (l ∷ ls) e = ground (arith, validate_levels-AreValid (i + 1) ls)

  pub AreValid-validate_levels :
      (i : ℕ) (ls : List (PriceLevel F Q)) → AreValid ls → validate_levels c k config i ls ≡ none
  unfolding validate_levels
  AreValid-validate_levels i [] h = refl
  AreValid-validate_levels i (l ∷ ls) h = ground (arith, AreValid-validate_levels (i + 1) ls)

  pub check_sizes_lem :
      (bids asks : List (PriceLevel F Q))
      → check_sizes c k config bids asks ≡ none ↔ Sized bids asks
  check_sizes_lem [] [] = (λ e. ground arith, λ e. ground arith)
  check_sizes_lem [] (a ∷ asks) = (λ e. ground arith, λ e. ground arith)
  check_sizes_lem (b ∷ bids) [] = (λ e. ground arith, λ e. ground arith)
  check_sizes_lem (b ∷ bids) (a ∷ asks) = (λ e. ground arith, λ e. ground arith)
