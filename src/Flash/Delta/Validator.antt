-- ===== src/Flash/Delta/Validator.antt =====
-- book/delta.rs, `DeltaValidator`. The tests of `f64` and of `Decimal` are parameters.
use ai_systems_verification.Base.{
  ℕ, ◌≤◌, ◌≡◌, refl, ◌↔◌, Bool, true, false, ◌||◌, List, [], ◌∷◌, Option, none, some, arith,
  if◌then◌else◌, ltb, length,
}
use ai_systems_verification.Flash.Book.{PriceLevel}
use ai_systems_verification.Flash.Delta.{
  DeltaUpdate, DeltaError, invalid_price, invalid_quantity, too_many_levels, not_finite,
  below_minimum, above_maximum, level_count,
}

-- `is_finite` is neither NaN nor infinite; `less` is `<` of `f64`.
pub record Checks (F Q : Type 0) : Type 0 where
  pub is_finite : F → Bool
  pub less : F → F → Bool
  pub is_negative : Q → Bool

pub record DeltaValidationConfig (F : Type 0) : Type 0 where
  pub validate_prices : Bool
  pub validate_quantities : Bool
  pub validate_timestamps : Bool
  pub max_price : F
  pub min_price : F
  pub max_levels_per_update : ℕ

module _ {A : Type 0} where
  -- `?` on a check: its error, or what follows.
  abbrev pub or_else : Option A → Option A → Option A
  or_else none rest = rest
  or_else (some e) rest = some e

  -- A check that is made only if it is asked for.
  abbrev pub asked : Bool → Option A → Option A
  asked false check = none
  asked true check = check

module _ {F Q : Type 0} (k : Checks F Q) (config : DeltaValidationConfig F) where
  abbrev pub validate_price : F → Option (DeltaError F)
  validate_price price =
      if k.is_finite price
      then (if k.less price config.min_price
          then some (invalid_price price below_minimum)
          else (if k.less config.max_price price
              then some (invalid_price price above_maximum)
              else none))
      else some (invalid_price price not_finite)

  abbrev pub validate_quantity : Q → Option (DeltaError F)
  validate_quantity quantity = if k.is_negative quantity then some invalid_quantity else none

  -- The loop over the levels.
  unfoldable pub validate_levels : List (PriceLevel F Q) → Option (DeltaError F)
  validate_levels [] = none
  validate_levels (l ∷ ls) =
      or_else
        (or_else (asked config.validate_prices (validate_price l.price))
          (asked config.validate_quantities (validate_quantity l.quantity)))
        (validate_levels ls)

  unfoldable pub validate : DeltaUpdate F Q → Option (DeltaError F)
  validate d =
      if ltb config.max_levels_per_update (level_count d)
      then some (too_many_levels (level_count d) config.max_levels_per_update)
      else (if config.validate_prices || config.validate_quantities
          then validate_levels d.levels
          else none)

  unfoldable pub validate_batch : List (DeltaUpdate F Q) → Option (DeltaError F)
  validate_batch [] = none
  validate_batch (d ∷ ds) = or_else (validate d) (validate_batch ds)

  -- What is promised of a level.
  abbrev pub IsValid : PriceLevel F Q → Type 0
  IsValid l =
      (config.validate_prices ≡ true
        → (k.is_finite l.price ≡ true)
          × (k.less l.price config.min_price ≡ false)
          × (k.less config.max_price l.price ≡ false))
      × (config.validate_quantities ≡ true → k.is_negative l.quantity ≡ false)

  abbrev pub AreValid : List (PriceLevel F Q) → Type 0
  AreValid [] = Unit {0}
  AreValid (l ∷ ls) = IsValid l × AreValid ls

  abbrev pub IsValidUpdate : DeltaUpdate F Q → Type 0
  IsValidUpdate d = (length d.levels ≤ config.max_levels_per_update) × AreValid d.levels

  abbrev pub AreValidUpdates : List (DeltaUpdate F Q) → Type 0
  AreValidUpdates [] = Unit {0}
  AreValidUpdates (d ∷ ds) = IsValidUpdate d × AreValidUpdates ds

  validate_levels-AreValid : (ls : List (PriceLevel F Q)) → validate_levels ls ≡ none → AreValid ls
  unfolding validate_levels
  validate_levels-AreValid [] e = tt
  validate_levels-AreValid (l ∷ ls) e = ground (arith, validate_levels-AreValid ls)

  AreValid-validate_levels : (ls : List (PriceLevel F Q)) → AreValid ls → validate_levels ls ≡ none
  unfolding validate_levels
  AreValid-validate_levels [] h = refl
  AreValid-validate_levels (l ∷ ls) h = ground (arith, AreValid-validate_levels ls)

  unchecked-AreValid :
      (ls : List (PriceLevel F Q))
      → config.validate_prices || config.validate_quantities ≡ false
      → AreValid ls
  unchecked-AreValid [] off = tt
  unchecked-AreValid (l ∷ ls) off = ground (arith, unchecked-AreValid ls)

  pub validate-IsValidUpdate : (d : DeltaUpdate F Q) → validate d ≡ none → IsValidUpdate d
  unfolding validate
  validate-IsValidUpdate d e =
      ground (arith, validate_levels-AreValid d.levels, unchecked-AreValid d.levels)

  pub IsValidUpdate-validate : (d : DeltaUpdate F Q) → IsValidUpdate d → validate d ≡ none
  unfolding validate
  IsValidUpdate-validate d h = ground (arith, AreValid-validate_levels d.levels)

  pub validate_batch-AreValidUpdates :
      (ds : List (DeltaUpdate F Q)) → validate_batch ds ≡ none → AreValidUpdates ds
  unfolding validate_batch
  validate_batch-AreValidUpdates [] e = tt
  validate_batch-AreValidUpdates (d ∷ ds) e =
      ground (arith, validate-IsValidUpdate d, validate_batch-AreValidUpdates ds)

  AreValidUpdates-validate_batch :
      (ds : List (DeltaUpdate F Q)) → AreValidUpdates ds → validate_batch ds ≡ none
  unfolding validate_batch
  AreValidUpdates-validate_batch [] h = refl
  AreValidUpdates-validate_batch (d ∷ ds) h =
      ground (arith, IsValidUpdate-validate d, AreValidUpdates-validate_batch ds)

  -- A batch is accepted exactly if each of its updates has at most `max_levels_per_update` levels and
  -- each level passes the checks that are asked for: its price finite and within the bounds, its
  -- quantity not negative.
  pub validate_batch_lem :
      (ds : List (DeltaUpdate F Q)) → validate_batch ds ≡ none ↔ AreValidUpdates ds
  validate_batch_lem ds = (validate_batch-AreValidUpdates ds, AreValidUpdates-validate_batch ds)
