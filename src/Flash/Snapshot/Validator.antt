-- ===== src/Flash/Snapshot/Validator.antt =====
-- book/snapshot.rs, `SnapshotValidator`. The set of the prices that were seen is a list of their ranks.
pub mod Valid
pub mod Distinct
pub mod Crossed
pub mod Accepted
use ai_systems_verification.Base.{
  ℕ, ◌+◌, Bool, true, false, not, ◌&&◌, ◌||◌, List, [], ◌∷◌, Option, none, some, if◌then◌else◌, ltb,
  ◌==◌, length,
}
use ai_systems_verification.Flash.Book.{PriceLevel, Calls, key, Side, bid, ask}
use ai_systems_verification.Flash.Delta.{not_finite, below_minimum, above_maximum}
use ai_systems_verification.Flash.Delta.Validator.{or_else}
use ai_systems_verification.Flash.Snapshot.{
  Checks, SnapshotError, invalid_price, invalid_quantity, crossed_book, duplicate_level,
  empty_snapshot, both_empty, side_empty, too_few, ValidationConfig,
}

unfoldable pub contains : ℕ → List ℕ → Bool
contains k [] = false
contains k (x ∷ xs) = x == k || contains k xs

abbrev pub is_empty : {A : Type 0} → List A → Bool
is_empty [] = true
is_empty (x ∷ xs) = false

module _ {I F Q : Type 0} (c : Calls I F Q) (k : Checks F Q) (config : ValidationConfig F) where
  -- The body of the loop over the levels of a side.
  abbrev pub validate_level : ℕ → PriceLevel F Q → Option (SnapshotError F)
  validate_level i l =
      if not (k.is_finite l.price)
      then some (invalid_price l.price i not_finite)
      else (if k.less l.price config.min_price
          then some (invalid_price l.price i below_minimum)
          else (if k.less config.max_price l.price
              then some (invalid_price l.price i above_maximum)
              else (if k.is_negative l.quantity then some (invalid_quantity l.price) else none)))

  -- The loop, from a position on.
  unfoldable pub validate_levels : ℕ → List (PriceLevel F Q) → Option (SnapshotError F)
  validate_levels i [] = none
  validate_levels i (l ∷ ls) = or_else (validate_level i l) (validate_levels (i + 1) ls)

  -- The second and the third check of `validate`: the numbers of levels.
  abbrev pub check_sizes : List (PriceLevel F Q) → List (PriceLevel F Q) → Option (SnapshotError F)
  check_sizes bids asks =
      let need = config.min_levels_per_side in
      if is_empty bids && is_empty asks && (not config.allow_empty_side || ltb 0 need)
      then some (empty_snapshot both_empty)
      else (if not config.allow_empty_side && is_empty bids && not (is_empty asks)
          then some (empty_snapshot (side_empty bid))
          else (if not config.allow_empty_side && is_empty asks && not (is_empty bids)
              then some (empty_snapshot (side_empty ask))
              else (if ltb (length bids) need && not (is_empty bids)
                  then some (empty_snapshot (too_few bid (length bids) need))
                  else (if ltb (length asks) need && not (is_empty asks)
                      then some (empty_snapshot (too_few ask (length asks) need))
                      else none))))

  -- `max_by`, which keeps what it has only if it is greater, and `min_by`, which takes only what is less.
  unfoldable pub highest : PriceLevel F Q → List (PriceLevel F Q) → PriceLevel F Q
  highest best [] = best
  highest best (l ∷ ls) = highest (if k.less l.price best.price then best else l) ls

  unfoldable pub lowest : PriceLevel F Q → List (PriceLevel F Q) → PriceLevel F Q
  lowest best [] = best
  lowest best (l ∷ ls) = lowest (if k.less l.price best.price then l else best) ls

  -- The fourth check of `validate`.
  abbrev pub check_crossed :
      List (PriceLevel F Q) → List (PriceLevel F Q) → Option (SnapshotError F)
  check_crossed [] asks = none
  check_crossed (b ∷ bids) [] = none
  check_crossed (b ∷ bids) (a ∷ asks) =
      let best_bid = (highest b bids).price in
      let best_ask = (lowest a asks).price in
      if not config.allow_crossed && k.at_least best_bid best_ask
      then some (crossed_book best_bid best_ask)
      else none

  -- The loop of `check_duplicates`, with the prices seen so far.
  unfoldable pub check_duplicates : Side → List ℕ → List (PriceLevel F Q) → Option (SnapshotError F)
  unfolding contains
  check_duplicates side seen [] = none
  check_duplicates side seen (l ∷ ls) =
      let rest = check_duplicates side (key c l ∷ seen) ls in
      if contains (key c l) seen then some (duplicate_level l.price side) else rest

  unfoldable pub validate : List (PriceLevel F Q) → List (PriceLevel F Q) → Option (SnapshotError F)
  unfolding validate_levels highest lowest check_duplicates
  validate bids asks = or_else (validate_levels 0 bids) (
      or_else (validate_levels 0 asks) (
        or_else (check_sizes bids asks) (
          or_else (check_crossed bids asks) (
            if config.allow_duplicates
            then none
            else or_else (check_duplicates bid [] bids) (check_duplicates ask [] asks)))))
