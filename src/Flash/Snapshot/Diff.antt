-- ===== src/Flash/Snapshot/Diff.antt =====
-- book/snapshot.rs, `SnapshotProcessor::diff`. A map from prices to levels, made by `collect`, is the list
-- that it is made of, of which the last level at a price counts. The flags of the result, whether the best
-- prices and the spread changed, are a record of their own, made with the comparison and the difference
-- of floating-point numbers as arguments.
pub mod Patch
use ai_systems_verification.Base.{
  ℕ, ◌+◌, Bool, true, false, not, ◌&&◌, List, [], ◌∷◌, Option, none, some, if◌then◌else◌, ◌==◌,
  length,
}
use ai_systems_verification.Flash.Book.{PriceLevel, Calls, key, BookSnapshot}
use ai_systems_verification.Flash.Snapshot.Validator.{is_empty}

pub record LevelChange (F Q : Type 0) : Type 0 where
  pub price : F
  pub old_quantity : Q
  pub new_quantity : Q

pub record SnapshotDiff (F Q : Type 0) : Type 0 where
  pub added_bids : List (PriceLevel F Q)
  pub removed_bids : List F
  pub modified_bids : List (LevelChange F Q)
  pub added_asks : List (PriceLevel F Q)
  pub removed_asks : List F
  pub modified_asks : List (LevelChange F Q)

-- The flags of `SnapshotDiff`.
pub record BestChanges : Type 0 where
  pub best_bid_changed : Bool
  pub best_ask_changed : Bool
  pub spread_changed : Bool

module _ {F : Type 0} where
  -- `!=` of two options.
  abbrev option_differs : (F → F → Bool) → Option F → Option F → Bool
  option_differs ne none none = false
  option_differs ne none (some y) = true
  option_differs ne (some x) none = true
  option_differs ne (some x) (some y) = ne x y

  abbrev spread_of : (F → F → F) → Option F → Option F → Option F
  spread_of minus (some bid) (some ask) = some (minus ask bid)
  spread_of minus _ _ = none

  abbrev first_price : {Q : Type 0} → List (PriceLevel F Q) → Option F
  first_price [] = none
  first_price (l ∷ ls) = some l.price

  pub best_changes :
      {I Q : Type 0}
      → (F → F → Bool)
      → (F → F → F)
      → BookSnapshot I F Q
      → BookSnapshot I F Q
      → BestChanges
  best_changes ne minus old new = record {
    best_bid_changed = option_differs ne (first_price old.bids) (first_price new.bids);
    best_ask_changed = option_differs ne (first_price old.asks) (first_price new.asks);
    spread_changed =
        option_differs ne (spread_of minus (first_price old.bids) (first_price old.asks))
          (spread_of minus (first_price new.bids) (first_price new.asks));
  }

-- `differs` is `!=` of two decimals.
module _ {I F Q : Type 0} (c : Calls I F Q) (differs : Q → Q → Bool) where
  pub quantity_delta : LevelChange F Q → Q
  quantity_delta change = c.sub change.new_quantity change.old_quantity

  -- A lookup in the map of a side.
  unfoldable pub lookup : ℕ → List (PriceLevel F Q) → Option (PriceLevel F Q)
  lookup n [] = none
  lookup n (l ∷ ls) = elim (lookup n ls) [
    | none ↦ if key c l == n then some l else none
    | some m ↦ some m
  ]

  -- The two loops over one side: the levels that were added, those that were modified, and the prices
  -- that were removed.
  unfoldable pub added : List (PriceLevel F Q) → List (PriceLevel F Q) → List (PriceLevel F Q)
  added old [] = []
  added old (l ∷ ls) = elim (lookup (key c l) old) [
    | none ↦ l ∷ added old ls
    | some o ↦ added old ls
  ]

  unfoldable pub modified : List (PriceLevel F Q) → List (PriceLevel F Q) → List (LevelChange F Q)
  modified old [] = []
  modified old (l ∷ ls) =
      let rest = modified old ls in
      elim (lookup (key c l) old) [
        | none ↦ rest
        | some o ↦
            if differs o.quantity l.quantity
            then record { price = l.price; old_quantity = o.quantity; new_quantity = l.quantity }
              ∷ rest
            else rest
      ]

  unfoldable pub removed : List (PriceLevel F Q) → List (PriceLevel F Q) → List F
  removed [] new = []
  removed (l ∷ ls) new = elim (lookup (key c l) new) [
    | none ↦ l.price ∷ removed ls new
    | some m ↦ removed ls new
  ]

  pub diff : BookSnapshot I F Q → BookSnapshot I F Q → SnapshotDiff F Q
  unfolding added modified removed
  diff old new = record {
    added_bids = added old.bids new.bids;
    removed_bids = removed old.bids new.bids;
    modified_bids = modified old.bids new.bids;
    added_asks = added old.asks new.asks;
    removed_asks = removed old.asks new.asks;
    modified_asks = modified old.asks new.asks;
  }

  abbrev pub total_bid_changes : SnapshotDiff F Q → ℕ
  total_bid_changes d = length d.added_bids + length d.removed_bids + length d.modified_bids

  abbrev pub total_ask_changes : SnapshotDiff F Q → ℕ
  total_ask_changes d = length d.added_asks + length d.removed_asks + length d.modified_asks

  pub total_changes : SnapshotDiff F Q → ℕ
  total_changes d = total_bid_changes d + total_ask_changes d

  pub no_changes : SnapshotDiff F Q → Bool
  no_changes d =
      is_empty d.added_bids
      && is_empty d.removed_bids
      && is_empty d.modified_bids
      && is_empty d.added_asks
      && is_empty d.removed_asks
      && is_empty d.modified_asks
