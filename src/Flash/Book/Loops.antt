-- ===== src/Flash/Book/Loops.antt =====
-- book/orderbook.rs: the loops of `apply_snapshot` and `apply_delta` over one side.
use ai_systems_verification.Base.{
  ℕ, zero, suc, Bool, not, ◌||◌, List, [], ◌∷◌, Option, none, some, if◌then◌else◌, ltb, length,
}
use ai_systems_verification.Flash.Book.Levels.{
  get, insert, remove, first, last, without_first, without_last,
}
use ai_systems_verification.Flash.Book.Types.{PriceLevel, Calls, key, OneSide}

module _ {I F Q : Type 0} (c : Calls I F Q) where
  -- The body and the loop of a snapshot over one side.
  abbrev pub load_level : Bool → PriceLevel F Q → OneSide c → OneSide c
  load_level auto_prune l (levels, total) =
      if c.is_positive l.quantity || not auto_prune
      then (insert (key c) l levels, c.add total l.quantity)
      else (levels, total)

  unfoldable pub load : Bool → List (PriceLevel F Q) → OneSide c → OneSide c
  load auto_prune [] side = side
  load auto_prune (l ∷ ls) side = load auto_prune ls (load_level auto_prune l side)

  -- The total without the quantity of a level, if there is one.
  abbrev pub without : Option (PriceLevel F Q) → Q → Q
  without none total = total
  without (some old) total = c.sub total old.quantity

  -- The body and the loop of a delta.
  abbrev pub update_one : Bool → PriceLevel F Q → OneSide c → OneSide c
  update_one auto_prune l (levels, total) =
      let less = without (get (key c) (key c l) levels) total in
      if c.is_positive l.quantity
      then (insert (key c) l levels, c.add less l.quantity)
      else (if auto_prune
          then (remove (key c) (key c l) levels, less)
          else (insert (key c) l levels, less))

  unfoldable pub update_all : Bool → List (PriceLevel F Q) → OneSide c → OneSide c
  update_all auto_prune [] side = side
  update_all auto_prune (l ∷ ls) side = update_all auto_prune ls (update_one auto_prune l side)

  -- The loop that takes the worst levels away, at most `rounds` times.
  unfoldable pub trim_bids : ℕ → ℕ → OneSide c → OneSide c
  trim_bids zero max_levels side = side
  trim_bids (suc rounds) max_levels (levels, total) =
      let rest = trim_bids rounds max_levels (without_first levels, without (first levels) total) in
      if ltb max_levels (length levels) then rest else (levels, total)

  unfoldable pub trim_asks : ℕ → ℕ → OneSide c → OneSide c
  trim_asks zero max_levels side = side
  trim_asks (suc rounds) max_levels (levels, total) =
      let rest = trim_asks rounds max_levels (without_last levels, without (last levels) total) in
      if ltb max_levels (length levels) then rest else (levels, total)
