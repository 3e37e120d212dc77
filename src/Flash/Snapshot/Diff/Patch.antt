-- ===== src/Flash/Snapshot/Diff/Patch.antt =====
-- The differences of two snapshots make the new one of the old.
use ai_systems_verification.Base.{
  ℕ, ◌≡◌, refl, inl, inr, Bool, true, false, ◌||◌, List, [], ◌∷◌, Option, none, some, if◌then◌else◌,
  ◌==◌, arith, Option-cases,
}
use ai_systems_verification.Flash.Book.{PriceLevel, Calls, key, BookSnapshot}
use ai_systems_verification.Flash.Book.Levels.{get}
use ai_systems_verification.Flash.Book.Sides.{Apart}
use ai_systems_verification.Flash.Snapshot.Diff.{
  LevelChange, lookup, added, modified, removed, diff,
}

module _ {I F Q : Type 0} (c : Calls I F Q) (differs : Q → Q → Bool) where
  -- The quantity at a price, if there is one.
  abbrev pub quantity_of : Option (PriceLevel F Q) → Option Q
  quantity_of none = none
  quantity_of (some l) = some l.quantity

  -- The first change at a price, and whether a price is among those removed.
  pub change_at : ℕ → List (LevelChange F Q) → Option Q
  change_at n [] = none
  change_at n (m ∷ ms) = if c.rank m.price == n then some m.new_quantity else change_at n ms

  pub is_among : ℕ → List F → Bool
  is_among n [] = false
  is_among n (p ∷ ps) = c.rank p == n || is_among n ps

  -- The old quantity at a price, with the differences of a side applied: what is removed is gone, what
  -- is added or modified has its new quantity.
  abbrev pub or_old : Option Q → Option Q → Option Q
  or_old none old = old
  or_old (some q) old = some q

  abbrev pub patched :
      List (PriceLevel F Q) → List (LevelChange F Q) → List F → ℕ → Option Q → Option Q
  patched add modify remove n old =
      if is_among n remove
      then none
      else or_old (quantity_of (get (key c) n add)) (or_old (change_at n modify) old)

  -- Only prices that are not in the old snapshot are added.
  get-added :
      (n : ℕ) (old new : List (PriceLevel F Q))
      → get (key c) n (added c differs old new)
        ≡ elim (lookup c differs n old) [ none ↦ get (key c) n new | some o ↦ none ]
  unfolding get added
  get-added n old [] = elim (Option-cases (lookup c differs n old)) [
    | inl missing ↦ rw missing refl
    | inr (o, here) ↦ rw here refl
  ]
  get-added n old (l ∷ ls) = ground (arith, get-added n old ls)

  is_among-removed :
      (n : ℕ) (old new : List (PriceLevel F Q))
      → is_among n (removed c differs old new) ≡ elim (lookup c differs n new) [
        | none ↦ elim (lookup c differs n old) [ none ↦ false | some o ↦ true ]
        | some m ↦ false
      ]
  unfolding is_among removed lookup
  is_among-removed n [] new = ground arith
  is_among-removed n (l ∷ ls) new = ground (arith, is_among-removed n ls new)

  -- Without duplicates the last level at a price is the first.
  lookup-Apart :
      (n : ℕ) (ls : List (PriceLevel F Q)) → Apart c ls → lookup c differs n ls ≡ get (key c) n ls
  unfolding lookup get
  lookup-Apart n [] h = refl
  lookup-Apart n (l ∷ ls) h = ground (arith, lookup-Apart n ls)

  change_at-modified :
      (n : ℕ) (old new : List (PriceLevel F Q))
      → Apart c new
      → change_at n (modified c differs old new) ≡ elim (lookup c differs n old) [
        | none ↦ none
        | some o ↦ elim (get (key c) n new) [
          | none ↦ none
          | some l ↦ if differs o.quantity l.quantity then some l.quantity else none
        ]
      ]
  unfolding change_at modified get
  change_at-modified n old [] h = ground arith
  change_at-modified n old (l ∷ ls) h = ground (arith, change_at-modified n old ls)

  module _ (same : (a b : Q) → differs a b ≡ false → a ≡ b) where
    side-patched :
        (n : ℕ) (old new : List (PriceLevel F Q))
        → Apart c new
        → patched
            (added c differs old new)
            (modified c differs old new)
            (removed c differs old new)
            n
            (quantity_of (lookup c differs n old))
          ≡ quantity_of (get (key c) n new)
    side-patched n old new h = elim (Option-cases (lookup c differs n old)) [
      | inl missing ↦
          rw
            (
              is_among-removed n old new,
              get-added n old new,
              change_at-modified n old new h,
              lookup-Apart n new h,
              missing,
            )
            (elim (Option-cases (get (key c) n new)) [
              | inl gone ↦ rw (gone, missing) refl
              | inr (l, here) ↦ rw here refl
            ])
      | inr (o, there) ↦
          rw
            (
              is_among-removed n old new,
              get-added n old new,
              change_at-modified n old new h,
              lookup-Apart n new h,
              there,
            )
            (elim (Option-cases (get (key c) n new)) [
              | inl gone ↦ rw (gone, there) refl
              | inr (l, here) ↦ rw here (ground (arith, same o.quantity l.quantity))
            ])
    ]

    -- Where unequal decimals differ and the new snapshot has no price twice on a side: on each side the
    -- differences make the new quantity at a price of the old one, or of none, whichever price it is.
    pub diff-patched :
        (n : ℕ) (old new : BookSnapshot I F Q)
        → Apart c new.bids
        → Apart c new.asks
        → let d = diff c differs old new in
          (patched d.added_bids d.modified_bids d.removed_bids n
              (quantity_of (lookup c differs n old.bids))
            ≡ quantity_of (get (key c) n new.bids))
          × (patched d.added_asks d.modified_asks d.removed_asks n
                (quantity_of (lookup c differs n old.asks))
              ≡ quantity_of (get (key c) n new.asks))
    unfolding diff
    diff-patched n old new hb ha =
        (side-patched n old.bids new.bids hb, side-patched n old.asks new.asks ha)
