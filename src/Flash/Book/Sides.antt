-- ===== src/Flash/Book/Sides.antt =====
-- What a snapshot and a delta make of one side.
use ai_systems_verification.Base.{
  ℕ, zero, suc, ◌+◌, ◌-◌, ◌≤◌, ◌≡◌, refl, sym, ap, ◌∙◌, Bool, false, not, ◌||◌, ◌&&◌, List, [], ◌∷◌,
  Option, none, some, arith, if◌then◌else◌, ◌==◌, lt→ltb, le→ltb_false, length, take, drop, dec_lt,
}
use ai_systems_verification.Flash.Book.{
  PriceLevel, Calls, key, without, OneSide, load_level, load, update_one, update_all, trim_bids,
  trim_asks,
}
use ai_systems_verification.Flash.Book.Levels.{get, last, without_last}
use ai_systems_verification.Flash.Book.Levels.Order.{From, From-insert, From-remove}
use ai_systems_verification.Flash.Book.Levels.Find.{
  get-insert, get-remove_same, get-remove_other, length-insert, length-without_last,
  take-without_last, take_short,
}

module _ {I F Q : Type 0} (c : Calls I F Q) where
  -- No level has a negative quantity.
  abbrev pub AreCounts : List (PriceLevel F Q) → Type 0
  AreCounts [] = Unit {0}
  AreCounts (l ∷ ls) =
      (c.is_positive l.quantity ≡ false → l.quantity ≡ c.zero_quantity) × AreCounts ls

  -- The level that a delta leaves at a price where there was `old`.
  pub after : Bool → ℕ → List (PriceLevel F Q) → Option (PriceLevel F Q) → Option (PriceLevel F Q)
  after auto_prune k [] old = old
  after auto_prune k (l ∷ ls) old = after auto_prune k ls (
      if key c l == k
      then (if c.is_positive l.quantity || not auto_prune then some l else none)
      else old)

  -- The level that a snapshot leaves at a price where there was `old`.
  pub named : Bool → ℕ → List (PriceLevel F Q) → Option (PriceLevel F Q) → Option (PriceLevel F Q)
  named auto_prune k [] old = old
  named auto_prune k (l ∷ ls) old =
      named auto_prune k ls
        (if key c l == k && (c.is_positive l.quantity || not auto_prune) then some l else old)

  pub update_one_order :
      (prune : Bool) (l : PriceLevel F Q) (s : OneSide c)
      → From (key c) 0 s.0
      → From (key c) 0 (update_one c prune l s).0
  update_one_order prune l s h =
      ground (arith, From-insert (key c) 0 l s.0, From-remove (key c) 0 (key c l) s.0)

  pub update_all_order :
      (prune : Bool) (ls : List (PriceLevel F Q)) (s : OneSide c)
      → From (key c) 0 s.0
      → From (key c) 0 (update_all c prune ls s).0
  unfolding update_all
  update_all_order prune [] s h = h
  update_all_order prune (l ∷ ls) s h =
      update_all_order prune ls (update_one c prune l s) (update_one_order prune l s h)

  get-update_one :
      (prune : Bool) (k : ℕ) (l : PriceLevel F Q) (s : OneSide c)
      → From (key c) 0 s.0
      → get (key c) k (update_one c prune l s).0 ≡ (
          if key c l == k
          then (if c.is_positive l.quantity || not prune then some l else none)
          else get (key c) k s.0)
  get-update_one prune k l s h = ground (
    arith,
    get-insert (key c) k l s.0,
    get-remove_same (key c) k 0 s.0,
    get-remove_other (key c) k (key c l) s.0,
  )

  pub get-update_all :
      (prune : Bool) (k : ℕ) (ls : List (PriceLevel F Q)) (s : OneSide c)
      → From (key c) 0 s.0
      → get (key c) k (update_all c prune ls s).0 ≡ after prune k ls (get (key c) k s.0)
  unfolding update_all after
  get-update_all prune k [] s h = refl
  get-update_all prune k (l ∷ ls) s h =
      get-update_all prune k ls (update_one c prune l s) (update_one_order prune l s h)
      ∙ ap (after prune k ls) (get-update_one prune k l s h)

  pub trim_bids_lem :
      (rounds n : ℕ) (s : OneSide c)
      → length s.0 ≤ rounds
      → (trim_bids c rounds n s).0 ≡ drop (length s.0 - n) s.0
  unfolding trim_bids
  trim_bids_lem zero n (xs, t) h = let e : length xs - n ≡ 0 = omega arith in rw e refl
  trim_bids_lem (suc rounds) n ([], t) h =
      let e : 0 - n ≡ 0 = omega arith in rw (e, le→ltb_false n 0 (omega arith)) refl
  trim_bids_lem (suc rounds) n (x ∷ xs, t) h = elim (dec_lt n (suc (length xs))) [
    | yes more ↦
        let e : suc (length xs) - n ≡ suc (length xs - n) = omega arith in
        rw (e, lt→ltb n (suc (length xs)) more)
          (trim_bids_lem rounds n (xs, c.sub t x.quantity) (omega arith))
    | no fits ↦
        let e : suc (length xs) - n ≡ 0 = omega arith in
        rw (e, le→ltb_false n (suc (length xs)) (omega arith)) refl
  ]

  pub trim_asks_lem :
      (rounds n : ℕ) (s : OneSide c) → length s.0 ≤ rounds → (trim_asks c rounds n s).0 ≡ take n s.0
  unfolding trim_asks
  trim_asks_lem zero n (xs, t) h = sym (take_short n xs (omega arith))
  trim_asks_lem (suc rounds) n (xs, t) h = elim (dec_lt n (length xs)) [
    | yes more ↦ rw (lt→ltb n (length xs) more) (
        trim_asks_lem rounds n (without_last xs, without c (last xs) t)
          (omega (arith, length-without_last xs))
        ∙ take-without_last n xs more)
    | no fits ↦ rw (le→ltb_false n (length xs) (omega arith)) (sym (take_short n xs (omega arith)))
  ]

  -- The prices of a snapshot differ from one another.
  abbrev pub Apart : List (PriceLevel F Q) → Type 0
  Apart [] = Unit {0}
  Apart (l ∷ ls) = (get (key c) (key c l) ls ≡ none) × Apart ls

  pub load_order :
      (prune : Bool) (ls : List (PriceLevel F Q)) (s : OneSide c)
      → From (key c) 0 s.0
      → From (key c) 0 (load c prune ls s).0
  unfolding load
  load_order prune [] s h = h
  load_order prune (l ∷ ls) s h =
      load_order prune ls (load_level c prune l s) (ground (arith, From-insert (key c) 0 l s.0))

  pub length-load :
      (prune : Bool) (ls : List (PriceLevel F Q)) (s : OneSide c)
      → length (load c prune ls s).0 ≤ length s.0 + length ls
  unfolding load
  length-load prune [] s = omega arith
  length-load prune (l ∷ ls) s =
      ground (arith, length-load prune ls (load_level c prune l s), length-insert (key c) l s.0)

  -- What a snapshot holds at a price: the last level that is named there, if it is kept.
  pub get-load :
      (prune : Bool) (k : ℕ) (ls : List (PriceLevel F Q)) (s : OneSide c)
      → get (key c) k (load c prune ls s).0 ≡ named prune k ls (get (key c) k s.0)
  unfolding load named
  get-load prune k [] s = refl
  get-load prune k (l ∷ ls) s =
      get-load prune k ls (load_level c prune l s)
      ∙ ap (named prune k ls) (ground (arith, get-insert (key c) k l s.0))
