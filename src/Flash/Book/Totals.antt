-- ===== src/Flash/Book/Totals.antt =====
-- The total of a side is the sum of its quantities.
use ai_systems_verification.Base.{
  ℕ, zero, suc, ◌≡◌, refl, sym, ap, ◌∙◌, subst, Bool, false, not, ◌||◌, List, [], ◌∷◌, none, arith,
  if_true, if_false, ltb, length, take, inl, inr, Bool-cases,
}
use ai_systems_verification.Flash.Book.{
  PriceLevel, Calls, key, without, OneSide, load, update_one, update_all, trim_bids, trim_asks,
}
use ai_systems_verification.Flash.Book.Levels.{
  get, insert, remove, first, last, without_first, without_last,
}
use ai_systems_verification.Flash.Book.Levels.Order.{From, From-insert}
use ai_systems_verification.Flash.Book.Levels.Find.{get-insert, remove_missing}
use ai_systems_verification.Flash.Book.Sums.{
  IsExact, sum, sum-insert, without-sum, without-first, without-last,
}
use ai_systems_verification.Flash.Book.Sides.{AreCounts, Apart, update_one_order}

module _ {I F Q : Type 0} {c : Calls I F Q} (ex : IsExact c) where
  abbrev pub Adds : OneSide c → Type 0
  Adds (levels, total) = total ≡ sum c levels

  update_one-Adds :
      (prune : Bool) (l : PriceLevel F Q) (s : OneSide c)
      → From (key c) 0 s.0
      → (c.is_positive l.quantity ≡ false → l.quantity ≡ c.zero_quantity)
      → Adds s
      → Adds (update_one c prune l s)
  update_one-Adds prune l (xs, t) h count adds =
      let less : without c (get (key c) (key c l) xs) t ≡ sum c (remove (key c) (key c l) xs) =
        ap (without c (get (key c) (key c l) xs)) adds ∙ without-sum ex (key c l) xs in
      let more : sum c (insert (key c) l xs)
          ≡ c.add (sum c (remove (key c) (key c l) xs)) l.quantity =
        sum-insert ex 0 l xs h in
      elim (Bool-cases (c.is_positive l.quantity)) [
        | inl positive ↦ rw positive (ap (λ (q : Q). c.add q l.quantity) less ∙ sym more)
        | inr zero_q ↦ elim (Bool-cases prune) [
          | inl on ↦ rw (zero_q, on) less
          | inr off ↦
              rw (zero_q, off)
                (less
                  ∙ sym (ex.add_zero (sum c (remove (key c) (key c l) xs)))
                  ∙ ap (c.add (sum c (remove (key c) (key c l) xs))) (sym (count zero_q))
                  ∙ sym more)
        ]
      ]

  pub update_all-Adds :
      (prune : Bool) (ls : List (PriceLevel F Q)) (s : OneSide c)
      → From (key c) 0 s.0
      → AreCounts c ls
      → Adds s
      → Adds (update_all c prune ls s)
  unfolding update_all
  update_all-Adds prune [] s h counts adds = adds
  update_all-Adds prune (l ∷ ls) s h (count, counts) adds =
      update_all-Adds prune ls (update_one c prune l s) (update_one_order c prune l s h) counts
        (update_one-Adds prune l s h count adds)

  pub trim_bids-Adds : (rounds n : ℕ) (s : OneSide c) → Adds s → Adds (trim_bids c rounds n s)
  unfolding trim_bids
  trim_bids-Adds zero n s adds = adds
  trim_bids-Adds (suc rounds) n (xs, t) adds = elim (Bool-cases (ltb n (length xs))) [
    | inl more ↦ rw more (
        trim_bids-Adds rounds n (without_first xs, without c (first xs) t)
          (ap (without c (first xs)) adds ∙ without-first ex xs))
    | inr fits ↦ rw fits adds
  ]

  pub trim_asks-Adds : (rounds n : ℕ) (s : OneSide c) → Adds s → Adds (trim_asks c rounds n s)
  unfolding trim_asks
  trim_asks-Adds zero n s adds = adds
  trim_asks-Adds (suc rounds) n (xs, t) adds = elim (Bool-cases (ltb n (length xs))) [
    | inl more ↦ rw more (
        trim_asks-Adds rounds n (without_last xs, without c (last xs) t)
          (ap (without c (last xs)) adds ∙ without-last ex xs))
    | inr fits ↦ rw fits adds
  ]

  -- No level of the list is at a price of the side.
  abbrev Fresh : List (PriceLevel F Q) → List (PriceLevel F Q) → Type 0
  Fresh [] xs = Unit {0}
  Fresh (l ∷ ls) xs = (get (key c) (key c l) xs ≡ none) × Fresh ls xs

  Fresh-insert :
      (l : PriceLevel F Q) (ls xs : List (PriceLevel F Q))
      → get (key c) (key c l) ls ≡ none
      → Fresh ls xs
      → Fresh ls (insert (key c) l xs)
  unfolding get
  Fresh-insert l [] xs apart fresh = tt
  Fresh-insert l (m ∷ ms) xs apart fresh =
      ground (arith, Fresh-insert l ms xs, get-insert (key c) (key c m) l xs)

  load-Adds :
      (prune : Bool) (ls : List (PriceLevel F Q)) (s : OneSide c)
      → From (key c) 0 s.0
      → Apart c ls
      → Fresh ls s.0
      → Adds s
      → Adds (load c prune ls s)
  unfolding load
  load-Adds prune [] s h apart fresh adds = adds
  load-Adds prune (l ∷ ls) (xs, t) h (apart, aparts) (new, fresh) adds =
      elim (Bool-cases (c.is_positive l.quantity || not prune)) [
        | inl kept ↦
            subst (λ (s : OneSide c). Adds (load c prune ls s)) (sym (if_true kept _ _))
              (load-Adds prune ls (insert (key c) l xs, c.add t l.quantity)
                (From-insert (key c) 0 l xs (omega arith) h) aparts
                (Fresh-insert l ls xs apart fresh)
                (ap (λ (q : Q). c.add q l.quantity)
                    (adds ∙ ap (sum c) (sym (remove_missing (key c) (key c l) xs new)))
                  ∙ sym (sum-insert ex 0 l xs h)))
        | inr dropped ↦
            subst (λ (s : OneSide c). Adds (load c prune ls s)) (sym (if_false dropped _ _))
              (load-Adds prune ls (xs, t) h aparts fresh adds)
      ]

  Fresh-empty : (ls : List (PriceLevel F Q)) → Fresh ls []
  unfolding get
  Fresh-empty [] = tt
  Fresh-empty (l ∷ ls) = (refl, Fresh-empty ls)

  get-take :
      (k n : ℕ) (ls : List (PriceLevel F Q))
      → get (key c) k ls ≡ none
      → get (key c) k (take n ls) ≡ none
  unfolding get
  get-take k zero ls h = refl
  get-take k (suc n) [] h = refl
  get-take k (suc n) (l ∷ ls) h = ground (arith, get-take k n ls)

  Apart-take : (n : ℕ) (ls : List (PriceLevel F Q)) → Apart c ls → Apart c (take n ls)
  Apart-take zero ls h = tt
  Apart-take (suc n) [] h = tt
  Apart-take (suc n) (l ∷ ls) (h, hs) = (get-take (key c l) n ls h, Apart-take n ls hs)

  -- The total of a snapshot of different prices.
  pub snapshot-Adds :
      (prune : Bool) (n : ℕ) (ls : List (PriceLevel F Q))
      → Apart c ls
      → Adds (load c prune (take n ls) ([], c.zero_quantity))
  snapshot-Adds prune n ls apart =
      load-Adds prune (take n ls) ([], c.zero_quantity) tt (Apart-take n ls apart)
        (Fresh-empty (take n ls)) refl
