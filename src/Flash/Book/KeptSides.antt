-- ===== src/Flash/Book/KeptSides.antt =====
-- Each operation keeps a side in order, within its bound, and its total right.
use ai_systems_verification.Base.{
  ℕ, zero, suc, ◌-◌, ◌≤◌, ◌≡◌, refl, sym, ap, ◌∙◌, subst, List, [], ◌∷◌, arith, length, take, drop,
  length-take, length-drop,
}
use ai_systems_verification.Flash.Book.{
  PriceLevel, Calls, key, OneSide, OrderBookConfig, load, update_all, delta_bids, delta_asks,
  without,
}
use ai_systems_verification.Flash.Book.Levels.{get, remove}
use ai_systems_verification.Flash.Book.Levels.Order.{From, From-remove, From-weaken}
use ai_systems_verification.Flash.Book.Levels.Find.{length-remove}
use ai_systems_verification.Flash.Book.Sums.{IsExact, sum, without-sum}
use ai_systems_verification.Flash.Book.Sides.{
  AreCounts, Apart, update_all_order, trim_bids_lem, trim_asks_lem, load_order, length-load,
}
use ai_systems_verification.Flash.Book.Totals.{
  update_all-Adds, trim_bids-Adds, trim_asks-Adds, snapshot-Adds,
}

module _ {I F Q : Type 0} (c : Calls I F Q) where
  -- One side: in ascending order, no longer than allowed, and its total.
  pub record IsSide (n : ℕ) (s : OneSide c) : Type 0 where
    pub order : From (key c) 0 s.0
    pub bound : length s.0 ≤ n
    pub total : s.1 ≡ sum c s.0

module _ {I F Q : Type 0} {c : Calls I F Q} (ex : IsExact c) where
  From-drop : (n : ℕ) (xs : List (PriceLevel F Q)) → From (key c) 0 xs → From (key c) 0 (drop n xs)
  From-drop zero xs h = h
  From-drop (suc n) [] h = tt
  From-drop (suc n) (x ∷ xs) h =
      From-drop n xs (From-weaken (key c) 0 (suc (key c x)) xs (omega arith) h.1)

  From-take :
      (b n : ℕ) (xs : List (PriceLevel F Q)) → From (key c) b xs → From (key c) b (take n xs)
  From-take b zero xs h = tt
  From-take b (suc n) [] h = tt
  From-take b (suc n) (x ∷ xs) h = (h.0, From-take (suc (key c x)) n xs h.1)

  pub delta_bids-IsSide :
      (config : OrderBookConfig) (ls : List (PriceLevel F Q)) (s : OneSide c)
      → AreCounts c ls
      → IsSide c config.max_levels s
      → IsSide c config.max_levels (delta_bids c config ls s)
  unfolding delta_bids
  delta_bids-IsSide config ls s counts k =
      let u : OneSide c = update_all c config.auto_prune ls s in
      let kept = trim_bids_lem c (length u.0) config.max_levels u (omega arith) in
      record {
        order =
            subst (From (key c) 0) (sym kept)
              (From-drop _ u.0 (update_all_order c config.auto_prune ls s k.order));
        bound = omega (arith, ap length kept, length-drop (length u.0 - config.max_levels) u.0);
        total =
            trim_bids-Adds ex (length u.0) config.max_levels u
              (update_all-Adds ex config.auto_prune ls s k.order counts k.total);
      }

  pub delta_asks-IsSide :
      (config : OrderBookConfig) (ls : List (PriceLevel F Q)) (s : OneSide c)
      → AreCounts c ls
      → IsSide c config.max_levels s
      → IsSide c config.max_levels (delta_asks c config ls s)
  unfolding delta_asks
  delta_asks-IsSide config ls s counts k =
      let u : OneSide c = update_all c config.auto_prune ls s in
      let kept = trim_asks_lem c (length u.0) config.max_levels u (omega arith) in
      record {
        order =
            subst (From (key c) 0) (sym kept)
              (From-take 0 _ u.0 (update_all_order c config.auto_prune ls s k.order));
        bound = omega (arith, ap length kept, length-take config.max_levels u.0);
        total =
            trim_asks-Adds ex (length u.0) config.max_levels u
              (update_all-Adds ex config.auto_prune ls s k.order counts k.total);
      }

  pub load-IsSide :
      (config : OrderBookConfig) (ls : List (PriceLevel F Q))
      → Apart c ls
      → IsSide c config.max_levels
          (load c config.auto_prune (take config.max_levels ls) ([], c.zero_quantity))
  load-IsSide config ls apart =
      let taken : List (PriceLevel F Q) = take config.max_levels ls in
      record {
        order = load_order c config.auto_prune taken ([], c.zero_quantity) tt;
        bound = omega (
          arith,
          length-load c config.auto_prune taken ([], c.zero_quantity),
          length-take config.max_levels ls,
        );
        total = snapshot-Adds ex config.auto_prune config.max_levels ls apart;
      }

  pub remove-IsSide :
      (n k : ℕ) (s : OneSide c)
      → IsSide c n s
      → IsSide c n (remove (key c) k s.0, without c (get (key c) k s.0) s.1)
  remove-IsSide n k s h = record {
    order = From-remove (key c) 0 k s.0 h.order;
    bound = omega (arith, h.bound, length-remove (key c) k s.0);
    total = ap (without c (get (key c) k s.0)) h.total ∙ without-sum ex k s.0;
  }

  pub empty-IsSide : (n : ℕ) → IsSide c n ([], c.zero_quantity)
  empty-IsSide n = record { order = tt; bound = omega arith; total = refl }
