-- ===== src/Flash/Book/Answers.antt =====
-- What a delta and a snapshot make of the book, price by price.
use ai_systems_verification.Base.{
  ℕ, ◌-◌, ◌≤◌, ◌≡◌, refl, ap, ◌∙◌, subst, Bool, List, [], ◌∷◌, Option, none, some, arith, length,
  take, drop, Option-cases, inl, inr,
}
use mathlib.Core.Option.{none-ne-some}
use ai_systems_verification.Flash.Book.{
  PriceLevel, Calls, key, OneSide, Side, bid, ask, OrderBook, update_all, delta_bids, delta_asks,
  recorded_tape, loaded, apply_snapshot, apply_delta, get_level, update_best_bid_cache,
  update_best_ask_cache, counted, book_snapshot, book_delta,
}
use ai_systems_verification.Flash.Book.Levels.{get, first, last}
use ai_systems_verification.Flash.Book.Levels.Order.{From}
use ai_systems_verification.Flash.Book.Levels.Find.{get-le-last, first-le-get, last-none}
use ai_systems_verification.Flash.Book.Sides.{
  after, named, update_all_order, get-update_all, trim_bids_lem, trim_asks_lem, get-load,
}
use ai_systems_verification.Flash.Book.Invariant.{IsBook}

module _ {I F Q : Type 0} (c : Calls I F Q) where
  -- The levels of one side that a delta has changed, before the worst are taken away: in order, and at
  -- each price the last level that the delta names there, or what there was.
  abbrev pub Changed :
      Bool → List (PriceLevel F Q) → List (PriceLevel F Q) → List (PriceLevel F Q) → Type 0
  Changed prune levels old new =
      From (key c) 0 new
      × ((k : ℕ) → get (key c) k new ≡ after c prune k levels (get (key c) k old))

  update_all-Changed :
      (prune : Bool) (levels : List (PriceLevel F Q)) (s : OneSide c)
      → From (key c) 0 s.0
      → Changed prune levels s.0 (update_all c prune levels s).0
  update_all-Changed prune levels s h =
      (update_all_order c prune levels s h, λ k. get-update_all c prune k levels s h)

  -- A delta on the bids sets, at each price it names, the level that it names there last, or removes it
  -- where its quantity is not positive and the book prunes; of the bids after that it keeps the highest,
  -- as many as the book may have, and it leaves the asks alone. On the asks it does the same, and keeps
  -- the lowest.
  pub apply_delta_lem :
      (b : OrderBook I F Q) (levels : List (PriceLevel F Q)) (timestamp : ℕ)
      → IsBook c b
      → let n = b.config.max_levels in
        let on_bids = apply_delta c b bid levels timestamp in
        let on_asks = apply_delta c b ask levels timestamp in
        ((bids : List (PriceLevel F Q)) × Changed b.config.auto_prune levels b.bids bids
          × (on_bids.bids ≡ drop (length bids - n) bids)
          × (on_bids.asks ≡ b.asks))
        × ((asks : List (PriceLevel F Q)) × Changed b.config.auto_prune levels b.asks asks
            × (on_asks.asks ≡ take n asks)
            × (on_asks.bids ≡ b.bids))
  unfolding apply_delta delta_bids delta_asks
  apply_delta_lem b levels timestamp k =
      let n : ℕ = b.config.max_levels in
      let prune : Bool = b.config.auto_prune in
      let u : OneSide c = update_all c prune levels (b.bids, b.total_bid_qty) in
      let w : OneSide c = update_all c prune levels (b.asks, b.total_ask_qty) in
      let s : OneSide c = delta_bids c b.config levels (b.bids, b.total_bid_qty) in
      let t : OneSide c = delta_asks c b.config levels (b.asks, b.total_ask_qty) in
      let (tape, e) = recorded_tape c book_delta timestamp (
        counted c timestamp
          (update_best_bid_cache c (record b { bids = s.0; total_bid_qty = s.1 }))) in
      let (tape', e') = recorded_tape c book_delta timestamp (
        counted c timestamp
          (update_best_ask_cache c (record b { asks = t.0; total_ask_qty = t.1 }))) in
      (
        (
          u.0,
          update_all-Changed prune levels (b.bids, b.total_bid_qty) k.bids.order,
          ap (λ (b : OrderBook I F Q). b.bids) e ∙ trim_bids_lem c (length u.0) n u (omega arith),
          ap (λ (b : OrderBook I F Q). b.asks) e,
        ),
        (
          w.0,
          update_all-Changed prune levels (b.asks, b.total_ask_qty) k.asks.order,
          ap (λ (b : OrderBook I F Q). b.asks) e' ∙ trim_asks_lem c (length w.0) n w (omega arith),
          ap (λ (b : OrderBook I F Q). b.bids) e',
        ),
      )

  -- A snapshot forgets what the book held: at each price there is the last of the levels that it names
  -- there and that the book keeps, among the first `max_levels` of each side.
  pub apply_snapshot_lem :
      (b : OrderBook I F Q) (bids asks : List (PriceLevel F Q)) (timestamp : ℕ) (price : F)
      → let b' = apply_snapshot c b bids asks timestamp in
        let n = b.config.max_levels in
        (get_level c b' bid price ≡ named c b.config.auto_prune (c.rank price) (take n bids) none)
        × (get_level c b' ask price ≡ named c b.config.auto_prune (c.rank price) (take n asks) none)
  unfolding apply_snapshot get_level get
  apply_snapshot_lem b bids asks timestamp price =
      let (tape, e) = recorded_tape c book_snapshot timestamp (loaded c b bids asks timestamp) in
      let n : ℕ = b.config.max_levels in
      (
        ap (λ (b : OrderBook I F Q). get (key c) (c.rank price) b.bids) e
            ∙ get-load c b.config.auto_prune (c.rank price) (take n bids) ([], c.zero_quantity),
        ap (λ (b : OrderBook I F Q). get (key c) (c.rank price) b.asks) e
            ∙ get-load c b.config.auto_prune (c.rank price) (take n asks) ([], c.zero_quantity),
      )

  abbrev pub best_of : OrderBook I F Q → Side → Option (PriceLevel F Q)
  best_of b bid = b.best_bid
  best_of b ask = b.best_ask

  -- A higher bid and a lower ask are better.
  abbrev pub AtLeast : Side → PriceLevel F Q → PriceLevel F Q → Type 0
  AtLeast bid best l = key c l ≤ key c best
  AtLeast ask best l = key c best ≤ key c l

  get-last :
      (k : ℕ) (xs : List (PriceLevel F Q)) (l : PriceLevel F Q)
      → get (key c) k xs ≡ some l
      → (y : PriceLevel F Q) × (last xs ≡ some y)
  unfolding get
  get-last k xs l here = elim (Option-cases (last xs)) [
    | inl nothing ↦ absurd (
        none-ne-some l
          (subst (λ ys. get (key c) k ys ≡ some l) (last-none (key c) xs nothing) here))
    | inr found ↦ found
  ]

  get-first :
      (k : ℕ) (xs : List (PriceLevel F Q)) (l : PriceLevel F Q)
      → get (key c) k xs ≡ some l
      → (y : PriceLevel F Q) × (first xs ≡ some y)
  unfolding get
  get-first k [] l here = cc
  get-first k (x ∷ xs) l here = (x, refl)

  -- Where a book with the invariant has a level, that side has a best level, and it is at least as good.
  pub best_lem :
      (b : OrderBook I F Q) (side : Side) (price : F) (l : PriceLevel F Q)
      → IsBook c b
      → get_level c b side price ≡ some l
      → (best : PriceLevel F Q) × (best_of b side ≡ some best) × AtLeast side best l
  unfolding get_level
  best_lem b bid price l k here =
      let (y, end) = get-last (c.rank price) b.bids l here in
      (y, k.best_bid ∙ end, get-le-last (key c) (c.rank price) 0 b.bids l y k.bids.order here end)
  best_lem b ask price l k here =
      let (y, front) = get-first (c.rank price) b.asks l here in
      (
        y,
        k.best_ask ∙ front,
        first-le-get (key c) (c.rank price) 0 b.asks l y k.asks.order here front,
      )
