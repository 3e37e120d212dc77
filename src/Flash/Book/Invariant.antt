-- ===== src/Flash/Book/Invariant.antt =====
-- What holds of an order book after any operations.
use ai_systems_verification.Base.{ℕ, ◌≡◌, refl, sym, subst, Bool, List, [], ◌∷◌, length}
use ai_systems_verification.Flash.Book.{
  PriceLevel, Calls, OneSide, Side, bid, ask, OrderBook, OrderBookConfig, delta_bids, delta_asks,
  recorded, recorded_tape, loaded, new, apply_snapshot, apply_delta, remove_level, clear,
  set_last_sequence, update_best_bid_cache, update_best_ask_cache, counted, book_snapshot,
  book_delta,
}
use ai_systems_verification.Flash.Book.Levels.{first, last}
use ai_systems_verification.Flash.Book.Sums.{IsExact}
use ai_systems_verification.Flash.Book.Sides.{AreCounts, Apart}
use ai_systems_verification.Flash.Book.KeptSides.{
  IsSide, delta_bids-IsSide, delta_asks-IsSide, load-IsSide, remove-IsSide, empty-IsSide,
}

module _ {I F Q : Type 0} (c : Calls I F Q) where
  -- The sides, the best levels and the counts of levels.
  pub record IsBook (b : OrderBook I F Q) : Type 0 where
    pub bids : IsSide c b.config.max_levels (b.bids, b.total_bid_qty)
    pub asks : IsSide c b.config.max_levels (b.asks, b.total_ask_qty)
    pub best_bid : b.best_bid ≡ last b.bids
    pub best_ask : b.best_ask ≡ first b.asks
    pub bid_levels : b.stats.bid_levels ≡ length b.bids
    pub ask_levels : b.stats.ask_levels ≡ length b.asks

  pub data Op : Type 0 where
    snapshot : List (PriceLevel F Q) → List (PriceLevel F Q) → ℕ → Op
    delta : Side → List (PriceLevel F Q) → ℕ → Op
    removal : Side → F → Op
    cleared : Op
    sequenced : ℕ → Op

  unfoldable pub apply : OrderBook I F Q → Op → OrderBook I F Q
  apply b (snapshot bids asks ts) = apply_snapshot c b bids asks ts
  apply b (delta side levels ts) = apply_delta c b side levels ts
  apply b (removal side price) = (remove_level c b side price).1
  apply b cleared = clear c b
  apply b (sequenced n) = set_last_sequence c b n

  unfoldable pub apply_all : OrderBook I F Q → List Op → OrderBook I F Q
  unfolding apply
  apply_all b [] = b
  apply_all b (o ∷ os) = apply_all (apply b o) os

  -- A snapshot names no price twice on a side, and a delta has no negative quantity.
  abbrev pub IsSound : Op → Type 0
  IsSound (snapshot bids asks ts) = Apart c bids × Apart c asks
  IsSound (delta side levels ts) = AreCounts c levels
  IsSound (removal side price) = Unit {0}
  IsSound cleared = Unit {0}
  IsSound (sequenced n) = Unit {0}

  abbrev pub AreSound : List Op → Type 0
  AreSound [] = Unit {0}
  AreSound (o ∷ os) = IsSound o × AreSound os

module _ {I F Q : Type 0} {c : Calls I F Q} (ex : IsExact c) where
  recorded-IsBook :
      (event ts : ℕ) (b : OrderBook I F Q) → IsBook c b → IsBook c (recorded c event ts b)
  recorded-IsBook event ts b k =
      let (tape, e) = recorded_tape c event ts b in
      subst (IsBook c) (sym e) (record {
        bids = k.bids;
        asks = k.asks;
        best_bid = k.best_bid;
        best_ask = k.best_ask;
        bid_levels = k.bid_levels;
        ask_levels = k.ask_levels;
      })

  pub delta-IsBook :
      (b : OrderBook I F Q) (side : Side) (ls : List (PriceLevel F Q)) (ts : ℕ)
      → AreCounts c ls
      → IsBook c b
      → IsBook c (apply_delta c b side ls ts)
  unfolding apply_delta
  delta-IsBook b bid ls ts counts k =
      let s : OneSide c = delta_bids c b.config ls (b.bids, b.total_bid_qty) in
      recorded-IsBook book_delta ts
        (counted c ts (update_best_bid_cache c (record b { bids = s.0; total_bid_qty = s.1 })))
        (record {
          bids = delta_bids-IsSide ex b.config ls (b.bids, b.total_bid_qty) counts k.bids;
          asks = k.asks;
          best_bid = refl;
          best_ask = k.best_ask;
          bid_levels = refl;
          ask_levels = refl;
        })
  delta-IsBook b ask ls ts counts k =
      let s : OneSide c = delta_asks c b.config ls (b.asks, b.total_ask_qty) in
      recorded-IsBook book_delta ts
        (counted c ts (update_best_ask_cache c (record b { asks = s.0; total_ask_qty = s.1 })))
        (record {
          bids = k.bids;
          asks = delta_asks-IsSide ex b.config ls (b.asks, b.total_ask_qty) counts k.asks;
          best_bid = k.best_bid;
          best_ask = refl;
          bid_levels = refl;
          ask_levels = refl;
        })

  pub snapshot-IsBook :
      (b : OrderBook I F Q) (bids asks : List (PriceLevel F Q)) (ts : ℕ)
      → Apart c bids
      → Apart c asks
      → IsBook c (apply_snapshot c b bids asks ts)
  unfolding apply_snapshot
  snapshot-IsBook b bids asks ts hb ha =
      recorded-IsBook book_snapshot ts (loaded c b bids asks ts) (record {
        bids = load-IsSide ex b.config bids hb;
        asks = load-IsSide ex b.config asks ha;
        best_bid = refl;
        best_ask = refl;
        bid_levels = refl;
        ask_levels = refl;
      })

  removal-IsBook :
      (b : OrderBook I F Q) (side : Side) (price : F)
      → IsBook c b
      → IsBook c (remove_level c b side price).1
  unfolding remove_level
  removal-IsBook b bid price k = record {
    bids = remove-IsSide ex b.config.max_levels (c.rank price) (b.bids, b.total_bid_qty) k.bids;
    asks = k.asks;
    best_bid = refl;
    best_ask = k.best_ask;
    bid_levels = refl;
    ask_levels = refl;
  }
  removal-IsBook b ask price k = record {
    bids = k.bids;
    asks = remove-IsSide ex b.config.max_levels (c.rank price) (b.asks, b.total_ask_qty) k.asks;
    best_bid = k.best_bid;
    best_ask = refl;
    bid_levels = refl;
    ask_levels = refl;
  }

  apply-IsBook :
      (b : OrderBook I F Q) (o : Op c) → IsSound c o → IsBook c b → IsBook c (apply c b o)
  unfolding apply clear set_last_sequence last
  apply-IsBook b (snapshot bids asks ts) h k = snapshot-IsBook b bids asks ts h.0 h.1
  apply-IsBook b (delta side ls ts) h k = delta-IsBook b side ls ts h k
  apply-IsBook b (removal side price) h k = removal-IsBook b side price k
  apply-IsBook b cleared h k = record {
    bids = empty-IsSide ex b.config.max_levels;
    asks = empty-IsSide ex b.config.max_levels;
    best_bid = refl;
    best_ask = refl;
    bid_levels = refl;
    ask_levels = refl;
  }
  apply-IsBook b (sequenced n) h k = record {
    bids = k.bids;
    asks = k.asks;
    best_bid = k.best_bid;
    best_ask = k.best_ask;
    bid_levels = k.bid_levels;
    ask_levels = k.ask_levels;
  }

  apply_all_keep :
      (b : OrderBook I F Q) (os : List (Op c))
      → AreSound c os
      → IsBook c b
      → IsBook c (apply_all c b os)
  unfolding apply_all
  apply_all_keep b [] h k = k
  apply_all_keep b (o ∷ os) (h, hs) k = apply_all_keep (apply c b o) os hs (apply-IsBook b o h k)

  pub new-IsBook :
      (instrument : I) (config : OrderBookConfig) (tap : Bool)
      → IsBook c (new c instrument config tap)
  unfolding new last
  new-IsBook instrument config tap = record {
    bids = empty-IsSide ex config.max_levels;
    asks = empty-IsSide ex config.max_levels;
    best_bid = refl;
    best_ask = refl;
    bid_levels = refl;
    ask_levels = refl;
  }

  -- After any operations on a new book, with exact decimals, snapshots that name no price twice on a
  -- side and deltas without negative quantities: each side is in ascending order of price and holds at
  -- most `max_levels` levels, its total is the sum of its quantities, the best bid is the last of the
  -- bids and the best ask the first of the asks, and the statistics count the levels.
  pub apply_all-IsBook :
      (instrument : I) (config : OrderBookConfig) (tap : Bool) (os : List (Op c))
      → AreSound c os
      → IsBook c (apply_all c (new c instrument config tap) os)
  apply_all-IsBook instrument config tap os h =
      apply_all_keep (new c instrument config tap) os h (new-IsBook instrument config tap)
