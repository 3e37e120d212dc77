-- ===== src/Flash/Book.antt =====
-- book/orderbook.rs, `OrderBook`, with the `blackbox` feature. A price of type `f64`, a decimal
-- quantity and an instrument are type parameters, and what the code computes with them are parameters:
-- the rank of a price in the order of `OrderedFloat`, the arithmetic of `Decimal`, and `bincode`. The
-- tap is whether there is one that is active, and the list of what it was given. Of the configuration
-- there are the fields that the book reads. Mid price, spread and imbalance are left out.
pub mod Types
pub mod Levels
pub mod Loops
pub mod Sums
pub mod Sides
pub mod Totals
pub mod KeptSides
pub mod Invariant
pub mod Answers
pub mod Tests
pub use Types.*
unfoldable pub use Loops.*
use ai_systems_verification.Base.{
  ℕ, zero, suc, ◌+◌, ◌-◌, ◌%◌, ◌^◌, Bool, true, false, not, ◌&&◌, ◌||◌, List, [], ◌∷◌, ◌++◌, Option,
  none, some, if◌then◌else◌, ltb, ◌==◌, length, take, ◌≡◌, refl, ◌∙◌, if_true, if_false, inl, inr,
  Bool-cases,
}
use mathlib.Core.List.{reverse}
use ai_systems_verification.Flash.Book.Levels.{
  get, insert, remove, first, last, without_first, without_last,
}

module _ {I F Q : Type 0} (c : Calls I F Q) where
  -- `new`, or with an active tap `with_tap`.
  pub new : I → OrderBookConfig → Bool → OrderBook I F Q
  new instrument config tap_active = record {
    instrument = instrument;
    config = config;
    bids = [];
    asks = [];
    best_bid = none;
    best_ask = none;
    stats = record {
      update_count = 0;
      snapshot_count = 0;
      last_update_timestamp = 0;
      bid_levels = 0;
      ask_levels = 0;
    };
    last_sequence = none;
    total_bid_qty = c.zero_quantity;
    total_ask_qty = c.zero_quantity;
    tap_active = tap_active;
    tape = [];
  }

  pub top_bids : OrderBook I F Q → ℕ → List (PriceLevel F Q)
  top_bids b n = take n (reverse b.bids)

  pub top_asks : OrderBook I F Q → ℕ → List (PriceLevel F Q)
  top_asks b n = take n b.asks

  pub to_snapshot : OrderBook I F Q → ℕ → BookSnapshot I F Q
  unfolding top_bids top_asks
  to_snapshot b depth = record {
    instrument = b.instrument;
    timestamp = b.stats.last_update_timestamp;
    bids = top_bids b depth;
    asks = top_asks b depth;
  }

  abbrev pub given : ℕ → ℕ → OrderBook I F Q → Option (List ℕ) → OrderBook I F Q
  given event_type timestamp b none = b
  given event_type timestamp b (some bytes) = record b {
    tape = b.tape ++ record { event_type = event_type; bytes = bytes; timestamp = timestamp } ∷ [];
  }

  -- The end of `apply_snapshot` and of `apply_delta`: the state goes to an active tap.
  abbrev pub recorded : ℕ → ℕ → OrderBook I F Q → OrderBook I F Q
  recorded event_type timestamp b =
      if b.tap_active
      then given event_type timestamp b (c.serialize (to_snapshot b b.config.max_depth))
      else b

  given_tape :
      (event ts : ℕ) (b : OrderBook I F Q) (bytes : Option (List ℕ))
      → (tape : List Internal) × (given event ts b bytes ≡ record b { tape = tape })
  given_tape event ts b none = (b.tape, refl)
  given_tape event ts b (some bytes) = (_, refl)

  -- What goes to the tap changes nothing else.
  pub recorded_tape :
      (event ts : ℕ) (b : OrderBook I F Q)
      → (tape : List Internal) × (recorded event ts b ≡ record b { tape = tape })
  recorded_tape event ts b = elim (Bool-cases b.tap_active) [
    | inr off ↦ (b.tape, if_false off _ _)
    | inl on ↦
        let (tape, e) = given_tape event ts b (c.serialize (to_snapshot b b.config.max_depth)) in
        (tape, if_true on _ _ ∙ e)
  ]

  -- `update_best_bid_cache` and `update_best_ask_cache`.
  abbrev pub update_best_bid_cache : OrderBook I F Q → OrderBook I F Q
  update_best_bid_cache b = record b { best_bid = last b.bids }

  abbrev pub update_best_ask_cache : OrderBook I F Q → OrderBook I F Q
  update_best_ask_cache b = record b { best_ask = first b.asks }

  -- A snapshot, before it goes to the tap.
  abbrev pub loaded :
      OrderBook I F Q → List (PriceLevel F Q) → List (PriceLevel F Q) → ℕ → OrderBook I F Q
  loaded b bids asks timestamp =
      let n = b.config.max_levels in
      let (new_bids, total_bid) = load c b.config.auto_prune (take n bids) ([], c.zero_quantity) in
      let (new_asks, total_ask) = load c b.config.auto_prune (take n asks) ([], c.zero_quantity) in
      record b {
        bids = new_bids;
        asks = new_asks;
        total_bid_qty = total_bid;
        total_ask_qty = total_ask;
        best_bid = last new_bids;
        best_ask = first new_asks;
        stats = record (b.stats) {
          snapshot_count = (b.stats.snapshot_count + 1) % 2 ^ 64;
          last_update_timestamp = timestamp;
          bid_levels = length new_bids;
          ask_levels = length new_asks;
        };
      }

  unfoldable pub apply_snapshot :
      OrderBook I F Q → List (PriceLevel F Q) → List (PriceLevel F Q) → ℕ → OrderBook I F Q
  unfolding load to_snapshot
  apply_snapshot b bids asks timestamp =
      recorded book_snapshot timestamp (loaded b bids asks timestamp)

  -- `from_snapshot`.
  pub from_snapshot :
      I → OrderBookConfig → List (PriceLevel F Q) → List (PriceLevel F Q) → ℕ → OrderBook I F Q
  unfolding apply_snapshot new
  from_snapshot instrument config bids asks timestamp =
      apply_snapshot (new instrument config false) bids asks timestamp

  -- A delta on one side; as many rounds as there are levels are enough.
  unfoldable pub delta_bids : OrderBookConfig → List (PriceLevel F Q) → OneSide c → OneSide c
  unfolding update_all trim_bids
  delta_bids config levels side =
      let updated = update_all c config.auto_prune levels side in
      trim_bids c (length updated.0) config.max_levels updated

  unfoldable pub delta_asks : OrderBookConfig → List (PriceLevel F Q) → OneSide c → OneSide c
  unfolding update_all trim_asks
  delta_asks config levels side =
      let updated = update_all c config.auto_prune levels side in
      trim_asks c (length updated.0) config.max_levels updated

  abbrev pub counted : ℕ → OrderBook I F Q → OrderBook I F Q
  counted timestamp b = record b {
    stats = record (b.stats) {
      update_count = (b.stats.update_count + 1) % 2 ^ 64;
      last_update_timestamp = timestamp;
      bid_levels = length b.bids;
      ask_levels = length b.asks;
    };
  }

  pub apply_delta : OrderBook I F Q → Side → List (PriceLevel F Q) → ℕ → OrderBook I F Q
  unfolding delta_bids delta_asks to_snapshot
  apply_delta b bid levels timestamp =
      let (bids, total) = delta_bids b.config levels (b.bids, b.total_bid_qty) in
      recorded book_delta timestamp (
        counted timestamp (update_best_bid_cache (record b { bids = bids; total_bid_qty = total })))
  apply_delta b ask levels timestamp =
      let (asks, total) = delta_asks b.config levels (b.asks, b.total_ask_qty) in
      recorded book_delta timestamp (
        counted timestamp (update_best_ask_cache (record b { asks = asks; total_ask_qty = total })))

  pub update_level : OrderBook I F Q → Side → PriceLevel F Q → OrderBook I F Q
  unfolding apply_delta
  update_level b side level = apply_delta b side (level ∷ []) level.timestamp

  -- The end of `remove_level`.
  abbrev pub resized : OrderBook I F Q → OrderBook I F Q
  resized b = record b {
    stats = record (b.stats) { bid_levels = length b.bids; ask_levels = length b.asks };
  }

  pub remove_level : OrderBook I F Q → Side → F → Option (PriceLevel F Q) × OrderBook I F Q
  remove_level b bid price =
      let removed = get (key c) (c.rank price) b.bids in
      (
        removed,
        resized (
            update_best_bid_cache (record b {
              bids = remove (key c) (c.rank price) b.bids;
              total_bid_qty = without c removed b.total_bid_qty;
            })),
      )
  remove_level b ask price =
      let removed = get (key c) (c.rank price) b.asks in
      (
        removed,
        resized (
            update_best_ask_cache (record b {
              asks = remove (key c) (c.rank price) b.asks;
              total_ask_qty = without c removed b.total_ask_qty;
            })),
      )

  pub clear : OrderBook I F Q → OrderBook I F Q
  clear b = record b {
    bids = [];
    asks = [];
    best_bid = none;
    best_ask = none;
    total_bid_qty = c.zero_quantity;
    total_ask_qty = c.zero_quantity;
    stats = record (b.stats) { bid_levels = 0; ask_levels = 0 };
  }

  pub get_level : OrderBook I F Q → Side → F → Option (PriceLevel F Q)
  get_level b bid price = get (key c) (c.rank price) b.bids
  get_level b ask price = get (key c) (c.rank price) b.asks

  pub set_last_sequence : OrderBook I F Q → ℕ → OrderBook I F Q
  set_last_sequence b sequence = record b { last_sequence = some sequence }

  pub is_empty : OrderBook I F Q → Bool
  is_empty b = length b.bids == 0 && length b.asks == 0
