-- ===== src/Flash/Book/Types.antt =====
-- book/orderbook.rs and core: the levels, the book, and what it calls.
use ai_systems_verification.Base.{ℕ, Bool, true, List, Option}
use ai_systems_verification.Flash.Book.Levels.{}

pub data Side : Type 0 where
  bid : Side
  ask : Side

pub record PriceLevel (F Q : Type 0) : Type 0 where
  pub price : F
  pub quantity : Q
  pub order_count : Option ℕ
  pub timestamp : ℕ

pub record OrderBookConfig : Type 0 where
  pub max_depth : ℕ
  pub max_levels : ℕ
  pub auto_prune : Bool

pub default : OrderBookConfig
default = record { max_depth = 50; max_levels = 100; auto_prune = true }

pub record OrderBookStats : Type 0 where
  pub update_count : ℕ
  pub snapshot_count : ℕ
  pub last_update_timestamp : ℕ
  pub bid_levels : ℕ
  pub ask_levels : ℕ

pub record BookSnapshot (I F Q : Type 0) : Type 0 where
  pub instrument : I
  pub timestamp : ℕ
  pub bids : List (PriceLevel F Q)
  pub asks : List (PriceLevel F Q)

-- What `record_flash_internal` is called with.
pub record Internal : Type 0 where
  pub event_type : ℕ
  pub bytes : List ℕ
  pub timestamp : ℕ

-- `event_types::BOOK_SNAPSHOT` and `BOOK_DELTA`.
abbrev pub book_snapshot : ℕ
book_snapshot = 0x0010

abbrev pub book_delta : ℕ
book_delta = 0x0011

pub record OrderBook (I F Q : Type 0) : Type 0 where
  pub instrument : I
  pub config : OrderBookConfig
  pub bids : List (PriceLevel F Q)
  pub asks : List (PriceLevel F Q)
  pub best_bid : Option (PriceLevel F Q)
  pub best_ask : Option (PriceLevel F Q)
  pub stats : OrderBookStats
  pub last_sequence : Option ℕ
  pub total_bid_qty : Q
  pub total_ask_qty : Q
  pub tap_active : Bool
  pub tape : List Internal

-- What the book calls: `OrderedFloat`'s order as a rank, `Decimal`, and `bincode::serialize`.
pub record Calls (I F Q : Type 0) : Type 0 where
  pub rank : F → ℕ
  pub zero_quantity : Q
  pub add : Q → Q → Q
  pub sub : Q → Q → Q
  pub is_positive : Q → Bool
  pub serialize : BookSnapshot I F Q → Option (List ℕ)

module _ {I F Q : Type 0} (c : Calls I F Q) where
  abbrev pub key : PriceLevel F Q → ℕ
  key l = c.rank l.price

  -- One side: its levels and its total quantity.
  abbrev pub OneSide : Type 0
  OneSide = List (PriceLevel F Q) × Q
