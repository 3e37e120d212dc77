-- ===== src/Flash/Book/Tests.antt =====
-- The order book on small inputs: prices and quantities are numbers.
use ai_systems_verification.Base.{
  ℕ, ◌+◌, ◌-◌, ◌≡◌, refl, true, List, [], ◌∷◌, none, some, arith, ltb, length, take, drop,
}
use ai_systems_verification.Flash.Book.{
  PriceLevel, Calls, bid, ask, OrderBook, OrderBookConfig, new, load, update_all, trim_bids,
  delta_bids, apply_snapshot, apply_delta, remove_level, get_level, to_snapshot, top_bids, top_asks,
}
use ai_systems_verification.Flash.Book.Levels.{get, insert, remove, last}
use ai_systems_verification.Flash.Book.Sums.{IsExact}
use ai_systems_verification.Flash.Book.Invariant.{
  IsBook, Op, snapshot, delta, removal, apply, apply_all, AreSound, apply_all-IsBook,
}
use ai_systems_verification.Flash.Book.Answers.{Changed, apply_delta_lem}

abbrev pub calls : Calls ℕ ℕ ℕ
calls = record {
  rank = λ p. p;
  zero_quantity = 0;
  add = λ a b. a + b;
  sub = λ a b. a - b;
  is_positive = λ q. ltb 0 q;
  serialize = λ s. some (1 ∷ []);
}

pub calls-IsExact : IsExact calls
calls-IsExact = record {
  sub_add = λ a b. omega arith;
  add_swap = λ a b d. omega arith;
  add_zero = λ a. omega arith;
}

abbrev pub level : ℕ → ℕ → PriceLevel ℕ ℕ
level price quantity = record {
  price = price;
  quantity = quantity;
  order_count = none;
  timestamp = 0;
}

abbrev pub two_levels : OrderBookConfig
two_levels = record { max_depth = 5; max_levels = 2; auto_prune = true }

abbrev operations : List (Op calls)
operations =
    snapshot (level 99 5 ∷ level 98 4 ∷ []) (level 101 7 ∷ []) 1
    ∷ delta bid (level 100 3 ∷ level 98 0 ∷ []) 2
    ∷ removal ask 101
    ∷ []

operations-AreSound : AreSound calls operations
unfolding get
operations-AreSound = (((refl, (refl, tt)), (refl, tt)), (((λ e. cc), ((λ e. refl), tt)), (tt, tt)))

-- A book that holds the levels of a snapshot.
abbrev book : OrderBook ℕ ℕ ℕ
book = apply_all calls (new calls 0 two_levels true) operations

book-IsBook : IsBook calls book
book-IsBook = apply_all-IsBook calls-IsExact 0 two_levels true operations operations-AreSound

apply_all-IsBook_example : IsBook calls (apply_all calls (new calls 0 two_levels true) operations)
apply_all-IsBook_example =
    apply_all-IsBook calls-IsExact 0 two_levels true operations operations-AreSound

book_bids : book.bids ≡ level 99 5 ∷ level 100 3 ∷ []
unfolding apply_all apply new apply_snapshot load apply_delta delta_bids update_all trim_bids
    remove_level get insert remove last to_snapshot top_bids top_asks
book_bids = refl

abbrev update : List (PriceLevel ℕ ℕ)
update = level 101 2 ∷ level 100 0 ∷ level 97 1 ∷ []

apply_delta_lem_example :
    let on_bids = apply_delta calls book bid update 4 in
    let on_asks = apply_delta calls book ask update 4 in
    ((bids : List (PriceLevel ℕ ℕ)) × Changed calls true update book.bids bids
      × (on_bids.bids ≡ drop (length bids - 2) bids)
      × (on_bids.asks ≡ book.asks))
    × ((asks : List (PriceLevel ℕ ℕ)) × Changed calls true update book.asks asks
        × (on_asks.asks ≡ take 2 asks)
        × (on_asks.bids ≡ book.bids))
unfolding apply_all apply new apply_snapshot apply_delta remove_level
apply_delta_lem_example = apply_delta_lem calls book update 4 book-IsBook

kept_level : get_level calls book bid 99 ≡ some (level 99 5)
unfolding get_level apply_all apply new apply_snapshot load apply_delta delta_bids update_all
    trim_bids remove_level get insert remove last
kept_level = refl
