-- ===== src/Flash/Order.antt =====
-- order/types.rs: the types of orders. An `f64` price, a decimal quantity and an instrument are type
-- parameters, since the code only stores and copies them; a text is its bytes.
pub mod Manager
pub mod Requests
use ai_systems_verification.Base.{ℕ, Bool, true, false, List, Option, none, some}

pub data OrderSide : Type 0 where
  buy : OrderSide
  sell : OrderSide

pub opposite : OrderSide → OrderSide
opposite buy = sell
opposite sell = buy

pub data OrderType : Type 0 where
  market : OrderType
  limit : OrderType
  stop_limit : OrderType
  stop_market : OrderType

pub requires_price : OrderType → Bool
requires_price market = false
requires_price stop_market = false
requires_price limit = true
requires_price stop_limit = true

pub requires_stop_price : OrderType → Bool
requires_stop_price market = false
requires_stop_price limit = false
requires_stop_price stop_limit = true
requires_stop_price stop_market = true

pub data TimeInForce : Type 0 where
  gtc : TimeInForce
  ioc : TimeInForce
  fok : TimeInForce
  gtd : TimeInForce
  post_only : TimeInForce

pub data OrderStatus : Type 0 where
  pending : OrderStatus
  submitted : OrderStatus
  active : OrderStatus
  partially_filled : OrderStatus
  filled : OrderStatus
  cancelled : OrderStatus
  rejected : OrderStatus
  expired : OrderStatus

unfoldable pub is_terminal : OrderStatus → Bool
is_terminal pending = false
is_terminal submitted = false
is_terminal active = false
is_terminal partially_filled = false
is_terminal filled = true
is_terminal cancelled = true
is_terminal rejected = true
is_terminal expired = true

unfoldable pub is_cancellable : OrderStatus → Bool
is_cancellable pending = false
is_cancellable submitted = true
is_cancellable active = true
is_cancellable partially_filled = true
is_cancellable filled = false
is_cancellable cancelled = false
is_cancellable rejected = false
is_cancellable expired = false

pub data CancelReason : Type 0 where
  user_requested : CancelReason
  expired : CancelReason
  insufficient_funds : CancelReason
  post_only_would_take : CancelReason
  reduce_only_would_increase : CancelReason
  self_trade_prevention : CancelReason
  disconnect : CancelReason
  system_shutdown : CancelReason
  risk_limit : CancelReason
  other : List ℕ → CancelReason

-- `I` is the instrument's type, `P` the price's and `Q` the quantity's.
pub record OrderRequest (I P Q : Type 0) : Type 0 where
  pub instrument : I
  pub side : OrderSide
  pub order_type : OrderType
  pub quantity : Q
  pub price : Option P
  pub stop_price : Option P
  pub time_in_force : TimeInForce
  pub client_order_id : Option (List ℕ)
  pub reduce_only : Bool
  pub post_only : Bool
  pub created_at : ℕ

pub record ModifyRequest (P Q : Type 0) : Type 0 where
  pub new_price : Option P
  pub new_quantity : Option Q
  pub timestamp : ℕ

module _ {I P Q : Type 0} where
  -- `OrderRequest::market`, `limit` and `stop_limit`.
  pub market_order : I → OrderSide → Q → ℕ → OrderRequest I P Q
  market_order instrument side quantity timestamp = record {
    instrument = instrument;
    side = side;
    order_type = market;
    quantity = quantity;
    price = none;
    stop_price = none;
    time_in_force = ioc;
    client_order_id = none;
    reduce_only = false;
    post_only = false;
    created_at = timestamp;
  }

  pub limit_order : I → OrderSide → P → Q → TimeInForce → ℕ → OrderRequest I P Q
  limit_order instrument side price quantity time_in_force timestamp = record {
    instrument = instrument;
    side = side;
    order_type = limit;
    quantity = quantity;
    price = some price;
    stop_price = none;
    time_in_force = time_in_force;
    client_order_id = none;
    reduce_only = false;
    post_only = false;
    created_at = timestamp;
  }

  pub stop_limit_order : I → OrderSide → P → P → Q → ℕ → OrderRequest I P Q
  stop_limit_order instrument side stop_price limit_price quantity timestamp = record {
    instrument = instrument;
    side = side;
    order_type = stop_limit;
    quantity = quantity;
    price = some limit_price;
    stop_price = some stop_price;
    time_in_force = gtc;
    client_order_id = none;
    reduce_only = false;
    post_only = false;
    created_at = timestamp;
  }

  -- `with_client_id`, `reduce_only` and `post_only`.
  pub with_client_id : OrderRequest I P Q → List ℕ → OrderRequest I P Q
  with_client_id r client_id = record r { client_order_id = some client_id }

  pub reducing : OrderRequest I P Q → OrderRequest I P Q
  reducing r = record r { reduce_only = true }

  pub posting : OrderRequest I P Q → OrderRequest I P Q
  posting r = record r { post_only = true }

-- `ModifyRequest::price`, `quantity` and `price_and_quantity`.
module _ {P Q : Type 0} where
  pub price_change : P → ℕ → ModifyRequest P Q
  price_change new_price timestamp = record {
    new_price = some new_price;
    new_quantity = none;
    timestamp = timestamp;
  }

  pub quantity_change : Q → ℕ → ModifyRequest P Q
  quantity_change new_quantity timestamp = record {
    new_price = none;
    new_quantity = some new_quantity;
    timestamp = timestamp;
  }

  pub price_and_quantity_change : P → Q → ℕ → ModifyRequest P Q
  price_and_quantity_change new_price new_quantity timestamp = record {
    new_price = some new_price;
    new_quantity = some new_quantity;
    timestamp = timestamp;
  }
