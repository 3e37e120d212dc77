-- ===== src/Flash/Order/Requests.antt =====
-- order/types.rs: the requests that the constructors of `OrderRequest` make.
use ai_systems_verification.Base.{ℕ, ◌≡◌, refl, Bool, true, false, Option, none, some}
use ai_systems_verification.Flash.Order.{
  OrderSide, TimeInForce, OrderRequest, requires_price, requires_stop_price, market_order,
  limit_order, stop_limit_order,
}

abbrev pub is_some {ℓ} : {A : Type ℓ} → Option A → Bool
is_some none = false
is_some (some _) = true

-- A request that has the prices that its type requires, and no others.
pub record IsPriced {I P Q : Type 0} (r : OrderRequest I P Q) : Type 0 where
  pub price_lem : is_some r.price ≡ requires_price r.order_type
  pub stop_price_lem : is_some r.stop_price ≡ requires_stop_price r.order_type

-- Each constructor makes a request with the prices that its type requires, and no others.
pub constructors-IsPriced :
    {I P Q : Type 0} (i : I) (side : OrderSide) (stop price : P) (quantity : Q)
    (time_in_force : TimeInForce) (timestamp : ℕ)
    → IsPriced {I = I} {P = P} {Q = Q} (market_order i side quantity timestamp)
      × IsPriced {I = I} {P = P} {Q = Q} (limit_order i side price quantity time_in_force timestamp)
      × IsPriced {I = I} {P = P} {Q = Q} (stop_limit_order i side stop price quantity timestamp)
unfolding market_order limit_order stop_limit_order requires_price requires_stop_price
constructors-IsPriced i side stop price quantity time_in_force timestamp = (
  record { price_lem = refl; stop_price_lem = refl },
  record { price_lem = refl; stop_price_lem = refl },
  record { price_lem = refl; stop_price_lem = refl },
)
