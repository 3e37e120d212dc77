-- ===== src/Flash/Order/Manager.antt =====
-- order/manager.rs, `OrderManager`, with the `blackbox` feature. The mutexes are held over each
-- operation, so that an operation is one step here. The hash map is a list of pairs with distinct
-- keys. The tap is whether there is one that is active, and the list of what it was given; what
-- `bincode` makes of a payload and the instrument's exchange are parameters.
pub mod Invariant
pub mod Answers
use ai_systems_verification.Base.{
  ℕ, ◌+◌, ◌%◌, ◌^◌, Bool, true, false, not, ◌&&◌, ◌||◌, List, [], ◌∷◌, ◌++◌, Option, none, some,
  if◌then◌else◌, length,
}
use ai_systems_verification.Base.Assoc.{find, erase, put, alter}
use ai_systems_verification.Flash.Order.{
  OrderStatus, pending, submitted, active, partially_filled, filled, cancelled, rejected,
  is_terminal, is_cancellable, OrderRequest, ModifyRequest, CancelReason,
}

pub record OrderManagerConfig : Type 0 where
  pub max_pending_orders : ℕ
  pub track_history : Bool

-- `OrderManagerConfig::default` and `with_max_pending`.
pub default : OrderManagerConfig
default = record { max_pending_orders = 1000; track_history = false }

pub with_max_pending : ℕ → OrderManagerConfig
unfolding default
with_max_pending max_pending = record default { max_pending_orders = max_pending }

pub record OrderManagerStats : Type 0 where
  pub orders_submitted : ℕ
  pub orders_cancelled : ℕ
  pub orders_modified : ℕ
  pub orders_filled : ℕ
  pub orders_rejected : ℕ
  pub pending_count : ℕ

pub record OrderState (I P Q : Type 0) : Type 0 where
  pub request : OrderRequest I P Q
  pub status : OrderStatus
  pub filled_quantity : Q
  pub last_update : ℕ

-- The payloads that go to the tap: `SubmitPayload`, `CancelPayload` and `ModifyPayload`.
pub data Payload (I P Q : Type 0) : Type 0 where
  submit_payload : ℕ → OrderRequest I P Q → Payload I P Q
  cancel_payload : ℕ → CancelReason → ℕ → Payload I P Q
  modify_payload : ℕ → ModifyRequest P Q → Payload I P Q

-- What `record_flash_egress` is called with: the exchange, the bytes and the time stamp.
pub record Egress : Type 0 where
  pub exchange : ℕ
  pub bytes : List ℕ
  pub timestamp : ℕ

pub record OrderManager (I P Q : Type 0) : Type 0 where
  pub config : OrderManagerConfig
  pub orders : List (ℕ × OrderState I P Q)
  pub next_id : ℕ
  pub stats : OrderManagerStats
  pub tap_active : Bool
  pub tape : List Egress

-- What the manager calls, and the zero of the quantities.
pub record Calls (I P Q : Type 0) : Type 0 where
  pub exchange_of : I → ℕ
  pub serialize : Payload I P Q → Option (List ℕ)
  pub zero_quantity : Q

-- `stats.… += 1`, a `u64` that wraps.
abbrev pub count : ℕ → ℕ
count n = (n + 1) % 2 ^ 64

-- Whether `cancel_order`'s test lets a status through.
abbrev pub may_cancel : OrderStatus → Bool
may_cancel pending = true
may_cancel status = is_cancellable status

-- What `update_status` does to the counters besides the pending count.
abbrev pub counted : OrderStatus → OrderManagerStats → OrderManagerStats
counted filled s = record s { orders_filled = count s.orders_filled }
counted rejected s = record s { orders_rejected = count s.orders_rejected }
counted _ s = s

-- The statuses whose arms of `update_status` remove the order.
abbrev pub removes : OrderStatus → Bool
removes filled = true
removes rejected = true
removes cancelled = true
removes OrderStatus.expired = true
removes _ = false

module _ {I P Q : Type 0} where
  -- `new`, or with an active tap `with_tap`.
  unfoldable pub new : OrderManagerConfig → Bool → OrderManager I P Q
  new config tap_active = record {
    config = config;
    orders = [];
    next_id = 1;
    stats = record {
      orders_submitted = 0;
      orders_cancelled = 0;
      orders_modified = 0;
      orders_filled = 0;
      orders_rejected = 0;
      pending_count = 0;
    };
    tap_active = tap_active;
    tape = [];
  }

  -- What the tap has been given once an operation has recorded its payload.
  abbrev pub record_egress : Calls I P Q → OrderManager I P Q → I → Payload I P Q → ℕ → List Egress
  record_egress c m instrument payload timestamp =
      if m.tap_active
      then elim (c.serialize payload) [
        | none ↦ m.tape
        | some bytes ↦
            m.tape
            ++ record { exchange = c.exchange_of instrument; bytes = bytes; timestamp = timestamp }
              ∷ []
      ]
      else m.tape

  unfoldable pub submit_order :
      Calls I P Q → OrderManager I P Q → OrderRequest I P Q → ℕ × OrderManager I P Q
  submit_order c m request =
      let order_id = m.next_id in
      let timestamp = request.created_at in
      let tape' =
        record_egress c m request.instrument (submit_payload order_id request) timestamp in
      let state : OrderState I P Q = record {
        request = request;
        status = pending;
        filled_quantity = c.zero_quantity;
        last_update = timestamp;
      } in
      let orders' = put order_id state m.orders in
      (
        order_id,
        record m {
          tape = tape';
          orders = orders';
          next_id = count m.next_id;
          stats = record (m.stats) {
            orders_submitted = count m.stats.orders_submitted;
            pending_count = length orders';
          };
        },
      )

  unfoldable pub cancel_order :
      Calls I P Q → OrderManager I P Q → ℕ → CancelReason → ℕ → Bool × OrderManager I P Q
  cancel_order c m order_id reason timestamp = elim (find order_id m.orders) [
    | none ↦ (false, m)
    | some state ↦
        let tape' =
          record_egress c m state.request.instrument (cancel_payload order_id reason timestamp)
            timestamp in
        let orders' = erase order_id m.orders in
        if may_cancel state.status
        then (
          true,
          record m {
            tape = tape';
            orders = orders';
            stats = record (m.stats) {
              orders_cancelled = count m.stats.orders_cancelled;
              pending_count = length orders';
            };
          },
        )
        else (false, m)
  ]

  -- The fields that a modification sets.
  abbrev pub modified : ModifyRequest P Q → OrderState I P Q → OrderState I P Q
  modified change state = record state {
    request = record (state.request) {
      price = elim change.new_price [ none ↦ state.request.price | some p ↦ some p ];
      quantity = elim change.new_quantity [ none ↦ state.request.quantity | some q ↦ q ];
    };
    last_update = change.timestamp;
  }

  unfoldable pub modify_order :
      Calls I P Q → OrderManager I P Q → ℕ → ModifyRequest P Q → Bool × OrderManager I P Q
  modify_order c m order_id change = elim (find order_id m.orders) [
    | none ↦ (false, m)
    | some state ↦
        let tape' =
          record_egress c m state.request.instrument (modify_payload order_id change)
            change.timestamp in
        if is_terminal state.status then (false, m) else (
          true,
          record m {
            tape = tape';
            orders = alter order_id (modified change) m.orders;
            stats = record (m.stats) { orders_modified = count m.stats.orders_modified };
          },
        )
  ]

  abbrev pub updated : OrderStatus → ℕ → OrderState I P Q → OrderState I P Q
  updated status timestamp state = record state { status = status; last_update = timestamp }

  unfoldable pub update_status : OrderManager I P Q → ℕ → OrderStatus → ℕ → OrderManager I P Q
  update_status m order_id new_status timestamp = elim (find order_id m.orders) [
    | none ↦ m
    | some state ↦
        let orders' = erase order_id m.orders in
        if removes new_status
        then record m {
          orders = orders';
          stats = record (counted new_status m.stats) { pending_count = length orders' };
        }
        else record m { orders = alter order_id (updated new_status timestamp) m.orders }
  ]

  pub pending_count : OrderManager I P Q → ℕ
  pending_count m = length m.orders

  unfoldable pub is_pending : OrderManager I P Q → ℕ → Bool
  is_pending m order_id = elim (find order_id m.orders) [ none ↦ false | some _ ↦ true ]

  unfoldable pub get_status : OrderManager I P Q → ℕ → Option OrderStatus
  get_status m order_id = elim (find order_id m.orders) [ none ↦ none | some s ↦ some s.status ]

  pub clear : OrderManager I P Q → OrderManager I P Q
  clear m = record m { orders = []; stats = record (m.stats) { pending_count = 0 } }
