-- ===== src/Flash/Order/Manager/Answers.antt =====
-- What the order manager's operations answer, and what they do to each order and to the tap.
use ai_systems_verification.Base.{
  ℕ, ◌+◌, ◌≡◌, ◌≢◌, refl, sym, ap, ◌∙◌, false, ◌&&◌, List, Option, none, some, arith, if◌then◌else◌,
  Bool-cases, Option-cases, inl, inr, length, length-append, ℕ_discrete,
}
use ai_systems_verification.Base.Assoc.{
  find, erase, erase_missing, alter, find-erase_same, find-erase_other, find-alter_same,
  find-alter_other, Each-find, find-none_above, Each-weaken, find-head, find-tail,
}
use ai_systems_verification.Flash.Order.{
  OrderStatus, pending, OrderRequest, ModifyRequest, CancelReason,
}
use ai_systems_verification.Flash.Order.Manager.{
  OrderState, OrderManager, Calls, count, Payload, modified, record_egress, submit_order,
  cancel_order, modify_order, is_pending, get_status, submit_payload, cancel_payload,
  modify_payload,
}
use ai_systems_verification.Flash.Order.Manager.Invariant.{IsGood, Live, may_cancel_lem}

-- Every payload can be serialized.
abbrev pub Serializes : {I P Q : Type 0} → Calls I P Q → Type 0
Serializes {I} {P} {Q} c = (p : Payload I P Q) → (bytes : List ℕ) × (c.serialize p ≡ some bytes)

module _ {I P Q : Type 0} where
  length-record_egress :
      (c : Calls I P Q) (m : OrderManager I P Q) (i : I) (p : Payload I P Q) (timestamp : ℕ)
      → Serializes c
      → length (record_egress c m i p timestamp) ≡ length m.tape + (if m.tap_active then 1 else 0)
  length-record_egress c m i p timestamp total = elim (Bool-cases m.tap_active) [
    | inl on ↦ let (bytes, e) = total p in rw (on, e) (length-append m.tape _)
    | inr off ↦ rw off (omega arith)
  ]

  -- The statuses of a map of orders.
  abbrev status_of : Option (OrderState I P Q) → Option OrderStatus
  status_of o = elim o [ none ↦ none | some s ↦ some s.status ]

  -- On a manager with the invariant, and where payloads can be serialized, a new order gets an
  -- identifier that no pending order has and is pending under it, with nothing filled; every other
  -- order stays as it was in all its fields, and an active tap is given one payload. The counts say one
  -- more submitted order and one more pending one; the rest of the manager stays as it was.
  pub submit_lem :
      (c : Calls I P Q) (m : OrderManager I P Q) (request : OrderRequest I P Q) (other : ℕ)
      → IsGood m
      → Serializes c
      → other ≢ m.next_id
      → let (id, m') = submit_order c m request in
        (is_pending m id ≡ false)
        × (find id m'.orders
            ≡ some (record {
              request = request;
              status = pending;
              filled_quantity = c.zero_quantity;
              last_update = request.created_at;
            }))
        × (find other m'.orders ≡ find other m.orders)
        × (length m'.tape ≡ length m.tape + (if m.tap_active then 1 else 0))
        × (m' ≡ record m {
          orders = m'.orders;
          tape = m'.tape;
          next_id = count m.next_id;
          stats = record (m.stats) {
            orders_submitted = count m.stats.orders_submitted;
            pending_count = length m.orders + 1;
          };
        })
  unfolding submit_order is_pending
  submit_lem c m request other g total ne =
      let new_id : find m.next_id m.orders ≡ none =
        find-none_above m.next_id m.orders (Each-weaken (λ k v l. l.0) m.orders g.live) in
      (
        rw (new_id, is_pending),
        find-head m.next_id _ (erase m.next_id m.orders),
        find-tail other m.next_id _ (erase m.next_id m.orders) (λ e. ne (sym e))
            ∙ find-erase_other other m.next_id m.orders ne,
        length-record_egress c m request.instrument (submit_payload m.next_id request)
            request.created_at total,
        rw (erase_missing m.next_id m.orders new_id) (ground arith),
      )

  -- On a manager with the invariant, and where payloads can be serialized, cancelling succeeds exactly
  -- on a pending order, which is then gone; other orders stay as they were in all their fields. An
  -- active tap is given a payload exactly when it succeeds. A refused call changes nothing at all, and
  -- the other only the orders, the tape, the count of cancelled orders and that of pending ones.
  pub cancel_lem :
      (c : Calls I P Q) (m : OrderManager I P Q) (id : ℕ) (reason : CancelReason)
      (timestamp other : ℕ)
      → IsGood m
      → Serializes c
      → other ≢ id
      → let (done, m') = cancel_order c m id reason timestamp in
        (done ≡ is_pending m id)
        × (find id m'.orders ≡ none)
        × (find other m'.orders ≡ find other m.orders)
        × (length m'.tape ≡ length m.tape + (if done && m.tap_active then 1 else 0))
        × (m' ≡ (
            if done
            then record m {
              orders = m'.orders;
              tape = m'.tape;
              stats = record (m.stats) {
                orders_cancelled = count m.stats.orders_cancelled;
                pending_count = length m'.orders;
              };
            }
            else m))
  unfolding cancel_order is_pending
  cancel_lem c m id reason timestamp other g total ne = elim (Option-cases (find id m.orders)) [
    | inl e ↦ rw (e, cancel_order, is_pending) (refl, e, refl, omega arith, refl)
    | inr (state, e) ↦
        let l : Live m.next_id id state = Each-find (Live m.next_id) id m.orders state g.live e in
        rw (e, may_cancel_lem state.status l.1, cancel_order, is_pending)
          (
            refl,
            find-erase_same id m.orders,
            find-erase_other other id m.orders ne,
            length-record_egress c m state.request.instrument (cancel_payload id reason timestamp)
                timestamp total,
            refl,
          )
  ]

  -- Modifying succeeds exactly on a pending order. It changes no status, of this order or another,
  -- and the tap is given a payload exactly when it succeeds.
  pub modify_lem :
      (c : Calls I P Q) (m : OrderManager I P Q) (id : ℕ) (change : ModifyRequest P Q) (any : ℕ)
      → IsGood m
      → Serializes c
      → let (done, m') = modify_order c m id change in
        (done ≡ is_pending m id)
        × (get_status m' any ≡ get_status m any)
        × (length m'.tape ≡ length m.tape + (if done && m.tap_active then 1 else 0))
  unfolding modify_order is_pending get_status
  modify_lem c m id change any g total = elim (Option-cases (find id m.orders)) [
    | inl e ↦ rw (e, modify_order, is_pending) (refl, refl, omega arith)
    | inr (state, e) ↦
        let l : Live m.next_id id state = Each-find (Live m.next_id) id m.orders state g.live e in
        rw (e, l.1, modify_order, is_pending)
          (
            refl,
            elim (ℕ_discrete any id) [
              | yes same ↦
                  ap status_of (
                    ap (λ (k : ℕ). find k (alter id (modified change) m.orders)) same
                    ∙ find-alter_same id (modified change) m.orders state e)
                  ∙ ap status_of (sym (ap (λ (k : ℕ). find k m.orders) same ∙ e))
              | no ne ↦ ap status_of (find-alter_other any id (modified change) m.orders ne)
            ],
            length-record_egress c m state.request.instrument (modify_payload id change)
                change.timestamp total,
          )
  ]
