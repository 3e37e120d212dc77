-- ===== src/Flash/Order/Manager/Invariant.antt =====
-- The order manager's invariant, over any sequence of its operations.
use ai_systems_verification.Base.{
  ℕ, suc, ◌+◌, ◌^◌, ◌≤◌, ◌<◌, ◌≡◌, refl, sym, ap, ◌∙◌, Bool, true, false, List, [], ◌∷◌, none,
  arith, Bool-cases, Option-cases, inl, inr, length,
}
use ai_systems_verification.Base.Assoc.{
  find, erase, alter, Distinct, Each, find-erase_same, Distinct-erase, length-erase, Each-erase,
  erase_missing, Each-find, length-alter, Distinct-alter, Each-alter, find-none_above, Each-weaken,
}
use ai_systems_verification.Flash.Order.{
  OrderStatus, pending, submitted, active, partially_filled, filled, cancelled, rejected,
  is_terminal, is_cancellable, OrderRequest, ModifyRequest, CancelReason,
}
use ai_systems_verification.Flash.Order.Manager.{
  OrderManagerConfig, OrderManagerStats, OrderState, OrderManager, Calls, count, may_cancel,
  removes, counted, modified, updated, new, submit_order, cancel_order, modify_order, update_status,
  clear,
}

-- The operations that change the manager.
pub data Operation (I P Q : Type 0) : Type 0 where
  submit : OrderRequest I P Q → Operation I P Q
  cancel : ℕ → CancelReason → ℕ → Operation I P Q
  modify : ℕ → ModifyRequest P Q → Operation I P Q
  update : ℕ → OrderStatus → ℕ → Operation I P Q
  clear_all : Operation I P Q

pub removes_lem : (s : OrderStatus) → removes s ≡ is_terminal s
unfolding is_terminal
removes_lem pending = refl
removes_lem submitted = refl
removes_lem active = refl
removes_lem partially_filled = refl
removes_lem filled = refl
removes_lem cancelled = refl
removes_lem rejected = refl
removes_lem OrderStatus.expired = refl

pub may_cancel_lem : (s : OrderStatus) → is_terminal s ≡ false → may_cancel s ≡ true
unfolding is_terminal is_cancellable
may_cancel_lem s h = ground arith

-- At most one counter moves, by one.
counted_lem :
    (s : OrderStatus) (t : OrderManagerStats)
    → ((counted s t).orders_submitted ≡ t.orders_submitted)
      × ((counted s t).orders_cancelled
            + (counted s t).orders_filled
            + (counted s t).orders_rejected
          ≤ suc (t.orders_cancelled + t.orders_filled + t.orders_rejected))
counted_lem pending t = (refl, omega arith)
counted_lem submitted t = (refl, omega arith)
counted_lem active t = (refl, omega arith)
counted_lem partially_filled t = (refl, omega arith)
counted_lem filled t = (refl, omega arith)
counted_lem cancelled t = (refl, omega arith)
counted_lem rejected t = (refl, omega arith)
counted_lem OrderStatus.expired t = (refl, omega arith)

module _ {I P Q : Type 0} where
  unfoldable pub apply : Calls I P Q → OrderManager I P Q → Operation I P Q → OrderManager I P Q
  apply c m (submit request) = (submit_order c m request).1
  apply c m (cancel id reason timestamp) = (cancel_order c m id reason timestamp).1
  apply c m (modify id change) = (modify_order c m id change).1
  apply c m (update id status timestamp) = update_status m id status timestamp
  apply c m clear_all = clear m

  abbrev pub apply_all :
      Calls I P Q → OrderManager I P Q → List (Operation I P Q) → OrderManager I P Q
  apply_all c m [] = m
  apply_all c m (o ∷ os) = apply_all c (apply c m o) os

  -- What holds of each pending order.
  abbrev pub Live : ℕ → ℕ → OrderState I P Q → Type 0
  Live next id state = (id < next) × (is_terminal state.status ≡ false)

  -- The identifiers are distinct and were given out, no pending order has a terminal status, the
  -- pending count is the number of pending orders, and the next identifier counts the submissions.
  -- The orders that are pending and those counted as cancelled, filled or rejected are no more than
  -- those submitted.
  pub record IsGood (m : OrderManager I P Q) : Type 0 where
    pub distinct : Distinct m.orders
    pub live : Each (Live m.next_id) m.orders
    pub pending_lem : m.stats.pending_count ≡ length m.orders
    pub small : m.next_id < 2 ^ 64
    pub next_lem : m.next_id ≡ suc m.stats.orders_submitted
    pub balance :
        length m.orders + m.stats.orders_cancelled + m.stats.orders_filled + m.stats.orders_rejected
        ≤ m.stats.orders_submitted

  new-IsGood : (config : OrderManagerConfig) (tap : Bool) → IsGood (new config tap)
  unfolding new
  new-IsGood config tap = record {
    distinct = tt;
    live = tt;
    pending_lem = refl;
    small = omega arith;
    next_lem = refl;
    balance = omega arith;
  }

  next_id-submit :
      (c : Calls I P Q) (m : OrderManager I P Q) (request : OrderRequest I P Q)
      → (submit_order c m request).1.next_id ≡ count m.next_id
  unfolding submit_order
  next_id-submit c m request = refl

  next_id-clear : (m : OrderManager I P Q) → (clear m).next_id ≡ m.next_id
  unfolding clear
  next_id-clear m = refl

  submit-IsGood :
      (c : Calls I P Q) (m : OrderManager I P Q) (request : OrderRequest I P Q)
      → m.next_id + 1 < 2 ^ 64
      → IsGood m
      → IsGood (submit_order c m request).1
  unfolding submit_order is_terminal
  submit-IsGood c m request small g =
      let new_id : find m.next_id m.orders ≡ none =
        find-none_above m.next_id m.orders (Each-weaken (λ k v l. l.0) m.orders g.live) in
      let same : erase m.next_id m.orders ≡ m.orders = erase_missing m.next_id m.orders new_id in
      record {
        distinct =
            (find-erase_same m.next_id m.orders, Distinct-erase m.next_id m.orders g.distinct);
        live = (
          (omega arith, refl),
          Each-weaken (λ k v l. (omega (arith, l.0), l.1)) _
              (Each-erase (Live m.next_id) m.next_id m.orders g.live),
        );
        pending_lem = refl;
        small = omega (arith, small);
        next_lem = ap count g.next_lem ∙ omega (arith, g.next_lem);
        balance = omega (arith, ap length same, g.balance, g.next_lem);
      }

  cancel-IsGood :
      (c : Calls I P Q) (m : OrderManager I P Q) (id : ℕ) (reason : CancelReason) (timestamp : ℕ)
      → IsGood m
      → IsGood (cancel_order c m id reason timestamp).1
        × ((cancel_order c m id reason timestamp).1.next_id ≡ m.next_id)
  unfolding cancel_order
  cancel-IsGood c m id reason timestamp g = elim (Option-cases (find id m.orders)) [
    | inl e ↦ rw (e, cancel_order) (g, refl)
    | inr (state, e) ↦
        let l : Live m.next_id id state = Each-find (Live m.next_id) id m.orders state g.live e in
        let fewer : length m.orders ≡ suc (length (erase id m.orders)) =
          length-erase id m.orders state g.distinct e in
        rw (e, may_cancel_lem state.status l.1, cancel_order)
          (
            record {
              distinct = Distinct-erase id m.orders g.distinct;
              live = Each-erase (Live m.next_id) id m.orders g.live;
              pending_lem = refl;
              small = g.small;
              next_lem = g.next_lem;
              balance = omega (arith, fewer, g.balance, g.next_lem, g.small);
            },
            refl,
          )
  ]

  modify-IsGood :
      (c : Calls I P Q) (m : OrderManager I P Q) (id : ℕ) (change : ModifyRequest P Q)
      → IsGood m
      → IsGood (modify_order c m id change).1 × ((modify_order c m id change).1.next_id ≡ m.next_id)
  unfolding modify_order
  modify-IsGood c m id change g = elim (Option-cases (find id m.orders)) [
    | inl e ↦ rw (e, modify_order) (g, refl)
    | inr (state, e) ↦
        let l : Live m.next_id id state = Each-find (Live m.next_id) id m.orders state g.live e in
        let same : length (alter id (modified change) m.orders) ≡ length m.orders =
          length-alter id (modified change) m.orders in
        rw (e, l.1, modify_order)
          (
            record {
              distinct = Distinct-alter id (modified change) m.orders g.distinct;
              live = Each-alter (Live m.next_id) id (modified change) m.orders (λ s a. a) g.live;
              pending_lem = g.pending_lem ∙ sym same;
              small = g.small;
              next_lem = g.next_lem;
              balance = omega (arith, same, g.balance);
            },
            refl,
          )
  ]

  update-IsGood :
      (m : OrderManager I P Q) (id : ℕ) (status : OrderStatus) (timestamp : ℕ)
      → IsGood m
      → IsGood (update_status m id status timestamp)
        × ((update_status m id status timestamp).next_id ≡ m.next_id)
  unfolding update_status
  update-IsGood m id status timestamp g = elim (Option-cases (find id m.orders)) [
    | inl e ↦ rw (e, update_status) (g, refl)
    | inr (state, e) ↦
        let fewer : length m.orders ≡ suc (length (erase id m.orders)) =
          length-erase id m.orders state g.distinct e in
        let same : length (alter id (updated status timestamp) m.orders) ≡ length m.orders =
          length-alter id (updated status timestamp) m.orders in
        elim (Bool-cases (removes status)) [
          | inl gone ↦
              rw (e, gone, update_status)
                (
                  record {
                    distinct = Distinct-erase id m.orders g.distinct;
                    live = Each-erase (Live m.next_id) id m.orders g.live;
                    pending_lem = refl;
                    small = g.small;
                    next_lem = g.next_lem ∙ ap suc (sym (counted_lem status m.stats).0);
                    balance = omega (
                      arith,
                      fewer,
                      g.balance,
                      (counted_lem status m.stats).0,
                      (counted_lem status m.stats).1,
                    );
                  },
                  refl,
                )
          | inr stays ↦
              rw (e, stays, update_status)
                (
                  record {
                    distinct = Distinct-alter id (updated status timestamp) m.orders g.distinct;
                    live =
                        Each-alter (Live m.next_id) id (updated status timestamp) m.orders
                          (λ s a. (a.0, sym (removes_lem status) ∙ stays)) g.live;
                    pending_lem = g.pending_lem ∙ sym same;
                    small = g.small;
                    next_lem = g.next_lem;
                    balance = omega (arith, same, g.balance);
                  },
                  refl,
                )
        ]
  ]

  clear-IsGood : (m : OrderManager I P Q) → IsGood m → IsGood (clear m)
  unfolding clear
  clear-IsGood m g = record {
    distinct = tt;
    live = tt;
    pending_lem = refl;
    small = g.small;
    next_lem = g.next_lem;
    balance = omega (arith, g.balance);
  }

  -- The number of orders that a sequence of operations submits.
  abbrev pub submissions : List (Operation I P Q) → ℕ
  submissions [] = 0
  submissions (submit request ∷ os) = suc (submissions os)
  submissions (_ ∷ os) = submissions os

  apply_all-keeps :
      (c : Calls I P Q) (m : OrderManager I P Q) (os : List (Operation I P Q))
      → m.next_id + submissions os < 2 ^ 64
      → IsGood m
      → IsGood (apply_all c m os)
  unfolding apply
  apply_all-keeps c m [] small g = g
  apply_all-keeps c m (submit request ∷ os) small g =
      apply_all-keeps c (submit_order c m request).1 os (omega (arith, next_id-submit c m request))
        (submit-IsGood c m request (omega arith) g)
  apply_all-keeps c m (cancel id reason timestamp ∷ os) small g =
      let (g', same) = cancel-IsGood c m id reason timestamp g in
      apply_all-keeps c (cancel_order c m id reason timestamp).1 os (omega arith) g'
  apply_all-keeps c m (modify id change ∷ os) small g =
      let (g', same) = modify-IsGood c m id change g in
      apply_all-keeps c (modify_order c m id change).1 os (omega arith) g'
  apply_all-keeps c m (update id status timestamp ∷ os) small g =
      let (g', same) = update-IsGood m id status timestamp g in
      apply_all-keeps c (update_status m id status timestamp) os (omega arith) g'
  apply_all-keeps c m (clear_all ∷ os) small g =
      apply_all-keeps c (clear m) os (omega (arith, next_id-clear m)) (clear-IsGood m g)

  -- Any sequence of operations on a new manager, with less than 2^64 - 1 submissions, keeps the
  -- invariant.
  pub apply_all-IsGood :
      (c : Calls I P Q) (config : OrderManagerConfig) (tap : Bool) (os : List (Operation I P Q))
      → submissions os + 1 < 2 ^ 64
      → IsGood (apply_all c (new config tap) os)
  unfolding new
  apply_all-IsGood c config tap os small =
      apply_all-keeps c (new config tap) os (omega arith) (new-IsGood config tap)
