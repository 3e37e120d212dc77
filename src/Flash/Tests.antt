-- ===== src/Flash/Tests.antt =====
-- The order manager on small inputs: instruments, prices and quantities are numbers.
use ai_systems_verification.Base.{
  ℕ, ◌+◌, ◌≡◌, refl, true, false, ◌&&◌, List, [], ◌∷◌, none, some, arith, if◌then◌else◌, length,
}
use ai_systems_verification.Flash.Order.{
  pending, active, is_terminal, is_cancellable, OrderRequest, ModifyRequest, user_requested, buy,
  gtc, limit_order,
}
use ai_systems_verification.Base.Assoc.{find, erase, alter}
use ai_systems_verification.Flash.Order.Manager.{
  OrderManager, Calls, count, new, default, submit_order, cancel_order, modify_order, update_status,
  is_pending, get_status,
}
use ai_systems_verification.Flash.Order.Manager.Invariant.{
  apply, Operation, submit, cancel, modify, update, apply_all, IsGood, apply_all-IsGood,
}
use ai_systems_verification.Flash.Order.Manager.Answers.{Serializes, submit_lem, cancel_lem}

abbrev calls : Calls ℕ ℕ ℕ
calls = record { exchange_of = λ i. 0; serialize = λ p. some (1 ∷ 2 ∷ []); zero_quantity = 0 }

calls-Serializes : Serializes calls
calls-Serializes p = (1 ∷ 2 ∷ [], refl)

abbrev request : OrderRequest ℕ ℕ ℕ
request = limit_order 3 buy 50000 1 gtc 10

abbrev change : ModifyRequest ℕ ℕ
change = record { new_price = some 51000; new_quantity = none; timestamp = 11 }

abbrev operations : List (Operation ℕ ℕ ℕ)
operations =
    submit request
    ∷ update 1 active 12
    ∷ modify 1 change
    ∷ submit request
    ∷ cancel 1 user_requested 13
    ∷ []

-- The manager after these: one order is pending.
abbrev manager : OrderManager ℕ ℕ ℕ
manager = apply_all calls (new default true) operations

manager-IsGood : IsGood manager
manager-IsGood = apply_all-IsGood calls default true operations (omega arith)

-- What the operations answer on the way, and what is left.
run_test :
    (is_pending manager 1 ≡ false)
    × (get_status manager 2 ≡ some pending)
    × (length manager.tape ≡ 4)
unfolding find erase alter is_terminal is_cancellable apply new submit_order cancel_order
    modify_order update_status is_pending get_status
run_test = (refl, refl, refl)

apply_all-IsGood_example : IsGood (apply_all calls (new default true) operations)
apply_all-IsGood_example = apply_all-IsGood calls default true operations (omega arith)

submit_lem_example :
    let (id, m') = submit_order calls manager request in
    (is_pending manager id ≡ false)
    × (find id m'.orders
        ≡ some (record {
          request = request;
          status = pending;
          filled_quantity = calls.zero_quantity;
          last_update = request.created_at;
        }))
    × (find 2 m'.orders ≡ find 2 manager.orders)
    × (length m'.tape ≡ length manager.tape + (if manager.tap_active then 1 else 0))
    × (m' ≡ record manager {
      orders = m'.orders;
      tape = m'.tape;
      next_id = count manager.next_id;
      stats = record (manager.stats) {
        orders_submitted = count manager.stats.orders_submitted;
        pending_count = length manager.orders + 1;
      };
    })
unfolding find erase alter is_terminal is_cancellable apply new submit_order cancel_order
    modify_order update_status
submit_lem_example =
    submit_lem calls manager request 2 manager-IsGood calls-Serializes (omega arith)

cancel_lem_example :
    let (done, m') = cancel_order calls manager 2 user_requested 20 in
    (done ≡ is_pending manager 2)
    × (find 2 m'.orders ≡ none)
    × (find 1 m'.orders ≡ find 1 manager.orders)
    × (length m'.tape ≡ length manager.tape + (if done && manager.tap_active then 1 else 0))
    × (m' ≡ (
        if done
        then record manager {
          orders = m'.orders;
          tape = m'.tape;
          stats = record (manager.stats) {
            orders_cancelled = count manager.stats.orders_cancelled;
            pending_count = length m'.orders;
          };
        }
        else manager))
cancel_lem_example =
    cancel_lem calls manager 2 user_requested 20 1 manager-IsGood calls-Serializes (omega arith)
