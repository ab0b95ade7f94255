-- ===== src/Examples/Intake.antt =====
-- The theorems on the API at the sample databases.
use workato_take_home.Prelude.{◌≡◌, refl, none, some, [], ◌∷◌}
use workato_take_home.Common.StateMachine.{is_terminal_order_state}
use workato_take_home.Store.Table.{find, exists_where, update_where, select_where}
use workato_take_home.Store.Changes.{SameOrder}
use workato_take_home.Store.Constraints.{violates_unique_key}
use workato_take_home.Store.Schema.{Order}
use workato_take_home.Api.OrderStore.{conflict, create_or_get_order, cancel_order}
use workato_take_home.Api.TaskStore.{retried, reset_failed, retry_failed_tasks_for_order}
use workato_take_home.System.Later.{at_once, after}
use workato_take_home.System.Requests.{create_or_get_order-conflict}
use workato_take_home.Api.Cancellation.{
  Cancelled, cancel_order-Cancelled, RetryOutcome, retry_failed_tasks_for_order-RetryOutcome,
}
use workato_take_home.System.Transactions.{cancellation, empty_db, execute}
use workato_take_home.Examples.Samples.{placed_db, cancelled_db, failed_db, failed_check, placed_1}

create_or_get_order-conflict_example :
    (p : Order) × SameOrder placed_1 p
    × (create_or_get_order
          (record { order = 21; event = 22; task = 23 })
          60
          "key"
          "other"
          none
          cancelled_db
        ≡ (cancelled_db, conflict p))
unfolding execute exists_where create_or_get_order
create_or_get_order-conflict_example =
    create_or_get_order-conflict (record { order = 1; event = 2; task = 3 })
      (record { order = 21; event = 22; task = 23 }) 10 60 "key" "restaurant" "other" none none
      empty_db placed_db cancelled_db placed_1 refl (after (cancellation 9 1 50) at_once)
      (λ e. absurd (cc))

cancel_order-Cancelled_example :
    (p : Order) × Cancelled 1 50 placed_1 p placed_db (cancel_order 9 1 50 placed_db).0
    × ((cancel_order 9 1 50 placed_db).1 ≡ some p)
unfolding execute exists_where find is_terminal_order_state
cancel_order-Cancelled_example = cancel_order-Cancelled 9 1 50 placed_db placed_1 refl refl

retry_failed_tasks_for_order-RetryOutcome_example :
    RetryOutcome 1 50 failed_db
      (retry_failed_tasks_for_order (λ k. k) 1 50 failed_db).0
      (retry_failed_tasks_for_order (λ k. k) 1 50 failed_db).1
retry_failed_tasks_for_order-RetryOutcome_example =
    retry_failed_tasks_for_order-RetryOutcome (λ k. k) 1 50 failed_db

-- The retry of the failed readiness check is effective.
retry_effective :
    (retry_failed_tasks_for_order (λ k. k) 1 50 failed_db).1 ≡ retried (failed_check ∷ [])
unfolding retry_failed_tasks_for_order reset_failed find update_where select_where
    violates_unique_key exists_where
retry_effective = refl
