-- ===== src/System/Changes.antt =====
-- How the transactions of all services change the table of orders.
use workato_take_home.Prelude.{
  ◌≡◌, sym, subst, String, Bool, Option, none, some, List, ◌∷◌, Bool-cases, Option-cases, inl, inr,
  string_eq,
}
use workato_take_home.Common.StateMachine.{confirmed, is_terminal_order_state}
use workato_take_home.Common.TaskTypes.{advance_state}
use workato_take_home.Store.Table.{exists_where, update_by_id, update_where}
use workato_take_home.Store.Constraints.{active_duplicate, violates_unique_key}
use workato_take_home.Store.Schema.{Uuid, Time, Order, Db}
use workato_take_home.Store.Changes.{SameOrder}
use workato_take_home.Store.Query.{order_id_of, find_order, find_task}
use workato_take_home.Worker.Claim.{candidate, claim_one_task}
use workato_take_home.Worker.Commit.{advanced-Stepped}
use workato_take_home.Worker.Dispatch.{handler_of}
use workato_take_home.Worker.Finalize.{committed}
use workato_take_home.Api.OrderStore.{
  FreshOrder, placed_order, find_by_key, insert_order, create_or_get_order, cancel_found,
  cancel_order,
}
use workato_take_home.Api.TaskStore.{
  failed_task_of, reopened, reset_failed, retry_failed_tasks_for_order,
}
use workato_take_home.Api.Cancellation.{cancelled_order-CancelledRow}
use workato_take_home.System.Effect.{Effect, unchanged, put_back, dropped, commits}
use workato_take_home.System.Transactions.{
  Transaction, intake, cancellation, recovery, claim, before_call, after_call, execute, before_task,
  after_task,
}
use workato_take_home.System.Invariant.Reachable.{before-Effect, after-Effect, handler-Fits, own}

-- How a transaction changes the table of orders.
pub data Change (orders : List Order) : List Order → Type 0 where
  same : Change orders orders
  updates :
      (k : Uuid) (guard : Order → Bool) (f : Order → Order)
      → ((o : Order) → SameOrder o (f o))
      → Change orders (update_by_id order_id_of k guard f orders)
  inserts : (o : Order) → find_by_key o.idempotency_key orders ≡ none → Change orders (o ∷ orders)

module _ (db : Db) where
  abbrev Changed : Db → Type 0
  Changed db' = Change db.orders db'.orders

  Effect-Change : (w : String) (key : Option Uuid) (db' : Db) → Effect w key db db' → Changed db'
  unfolding committed
  Effect-Change w key db' (unchanged e) = subst Changed (sym e) same
  Effect-Change w key db' (put_back t f there q e) = subst Changed (sym e) same
  Effect-Change w key db' (dropped t o aim now there order fits ne e) = subst Changed (sym e) same
  Effect-Change w key db'
        (commits settings spec courier fresh now row d l c there order owned from aim e) =
      subst Changed (sym e) (
        updates row.task.order_id _ _
          (λ o. (advanced-Stepped spec.target_state now courier o).rest))

  insert_order-Change :
      (fresh : FreshOrder) (o : Order) (now : Time)
      → find_by_key o.idempotency_key db.orders ≡ none
      → Changed (insert_order fresh o now db).0
  unfolding insert_order
  insert_order-Change fresh o now unused =
      elim (Bool-cases
        (exists_where (active_duplicate fresh.order advance_state confirmed) db.tasks)) [
          | inl dup ↦ rw dup same
          | inr fine ↦ rw fine (inserts o unused)
        ]

  intake-Change :
      (fresh : FreshOrder) (now : Time) (key restaurant : String) (customer : Option String)
      → Changed (create_or_get_order fresh now key restaurant customer db).0
  unfolding create_or_get_order
  intake-Change fresh now key restaurant customer =
      elim (Option-cases (find_by_key key db.orders)) [
        | inl e ↦
            rw (e, create_or_get_order)
              (insert_order-Change fresh (placed_order fresh.order key restaurant customer now) now
                e)
        | inr (p, e) ↦ rw (e, create_or_get_order) same
      ]

  cancel_found-Change :
      (event order : Uuid) (now : Time) (p : Option Order)
      → Changed (cancel_found event order now p db).0
  unfolding cancel_found
  cancel_found-Change event order now none = same
  cancel_found-Change event order now (some p) =
      elim (Bool-cases (is_terminal_order_state p.state)) [
        | inl end ↦ rw end same
        | inr on ↦ rw on (updates order _ _ (λ o. (cancelled_order-CancelledRow now o).rest))
      ]

  cancel-Change : (event order : Uuid) (now : Time) → Changed (cancel_order event order now db).0
  unfolding cancel_order
  cancel-Change event order now = cancel_found-Change event order now (find_order order db)

  retry-Change :
      (fresh : Uuid → Uuid) (order : Uuid) (now : Time)
      → Changed (retry_failed_tasks_for_order fresh order now db).0
  unfolding retry_failed_tasks_for_order
  retry-Change fresh order now = elim (Option-cases (find_order order db)) [
    | inl e ↦ rw (e, reset_failed) same
    | inr (p, e) ↦
        elim (Bool-cases
          (violates_unique_key (update_where (failed_task_of order) (reopened now) db.tasks))) [
            | inl bad ↦ rw (e, reset_failed) (rw bad same)
            | inr good ↦ rw (e, reset_failed) (rw good same)
          ]
  ]

  claim-Change :
      (locked : Uuid → Bool) (w : String) (now : Time) → Changed (claim_one_task locked w now db).0
  unfolding claim_one_task
  claim-Change locked w now = elim (Option-cases (candidate locked now db.tasks)) [
    | inl e ↦ rw (e, claim_one_task) same
    | inr (t, e) ↦ rw (e, claim_one_task) same
  ]

  pub execute-Change : (tx : Transaction) → Changed (execute tx db)
  unfolding execute
  execute-Change (intake fresh now key restaurant customer) =
      intake-Change fresh now key restaurant customer
  execute-Change (cancellation event order now) = cancel-Change event order now
  execute-Change (recovery fresh order now) = retry-Change fresh order now
  execute-Change (claim locked w now) = claim-Change locked w now
  execute-Change (before_call r id w) = elim (Option-cases (find_task id db)) [
    | inl e ↦ rw (e, before_task) same
    | inr (t, e) ↦
        rw (e, before_task)
          (Effect-Change w none _ (
            before-Effect w db r t (own id db t e) (handler_of t.task_type t.target_state)
              (handler-Fits t.task_type t.target_state)))
  ]
  execute-Change (after_call r a id w) = elim (Option-cases (find_task id db)) [
    | inl e ↦ rw (e, after_task) same
    | inr (t, e) ↦
        rw (e, after_task)
          (Effect-Change w (some r.fresh.task) _ (
            after-Effect w db r t (own id db t e) (handler_of t.task_type t.target_state) a
              (handler-Fits t.task_type t.target_state)))
  ]
