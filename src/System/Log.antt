-- ===== src/System/Log.antt =====
-- The audit log over the transactions of all services: no event is lost.
use workato_take_home.Prelude.{
  String, Bool, Option, none, some, map, Bool-cases, Option-cases, inl, inr, subst, sym, nat_eq,
}
use workato_take_home.Common.StateMachine.{OrderState, state_eq, is_terminal_order_state}
use workato_take_home.Common.StateMachine.{confirmed}
use workato_take_home.Common.TaskTypes.{advance_state}
use workato_take_home.Store.Table.{exists_where, update_where, select_where}
use workato_take_home.Store.Constraints.{violates_unique_key, active_duplicate}
use workato_take_home.Store.Schema.{Uuid, Time, Order, Db}
use workato_take_home.Store.Query.{find_order, find_task}
use workato_take_home.Worker.Claim.{candidate, claim_one_task}
use workato_take_home.Worker.Dispatch.{handler_of}
use workato_take_home.Worker.Finalize.{committed}
use workato_take_home.Api.OrderStore.{
  FreshOrder, find_by_key, insert_order, create_or_get_order, cancel_found, cancel_order,
}
use workato_take_home.Api.TaskStore.{
  failed_task_of, reopened, retry_event, reset_failed, retry_failed_tasks_for_order,
}
use workato_take_home.System.Audit.{Logged, Logged-cons, Logged-append}
use workato_take_home.System.Effect.{Effect, unchanged, put_back, dropped, commits}
use workato_take_home.System.Transactions.{
  Transaction, intake, cancellation, recovery, claim, before_call, after_call, execute, before_task,
  after_task,
}
use workato_take_home.System.Invariant.Reachable.{before-Effect, after-Effect, handler-Fits, own}

-- A step that is in the log stays there.
module _ (k : Uuid) (source target : OrderState) (db : Db)
    (logged : Logged db.events k source target) where
  abbrev pub Keeps : Db → Type 0
  Keeps db' = Logged db'.events k source target

  Effect-Keeps : (w : String) (key : Option Uuid) (db' : Db) → Effect w key db db' → Keeps db'
  unfolding committed
  Effect-Keeps w key db' (unchanged e) = subst Keeps (sym e) logged
  Effect-Keeps w key db' (put_back t f there q e) = subst Keeps (sym e) logged
  Effect-Keeps w key db' (dropped t o aim now there order fits ne e) = subst Keeps (sym e) logged
  Effect-Keeps w key db'
        (commits settings spec courier fresh now row d l c there order owned from aim e) =
      subst Keeps (sym e) (Logged-cons k source target _ db.events logged)

  insert_order-Keeps :
      (fresh : FreshOrder) (o : Order) (now : Time) → Keeps (insert_order fresh o now db).0
  unfolding insert_order
  insert_order-Keeps fresh o now =
      elim (Bool-cases
        (exists_where (active_duplicate fresh.order advance_state confirmed) db.tasks)) [
          | inl dup ↦ rw dup logged
          | inr fine ↦ rw fine (Logged-cons k source target _ db.events logged)
        ]

  intake-Keeps :
      (fresh : FreshOrder) (now : Time) (key restaurant : String) (customer : Option String)
      → Keeps (create_or_get_order fresh now key restaurant customer db).0
  unfolding create_or_get_order
  intake-Keeps fresh now key restaurant customer = elim (Option-cases (find_by_key key db.orders)) [
    | inl e ↦ rw (e, create_or_get_order) (insert_order-Keeps fresh _ now)
    | inr (p, e) ↦ rw (e, create_or_get_order) logged
  ]

  cancel_found-Keeps :
      (event order : Uuid) (now : Time) (p : Option Order)
      → Keeps (cancel_found event order now p db).0
  unfolding cancel_found
  cancel_found-Keeps event order now none = logged
  cancel_found-Keeps event order now (some p) =
      elim (Bool-cases (is_terminal_order_state p.state)) [
        | inl end ↦ rw end logged
        | inr on ↦ rw on (Logged-cons k source target _ db.events logged)
      ]

  cancel-Keeps : (event order : Uuid) (now : Time) → Keeps (cancel_order event order now db).0
  unfolding cancel_order
  cancel-Keeps event order now = cancel_found-Keeps event order now (find_order order db)

  retry-Keeps :
      (fresh : Uuid → Uuid) (order : Uuid) (now : Time)
      → Keeps (retry_failed_tasks_for_order fresh order now db).0
  unfolding retry_failed_tasks_for_order
  retry-Keeps fresh order now = elim (Option-cases (find_order order db)) [
    | inl e ↦ rw (e, reset_failed) logged
    | inr (p, e) ↦
        elim (Bool-cases
          (violates_unique_key (update_where (failed_task_of order) (reopened now) db.tasks))) [
            | inl bad ↦ rw (e, reset_failed) (rw bad logged)
            | inr good ↦
                rw (e, reset_failed)
                  (rw good (
                    Logged-append k source target
                      (map (retry_event fresh order now)
                        (select_where (failed_task_of order) db.tasks))
                      db.events logged))
          ]
  ]

  claim-Keeps :
      (locked : Uuid → Bool) (w : String) (now : Time) → Keeps (claim_one_task locked w now db).0
  unfolding claim_one_task
  claim-Keeps locked w now = elim (Option-cases (candidate locked now db.tasks)) [
    | inl e ↦ rw (e, claim_one_task) logged
    | inr (t, e) ↦ rw (e, claim_one_task) logged
  ]

  pub execute-Keeps : (tx : Transaction) → Keeps (execute tx db)
  unfolding execute
  execute-Keeps (intake fresh now key restaurant customer) =
      intake-Keeps fresh now key restaurant customer
  execute-Keeps (cancellation event order now) = cancel-Keeps event order now
  execute-Keeps (recovery fresh order now) = retry-Keeps fresh order now
  execute-Keeps (claim locked w now) = claim-Keeps locked w now
  execute-Keeps (before_call r id w) = elim (Option-cases (find_task id db)) [
    | inl e ↦ rw (e, before_task) logged
    | inr (t, e) ↦
        rw (e, before_task)
          (Effect-Keeps w none _ (
            before-Effect w db r t (own id db t e) (handler_of t.task_type t.target_state)
              (handler-Fits t.task_type t.target_state)))
  ]
  execute-Keeps (after_call r a id w) = elim (Option-cases (find_task id db)) [
    | inl e ↦ rw (e, after_task) logged
    | inr (t, e) ↦
        rw (e, after_task)
          (Effect-Keeps w (some r.fresh.task) _ (
            after-Effect w db r t (own id db t e) (handler_of t.task_type t.target_state) a
              (handler-Fits t.task_type t.target_state)))
  ]
