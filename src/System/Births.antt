-- ===== src/System/Births.antt =====
-- Where order rows come from: the transactions that insert one, and those that do not.
use workato_take_home.Prelude.{
  ◌≡◌, refl, String, Bool, true, Option, none, some, arith, Bool-cases, Option-cases, inl, inr, eqb,
  subst, nat_eq,
}
use workato_take_home.Common.StateMachine.{state_eq, is_terminal_order_state}
use workato_take_home.Common.TaskTypes.{advance_state}
use workato_take_home.Common.StateMachine.{confirmed}
use workato_take_home.Store.Table.{find-cons, find-update_by_id, exists_where}
use workato_take_home.Store.Schema.{Uuid, Time, Order, Db}
use workato_take_home.Store.Constraints.{active_duplicate}
use workato_take_home.Store.Query.{order_id_of, find_order, find_task}
use workato_take_home.Worker.Settings.{Settings}
use workato_take_home.Worker.Specs.{RestaurantTransitionSpec}
use workato_take_home.Worker.Claim.{candidate, claim_one_task}
use workato_take_home.Worker.Rows.{Row}
use workato_take_home.Worker.Dispatch.{handler_of}
use workato_take_home.Worker.Finalize.{Fresh, at_version, advanced, committed}
use workato_take_home.Api.OrderStore.{
  FreshOrder, placed_order, find_by_key, insert_order, create_or_get_order, cancelled_order,
  cancel_found, cancel_order,
}
use workato_take_home.Api.TaskStore.{reset_failed, retry_failed_tasks_for_order}
use workato_take_home.System.Effect.{Effect, unchanged, put_back, dropped, commits}
use workato_take_home.System.Transactions.{
  Transaction, intake, cancellation, recovery, claim, before_call, after_call, execute,
}
use workato_take_home.System.Invariant.Reachable.{before-Effect, after-Effect, handler-Fits, own}

-- What an intake that finds no order with its key must give of the row that it inserts.
abbrev pub Born : (Order → Type 0) → Db → Transaction → Type 0
Born N db (intake fresh now key restaurant customer) =
    find_by_key key db.orders ≡ none → N (placed_order fresh.order key restaurant customer now)
Born N db _ = Unit

module _ (k : Uuid) (p : Order) (db : Db) (absent : find_order k db ≡ none)
    (N : Order → Type 0) where
  nothing : find_order k db ≡ some p → N p
  nothing h = absurd (ground (arith, absent, h))

  committed-Newborn :
      (settings : Settings) (spec : RestaurantTransitionSpec) (courier : Option String)
      (fresh : Fresh) (w : String) (now : Time) (row : Row)
      → find_order k (committed settings spec courier fresh w now row db) ≡ some p
      → N p
  unfolding committed
  committed-Newborn settings spec courier fresh w now row h =
      let after =
        find-update_by_id order_id_of row.task.order_id
          (at_version row.order.version spec.source_state) (advanced spec.target_state now courier)
          k db.orders (λ _. refl) in
      absurd (ground (arith, after, absent, h))

  Effect-Newborn :
      (w : String) (key : Option Uuid) (db' : Db)
      → Effect w key db db'
      → find_order k db' ≡ some p
      → N p
  Effect-Newborn w key db' (unchanged e) h = nothing (subst (λ d. find_order k d ≡ some p) e h)
  Effect-Newborn w key db' (put_back t f there q e) h =
      nothing (subst (λ d. find_order k d ≡ some p) e h)
  Effect-Newborn w key db' (dropped t o target now there order aim ne e) h =
      nothing (subst (λ d. find_order k d ≡ some p) e h)
  Effect-Newborn w key db'
        (commits settings spec courier fresh now row d l c there order owned source aim e) h =
      committed-Newborn settings spec courier fresh w now row
        (subst (λ d. find_order k d ≡ some p) e h)

  insert_order-Newborn :
      (fresh : FreshOrder) (new : Order) (now : Time)
      → N new
      → find_order k (insert_order fresh new now db).0 ≡ some p
      → N p
  unfolding insert_order
  insert_order-Newborn fresh new now born h =
      elim (Bool-cases
        (exists_where (active_duplicate fresh.order advance_state confirmed) db.tasks)) [
          | inl dup ↦ nothing (ground (arith, h, dup))
          | inr fine ↦ elim (Bool-cases (eqb new.id k)) [
            | inl e ↦
                let same : new ≡ p =
                  ground (arith, h, fine, find-cons order_id_of new k db.orders) in
                subst N same born
            | inr e ↦ nothing (ground (arith, h, fine, find-cons order_id_of new k db.orders))
          ]
        ]

  intake-Newborn :
      (fresh : FreshOrder) (now : Time) (key restaurant : String) (customer : Option String)
      → (find_by_key key db.orders ≡ none
          → N (placed_order fresh.order key restaurant customer now))
      → find_order k (create_or_get_order fresh now key restaurant customer db).0 ≡ some p
      → N p
  unfolding create_or_get_order
  intake-Newborn fresh now key restaurant customer born h =
      elim (Option-cases (find_by_key key db.orders)) [
        | inl e ↦
            insert_order-Newborn fresh (placed_order fresh.order key restaurant customer now) now
              (born e) (ground (arith, e, h))
        | inr (q, e) ↦ nothing (ground (arith, e, h))
      ]

  cancel-Newborn :
      (event order : Uuid) (now : Time) (q : Option Order)
      → find_order k (cancel_found event order now q db).0 ≡ some p
      → N p
  unfolding cancel_found
  cancel-Newborn event order now none h = nothing h
  cancel-Newborn event order now (some q) h =
      let after =
        find-update_by_id order_id_of order (λ _. true) (cancelled_order now) k db.orders
          (λ _. refl) in
      elim (Bool-cases (is_terminal_order_state q.state)) [
        | inl end ↦ nothing (ground (arith, end, h))
        | inr on ↦ absurd (ground (arith, on, h, after, absent))
      ]

  cancel_order-Newborn :
      (event order : Uuid) (now : Time)
      → find_order k (cancel_order event order now db).0 ≡ some p
      → N p
  unfolding cancel_order
  cancel_order-Newborn event order now h = cancel-Newborn event order now (find_order order db) h

  retry-Newborn :
      (fresh : Uuid → Uuid) (order : Uuid) (now : Time)
      → find_order k (retry_failed_tasks_for_order fresh order now db).0 ≡ some p
      → N p
  unfolding retry_failed_tasks_for_order reset_failed
  retry-Newborn fresh order now h = elim (Option-cases (find_order order db)) [
    | inl e ↦ nothing (ground (arith, e, h))
    | inr (q, e) ↦ nothing (ground (arith, e, h))
  ]

  claim-Newborn :
      (locked : Uuid → Bool) (w : String) (now : Time)
      → find_order k (claim_one_task locked w now db).0 ≡ some p
      → N p
  unfolding claim_one_task
  claim-Newborn locked w now h = elim (Option-cases (candidate locked now db.tasks)) [
    | inl e ↦ nothing (ground (arith, e, h))
    | inr (t, e) ↦ nothing (ground (arith, e, h))
  ]

  pub execute-Newborn :
      (tx : Transaction) → Born N db tx → find_order k (execute tx db) ≡ some p → N p
  unfolding execute
  execute-Newborn (intake fresh now key restaurant customer) born h =
      intake-Newborn fresh now key restaurant customer born h
  execute-Newborn (cancellation event order now) born h = cancel_order-Newborn event order now h
  execute-Newborn (recovery fresh order now) born h = retry-Newborn fresh order now h
  execute-Newborn (claim locked w now) born h = claim-Newborn locked w now h
  execute-Newborn (before_call r id w) born h = elim (Option-cases (find_task id db)) [
    | inl e ↦ nothing (ground (arith, e, h))
    | inr (t, e) ↦
        Effect-Newborn w none _
          (before-Effect w db r t (own id db t e) (handler_of t.task_type t.target_state)
            (handler-Fits t.task_type t.target_state))
          (ground (arith, e, h))
  ]
  execute-Newborn (after_call r a id w) born h = elim (Option-cases (find_task id db)) [
    | inl e ↦ nothing (ground (arith, e, h))
    | inr (t, e) ↦
        Effect-Newborn w (some r.fresh.task) _
          (after-Effect w db r t (own id db t e) (handler_of t.task_type t.target_state) a
            (handler-Fits t.task_type t.target_state))
          (ground (arith, e, h))
  ]
