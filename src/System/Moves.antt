-- ===== src/System/Moves.antt =====
-- How one transaction moves an order: not at all, one step along the lifecycle, or to cancelled.
use workato_take_home.Prelude.{
  ◌≡◌, refl, String, Bool, true, false, Option, none, some, arith, Bool-cases, Option-cases, inl,
  inr, eqb, ◌∙◌, sym, subst, ap, ◌≢◌, List, ◌∷◌, eqb_iff,
}
use workato_take_home.Common.StateMachine.{
  OrderState, confirmed, cancelled, state_eq, next_order_state, is_terminal_order_state,
}
use workato_take_home.Common.TaskTypes.{advance_state}
use workato_take_home.Store.Table.{find-cons, find-update_by_id, exists_where, update_where}
use workato_take_home.Store.Schema.{Uuid, Time, Order, Event, Db}
use workato_take_home.Store.Constraints.{violates_unique_key, active_duplicate}
use workato_take_home.Store.Query.{order_id_of, find_order, find_task}
use workato_take_home.Worker.Settings.{Settings}
use workato_take_home.Worker.Specs.{RestaurantTransitionSpec}
use workato_take_home.Worker.Claim.{candidate, claim_one_task}
use workato_take_home.Worker.Rows.{Row}
use workato_take_home.Worker.Finalize.{Fresh, at_version, advanced, transition_audit, committed}
use workato_take_home.Worker.Commit.{advanced-Stepped}
use workato_take_home.Store.Changes.{Stepped, CancelledRow}
use workato_take_home.Api.Cancellation.{cancelled_order-CancelledRow}
use workato_take_home.Api.OrderStore.{
  FreshOrder, placed_order, find_by_key, insert_order, create_or_get_order, cancelled_order,
  cancel_found, cancel_order,
}
use workato_take_home.Api.TaskStore.{
  failed_task_of, reopened, reset_failed, retry_failed_tasks_for_order,
}
use workato_take_home.System.Lifecycle.{IsLifecycle}
use workato_take_home.System.Audit.{Logged, transition_audit-Logged}
use workato_take_home.System.Effect.{Effect, Carries, unchanged, put_back, dropped, commits}
use workato_take_home.System.Transactions.{
  Transaction, intake, cancellation, recovery, claim, before_call, after_call, execute, DrawsFresh,
  before_task, after_task,
}
use workato_take_home.System.Invariant.Reachable.{before-Effect, after-Effect, handler-Fits, own}
use workato_take_home.Worker.Dispatch.{handler_of}

-- What a transaction may make of an order row.
pub data Moved (o p : Order) : Type 0 where
  stays : p ≡ o → Moved o p
  steps :
      (target : OrderState) (courier : Option String) (now : Time)
      → next_order_state o.state ≡ some target
      → Carries target courier
      → Stepped target now courier o p
      → Moved o p
  cancels :
      (now : Time) → is_terminal_order_state o.state ≡ false → CancelledRow now o p → Moved o p

-- The order is still there, moved at most so far, and a step is in the audit log.
abbrev pub Follows : Uuid → Order → Db → Type 0
Follows k o db =
    (p : Order) × (find_order k db ≡ some p)
    × Moved o p
    × (next_order_state o.state ≡ some p.state → Logged db.events k o.state p.state)

no_step_to_itself : (s : OrderState) → next_order_state s ≢ some s
unfolding next_order_state
no_step_to_itself s h = ground arith

-- A cancellation is not a step.
no_step_to_cancelled : (s : OrderState) → next_order_state s ≢ some cancelled
unfolding next_order_state
no_step_to_cancelled s h = ground arith

-- The event of a commit, for the order that it moved.
moved_log :
    (k : Uuid) (o : Order) (spec : RestaurantTransitionSpec) (id task : Uuid) (w : String)
    (now : Time) (events : List Event) (order : Uuid)
    → k ≡ order
    → spec.source_state ≡ o.state
    → Logged (transition_audit spec id order task w now ∷ events) k o.state spec.target_state
moved_log k o spec id task w now events order e s =
    subst
      (λ j. Logged (transition_audit spec id order task w now ∷ events) j o.state spec.target_state)
      (sym e)
      (subst
        (λ x. Logged (transition_audit spec id order task w now ∷ events) order x spec.target_state)
        s (transition_audit-Logged spec id order task w now events))

module _ (k : Uuid) (o : Order) (db : Db) (found : find_order k db ≡ some o) where
  abbrev same : Follows k o db
  same = (o, found, stays refl, λ n. absurd (no_step_to_itself o.state n))

  committed-Follows :
      (settings : Settings) (spec : RestaurantTransitionSpec) (courier : Option String)
      (fresh : Fresh) (w : String) (now : Time) (row : Row)
      → IsLifecycle spec
      → Carries spec.target_state courier
      → find_order row.task.order_id db ≡ some row.order
      → row.order.state ≡ spec.source_state
      → Follows k o (committed settings spec courier fresh w now row db)
  unfolding committed
  committed-Follows settings spec courier fresh w now row l c order source =
      let id = row.task.order_id in
      let after =
        find-update_by_id order_id_of id (at_version row.order.version spec.source_state)
          (advanced spec.target_state now courier) k db.orders (λ o. refl) in
      elim (Bool-cases (eqb id k)) [
        | inr e ↦ (o, ground (arith, after), stays refl, λ n. absurd (no_step_to_itself o.state n))
        | inl e ↦
            let same : row.order ≡ o = ground (arith, order, found) in
            (
              advanced spec.target_state now courier o,
              ground (arith, after, same, source),
              steps spec.target_state courier now
                  (ap (λ x. next_order_state x.state) (sym same)
                    ∙ (ap next_order_state source ∙ l.steps))
                  c (advanced-Stepped spec.target_state now courier o),
              λ n.
                  moved_log k o spec fresh.event row.task.id w now db.events id
                    (sym ((eqb_iff id k).0 e)) (sym source ∙ ap (λ x. x.state) same),
            )
      ]

  Effect-Follows :
      (w : String) (key : Option Uuid) (db' : Db) → Effect w key db db' → Follows k o db'
  Effect-Follows w key db' (unchanged e) = subst (Follows k o) (sym e) same
  Effect-Follows w key db' (put_back t f there p e) = subst (Follows k o) (sym e) same
  Effect-Follows w key db' (dropped t p target now there order aim ne e) =
      subst (Follows k o) (sym e) same
  Effect-Follows w key db'
        (commits settings spec courier fresh now row d l c there order owned source aim e) =
      subst (Follows k o) (sym e)
        (committed-Follows settings spec courier fresh w now row l c order source)

  insert_order-Follows :
      (fresh : FreshOrder) (new : Order) (now : Time)
      → new.id ≡ fresh.order
      → find_order fresh.order db ≡ none
      → Follows k o (insert_order fresh new now db).0
  unfolding insert_order
  insert_order-Follows fresh new now named free =
      elim (Bool-cases
        (exists_where (active_duplicate fresh.order advance_state confirmed) db.tasks)) [
          | inl dup ↦ rw dup same
          | inr fine ↦ rw fine (
            o,
            ground (arith, find-cons order_id_of new k db.orders, found),
            stays refl,
            λ n. absurd (no_step_to_itself o.state n),
          )
        ]

  intake-Follows :
      (fresh : FreshOrder) (now : Time) (key restaurant : String) (customer : Option String)
      → find_order fresh.order db ≡ none
      → Follows k o (create_or_get_order fresh now key restaurant customer db).0
  unfolding create_or_get_order
  intake-Follows fresh now key restaurant customer free =
      elim (Option-cases (find_by_key key db.orders)) [
        | inl e ↦
            rw (e, create_or_get_order)
              (insert_order-Follows fresh (placed_order fresh.order key restaurant customer now) now
                refl free)
        | inr (p, e) ↦ rw (e, create_or_get_order) same
      ]

  cancel_found-Follows :
      (event order : Uuid) (now : Time) (p : Option Order)
      → find_order order db ≡ p
      → Follows k o (cancel_found event order now p db).0
  unfolding cancel_found
  cancel_found-Follows event order now none e = same
  cancel_found-Follows event order now (some p) e =
      elim (Bool-cases (is_terminal_order_state p.state)) [
        | inl end ↦ rw end same
        | inr on ↦ rw on (
            let after =
              find-update_by_id order_id_of order (λ _. true) (cancelled_order now) k db.orders
                (λ o. refl) in
            elim (Bool-cases (eqb order k)) [
              | inr ne ↦ (
                o,
                ground (arith, after, found),
                stays refl,
                λ n. absurd (no_step_to_itself o.state n),
              )
              | inl eq ↦
                  let one : p ≡ o = ground (arith, found, e) in
                  (
                    cancelled_order now o,
                    ground (arith, after, found),
                    cancels now (subst (λ x. is_terminal_order_state x.state ≡ false) one on)
                        (cancelled_order-CancelledRow now o),
                    λ n. absurd (no_step_to_cancelled o.state n),
                  )
            ])
      ]

  cancel-Follows :
      (event order : Uuid) (now : Time) → Follows k o (cancel_order event order now db).0
  unfolding cancel_order
  cancel-Follows event order now = cancel_found-Follows event order now (find_order order db) refl

  retry-Follows :
      (fresh : Uuid → Uuid) (order : Uuid) (now : Time)
      → Follows k o (retry_failed_tasks_for_order fresh order now db).0
  unfolding retry_failed_tasks_for_order
  retry-Follows fresh order now = elim (Option-cases (find_order order db)) [
    | inl e ↦ rw (e, reset_failed) same
    | inr (p, e) ↦
        elim (Bool-cases
          (violates_unique_key (update_where (failed_task_of order) (reopened now) db.tasks))) [
            | inl bad ↦ rw (e, reset_failed) (rw bad same)
            | inr good ↦
                rw (e, reset_failed)
                  (rw good (o, found, stays refl, λ n. absurd (no_step_to_itself o.state n)))
          ]
  ]

  claim-Follows :
      (locked : Uuid → Bool) (w : String) (now : Time)
      → Follows k o (claim_one_task locked w now db).0
  unfolding claim_one_task
  claim-Follows locked w now = elim (Option-cases (candidate locked now db.tasks)) [
    | inl e ↦ rw (e, claim_one_task) same
    | inr (t, e) ↦ rw (e, claim_one_task) same
  ]

  pub execute-Follows : (tx : Transaction) → DrawsFresh tx db → Follows k o (execute tx db)
  unfolding execute
  execute-Follows (intake fresh now key restaurant customer) d =
      intake-Follows fresh now key restaurant customer d.0
  execute-Follows (cancellation event order now) d = cancel-Follows event order now
  execute-Follows (recovery fresh order now) d = retry-Follows fresh order now
  execute-Follows (claim locked w now) d = claim-Follows locked w now
  execute-Follows (before_call r id w) d = elim (Option-cases (find_task id db)) [
    | inl e ↦ rw (e, before_task) same
    | inr (t, e) ↦
        rw (e, before_task)
          (Effect-Follows w none _ (
            before-Effect w db r t (own id db t e) (handler_of t.task_type t.target_state)
              (handler-Fits t.task_type t.target_state)))
  ]
  execute-Follows (after_call r a id w) d = elim (Option-cases (find_task id db)) [
    | inl e ↦ rw (e, after_task) same
    | inr (t, e) ↦
        rw (e, after_task)
          (Effect-Follows w (some r.fresh.task) _ (
            after-Effect w db r t (own id db t e) (handler_of t.task_type t.target_state) a
              (handler-Fits t.task_type t.target_state)))
  ]
