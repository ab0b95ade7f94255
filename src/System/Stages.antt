-- ===== src/System/Stages.antt =====
-- What a successful call of backend/worker/tasks.py commits: the order's next state, with the task that it needs.
use workato_take_home.Prelude.{
  ◌≡◌, refl, String, true, false, Option, none, some, arith, ◌==◌, nat_eq, subst, ap, sym, ◌∙◌,
}
use workato_take_home.Common.StateMachine.{
  OrderState, placed, confirmed, preparing, ready, out_for_delivery, delivered, cancelled, failed,
  next_order_state, is_terminal_order_state, state_eq,
}
use workato_take_home.Store.Schema.{Time, Order, Task, Db}
use workato_take_home.Store.Query.{find_order, find_task}
use workato_take_home.Worker.Specs.{
  RestaurantTransitionSpec, confirm_spec, start_prep_spec, ready_finalization_spec,
  courier_assign_spec, delivery_finalization_spec,
}
use workato_take_home.Worker.Lease.{owned_by}
use workato_take_home.Worker.Rows.{Row, checked}
use workato_take_home.Worker.Finalize.{committed, finalize_row, finalize_transition_task}
use workato_take_home.Worker.Commit.{hit-committed}
use workato_take_home.Worker.Transition.{Run, finish_transition, finish_courier_assign}
use workato_take_home.Worker.Ready.{finish_ready_check}
use workato_take_home.Worker.Delivery.{finish_delivery_check}
use workato_take_home.Worker.Dispatch.{
  Handler, transition, courier_assign, readiness_check, delivery_check, handler_of,
}
use workato_take_home.Worker.Checks.{owned-check}
use workato_take_home.System.Lifecycle.{
  IsLifecycle, work_for, confirm-IsLifecycle, start_prep-IsLifecycle, ready-IsLifecycle,
  courier-IsLifecycle, delivery-IsLifecycle,
}
use workato_take_home.System.Transactions.{after_call, after, after_task, execute}
use workato_take_home.System.Invariant.State.{Serves, Inv, ActiveWork}
use workato_take_home.System.Invariant.Commit.{new_work}
use workato_take_home.System.Progress.{loaded, success}

some_injective : {s t : OrderState} → some s ≡ some t → s ≡ t
some_injective h = ground arith

module _ (r : Run) (w courier : String) (db : Db) (t : Task) (o : Order)
    (found : find_task t.id db ≡ some t) (order : find_order t.order_id db ≡ some o)
    (ours : owned_by w t ≡ true) (on : is_terminal_order_state o.state ≡ false) where
  abbrev row_at : Option Time → Row
  row_at s = record { task = t; order = o; started_at = s }

  row-committed :
      (spec : RestaurantTransitionSpec) (c : Option String) (s : Option Time)
      → o.state ≡ spec.source_state
      → (finalize_row r.settings spec c r.fresh w r.finished_at (some (row_at s)) db).0
        ≡ committed r.settings spec c r.fresh w r.finished_at (row_at s) db
  unfolding finalize_row checked
  row-committed spec c s source =
      let here : (o.state == spec.source_state) ≡ true = ground (arith, source) in
      rw (owned-check w t ours, checked)
        (rw (on, here)
          (hit-committed r.settings spec c r.fresh w r.finished_at (row_at s) db o order
            (ground (arith, source))))

  -- The transaction commits the step of a spec that starts at the order's state.
  abbrev pub CommitsStep : Db → Type 0
  CommitsStep db' =
      (spec : RestaurantTransitionSpec) × (c : Option String) × (s : Option Time) × IsLifecycle spec
      × (o.state ≡ spec.source_state)
      × (t.target_state ≡ some spec.target_state)
      × (db' ≡ committed r.settings spec c r.fresh w r.finished_at (row_at s) db)

  finalize-CommitsStep :
      (spec : RestaurantTransitionSpec) (c : Option String)
      → IsLifecycle spec
      → o.state ≡ spec.source_state
      → t.target_state ≡ some spec.target_state
      → CommitsStep (finalize_transition_task r.settings spec c r.fresh t.id w r.finished_at db).0
  unfolding finalize_transition_task
  finalize-CommitsStep spec c l source aim =
      let (s, e) = loaded spec.source_state t.id db t o found order in
      (spec, c, s, l, source, aim, rw (e, finalize_row) (row-committed spec c s source))

  handler-CommitsStep :
      (state : OrderState) (h : Handler)
      → o.state ≡ state
      → work_for state ≡ some t.task_type
      → t.target_state ≡ next_order_state state
      → is_terminal_order_state state ≡ false
      → h ≡ handler_of t.task_type t.target_state
      → CommitsStep (after h r (success state courier) t w db)
  unfolding after finish_transition finish_courier_assign finish_ready_check finish_delivery_check
      next_order_state is_terminal_order_state handler_of
  handler-CommitsStep placed h e work aim live at =
      subst (λ x. CommitsStep (after x r (success placed courier) t w db))
        {x = transition confirm_spec} (ground (arith, at, work, aim))
        (finalize-CommitsStep confirm_spec none confirm-IsLifecycle e aim)
  handler-CommitsStep confirmed h e work aim live at =
      subst (λ x. CommitsStep (after x r (success confirmed courier) t w db))
        {x = transition start_prep_spec} (ground (arith, at, work, aim))
        (finalize-CommitsStep start_prep_spec none start_prep-IsLifecycle e aim)
  handler-CommitsStep preparing h e work aim live at =
      subst (λ x. CommitsStep (after x r (success preparing courier) t w db)) {x = readiness_check}
        (ground (arith, at, work, aim))
        (finalize-CommitsStep ready_finalization_spec none ready-IsLifecycle e aim)
  handler-CommitsStep ready h e work aim live at =
      subst (λ x. CommitsStep (after x r (success ready courier) t w db)) {x = courier_assign}
        (ground (arith, at, work, aim))
        (finalize-CommitsStep courier_assign_spec (some courier) courier-IsLifecycle e aim)
  handler-CommitsStep out_for_delivery h e work aim live at =
      subst (λ x. CommitsStep (after x r (success out_for_delivery courier) t w db))
        {x = delivery_check} (ground (arith, at, work, aim))
        (finalize-CommitsStep delivery_finalization_spec none delivery-IsLifecycle e aim)
  handler-CommitsStep delivered h e work aim live at = absurd (cc)
  handler-CommitsStep cancelled h e work aim live at = absurd (cc)
  handler-CommitsStep failed h e work aim live at = absurd (cc)

  -- After the step, the order has a pending or running task again, if it has not ended.
  pub after_call-ActiveWork :
      Serves t o
      → Inv db
      → find_task r.fresh.task db ≡ none
      → (p : Order) → p.id ≡ o.id
      → next_order_state o.state ≡ some p.state
      → is_terminal_order_state p.state ≡ false
      → ActiveWork (execute (after_call r (success o.state courier) t.id w) db) p
  unfolding execute after_task
  after_call-ActiveWork s h free p named step live =
      let (spec, c, began, l, source, aim, e) =
        handler-CommitsStep o.state _ refl s.work s.target on refl in
      let same : spec.target_state ≡ p.state =
        some_injective (sym l.steps ∙ (ap next_order_state (sym source) ∙ step)) in
      let (u, there, su, active) =
        new_work r.settings spec c r.fresh w r.finished_at (row_at began) db l found order source
          aim free h (subst (λ x. is_terminal_order_state x ≡ false) (sym same) live) in
      (
        u,
        rw (found, after_task) (subst (λ d. find_task u.id d ≡ some u) (sym e) there),
        record {
          of_order = su.of_order ∙ sym named;
          work = ap work_for (sym same) ∙ su.work;
          target = su.target ∙ ap next_order_state same;
          live = su.live;
        },
        active,
      )
