-- ===== src/System/Progress.antt =====
-- The transactions after a successful call of backend/worker/tasks.py, and where they take the order.
use workato_take_home.Prelude.{
  ◌≡◌, refl, String, true, false, Option, none, some, arith, ◌==◌, get_or, nat_eq, subst, inl, inr,
}
use workato_take_home.Common.StateMachine.{
  OrderState, placed, confirmed, preparing, ready, out_for_delivery, delivered, cancelled, failed,
  next_order_state, is_terminal_order_state, state_eq,
}
use workato_take_home.Store.Schema.{Uuid, Time, Order, Task, Db}
use workato_take_home.Store.Changes.{Stepped}
use workato_take_home.Store.Query.{find_order, find_task}
use workato_take_home.Worker.Settings.{Settings}
use workato_take_home.Worker.Specs.{
  RestaurantTransitionSpec, confirm_spec, start_prep_spec, ready_finalization_spec,
  courier_assign_spec, delivery_finalization_spec,
}
use workato_take_home.Worker.Lease.{owned_by}
use workato_take_home.Worker.Rows.{latest, source_event, Row, load_transition_task_row, checked}
use workato_take_home.Worker.Finalize.{Fresh, finalize_row, finalize_transition_task}
use workato_take_home.Worker.Checks.{owned-check}
use workato_take_home.Worker.Commit.{commit_transition-optimistic}
use workato_take_home.Worker.Downstream.{outcome, reached, assigned}
use workato_take_home.Worker.Transition.{Run, finish_transition, finish_courier_assign}
use workato_take_home.Worker.Ready.{finish_ready_check}
use workato_take_home.Worker.Delivery.{finish_delivery_check}
use workato_take_home.Worker.Dispatch.{
  Handler, transition, courier_assign, readiness_check, delivery_check, handler_of,
}
use workato_take_home.System.Lifecycle.{work_for}
use workato_take_home.System.Transactions.{
  Answer, verdict, assignment, after_call, after, after_task, execute,
}
use workato_take_home.System.Invariant.State.{Serves}

pub loaded :
    (source : OrderState) (id : Uuid) (db : Db) (t : Task) (o : Order)
    → find_task id db ≡ some t
    → find_order t.order_id db ≡ some o
    → (s : Option Time) × (load_transition_task_row source id db
        ≡ some (record { task = t; order = o; started_at = s }))
unfolding load_transition_task_row
loaded source id db t o found order = (
  some (get_or (latest (source_event t.order_id source) db.events) o.updated_at),
  ground (arith, found, order),
)

-- The order has taken a step: the row that it has then.
abbrev pub Reaches : Uuid → OrderState → Time → Option String → Order → Db → Type 0
Reaches k target now courier o db =
    (p : Order) × (find_order k db ≡ some p) × Stepped target now courier o p

module _ (settings : Settings) (spec : RestaurantTransitionSpec) (courier : Option String)
    (fresh : Fresh) (w : String) (now : Time) (db : Db) (t : Task) (o : Order)
    (found : find_task t.id db ≡ some t) (order : find_order t.order_id db ≡ some o)
    (ours : owned_by w t ≡ true) (on : is_terminal_order_state o.state ≡ false)
    (source : o.state ≡ spec.source_state) where
  row-advances :
      (s : Option Time)
      → Reaches t.order_id spec.target_state now courier o
          (finalize_row settings spec courier fresh w now
            (some (record { task = t; order = o; started_at = s }))
            db).0
  unfolding finalize_row checked
  row-advances s =
      let row : Row = record { task = t; order = o; started_at = s } in
      let here : (o.state == spec.source_state) ≡ true = ground (arith, source) in
      rw (owned-check w t ours, checked)
        (rw (on, here)
          (elim (commit_transition-optimistic settings spec courier fresh w now row db o order) [
            | inl (fits, c) ↦ c.advances
            | inr (stale, l) ↦ absurd (stale refl source)
          ]))

  pub finalize_transition_task-advances :
      Reaches t.order_id spec.target_state now courier o
        (finalize_transition_task settings spec courier fresh t.id w now db).0
  unfolding finalize_transition_task
  finalize_transition_task-advances =
      let (s, e) = loaded spec.source_state t.id db t o found order in
      rw (e, finalize_row) (row-advances s)

-- The answer of the simulator that takes an order out of a state.
abbrev pub success : OrderState → String → Answer
success ready courier = assignment (outcome (assigned courier))
success _ courier = verdict (outcome reached)

abbrev pub assigned_courier : OrderState → String → Option String
assigned_courier ready courier = some courier
assigned_courier _ courier = none

module _ (r : Run) (w courier : String) (db : Db) (t : Task) (o : Order)
    (found : find_task t.id db ≡ some t) (order : find_order t.order_id db ≡ some o)
    (ours : owned_by w t ≡ true) where
  abbrev Advances : OrderState → Handler → Type 0
  Advances state h =
      (target : OrderState) × ((next_order_state state ≡ some target)
        × Reaches t.order_id target r.finished_at (assigned_courier state courier) o
            (after h r (success state courier) t w db))

  module _ (on : is_terminal_order_state o.state ≡ false) where
    spec_step :
        (spec : RestaurantTransitionSpec) (c : Option String)
        → o.state ≡ spec.source_state
        → Reaches t.order_id spec.target_state r.finished_at c o
            (finalize_transition_task r.settings spec c r.fresh t.id w r.finished_at db).0
    spec_step spec c source =
        finalize_transition_task-advances r.settings spec c r.fresh w r.finished_at db t o found
          order ours on source

    -- The handler of the task that serves an order in a state.
    handler-Advances :
        (state : OrderState) (h : Handler)
        → o.state ≡ state
        → work_for state ≡ some t.task_type
        → t.target_state ≡ next_order_state state
        → is_terminal_order_state state ≡ false
        → h ≡ handler_of t.task_type t.target_state
        → Advances state h
    unfolding after finish_transition finish_courier_assign finish_ready_check finish_delivery_check
        next_order_state is_terminal_order_state handler_of
    handler-Advances placed h e work aim live at =
        subst (Advances placed) {x = transition confirm_spec} (ground (arith, at, work, aim))
          (confirmed, (refl, spec_step confirm_spec none e))
    handler-Advances confirmed h e work aim live at =
        subst (Advances confirmed) {x = transition start_prep_spec} (ground (arith, at, work, aim))
          (preparing, (refl, spec_step start_prep_spec none e))
    handler-Advances preparing h e work aim live at =
        subst (Advances preparing) {x = readiness_check} (ground (arith, at, work, aim))
          (ready, (refl, spec_step ready_finalization_spec none e))
    handler-Advances ready h e work aim live at =
        subst (Advances ready) {x = courier_assign} (ground (arith, at, work, aim))
          (out_for_delivery, (refl, spec_step courier_assign_spec (some courier) e))
    handler-Advances out_for_delivery h e work aim live at =
        subst (Advances out_for_delivery) {x = delivery_check} (ground (arith, at, work, aim))
          (delivered, (refl, spec_step delivery_finalization_spec none e))
    handler-Advances delivered h e work aim live at = absurd (cc)
    handler-Advances cancelled h e work aim live at = absurd (cc)
    handler-Advances failed h e work aim live at = absurd (cc)

-- If a worker owns the task that serves an order which has not ended, and the simulator's answer is
-- the success of that task's call, then after the worker's second transaction the order's row has the
-- next state of its lifecycle, a version one higher, the courier if one was assigned, and the instant
-- of the transaction in `updated_at`; its other columns stay, `delivered_at` among them.
pub after_call-advances :
    (r : Run) (w courier : String) (db : Db) (t : Task) (o : Order)
    → find_task t.id db ≡ some t
    → find_order t.order_id db ≡ some o
    → owned_by w t ≡ true
    → is_terminal_order_state o.state ≡ false
    → Serves t o
    → (target : OrderState) × ((next_order_state o.state ≡ some target)
        × Reaches t.order_id target r.finished_at
            (assigned_courier o.state courier)
            o
            (execute (after_call r (success o.state courier) t.id w) db))
unfolding execute after_task
after_call-advances r w courier db t o found order ours on s =
    rw (found, after_task)
      (handler-Advances r w courier db t o found order ours on o.state _ refl s.work s.target on
        refl)
