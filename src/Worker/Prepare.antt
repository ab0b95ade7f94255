-- ===== src/Worker/Prepare.antt =====
-- backend/worker/tasks.py: the short transaction before the call of a transition task.
use workato_take_home.Prelude.{String, nat_eq, get_or}
use workato_take_home.Common.StateMachine.{state_eq}
use workato_take_home.Common.TaskTypes.{type_eq, status_eq}
use workato_take_home.Store.Schema.{Uuid, Time, Db}
use workato_take_home.Worker.Specs.{RestaurantTransitionSpec, courier_assign_spec}
use workato_take_home.Worker.Results.{Prepared, call, done}
use workato_take_home.Worker.Downstream.{RestaurantTransitionCall, CourierAssignCall}
use workato_take_home.Worker.Rows.{Row, load_transition_task_row, checked}

unfoldable pub transition_call :
    RestaurantTransitionSpec → Row → Db → Db × Prepared RestaurantTransitionCall
transition_call spec row db = (
  db,
  call (record {
    order_id = row.task.order_id;
    restaurant_ref = row.order.restaurant_ref;
    source_started_at = get_or row.started_at row.order.updated_at;
    spec = spec;
  }),
)

-- `_prepare_transition_call`
unfoldable pub prepare_transition_call :
    RestaurantTransitionSpec → Uuid → String → Time → Db → Db × Prepared RestaurantTransitionCall
unfolding checked transition_call
prepare_transition_call spec task_id worker now db =
    checked done worker now spec.source_state (transition_call spec)
      (load_transition_task_row spec.source_state task_id db) db

unfoldable pub courier_call : Prepared RestaurantTransitionCall → Prepared CourierAssignCall
courier_call (call c) = call (record {
  order_id = c.order_id;
  restaurant_ref = c.restaurant_ref;
  ready_at = c.source_started_at;
})
courier_call (done r) = done r

-- `_prepare_courier_assign_call`
unfoldable pub prepare_courier_assign_call :
    Uuid → String → Time → Db → Db × Prepared CourierAssignCall
unfolding prepare_transition_call courier_call
prepare_courier_assign_call task_id worker now db =
    let (db', prepared) = prepare_transition_call courier_assign_spec task_id worker now db in
    (db', courier_call prepared)
