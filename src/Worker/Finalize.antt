-- ===== src/Worker/Finalize.antt =====
-- backend/worker/tasks.py: the transaction that commits a transition.
use workato_take_home.Prelude.{
  ℕ, ◌+◌, String, Bool, ◌&&◌, Option, none, some, ◌∷◌, ◌==◌, nat_eq, or_else, if◌then◌else◌,
}
use workato_take_home.Common.StateMachine.{OrderState, state_eq}
use workato_take_home.Common.TaskTypes.{type_eq, status_eq}
use workato_take_home.Common.EventTypes.{state_transition}
use workato_take_home.Store.Table.{update_by_id, hits}
use workato_take_home.Store.Schema.{Uuid, Time, Order, Event, Db, empty}
use workato_take_home.Store.Query.{order_id_of}
use workato_take_home.Worker.Settings.{Settings}
use workato_take_home.Worker.Specs.{RestaurantTransitionSpec}
use workato_take_home.Worker.Results.{
  ProcessingResult, result, transitioned, completed_optimistic_noop,
}
use workato_take_home.Worker.Lease.{complete_claimed_task}
use workato_take_home.Worker.Rows.{Row, load_transition_task_row, checked}
use workato_take_home.Worker.Followup.{insert_followup}

-- The identifiers that `uuid4()` gives to the event and the task that a transaction inserts.
pub record Fresh : Type 0 where
  pub event : Uuid
  pub task : Uuid

-- `where id = … and version = … and state = …`
abbrev pub at_version : ℕ → OrderState → Order → Bool
at_version version state o = o.version == version && o.state == state

-- The columns that `extra_order_fields` may name are those of ALLOWED_EXTRA_ORDER_COLUMNS.
abbrev pub advanced : OrderState → Time → Option String → Order → Order
advanced target now courier_ref o = record o {
  state = target;
  version = o.version + 1;
  updated_at = now;
  courier_ref = or_else courier_ref o.courier_ref;
}

abbrev pub transition_audit : RestaurantTransitionSpec → Uuid → Uuid → Uuid → String → Time → Event
transition_audit spec id order task worker now = record {
  id = id;
  order_id = order;
  event_type = state_transition;
  from_state = some spec.source_state;
  to_state = some spec.target_state;
  task_id = some task;
  worker_id = some worker;
  occurred_at = now;
  metadata = empty;
}

-- The order's update, the event, the follow-up task and the end of this task.
unfoldable pub committed :
    Settings → RestaurantTransitionSpec → Option String → Fresh → String → Time → Row → Db → Db
unfolding complete_claimed_task insert_followup
committed settings spec courier_ref fresh worker now row db =
    let order = row.task.order_id in
    (complete_claimed_task row.task.id worker now (record {
      orders =
          update_by_id order_id_of order (at_version row.order.version spec.source_state)
            (advanced spec.target_state now courier_ref) db.orders;
      tasks = insert_followup settings spec fresh.task order now db.tasks;
      events = transition_audit spec fresh.event order row.task.id worker now ∷ db.events;
    })).0

-- The statements of a finalization after its checks. `row` is what the transaction read; the order
-- row is not locked, so the database may hold a newer version of it.
unfoldable pub commit_transition :
    Settings
    → RestaurantTransitionSpec
    → Option String
    → Fresh
    → String
    → Time
    → Row
    → Db
    → Db × ProcessingResult
unfolding complete_claimed_task committed
commit_transition settings spec courier_ref fresh worker now row db =
    let order = row.task.order_id in
    if hits order_id_of order (at_version row.order.version spec.source_state) db.orders
    then (
      committed settings spec courier_ref fresh worker now row db,
      result transitioned (some order) (some spec.source_state) (some spec.target_state) none,
    )
    else (
      (complete_claimed_task row.task.id worker now db).0,
      result completed_optimistic_noop (some order) (some spec.source_state) none none,
    )

-- `_finalize_transition_task`, on the row that its first statement returned.
unfoldable pub finalize_row :
    Settings
    → RestaurantTransitionSpec
    → Option String
    → Fresh
    → String
    → Time
    → Option Row
    → Db
    → Db × ProcessingResult
unfolding checked
finalize_row settings spec courier_ref fresh worker now row db =
    checked (λ r. r) worker now spec.source_state
      (commit_transition settings spec courier_ref fresh worker now) row db

-- `_finalize_transition_task`, with nothing committed between its statements.
unfoldable pub finalize_transition_task :
    Settings
    → RestaurantTransitionSpec
    → Option String
    → Fresh
    → Uuid
    → String
    → Time
    → Db
    → Db × ProcessingResult
unfolding finalize_row
finalize_transition_task settings spec courier_ref fresh task_id worker now db =
    finalize_row settings spec courier_ref fresh worker now
      (load_transition_task_row spec.source_state task_id db) db
