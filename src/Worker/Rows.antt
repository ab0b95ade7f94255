-- ===== src/Worker/Rows.antt =====
-- backend/worker/tasks.py: the queries that lock a task and read its order and its source event,
-- and the checks with which every handler begins.
use workato_take_home.Prelude.{
  String, Bool, not, ◌&&◌, ◌||◌, Option, none, some, List, [], ◌∷◌, leb, ◌==◌, nat_eq, string_eq,
  holds_value, get_or, if◌then◌else◌,
}
use workato_take_home.Common.StateMachine.{
  OrderState, state_eq, placed, confirmed, preparing, ready, out_for_delivery,
  is_terminal_order_state,
}
use workato_take_home.Common.TaskTypes.{running, status_eq}
use workato_take_home.Common.EventTypes.{order_created, state_transition, event_eq}
use workato_take_home.Store.Schema.{Uuid, Time, Order, Task, Event, Db}
use workato_take_home.Store.Query.{find_order, find_task}
use workato_take_home.Worker.Results.{
  ProcessingResult, result, missing_task, not_running, lost_ownership, completed_terminal_noop,
  completed_stale_noop,
}
use workato_take_home.Worker.Lease.{complete_claimed_task}

-- One row of the join of a task, its order and the instant of its source event. The handlers read
-- from it the columns that their query selects.
pub record Row : Type 0 where
  pub task : Task
  pub order : Order
  pub started_at : Option Time

later : Time → Option Time → Time
later t none = t
later t (some u) = if leb u t then t else u

-- `select occurred_at … order by occurred_at desc limit 1`
unfoldable pub latest : (Event → Bool) → List Event → Option Time
unfolding later
latest matches [] = none
latest matches (e ∷ es) =
    let rest = latest matches es in if matches e then some (later e.occurred_at rest) else rest

abbrev pub transition_event : Uuid → OrderState → OrderState → Event → Bool
transition_event order from to e =
    e.order_id == order
    && (e.event_type == state_transition
        && (holds_value e.from_state from && holds_value e.to_state to))

-- The event at which the source state of a transition began.
abbrev pub source_event : Uuid → OrderState → Event → Bool
source_event order source e =
    e.order_id == order
    && ((source == placed && e.event_type == order_created)
        || (not (source == placed)
            && (e.event_type == state_transition && holds_value e.to_state source)))

join_order : Db → (Uuid → Order → Option Time) → Option Task → Option Row
join_order db event none = none
join_order db event (some t) = elim (find_order t.order_id db) [
  | none ↦ none
  | some o ↦ some (record { task = t; order = o; started_at = event t.order_id o })
]

-- `_load_transition_task_row`
unfoldable pub load_transition_task_row : OrderState → Uuid → Db → Option Row
unfolding join_order
load_transition_task_row source task_id db =
    join_order db (λ id o. some (get_or (latest (source_event id source) db.events) o.updated_at))
      (find_task task_id db)

-- `_load_ready_check_task_row`
unfoldable pub load_ready_check_task_row : Uuid → Db → Option Row
unfolding join_order
load_ready_check_task_row task_id db =
    join_order db (λ id o. latest (transition_event id confirmed preparing) db.events)
      (find_task task_id db)

-- `_load_delivery_check_task_row`
unfoldable pub load_delivery_check_task_row : Uuid → Db → Option Row
unfolding join_order
load_delivery_check_task_row task_id db =
    join_order db (λ id o. latest (transition_event id ready out_for_delivery) db.events)
      (find_task task_id db)

-- `_owned_task_check_result`; none is that the task is still ours.
unfoldable pub owned_task_check_result : String → Option Task → Option ProcessingResult
owned_task_check_result worker none = some (result missing_task none none none none)
owned_task_check_result worker (some t) =
    if not (t.status == running)
    then some (result not_running (some t.order_id) none none none)
    else if not (holds_value t.locked_by worker)
    then some (result lost_ownership (some t.order_id) none none none)
    else none

-- The checks that each handler makes on the row that it locked: ownership, then a terminal order,
-- then an order that is not in the source state. The last two complete the task.
unfoldable pub checked :
    {A : Type 0}
    → (ProcessingResult → A)
    → String
    → Time
    → OrderState
    → (Row → Db → Db × A)
    → Option Row
    → Db
    → Db × A
unfolding complete_claimed_task
checked finish worker now source body none db =
    (db, finish (result missing_task none none none none))
checked finish worker now source body (some row) db =
    elim (owned_task_check_result worker (some row.task)) [
      | some skip ↦ (db, finish skip)
      | none ↦
          if is_terminal_order_state row.order.state
          then (
            (complete_claimed_task row.task.id worker now db).0,
            finish (
                result completed_terminal_noop (some row.task.order_id) (some row.order.state) none
                  none),
          )
          else if not (row.order.state == source)
          then (
            (complete_claimed_task row.task.id worker now db).0,
            finish (
                result completed_stale_noop (some row.task.order_id) (some row.order.state) none
                  none),
          )
          else body row db
    ]
