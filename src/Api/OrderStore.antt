-- ===== src/Api/OrderStore.antt =====
-- backend/api/order_store.py: order intake by idempotency key, and cancellation.
use workato_take_home.Prelude.{
  ◌+◌, String, Bool, true, ◌&&◌, ◌||◌, not, Option, none, some, List, [], ◌∷◌, map, text, ◌==◌,
  nat_eq, string_eq, option_eq, length, or_else, if◌then◌else◌,
}
use workato_take_home.Common.StateMachine.{
  OrderState, placed, confirmed, cancelled, is_terminal_order_state,
}
use workato_take_home.Common.TaskTypes
use workato_take_home.Common.TaskTypes.{advance_state}
use workato_take_home.Common.EventTypes.{order_created, order_cancelled}
use workato_take_home.Store.Table.{update_by_id, update_where, select_where, exists_where}
use workato_take_home.Store.Schema.{Uuid, Time, Order, Task, Event, Db, empty, cancellation}
use workato_take_home.Store.Constraints.{is_active, active_duplicate}
use workato_take_home.Store.Query.{order_id_of, task_id_of, find_order}
use workato_take_home.Worker.Followup.{followup_task}

-- The identifiers that `uuid4()` gives to an order, its event and its task.
pub record FreshOrder : Type 0 where
  pub order : Uuid
  pub event : Uuid
  pub task : Uuid

pub data Intake : Type 0 where
  created existing : Order → Intake
  -- IdempotencyConflictError, with the order that has the key
  conflict : Order → Intake
  -- the RuntimeError of a lookup that finds nothing after a conflict
  lookup_failed : Intake
  -- the insertion of the task breaks the partial unique index, and the transaction rolls back
  integrity_error : Intake

-- `where idempotency_key = …`, a unique column
unfoldable pub find_by_key : String → List Order → Option Order
find_by_key key [] = none
find_by_key key (o ∷ orders) = if o.idempotency_key == key then some o else find_by_key key orders

abbrev pub placed_order : Uuid → String → String → Option String → Time → Order
placed_order id key restaurant customer now = record {
  id = id;
  idempotency_key = key;
  state = placed;
  version = 0;
  customer_ref = customer;
  restaurant_ref = restaurant;
  courier_ref = none;
  terminal_reason = none;
  created_at = now;
  updated_at = now;
  delivered_at = none;
  cancelled_at = none;
}

abbrev pub creation_event : Uuid → Uuid → Time → Event
creation_event id order now = record {
  id = id;
  order_id = order;
  event_type = order_created;
  from_state = none;
  to_state = none;
  task_id = none;
  worker_id = none;
  occurred_at = now;
  metadata = empty;
}

unfoldable pub reuse : String → Option String → Option Order → Intake
reuse restaurant customer none = lookup_failed
reuse restaurant customer (some o) =
    if not (o.restaurant_ref == restaurant) || not (option_eq o.customer_ref customer)
    then conflict o
    else existing o

unfoldable pub insert_order : FreshOrder → Order → Time → Db → Db × Intake
insert_order fresh o now db =
    if exists_where (active_duplicate fresh.order advance_state confirmed) db.tasks
    then (db, integrity_error)
    else (
      record {
        orders = o ∷ db.orders;
        tasks =
            followup_task fresh.task fresh.order advance_state confirmed now none now ∷ db.tasks;
        events = creation_event fresh.event fresh.order now ∷ db.events;
      },
      created o,
    )

-- `create_or_get_order`: `insert … on conflict (idempotency_key) do nothing`, and what follows.
unfoldable pub create_or_get_order :
    FreshOrder → Time → String → String → Option String → Db → Db × Intake
unfolding find_by_key reuse insert_order
create_or_get_order fresh now key restaurant customer db = elim (find_by_key key db.orders) [
  | none ↦ insert_order fresh (placed_order fresh.order key restaurant customer now) now db
  | some o ↦ (db, reuse restaurant customer (some o))
]

abbrev pub cancelled_order : Time → Order → Order
cancelled_order now o = record o {
  state = cancelled;
  version = o.version + 1;
  terminal_reason = some "operator_cancelled";
  cancelled_at = or_else o.cancelled_at (some now);
  updated_at = now;
}

abbrev pub cancelled_task : Time → Task → Task
cancelled_task now t = record t {
  status = TaskTypes.cancelled;
  locked_by = none;
  locked_until = none;
  last_error = some (text "order cancelled by operator");
  updated_at = now;
}

abbrev pub open_task_of : Uuid → Task → Bool
open_task_of order t = t.order_id == order && is_active t.status

abbrev pub cancellation_event : Uuid → Uuid → OrderState → Time → List Uuid → Event
cancellation_event id order from now tasks = record {
  id = id;
  order_id = order;
  event_type = order_cancelled;
  from_state = some from;
  to_state = some cancelled;
  task_id = none;
  worker_id = none;
  occurred_at = now;
  metadata = cancellation "dashboard_cancel_order" (length tasks) tasks;
}

unfoldable pub cancel_found : Uuid → Uuid → Time → Option Order → Db → Db × Option Order
cancel_found event order now none db = (db, none)
cancel_found event order now (some o) db =
    if is_terminal_order_state o.state then (db, some o) else (
      record {
        orders = update_by_id order_id_of order (λ _. true) (cancelled_order now) db.orders;
        tasks = update_where (open_task_of order) (cancelled_task now) db.tasks;
        events =
            cancellation_event event order o.state now
              (map task_id_of (select_where (open_task_of order) db.tasks))
            ∷ db.events;
      },
      some (cancelled_order now o),
    )

-- `cancel_order`; `event` is the identifier of the event that it may insert.
unfoldable pub cancel_order : Uuid → Uuid → Time → Db → Db × Option Order
unfolding cancel_found
cancel_order event order now db = cancel_found event order now (find_order order db) db
