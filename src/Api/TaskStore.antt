-- ===== src/Api/TaskStore.antt =====
-- backend/api/task_store.py: an operator's reset of the failed tasks of an order.
use Prim.Native.Nat.{max}
use workato_take_home.Prelude.{
  ℕ, ◌+◌, ◌-◌, ◌*◌, Bool, ◌&&◌, Option, none, some, List, ◌++◌, map, ◌==◌, nat_eq, if◌then◌else◌,
}
use workato_take_home.Common.TaskTypes.{
  TaskType, pending, failed, check_ready, check_delivery, status_eq,
}
use workato_take_home.Common.EventTypes.{retry_scheduled}
use workato_take_home.Store.Table.{update_where, select_where}
use workato_take_home.Store.Schema.{Uuid, Time, Order, Task, Event, Db, operator_retry}
use workato_take_home.Store.Constraints.{violates_unique_key}
use workato_take_home.Store.Query.{find_order}
use workato_take_home.Worker.Settings.{second}

-- `coalesce(deadline_at - created_at, interval '60 seconds')`, and at least a second
abbrev pub window : Time → Option Time → ℕ
window created none = max (60 * second) second
window created (some deadline) = max (deadline - created) second

-- The new deadline: a fresh window for poll tasks, and no change for the others.
unfoldable pub fresh_deadline : TaskType → Time → Time → Option Time → Option Time
fresh_deadline check_ready now created deadline = some (now + window created deadline)
fresh_deadline check_delivery now created deadline = some (now + window created deadline)
fresh_deadline _ now created deadline = deadline

abbrev pub failed_task_of : Uuid → Task → Bool
failed_task_of order t = t.order_id == order && t.status == failed

abbrev pub reopened : Time → Task → Task
reopened now t = record t {
  status = pending;
  attempts = 0;
  next_run_at = now;
  deadline_at = fresh_deadline t.task_type now t.created_at t.deadline_at;
  last_error = none;
  locked_by = none;
  locked_until = none;
  completed_at = none;
  updated_at = now;
}

-- `fresh` gives the identifier of the event of each task.
abbrev pub retry_event : (Uuid → Uuid) → Uuid → Time → Task → Event
retry_event fresh order now t = record {
  id = fresh t.id;
  order_id = order;
  event_type = retry_scheduled;
  from_state = none;
  to_state = none;
  task_id = some t.id;
  worker_id = none;
  occurred_at = now;
  metadata =
      operator_retry "operator_retry_failed_tasks" t.task_type t.target_state t.attempts
        t.max_attempts t.last_error;
}

pub data Recovery : Type 0 where
  no_order : Recovery
  -- the tasks as they were before the reset
  retried : List Task → Recovery
  -- the reset breaks the partial unique index, and the transaction rolls back
  integrity_error : Recovery

unfoldable pub reset_failed : (Uuid → Uuid) → Uuid → Time → Option Order → Db → Db × Recovery
reset_failed fresh order now none db = (db, no_order)
reset_failed fresh order now (some o) db =
    let reset = select_where (failed_task_of order) db.tasks in
    let tasks = update_where (failed_task_of order) (reopened now) db.tasks in
    if violates_unique_key tasks then (db, integrity_error) else (
      record db { tasks = tasks; events = map (retry_event fresh order now) reset ++ db.events },
      retried reset,
    )

-- `retry_failed_tasks_for_order`
unfoldable pub retry_failed_tasks_for_order : (Uuid → Uuid) → Uuid → Time → Db → Db × Recovery
unfolding reset_failed fresh_deadline
retry_failed_tasks_for_order fresh order now db =
    reset_failed fresh order now (find_order order db) db
