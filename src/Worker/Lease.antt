-- ===== src/Worker/Lease.antt =====
-- backend/worker/tasks.py: the updates of a claimed task. Each is guarded by the lease, status
-- running and locked_by this worker, and returns whether its row count is 1.
use workato_take_home.Prelude.{
  ℕ, ◌≡◌, true, arith, ◌+◌, String, Bool, ◌&&◌, Option, none, some, Text, leb, ◌==◌, string_eq,
  holds_value, or_else, get_or, if◌then◌else◌,
}
use workato_take_home.Common.StateMachine.{OrderState}
use workato_take_home.Common.TaskTypes.{pending, running, completed, failed, status_eq}
use workato_take_home.Store.Table.{find, update_by_id, find-update_by_id, hits}
use workato_take_home.Store.Schema.{Uuid, Time, Task, Db}
use workato_take_home.Store.Query.{task_id_of, find_task}
use workato_take_home.Worker.Results.{
  Action, ProcessingResult, result, retry_scheduled, lost_ownership,
}

abbrev pub owned_by : String → Task → Bool
owned_by worker t = t.status == running && holds_value t.locked_by worker

-- `update order_tasks set … where id = … and status = 'running' and locked_by = …`
abbrev pub update_owned : Uuid → String → (Task → Task) → Db → Db × Bool
update_owned task_id worker f db = (
  record db { tasks = update_by_id task_id_of task_id (owned_by worker) f db.tasks },
  hits task_id_of task_id (owned_by worker) db.tasks,
)

-- The row of an owned task after such an update.
pub owned_update :
    (id : Uuid) (w : String) (db : Db) (t : Task)
    → find_task id db ≡ some t
    → owned_by w t ≡ true
    → (f : Task → Task) → ((s : Task) → (f s).id ≡ s.id)
    → find task_id_of id (update_by_id task_id_of id (owned_by w) f db.tasks) ≡ some (f t)
owned_update id w db t found ours f keeps =
    ground (arith, found, ours, find-update_by_id task_id_of id (owned_by w) f id db.tasks keeps)

abbrev pub released : Option Time → Option Text → Time → Task → Task
released next_run_at last_error updated_at t = record t {
  status = pending;
  next_run_at = get_or next_run_at t.next_run_at;
  last_error = or_else last_error t.last_error;
  locked_by = none;
  locked_until = none;
  updated_at = updated_at;
}

unfoldable pub release_claimed_task :
    Uuid → String → Option Time → Option Text → Time → Db → Db × Bool
release_claimed_task task_id worker next_run_at last_error updated_at =
    update_owned task_id worker (released next_run_at last_error updated_at)

abbrev pub completed_task : Time → Task → Task
completed_task completed_at t = record t {
  status = completed;
  completed_at = some completed_at;
  last_error = none;
  locked_by = none;
  locked_until = none;
  updated_at = completed_at;
}

unfoldable pub complete_claimed_task : Uuid → String → Time → Db → Db × Bool
complete_claimed_task task_id worker completed_at =
    update_owned task_id worker (completed_task completed_at)

abbrev pub rescheduled : Time → Text → Time → Task → Task
rescheduled next_run_at last_error updated_at t = record t {
  status = pending;
  attempts = t.attempts + 1;
  next_run_at = next_run_at;
  last_error = some last_error;
  locked_by = none;
  locked_until = none;
  updated_at = updated_at;
}

unfoldable pub reschedule_claimed_task : Uuid → String → Time → Text → Time → Db → Db × Bool
reschedule_claimed_task task_id worker next_run_at last_error updated_at =
    update_owned task_id worker (rescheduled next_run_at last_error updated_at)

abbrev pub polled : Time → Time → Task → Task
polled next_run_at updated_at t = record t {
  status = pending;
  next_run_at = next_run_at;
  last_error = none;
  locked_by = none;
  locked_until = none;
  updated_at = updated_at;
}

unfoldable pub reschedule_poll_task : Uuid → String → Time → Time → Db → Db × Bool
reschedule_poll_task task_id worker next_run_at updated_at =
    update_owned task_id worker (polled next_run_at updated_at)

abbrev pub failed_task : Text → Time → Task → Task
failed_task last_error updated_at t = record t {
  status = failed;
  attempts = t.attempts + 1;
  last_error = some last_error;
  locked_by = none;
  locked_until = none;
  updated_at = updated_at;
}

unfoldable pub fail_claimed_task : Uuid → String → Text → Time → Db → Db × Bool
fail_claimed_task task_id worker last_error updated_at =
    update_owned task_id worker (failed_task last_error updated_at)

abbrev pub timed_out_task : Text → Time → Task → Task
timed_out_task last_error updated_at t = record t {
  status = failed;
  last_error = some last_error;
  locked_by = none;
  locked_until = none;
  updated_at = updated_at;
}

-- `_fail_claimed_task_without_attempt_increment`
unfoldable pub fail_claimed_task_without_attempt_increment :
    Uuid → String → Text → Time → Db → Db × Bool
fail_claimed_task_without_attempt_increment task_id worker last_error updated_at =
    update_owned task_id worker (timed_out_task last_error updated_at)

-- The result of a guarded update: `action` if it hit its row, else the lease is lost.
abbrev pub report :
    Action → Uuid → OrderState → OrderState → Option Text → Db × Bool → Db × ProcessingResult
report action order_id from to error (db, hit) = (
  db,
  result (if hit then action else lost_ownership) (some order_id) (some from) (some to) error,
)

-- `_retry_or_fail_claimed_task`
unfoldable pub retry_or_fail_claimed_task :
    Uuid
    → String
    → Uuid
    → OrderState
    → OrderState
    → ℕ
    → ℕ
    → Time
    → Text
    → Time
    → Db
    → Db × ProcessingResult
unfolding fail_claimed_task reschedule_claimed_task
retry_or_fail_claimed_task task_id worker order_id from to attempts max next_run_at error now db =
    if leb max (attempts + 1)
    then report Action.failed order_id from to (some error)
        (fail_claimed_task task_id worker error now db)
    else report retry_scheduled order_id from to (some error)
        (reschedule_claimed_task task_id worker next_run_at error now db)
