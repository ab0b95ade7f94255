-- ===== src/Worker/Reschedule.antt =====
-- backend/worker/tasks.py: the transactions that put a transition task back.
use workato_take_home.Prelude.{ℕ, ◌+◌, String, Option, none, some, Text, nat_eq}
use workato_take_home.Common.StateMachine.{state_eq}
use workato_take_home.Common.TaskTypes.{type_eq, status_eq}
use workato_take_home.Store.Schema.{Uuid, Time, Task, Db}
use workato_take_home.Store.Query.{find_task}
use workato_take_home.Worker.Settings.{Settings, or_default, after_delay, task_retry_delay}
use workato_take_home.Worker.Specs.{RestaurantTransitionSpec}
use workato_take_home.Worker.Results.{
  ProcessingResult, result, raised_overflow, missing_task, poll_scheduled,
}
use workato_take_home.Worker.Lease.{reschedule_poll_task, retry_or_fail_claimed_task, report}
use workato_take_home.Worker.Rows.{Row, load_transition_task_row, owned_task_check_result, checked}

pub schedule_poll :
    RestaurantTransitionSpec → String → Time → Time → Row → Db → Db × ProcessingResult
unfolding reschedule_poll_task
schedule_poll spec worker next_run_at now row db =
    report poll_scheduled row.task.order_id spec.source_state spec.target_state none
      (reschedule_poll_task row.task.id worker next_run_at now db)

-- `_reschedule_transition_after_pending`
unfoldable pub reschedule_transition_after_pending :
    Settings
    → RestaurantTransitionSpec
    → Option ℕ
    → Uuid
    → String
    → Time
    → Db
    → Db × ProcessingResult
unfolding checked schedule_poll after_delay
reschedule_transition_after_pending settings spec retry_after task_id worker now db =
    elim (after_delay now (or_default retry_after settings.task_retry_base_delay)) [
      | none ↦ (db, raised_overflow)
      | some next_run_at ↦
          checked (λ r. r) worker now spec.source_state (schedule_poll spec worker next_run_at now)
            (load_transition_task_row spec.source_state task_id db) db
    ]

unfoldable pub retry_owned :
    Settings
    → RestaurantTransitionSpec
    → Text
    → Uuid
    → String
    → Time
    → Option Task
    → Db
    → Db × ProcessingResult
unfolding retry_or_fail_claimed_task owned_task_check_result
retry_owned settings spec reason order_id worker now none db =
    (db, result missing_task none none none none)
retry_owned settings spec reason order_id worker now (some t) db =
    elim (owned_task_check_result worker (some t)) [
      | some skip ↦ (db, skip)
      | none ↦
          retry_or_fail_claimed_task t.id worker order_id spec.source_state spec.target_state
            t.attempts t.max_attempts (now + task_retry_delay settings t.attempts) reason now db
    ]

-- `_reschedule_transition_task`
unfoldable pub reschedule_transition_task :
    Settings
    → RestaurantTransitionSpec
    → Text
    → Uuid
    → Uuid
    → String
    → Time
    → Db
    → Db × ProcessingResult
unfolding retry_owned
reschedule_transition_task settings spec reason order_id task_id worker now db =
    retry_owned settings spec reason order_id worker now (find_task task_id db) db
