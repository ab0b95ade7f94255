-- ===== src/Worker/Followup.antt =====
-- backend/worker/tasks.py: the task that a committed transition leaves behind.
use workato_take_home.Prelude.{◌+◌, Option, none, some, List, ◌∷◌, nat_eq, if◌then◌else◌}
use workato_take_home.Common.StateMachine.{OrderState, state_eq}
use workato_take_home.Common.TaskTypes.{
  TaskType, pending, check_ready, check_delivery, type_eq, status_eq,
}
use workato_take_home.Store.Table.{exists_where}
use workato_take_home.Store.Constraints.{active_duplicate}
use workato_take_home.Store.Schema.{Uuid, Time, Task}
use workato_take_home.Worker.Settings.{Settings}
use workato_take_home.Worker.Specs.{RestaurantTransitionSpec}

abbrev pub followup_task : Uuid → Uuid → TaskType → OrderState → Time → Option Time → Time → Task
followup_task id order work target next_run_at deadline_at created_at = record {
  id = id;
  order_id = order;
  task_type = work;
  target_state = some target;
  status = pending;
  attempts = 0;
  max_attempts = 5;
  next_run_at = next_run_at;
  deadline_at = deadline_at;
  locked_by = none;
  locked_until = none;
  dedupe_key = some (record { order = order; work = work; target = target });
  last_error = none;
  created_at = created_at;
  updated_at = created_at;
  completed_at = none;
}

-- `_insert_followup_task`, on the table `order_tasks`: `on conflict … do nothing`.
unfoldable pub insert_followup_task :
    Uuid → Uuid → TaskType → OrderState → Time → Option Time → Time → List Task → List Task
insert_followup_task id order work target next_run_at deadline_at created_at tasks =
    if exists_where (active_duplicate order work target) tasks
    then tasks
    else followup_task id order work target next_run_at deadline_at created_at ∷ tasks

-- `_followup_schedule_for_spec`
unfoldable pub followup_schedule_for_spec : Settings → Option TaskType → Time → Time × Option Time
followup_schedule_for_spec settings (some check_ready) occurred_at = (
  occurred_at + settings.ready_check_initial_delay,
  some (occurred_at + settings.ready_check_deadline),
)
followup_schedule_for_spec settings (some check_delivery) occurred_at = (
  occurred_at + settings.delivery_check_initial_delay,
  some (occurred_at + settings.delivery_check_deadline),
)
followup_schedule_for_spec settings _ occurred_at = (occurred_at, none)

-- The follow-up of a transition, where the spec names one.
unfoldable pub insert_followup :
    Settings → RestaurantTransitionSpec → Uuid → Uuid → Time → List Task → List Task
unfolding followup_schedule_for_spec insert_followup_task
insert_followup settings spec id order now tasks = elim spec.next_task_type [
  | none ↦ tasks
  | some work ↦ elim spec.next_target_state [
    | none ↦ tasks
    | some target ↦
        let (next_run_at, deadline_at) = followup_schedule_for_spec settings (some work) now in
        insert_followup_task id order work target next_run_at deadline_at now tasks
  ]
]
