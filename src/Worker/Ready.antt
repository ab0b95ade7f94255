-- ===== src/Worker/Ready.antt =====
-- backend/worker/tasks.py: the restaurant readiness check.
use workato_take_home.Prelude.{String, Option, none, some, ℕ, Text, text}
use workato_take_home.Common.StateMachine.{preparing, ready}
use workato_take_home.Store.Schema.{Uuid, Time, Db}
use workato_take_home.Worker.Settings.{Settings, bounded_ready_check_next_run_at}
use workato_take_home.Worker.Specs.{ready_finalization_spec}
use workato_take_home.Worker.Results.{ProcessingResult, Prepared, call, done}
use workato_take_home.Worker.Downstream.{
  Reply, outcome, error, Verdict, reached, still_pending, RestaurantReadyCheckCall,
  call_restaurant_ready_check,
}
use workato_take_home.Worker.Rows.{Row, load_ready_check_task_row, checked}
use workato_take_home.Worker.Finalize.{finalize_transition_task}
use workato_take_home.Worker.Transition.{Run}
use workato_take_home.Worker.Poll.{
  PollCheck, retry_row, refuse, reschedule_after_error, reschedule_after_pending,
}

abbrev pub ready_check : PollCheck
ready_check = record {
  source_state = preparing;
  target_state = ready;
  missing_deadline = text "check_ready task is missing deadline_at";
  deadline_exceeded = text "restaurant ready deadline exceeded";
}

unfoldable pub ready_check_call :
    Settings → String → Time → Row → Db → Db × Prepared RestaurantReadyCheckCall
unfolding retry_row
ready_check_call settings worker now row db = elim row.task.deadline_at [
  | none ↦ refuse (retry_row settings ready_check ready_check.missing_deadline worker now row db)
  | some deadline ↦ elim row.started_at [
    | none ↦ refuse (
        retry_row settings ready_check (text "missing confirmed -> preparing event for check_ready")
          worker now row db)
    | some started ↦ (
      db,
      call (record {
        order_id = row.task.order_id;
        restaurant_ref = row.order.restaurant_ref;
        prep_started_at = started;
      }),
    )
  ]
]

-- `_prepare_ready_check_call`
unfoldable pub prepare_ready_check_call :
    Settings → Uuid → String → Time → Db → Db × Prepared RestaurantReadyCheckCall
unfolding checked ready_check_call
prepare_ready_check_call settings task_id worker now db =
    checked done worker now preparing (ready_check_call settings worker now)
      (load_ready_check_task_row task_id db) db

-- `_reschedule_ready_check_after_error`
unfoldable pub reschedule_ready_check_after_error :
    Settings → Uuid → String → Text → Time → Db → Db × ProcessingResult
unfolding reschedule_after_error
reschedule_ready_check_after_error settings task_id worker reason now db =
    reschedule_after_error settings ready_check reason worker now
      (load_ready_check_task_row task_id db) db

-- `_reschedule_ready_check_after_not_ready`
unfoldable pub reschedule_ready_check_after_not_ready :
    Settings → Uuid → String → Option ℕ → Time → Db → Db × ProcessingResult
unfolding reschedule_after_pending
reschedule_ready_check_after_not_ready settings task_id worker retry_after now db =
    reschedule_after_pending settings ready_check
      (bounded_ready_check_next_run_at settings now retry_after) worker now
      (load_ready_check_task_row task_id db) db

-- After the call of a readiness check.
unfoldable pub finish_ready_check : Run → Uuid → String → Reply Verdict → Db → Db × ProcessingResult
unfolding reschedule_ready_check_after_error finalize_transition_task
    reschedule_ready_check_after_not_ready
finish_ready_check r task_id worker (error e) db =
    reschedule_ready_check_after_error r.settings task_id worker e r.finished_at db
finish_ready_check r task_id worker (outcome reached) db =
    finalize_transition_task r.settings ready_finalization_spec none r.fresh task_id worker
      r.finished_at db
finish_ready_check r task_id worker (outcome (still_pending hint)) db =
    reschedule_ready_check_after_not_ready r.settings task_id worker hint r.finished_at db

-- `process_ready_check_task`, with nothing committed by others in between.
unfoldable pub process_ready_check_task : Run → Uuid → String → Db → Db × ProcessingResult
unfolding prepare_ready_check_call call_restaurant_ready_check finish_ready_check
process_ready_check_task r task_id worker db =
    let (db', prepared) = prepare_ready_check_call r.settings task_id worker r.prepared_at db in
    elim prepared [
      | done res ↦ (db', res)
      | call c ↦ finish_ready_check r task_id worker (call_restaurant_ready_check r.post c) db'
    ]
