-- ===== src/Worker/Delivery.antt =====
-- backend/worker/tasks.py: the courier delivery check.
use workato_take_home.Prelude.{String, Option, none, some, ℕ, Text, text}
use workato_take_home.Common.StateMachine.{out_for_delivery, delivered}
use workato_take_home.Store.Schema.{Uuid, Time, Db}
use workato_take_home.Worker.Settings.{Settings, bounded_delivery_check_next_run_at}
use workato_take_home.Worker.Specs.{delivery_finalization_spec}
use workato_take_home.Worker.Results.{ProcessingResult, Prepared, call, done}
use workato_take_home.Worker.Downstream.{
  Reply, outcome, error, Verdict, reached, still_pending, CourierDeliveryCheckCall,
  call_courier_delivery_check,
}
use workato_take_home.Worker.Rows.{Row, load_delivery_check_task_row, checked}
use workato_take_home.Worker.Finalize.{finalize_transition_task}
use workato_take_home.Worker.Transition.{Run}
use workato_take_home.Worker.Poll.{
  PollCheck, retry_row, refuse, reschedule_after_error, reschedule_after_pending,
}

abbrev pub delivery_check : PollCheck
delivery_check = record {
  source_state = out_for_delivery;
  target_state = delivered;
  missing_deadline = text "check_delivery task is missing deadline_at";
  deadline_exceeded = text "courier delivery deadline exceeded";
}

unfoldable pub delivery_check_call :
    Settings → String → Time → Row → Db → Db × Prepared CourierDeliveryCheckCall
unfolding retry_row
delivery_check_call settings worker now row db = elim row.task.deadline_at [
  | none ↦
      refuse (retry_row settings delivery_check delivery_check.missing_deadline worker now row db)
  | some deadline ↦ elim row.started_at [
    | none ↦ refuse (
        retry_row settings delivery_check
          (text "missing ready -> out_for_delivery event for check_delivery") worker now row db)
    | some started ↦ elim row.order.courier_ref [
      | none ↦ refuse (
          retry_row settings delivery_check (text "missing courier_ref for check_delivery") worker
            now row db)
      | some courier ↦ (
        db,
        call (record {
          order_id = row.task.order_id;
          courier_ref = courier;
          dispatched_at = started;
        }),
      )
    ]
  ]
]

-- `_prepare_delivery_check_call`
unfoldable pub prepare_delivery_check_call :
    Settings → Uuid → String → Time → Db → Db × Prepared CourierDeliveryCheckCall
unfolding checked delivery_check_call
prepare_delivery_check_call settings task_id worker now db =
    checked done worker now out_for_delivery (delivery_check_call settings worker now)
      (load_delivery_check_task_row task_id db) db

-- `_reschedule_delivery_check_after_error`
unfoldable pub reschedule_delivery_check_after_error :
    Settings → Uuid → String → Text → Time → Db → Db × ProcessingResult
unfolding reschedule_after_error
reschedule_delivery_check_after_error settings task_id worker reason now db =
    reschedule_after_error settings delivery_check reason worker now
      (load_delivery_check_task_row task_id db) db

-- `_reschedule_delivery_check_after_in_transit`
unfoldable pub reschedule_delivery_check_after_in_transit :
    Settings → Uuid → String → Option ℕ → Time → Db → Db × ProcessingResult
unfolding reschedule_after_pending
reschedule_delivery_check_after_in_transit settings task_id worker retry_after now db =
    reschedule_after_pending settings delivery_check
      (bounded_delivery_check_next_run_at settings now retry_after) worker now
      (load_delivery_check_task_row task_id db) db

-- After the call of a delivery check.
unfoldable pub finish_delivery_check :
    Run → Uuid → String → Reply Verdict → Db → Db × ProcessingResult
unfolding reschedule_delivery_check_after_error finalize_transition_task
    reschedule_delivery_check_after_in_transit
finish_delivery_check r task_id worker (error e) db =
    reschedule_delivery_check_after_error r.settings task_id worker e r.finished_at db
finish_delivery_check r task_id worker (outcome reached) db =
    finalize_transition_task r.settings delivery_finalization_spec none r.fresh task_id worker
      r.finished_at db
finish_delivery_check r task_id worker (outcome (still_pending hint)) db =
    reschedule_delivery_check_after_in_transit r.settings task_id worker hint r.finished_at db

-- `process_delivery_check_task`, with nothing committed by others in between.
unfoldable pub process_delivery_check_task : Run → Uuid → String → Db → Db × ProcessingResult
unfolding prepare_delivery_check_call call_courier_delivery_check finish_delivery_check
process_delivery_check_task r task_id worker db =
    let (db', prepared) = prepare_delivery_check_call r.settings task_id worker r.prepared_at db in
    elim prepared [
      | done res ↦ (db', res)
      | call c ↦ finish_delivery_check r task_id worker (call_courier_delivery_check r.post c) db'
    ]
