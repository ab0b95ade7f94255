-- ===== src/Worker/Transition.antt =====
-- backend/worker/tasks.py: processing a transition task and a courier assignment. The transaction
-- before the call, the call, and the transaction after it; the second is a function of its own,
-- since other transactions may commit in between.
use workato_take_home.Prelude.{String, none, some}
use workato_take_home.Store.Schema.{Uuid, Time, Db}
use workato_take_home.Worker.Settings.{Settings}
use workato_take_home.Worker.Specs.{RestaurantTransitionSpec, courier_assign_spec}
use workato_take_home.Worker.Results.{ProcessingResult, call, done}
use workato_take_home.Worker.Downstream.{
  Request, HttpResult, Reply, outcome, error, Verdict, reached, still_pending, CourierAssignOutcome,
  assigned, not_assigned, call_restaurant_transition, call_courier_assign,
}
use workato_take_home.Worker.Prepare.{prepare_transition_call, prepare_courier_assign_call}
use workato_take_home.Worker.Finalize.{Fresh, finalize_transition_task}
use workato_take_home.Worker.Reschedule.{
  reschedule_transition_after_pending, reschedule_transition_task,
}

-- The client of the simulator, the two instants at which the transactions read the clock, and the
-- identifiers that the second one draws.
pub record Run : Type 0 where
  pub settings : Settings
  pub post : Request → HttpResult
  pub prepared_at : Time
  pub finished_at : Time
  pub fresh : Fresh

-- After the call of a transition task.
unfoldable pub finish_transition :
    Run
    → RestaurantTransitionSpec
    → Uuid
    → Uuid
    → String
    → Reply Verdict
    → Db
    → Db × ProcessingResult
unfolding reschedule_transition_task reschedule_transition_after_pending finalize_transition_task
finish_transition r spec order_id task_id worker (error e) db =
    reschedule_transition_task r.settings spec e order_id task_id worker r.finished_at db
finish_transition r spec order_id task_id worker (outcome (still_pending hint)) db =
    reschedule_transition_after_pending r.settings spec hint task_id worker r.finished_at db
finish_transition r spec order_id task_id worker (outcome reached) db =
    finalize_transition_task r.settings spec none r.fresh task_id worker r.finished_at db

-- `process_transition_task`, with nothing committed by others in between.
unfoldable pub process_transition_task :
    Run → RestaurantTransitionSpec → Uuid → String → Db → Db × ProcessingResult
unfolding prepare_transition_call call_restaurant_transition finish_transition
process_transition_task r spec task_id worker db =
    let (db', prepared) = prepare_transition_call spec task_id worker r.prepared_at db in
    elim prepared [
      | done res ↦ (db', res)
      | call c ↦
          finish_transition r spec c.order_id task_id worker (call_restaurant_transition r.post c)
            db'
    ]

-- After the call of a courier assignment.
unfoldable pub finish_courier_assign :
    Run → Uuid → Uuid → String → Reply CourierAssignOutcome → Db → Db × ProcessingResult
unfolding reschedule_transition_task reschedule_transition_after_pending finalize_transition_task
finish_courier_assign r order_id task_id worker (error e) db =
    reschedule_transition_task r.settings courier_assign_spec e order_id task_id worker
      r.finished_at db
finish_courier_assign r order_id task_id worker (outcome (not_assigned hint)) db =
    reschedule_transition_after_pending r.settings courier_assign_spec hint task_id worker
      r.finished_at db
finish_courier_assign r order_id task_id worker (outcome (assigned courier)) db =
    finalize_transition_task r.settings courier_assign_spec (some courier) r.fresh task_id worker
      r.finished_at db

-- `process_courier_assign_task`, with nothing committed by others in between.
unfoldable pub process_courier_assign_task : Run → Uuid → String → Db → Db × ProcessingResult
unfolding prepare_courier_assign_call call_courier_assign finish_courier_assign
process_courier_assign_task r task_id worker db =
    let (db', prepared) = prepare_courier_assign_call task_id worker r.prepared_at db in
    elim prepared [
      | done res ↦ (db', res)
      | call c ↦
          finish_courier_assign r c.order_id task_id worker (call_courier_assign r.post c) db'
    ]
