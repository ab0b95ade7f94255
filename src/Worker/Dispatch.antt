-- ===== src/Worker/Dispatch.antt =====
-- backend/worker/tasks.py: `claim_and_process_one_task`.
use workato_take_home.Prelude.{
  ◌+◌, String, Bool, true, false, Option, none, some, ◌++◌, Text, text, if◌then◌else◌,
}
use workato_take_home.Common.StateMachine.{
  OrderState, placed, confirmed, preparing, ready, out_for_delivery, delivered,
}
use workato_take_home.Common.StateMachine
use workato_take_home.Common.TaskTypes.{
  TaskType, advance_state, check_ready, check_pickup, check_delivery,
}
use workato_take_home.Store.Schema.{Uuid, Time, Task, Db}
use workato_take_home.Worker.Specs.{RestaurantTransitionSpec, restaurant_transition_specs}
use workato_take_home.Worker.Results.{ProcessingResult, is_raised}
use workato_take_home.Worker.Loop.{Round, returned, raised}
use workato_take_home.Worker.Errors.{short_error}
use workato_take_home.Worker.Lease.{release_claimed_task}
use workato_take_home.Worker.Claim.{claim_one_task}
use workato_take_home.Worker.Transition.{Run, process_transition_task, process_courier_assign_task}
use workato_take_home.Worker.Ready.{process_ready_check_task}
use workato_take_home.Worker.Delivery.{process_delivery_check_task}

-- Which handler a claimed task goes to.
pub data Handler : Type 0 where
  transition : RestaurantTransitionSpec → Handler
  courier_assign readiness_check delivery_check unsupported : Handler

spec_handler : Option RestaurantTransitionSpec → Handler
spec_handler (some spec) = transition spec
spec_handler none = unsupported

unfoldable pub handler_of : TaskType → Option OrderState → Handler
unfolding spec_handler
handler_of advance_state (some out_for_delivery) = courier_assign
handler_of advance_state target = spec_handler (restaurant_transition_specs target)
handler_of check_ready (some ready) = readiness_check
handler_of check_delivery (some delivered) = delivery_check
handler_of _ _ = unsupported

type_text : TaskType → Text
type_text advance_state = text "advance_state"
type_text check_ready = text "check_ready"
type_text check_pickup = text "check_pickup"
type_text check_delivery = text "check_delivery"

state_text : Option OrderState → Text
state_text none = text "None"
state_text (some placed) = text "placed"
state_text (some confirmed) = text "confirmed"
state_text (some preparing) = text "preparing"
state_text (some ready) = text "ready"
state_text (some out_for_delivery) = text "out_for_delivery"
state_text (some delivered) = text "delivered"
state_text (some StateMachine.cancelled) = text "cancelled"
state_text (some StateMachine.failed) = text "failed"

unfoldable pub unsupported_error : Task → Text
unfolding type_text state_text
unsupported_error t = short_error (
    text "unsupported task type="
    ++ (type_text t.task_type
        ++ (text " target=" ++ (state_text t.target_state ++ text "; waiting for handler"))))

-- A task without a handler is released, to be looked at again later.
unfoldable pub release_unsupported : Run → Task → String → Db → Db
unfolding release_claimed_task unsupported_error
release_unsupported r t worker db =
    (release_claimed_task t.id worker
      (some (r.finished_at + r.settings.unsupported_task_release_delay))
      (some (unsupported_error t)) r.finished_at db).0

unfoldable pub process_with : Handler → Run → Task → String → Db → Db
unfolding process_transition_task process_courier_assign_task process_ready_check_task
    process_delivery_check_task release_unsupported
process_with (transition spec) r t worker db = (process_transition_task r spec t.id worker db).0
process_with courier_assign r t worker db = (process_courier_assign_task r t.id worker db).0
process_with readiness_check r t worker db = (process_ready_check_task r t.id worker db).0
process_with delivery_check r t worker db = (process_delivery_check_task r t.id worker db).0
process_with unsupported r t worker db = release_unsupported r t worker db

round_of : ProcessingResult → Round
round_of res = if is_raised res.action then raised else returned true

-- Whether the handler returns or raises.
process_round : Handler → Run → Task → String → Db → Round
unfolding round_of process_transition_task process_courier_assign_task process_ready_check_task
    process_delivery_check_task
process_round (transition spec) r t worker db =
    round_of (process_transition_task r spec t.id worker db).1
process_round courier_assign r t worker db =
    round_of (process_courier_assign_task r t.id worker db).1
process_round readiness_check r t worker db = round_of (process_ready_check_task r t.id worker db).1
process_round delivery_check r t worker db =
    round_of (process_delivery_check_task r t.id worker db).1
process_round unsupported r t worker db = returned true

unfoldable pub process_claimed : Run → String → Db → Option Task → Db × Round
unfolding handler_of process_with process_round
process_claimed r worker db none = (db, returned false)
process_claimed r worker db (some t) =
    let handler = handler_of t.task_type t.target_state in
    (process_with handler r t worker db, process_round handler r t worker db)

-- `claim_and_process_one_task`: `locked` are the rows that other transactions hold at the claim.
unfoldable pub claim_and_process_one_task : (Uuid → Bool) → Run → String → Time → Db → Db × Round
unfolding claim_one_task process_claimed
claim_and_process_one_task locked r worker now db =
    let (db', claimed) = claim_one_task locked worker now db in process_claimed r worker db' claimed
