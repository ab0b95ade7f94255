-- ===== src/Simulator/Stages.antt =====
-- backend/worker/tasks.py and backend/downstream_sim/app.py: the stages of an order that a worker ends by
-- a call, with the service and the endpoint of each.
use Prim.Native.String.{◌++◌ as ◌++ₛ◌}
use workato_take_home.Prelude.{ℕ, String, some, leb, if◌then◌else◌}
use workato_take_home.Common.StateMachine.{
  OrderState, placed, confirmed, preparing, ready, out_for_delivery,
}
use workato_take_home.Store.Schema.{Uuid, Time}
use workato_take_home.Worker.Specs.{RestaurantTransitionSpec, confirm_spec, start_prep_spec}
use workato_take_home.Worker.Downstream.{
  RestaurantTransitionCall, RestaurantReadyCheckCall, CourierAssignCall, CourierDeliveryCheckCall,
  Request, HttpResult, outcome, Verdict, reached, still_pending, assigned, not_assigned,
  call_restaurant_transition, call_restaurant_ready_check, call_courier_delivery_check,
  call_courier_assign,
}
use workato_take_home.Simulator.Library.{Library}
use workato_take_home.Simulator.Delay.{Phase}
use workato_take_home.Simulator.Phases.{
  restaurant_confirm_phase, restaurant_start_prep_phase, restaurant_ready_phase,
  courier_assign_phase, courier_delivery_phase,
}
use workato_take_home.Simulator.Endpoints.{prefix}
use workato_take_home.System.Transactions.{Answer, verdict, assignment}

-- The stages of an order that end with a call to the simulator.
pub data Stage : Type 0 where
  confirming starting_prep checking_ready assigning checking_delivery : Stage

abbrev pub service_of : Stage → String
service_of confirming = "restaurant_confirm"
service_of starting_prep = "restaurant_start_prep"
service_of checking_ready = "restaurant_check_ready"
service_of assigning = "courier_assign"
service_of checking_delivery = "courier_check_delivery"

abbrev pub phase_of : Stage → Phase
phase_of confirming = restaurant_confirm_phase
phase_of starting_prep = restaurant_start_prep_phase
phase_of checking_ready = restaurant_ready_phase
phase_of assigning = courier_assign_phase
phase_of checking_delivery = courier_delivery_phase

-- The worker's calls: of an order, its restaurant or courier, and the start of a stage.
abbrev pub transition_at :
    RestaurantTransitionSpec → Uuid → String → Time → RestaurantTransitionCall
transition_at spec order ref started = record {
  order_id = order;
  restaurant_ref = ref;
  source_started_at = started;
  spec = spec;
}

abbrev pub readiness_at : Uuid → String → Time → RestaurantReadyCheckCall
readiness_at order ref started = record {
  order_id = order;
  restaurant_ref = ref;
  prep_started_at = started;
}

abbrev pub assignment_at : Uuid → String → Time → CourierAssignCall
assignment_at order ref started = record {
  order_id = order;
  restaurant_ref = ref;
  ready_at = started;
}

abbrev pub delivery_at : Uuid → String → Time → CourierDeliveryCheckCall
delivery_at order ref started = record {
  order_id = order;
  courier_ref = ref;
  dispatched_at = started;
}

abbrev pub ask : (Request → HttpResult) → Stage → Uuid → String → Time → Answer
ask post confirming order ref started =
    verdict (call_restaurant_transition post (transition_at confirm_spec order ref started))
ask post starting_prep order ref started =
    verdict (call_restaurant_transition post (transition_at start_prep_spec order ref started))
ask post checking_ready order ref started =
    verdict (call_restaurant_ready_check post (readiness_at order ref started))
ask post assigning order ref started =
    assignment (call_courier_assign post (assignment_at order ref started))
ask post checking_delivery order ref started =
    verdict (call_courier_delivery_check post (delivery_at order ref started))

-- What a stage makes of a delay: it is over, or the hint says when to ask again.
abbrev pub answer_of : Stage → String → Verdict → Answer
answer_of assigning courier reached = assignment (outcome (assigned courier))
answer_of assigning courier (still_pending hint) = assignment (outcome (not_assigned hint))
answer_of _ courier v = verdict (outcome v)

abbrev pub by_clock : Time → Time → ℕ → Verdict
by_clock now ready_at hint = if leb ready_at now then reached else still_pending (some hint)

abbrev pub courier_for : Library → Uuid → String
courier_for lib order = "courier-" ++ₛ prefix 12 (lib.md5 (lib.str order))

-- The order's state in a stage.
abbrev pub source_of : Stage → OrderState
source_of confirming = placed
source_of starting_prep = confirmed
source_of checking_ready = preparing
source_of assigning = ready
source_of checking_delivery = out_for_delivery
