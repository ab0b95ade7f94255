-- ===== src/System/Verdicts.antt =====
-- backend/worker/tasks.py: what the simulator must have answered for a call to count as a success.
use workato_take_home.Prelude.{◌≡◌, String}
use workato_take_home.Store.Schema.{Uuid, Time}
use workato_take_home.Worker.Downstream.{
  Request, HttpResult, reached, transition_request, ready_request, delivery_request, assign_request,
}
use workato_take_home.Worker.Specs.{confirm_spec, start_prep_spec}
use workato_take_home.Worker.Answers.{
  Says, call_restaurant_transition-Says, call_restaurant_ready_check-Says,
  call_courier_delivery_check-Says, call_courier_assign-Says,
}
use workato_take_home.Simulator.Stages.{
  Stage, confirming, starting_prep, checking_ready, assigning, checking_delivery, phase_of, ask,
  answer_of, transition_at, readiness_at, assignment_at, delivery_at,
}

-- The request of the worker's call in a stage.
abbrev pub request_of : Stage → Uuid → String → Time → Request
request_of confirming order ref started =
    transition_request (transition_at confirm_spec order ref started)
request_of starting_prep order ref started =
    transition_request (transition_at start_prep_spec order ref started)
request_of checking_ready order ref started = ready_request (readiness_at order ref started)
request_of assigning order ref started = assign_request (assignment_at order ref started)
request_of checking_delivery order ref started = delivery_request (delivery_at order ref started)

-- In every stage, the worker takes its call as a success only if the simulator answered the request of that stage, which
-- holds the order, the restaurant or courier and the start of the stage, with status code 200 and a JSON object whose status
-- is the one by which the stage's endpoint says that it is over.
pub ask-Says :
    (post : Request → HttpResult) (stage : Stage) (order : Uuid) (ref : String) (started : Time)
    (courier : String)
    → ask post stage order ref started ≡ answer_of stage courier reached
    → Says (post (request_of stage order ref started)) (phase_of stage).ready_status
ask-Says post confirming order ref started courier e =
    call_restaurant_transition-Says post (transition_at confirm_spec order ref started) cc
ask-Says post starting_prep order ref started courier e =
    call_restaurant_transition-Says post (transition_at start_prep_spec order ref started) cc
ask-Says post checking_ready order ref started courier e =
    call_restaurant_ready_check-Says post (readiness_at order ref started) cc
ask-Says post assigning order ref started courier e =
    call_courier_assign-Says post (assignment_at order ref started) courier cc
ask-Says post checking_delivery order ref started courier e =
    call_courier_delivery_check-Says post (delivery_at order ref started) cc
