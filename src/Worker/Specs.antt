-- ===== src/Worker/Specs.antt =====
-- backend/worker/tasks.py: the table of transitions that workers perform.
use workato_take_home.Prelude.{String, Option, none, some}
use workato_take_home.Common.StateMachine.{
  OrderState, placed, confirmed, preparing, ready, out_for_delivery, delivered,
}
use workato_take_home.Common.TaskTypes.{TaskType, advance_state, check_ready, check_delivery}

pub record RestaurantTransitionSpec : Type 0 where
  pub source_state : OrderState
  pub target_state : OrderState
  pub endpoint_path : String
  pub expected_status : String
  pub pending_status : String
  pub action_name : String
  pub source_started_at_field : String
  pub next_task_type : Option TaskType
  pub next_target_state : Option OrderState

abbrev pub confirm_spec : RestaurantTransitionSpec
confirm_spec = record {
  source_state = placed;
  target_state = confirmed;
  endpoint_path = "/restaurant/confirm";
  expected_status = "confirmed";
  pending_status = "not_confirmed";
  action_name = "restaurant confirm";
  source_started_at_field = "placed_at";
  next_task_type = some advance_state;
  next_target_state = some preparing;
}

abbrev pub start_prep_spec : RestaurantTransitionSpec
start_prep_spec = record {
  source_state = confirmed;
  target_state = preparing;
  endpoint_path = "/restaurant/start-prep";
  expected_status = "preparing";
  pending_status = "not_preparing";
  action_name = "restaurant start-prep";
  source_started_at_field = "confirmed_at";
  next_task_type = some check_ready;
  next_target_state = some ready;
}

-- RESTAURANT_TRANSITION_SPECS.get(target_state); None is no key.
abbrev pub restaurant_transition_specs : Option OrderState → Option RestaurantTransitionSpec
restaurant_transition_specs (some confirmed) = some confirm_spec
restaurant_transition_specs (some preparing) = some start_prep_spec
restaurant_transition_specs _ = none

abbrev pub ready_finalization_spec : RestaurantTransitionSpec
ready_finalization_spec = record {
  source_state = preparing;
  target_state = ready;
  endpoint_path = "/restaurant/check-ready";
  expected_status = "ready";
  pending_status = "not_ready";
  action_name = "restaurant check-ready";
  source_started_at_field = "prep_started_at";
  next_task_type = some advance_state;
  next_target_state = some out_for_delivery;
}

abbrev pub courier_assign_spec : RestaurantTransitionSpec
courier_assign_spec = record {
  source_state = ready;
  target_state = out_for_delivery;
  endpoint_path = "/courier/assign";
  expected_status = "assigned";
  pending_status = "not_assigned";
  action_name = "courier assign";
  source_started_at_field = "ready_at";
  next_task_type = some check_delivery;
  next_target_state = some delivered;
}

abbrev pub delivery_finalization_spec : RestaurantTransitionSpec
delivery_finalization_spec = record {
  source_state = out_for_delivery;
  target_state = delivered;
  endpoint_path = "/courier/check-delivery";
  expected_status = "delivered";
  pending_status = "in_transit";
  action_name = "courier check-delivery";
  source_started_at_field = "dispatched_at";
  next_task_type = none;
  next_target_state = none;
}
