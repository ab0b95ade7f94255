-- ===== src/Simulator/Phases.antt =====
-- backend/downstream_sim/app.py: the DEFAULT_* constants and the settings of the five endpoints.
-- `finite n` is n + 1 microseconds.
use workato_take_home.Simulator.Config.{finite}
use workato_take_home.Simulator.Delay.{Phase}

abbrev pub restaurant_confirm_phase : Phase
restaurant_confirm_phase = record {
  salt = "restaurant-confirm";
  min_env_name = "RESTAURANT_CONFIRM_AFTER_SECONDS_MIN";
  max_env_name = "RESTAURANT_CONFIRM_AFTER_SECONDS_MAX";
  fixed_env_name = "RESTAURANT_CONFIRM_AFTER_SECONDS";
  default_delay_seconds = finite 2_999_999;
  retry_after_env_name = "RESTAURANT_CONFIRM_RETRY_AFTER_SECONDS";
  default_retry_after_seconds = finite 999_999;
  ready_status = "confirmed";
  pending_status = "not_confirmed";
}

abbrev pub restaurant_start_prep_phase : Phase
restaurant_start_prep_phase = record {
  salt = "restaurant-start-prep";
  min_env_name = "RESTAURANT_START_PREP_AFTER_SECONDS_MIN";
  max_env_name = "RESTAURANT_START_PREP_AFTER_SECONDS_MAX";
  fixed_env_name = "RESTAURANT_START_PREP_AFTER_SECONDS";
  default_delay_seconds = finite 2_999_999;
  retry_after_env_name = "RESTAURANT_START_PREP_RETRY_AFTER_SECONDS";
  default_retry_after_seconds = finite 999_999;
  ready_status = "preparing";
  pending_status = "not_preparing";
}

abbrev pub restaurant_ready_phase : Phase
restaurant_ready_phase = record {
  salt = "restaurant-ready";
  min_env_name = "RESTAURANT_READY_AFTER_SECONDS_MIN";
  max_env_name = "RESTAURANT_READY_AFTER_SECONDS_MAX";
  fixed_env_name = "RESTAURANT_READY_AFTER_SECONDS";
  default_delay_seconds = finite 5_999_999;
  retry_after_env_name = "RESTAURANT_READY_RETRY_AFTER_SECONDS";
  default_retry_after_seconds = finite 1_999_999;
  ready_status = "ready";
  pending_status = "not_ready";
}

abbrev pub courier_assign_phase : Phase
courier_assign_phase = record {
  salt = "courier-assign";
  min_env_name = "COURIER_ASSIGN_AFTER_SECONDS_MIN";
  max_env_name = "COURIER_ASSIGN_AFTER_SECONDS_MAX";
  fixed_env_name = "COURIER_ASSIGN_AFTER_SECONDS";
  default_delay_seconds = finite 2_999_999;
  retry_after_env_name = "COURIER_ASSIGN_RETRY_AFTER_SECONDS";
  default_retry_after_seconds = finite 999_999;
  ready_status = "assigned";
  pending_status = "not_assigned";
}

abbrev pub courier_delivery_phase : Phase
courier_delivery_phase = record {
  salt = "courier-delivery";
  min_env_name = "COURIER_DELIVERED_AFTER_SECONDS_MIN";
  max_env_name = "COURIER_DELIVERED_AFTER_SECONDS_MAX";
  fixed_env_name = "COURIER_DELIVERED_AFTER_SECONDS";
  default_delay_seconds = finite 7_999_999;
  retry_after_env_name = "COURIER_DELIVERED_RETRY_AFTER_SECONDS";
  default_retry_after_seconds = finite 2_999_999;
  ready_status = "delivered";
  pending_status = "in_transit";
}
