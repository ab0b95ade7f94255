-- ===== src/Examples/Simulator.antt =====
-- The theorems on the simulator at a sample configuration.
use workato_take_home.Prelude.{
  ℕ, ◌≤◌, ◌≡◌, refl, String, true, false, Option, none, some, [], ◌∷◌, arith, ◌==◌, string_eq,
  if◌then◌else◌,
}
use workato_take_home.Common.StateMachine.{OrderState, placed, next_order_state}
use workato_take_home.Store.Table.{find, exists_where, update_by_id}
use workato_take_home.Worker.Settings.{Float, micros}
use workato_take_home.Worker.Downstream.{Json, number, still_pending, call_courier_delivery_check}
use workato_take_home.Simulator.Library.{Library}
use workato_take_home.Simulator.Config.{read_positive_float_env, read_delay_range}
use workato_take_home.Simulator.Delay.{deterministic_delay_seconds}
use workato_take_home.Simulator.Phases.{restaurant_ready_phase}
use workato_take_home.Simulator.KillSwitch.{initial_kill_switches, switch_of, set_kill_switch}
use workato_take_home.Simulator.Endpoints.{serve}
use workato_take_home.Simulator.Bounds.{byte, none_left, deterministic_delay_seconds-Within}
use workato_take_home.Simulator.Stages.{
  confirming, checking_ready, checking_delivery, ask, answer_of, courier_for,
}
use workato_take_home.Simulator.Contract.{Configured, ask-served}
use workato_take_home.Simulator.Switching.{Toggled, set_kill_switch-Toggled}
use workato_take_home.System.Transactions.{after_call, execute}
use workato_take_home.System.Progress.{Reaches, assigned_courier}
use workato_take_home.System.Simulated.{after_call-simulated}
use workato_take_home.System.Verdicts.{request_of, ask-Says}
use workato_take_home.Worker.Answers.{Says}
use workato_take_home.Examples.Samples.{yes, run, claimed_db, claimed_3, placed_1}

-- A window from one to three seconds for the readiness of an order, and the defaults for the rest.
abbrev window_env : String → Option String
window_env name =
    if name == "RESTAURANT_READY_AFTER_SECONDS_MIN"
    then some "1"
    else if name == "RESTAURANT_READY_AFTER_SECONDS_MAX"
    then some "3"
    else none

abbrev seconds : String → Option Float
seconds raw = if raw == "1" then some (micros 1_000_000) else some (micros 3_000_000)

abbrev encode_finite : Float → Option Json
encode_finite (micros n) = some (number n)
encode_finite _ = none

abbrev pub sample_library : Library
sample_library = record {
  getenv = window_env;
  float = seconds;
  sha256 = λ value. 128 ∷ 0 ∷ 0 ∷ 0 ∷ 0 ∷ 0 ∷ 0 ∷ 0 ∷ 7 ∷ [];
  md5 = λ value. "c4ca4238a0b923820dcc509a6f75849b";
  str = λ id. "order";
  encode = encode_finite;
  repr = λ fields. [];
  decode_error = [];
}

deterministic_delay_seconds-Within_example :
    (d : ℕ) × ((deterministic_delay_seconds sample_library restaurant_ready_phase "order"
        ≡ micros d)
      × ((1_000_000 ≤ d) × (d ≤ 3_000_000)))
unfolding read_delay_range
deterministic_delay_seconds-Within_example =
    deterministic_delay_seconds-Within sample_library restaurant_ready_phase "order" 999_999
      2_999_999
      (λ value. byte (omega arith) (
        byte (omega arith) (
          byte (omega arith) (
            byte (omega arith) (
              byte (omega arith) (
                byte (omega arith)
                  (byte (omega arith) (byte (omega arith) (byte (omega arith) none_left)))))))))
      refl

sample_Configured : Configured sample_library checking_ready 1 2_000_000 1_999_999
unfolding deterministic_delay_seconds read_positive_float_env
sample_Configured = record { delayed = refl; retried = refl }

ask-served_example :
    ask (serve sample_library initial_kill_switches 1_000_000) checking_ready 1 "restaurant" 20
    ≡ answer_of checking_ready "" (still_pending (some 2_000_000))
unfolding switch_of
ask-served_example =
    ask-served sample_library initial_kill_switches 1_000_000 1 "restaurant" 20 checking_ready
      2_000_000 1_999_999 refl refl (λ n. refl) refl sample_Configured

set_kill_switch-Toggled_example :
    Toggled "courier_assign" true false initial_kill_switches
      (set_kill_switch "courier_assign" true initial_kill_switches)
unfolding switch_of
set_kill_switch-Toggled_example =
    set_kill_switch-Toggled "courier_assign" true false initial_kill_switches refl

confirm_Configured : Configured sample_library confirming 1 3_000_000 999_999
unfolding deterministic_delay_seconds read_positive_float_env
confirm_Configured = record { delayed = refl; retried = refl }

after_call-simulated_example :
    (target : OrderState) × ((next_order_state placed ≡ some target)
      × Reaches 1 target 40 (assigned_courier placed (courier_for sample_library 1)) placed_1 (
          execute
            (after_call run
              (ask
                (serve sample_library initial_kill_switches 3_000_010)
                confirming
                1
                "restaurant"
                10)
              3
              "w")
            claimed_db))
unfolding execute find exists_where update_by_id next_order_state switch_of
after_call-simulated_example =
    after_call-simulated run "w" claimed_db claimed_3 placed_1 sample_library initial_kill_switches
      3_000_010 "restaurant" 10 confirming 3_000_000 999_999 refl refl refl
      (record { of_order = refl; work = refl; target = refl; live = refl }) refl refl refl
      (λ n. refl) refl confirm_Configured (omega arith)

ask-Says_example : Says (yes "delivered" (request_of checking_delivery 1 "courier" 30)) "delivered"
unfolding call_courier_delivery_check
ask-Says_example = ask-Says (yes "delivered") checking_delivery 1 "courier" 30 "" refl
