-- ===== src/Simulator/Contract.antt =====
-- backend/worker/tasks.py against backend/downstream_sim/app.py: the five calls of a worker, answered
-- by the endpoints of the simulator.
use Prim.Native.String.{◌++◌ as ◌++ₛ◌}
use Prim.Native.String.append
use workato_take_home.Prelude.{
  ℕ, suc, ◌+◌, ◌≡◌, refl, ◌∙◌, String, true, false, Option, some, leb, inl, inr, Bool-cases, Text,
}
use workato_take_home.Store.Schema.{Uuid, Time}
use workato_take_home.Worker.Settings.{micros}
use workato_take_home.Worker.Downstream.{
  number, error, call_restaurant_transition, call_restaurant_ready_check,
  call_courier_delivery_check, call_courier_assign,
}
use workato_take_home.Simulator.Library.{Library}
use workato_take_home.Simulator.Config.{finite, read_positive_float_env}
use workato_take_home.Simulator.Delay.{
  StatusResponse, timedelta, deterministic_delay_seconds, status_at, delayed_status_response,
}
use workato_take_home.Simulator.KillSwitch.{KillSwitches, switch_of}
use workato_take_home.Simulator.Endpoints.{
  Endpoint, http_exception, spaced, prefix, is_empty, respond, respond_assigned,
  raise_if_service_killed, sent, serve, status_fields, validated, confirm_restaurant_order,
  start_restaurant_prep, check_restaurant_ready, assign_courier, check_courier_delivery,
}
use workato_take_home.System.Transactions.{Answer, verdict, assignment}
use workato_take_home.Simulator.Stages.{
  Stage, confirming, starting_prep, checking_ready, assigning, checking_delivery, service_of,
  phase_of, ask, answer_of, by_clock, courier_for,
}

abbrev endpoint_of : Library → Stage → String → Option StatusResponse → Endpoint
endpoint_of lib assigning id response = respond_assigned lib id response
endpoint_of lib _ id response = respond lib response

module _ (lib : Library) (switches : KillSwitches) (now : Time) (order : Uuid) (ref : String)
    (started : Time) where
  -- A call whose request names an order and a restaurant or courier reaches the endpoint of its stage.
  pub ask-routed :
      (stage : Stage)
      → is_empty (lib.str order) ≡ false
      → is_empty ref ≡ false
      → ask (serve lib switches now) stage order ref started
        ≡ ask
            (λ _. sent lib switches now (
              raise_if_service_killed lib switches now (service_of stage) (
                endpoint_of lib stage
                  (lib.str order)
                  (delayed_status_response lib (phase_of stage) (lib.str order) started now))))
            stage
            order
            ref
            started
  unfolding serve validated confirm_restaurant_order start_restaurant_prep check_restaurant_ready
      assign_courier check_courier_delivery call_restaurant_transition call_restaurant_ready_check
      call_courier_assign call_courier_delivery_check
  ask-routed confirming id_given ref_given = rw (id_given, serve) (rw ref_given refl)
  ask-routed starting_prep id_given ref_given = rw (id_given, serve) (rw ref_given refl)
  ask-routed checking_ready id_given ref_given = rw (id_given, serve) (rw ref_given refl)
  ask-routed assigning id_given ref_given = rw (id_given, serve) (rw ref_given refl)
  ask-routed checking_delivery id_given ref_given = rw (id_given, serve) (rw ref_given refl)

  module _ (json : (n : ℕ) → lib.encode (micros n) ≡ some (number n)) (ready_at : Time)
      (r : ℕ) where
    abbrev Heard : Stage → Type 0
    Heard stage =
        ask
          (λ _. sent lib switches now (
            endpoint_of lib stage (lib.str order)
              (some (status_at (phase_of stage) (finite r) ready_at now))))
          stage order ref started
        ≡ answer_of stage (courier_for lib order) (by_clock now ready_at (suc r))

    ready-Heard : (stage : Stage) → leb ready_at now ≡ true → Heard stage
    unfolding sent status_at respond respond_assigned call_restaurant_transition
        call_restaurant_ready_check call_courier_assign call_courier_delivery_check
    ready-Heard confirming over = rw (over, status_at) refl
    ready-Heard starting_prep over = rw (over, status_at) refl
    ready-Heard checking_ready over = rw (over, status_at) refl
    ready-Heard assigning over =
        rw (over, status_at)
          (rw (append.cons "c" "ourier-" (prefix 12 (lib.md5 (lib.str order)))) refl)
    ready-Heard checking_delivery over = rw (over, status_at) refl

    pending-Heard : (stage : Stage) → leb ready_at now ≡ false → Heard stage
    unfolding sent status_at status_fields respond respond_assigned call_restaurant_transition
        call_restaurant_ready_check call_courier_assign call_courier_delivery_check
    pending-Heard confirming soon = rw (soon, status_at) (rw (json (suc r), status_fields) refl)
    pending-Heard starting_prep soon = rw (soon, status_at) (rw (json (suc r), status_fields) refl)
    pending-Heard checking_ready soon = rw (soon, status_at) (rw (json (suc r), status_fields) refl)
    pending-Heard assigning soon = rw (soon, status_at) (rw (json (suc r), status_fields) refl)
    pending-Heard checking_delivery soon =
        rw (soon, status_at) (rw (json (suc r), status_fields) refl)

-- What the configuration fixes for an order in a stage: the delay, and the time before the next call, whole
-- microseconds both.
pub record Configured (lib : Library) (stage : Stage) (order : Uuid) (delay retry_after : ℕ)
    : Type 0 where
  pub delayed : deterministic_delay_seconds lib (phase_of stage) (lib.str order) ≡ micros delay
  pub retried :
      read_positive_float_env lib
        (phase_of stage).retry_after_env_name
        (phase_of stage).default_retry_after_seconds
      ≡ finite retry_after

delayed_status_response-clock :
    (lib : Library) (stage : Stage) (order : Uuid) (started now : Time) (delay retry_after : ℕ)
    → Configured lib stage order delay retry_after
    → delayed_status_response lib (phase_of stage) (lib.str order) started now
      ≡ some (status_at (phase_of stage) (finite retry_after) (started + delay) now)
unfolding delayed_status_response
delayed_status_response-clock lib stage order started now delay retry_after c =
    rw (c.delayed, delayed_status_response) (rw (c.retried, timedelta) refl)

-- A worker's call in any stage for a reference that is not empty, answered by the simulator while the switch of the
-- stage's service is off, where the delay of the order and the configured retry hint are finite: the worker reads success (with the courier of the order) once the delay since the start of the
-- stage is over, and before that the pending answer with the configured hint. It never reads an error.
pub ask-served :
    (lib : Library) (switches : KillSwitches) (now : Time) (order : Uuid) (ref : String)
    (started : Time) (stage : Stage) (delay retry_after : ℕ)
    → is_empty (lib.str order) ≡ false
    → is_empty ref ≡ false
    → ((n : ℕ) → lib.encode (micros n) ≡ some (number n))
    → switch_of (service_of stage) switches ≡ some false
    → Configured lib stage order delay retry_after
    → ask (serve lib switches now) stage order ref started
      ≡ answer_of stage (courier_for lib order) (by_clock now (started + delay) (suc retry_after))
unfolding raise_if_service_killed
ask-served lib switches now order ref started stage delay retry_after id_given ref_given json on c =
    ask-routed lib switches now order ref started stage id_given ref_given
    ∙ rw (on, raise_if_service_killed)
        (rw (delayed_status_response-clock lib stage order started now delay retry_after c)
          (elim (Bool-cases (leb (started + delay) now)) [
            | inl over ↦
                ready-Heard lib switches now order ref started json (started + delay) retry_after
                  stage over
            | inr soon ↦
                pending-Heard lib switches now order ref started json (started + delay) retry_after
                  stage soon
          ]))

-- The answer that a worker makes of an error.
abbrev pub failed_call : Stage → Text → Answer
failed_call assigning e = assignment (error e)
failed_call _ e = verdict (error e)

heard-killed :
    (lib : Library) (switches : KillSwitches) (now : Time) (order : Uuid) (ref detail : String)
    (started : Time) (stage : Stage)
    → (e : Text) × (ask
          (λ _. sent lib switches now (http_exception 503 detail))
          stage
          order
          ref
          started
        ≡ failed_call stage e)
unfolding sent call_restaurant_transition call_restaurant_ready_check call_courier_assign
    call_courier_delivery_check
heard-killed lib switches now order ref detail started confirming = (_, refl)
heard-killed lib switches now order ref detail started starting_prep = (_, refl)
heard-killed lib switches now order ref detail started checking_ready = (_, refl)
heard-killed lib switches now order ref detail started assigning = (_, refl)
heard-killed lib switches now order ref detail started checking_delivery = (_, refl)

-- While the switch of a stage's service is on, a worker's call in that stage ends in an error, however long the order
-- has waited.
pub ask-killed :
    (lib : Library) (switches : KillSwitches) (now : Time) (order : Uuid) (ref : String)
    (started : Time) (stage : Stage)
    → is_empty (lib.str order) ≡ false
    → is_empty ref ≡ false
    → switch_of (service_of stage) switches ≡ some true
    → (e : Text) × (ask (serve lib switches now) stage order ref started ≡ failed_call stage e)
unfolding raise_if_service_killed
ask-killed lib switches now order ref started stage id_given ref_given on =
    let detail = spaced (service_of stage) ++ₛ " simulator is killed" in
    let (e, heard) = heard-killed lib switches now order ref detail started stage in
    (
      e,
      ask-routed lib switches now order ref started stage id_given ref_given
          ∙ rw (on, raise_if_service_killed) heard,
    )
