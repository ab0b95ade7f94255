-- ===== src/Dashboard/Settings.antt =====
-- backend/api/dashboard_store.py: the constants and the readers of the environment.
use workato_take_home.Prelude.{ℕ, suc, String, Option, none, some}
use workato_take_home.Common.Environment.{Integer, from_zero, Environment}
use workato_take_home.Common.StateMachine.{
  OrderState, placed, confirmed, preparing, ready, out_for_delivery,
}

-- `parsed_value if parsed_value > 0 else fallback`
unfoldable pub positive_int : ℕ → Option Integer → ℕ
positive_int fallback (some (from_zero (suc n))) = suc n
positive_int fallback _ = fallback

abbrev pub default_configured_worker_count : ℕ
default_configured_worker_count = 3

module _ (env : Environment) where
  -- `_positive_int_env`; the text of the fallback is read as the fallback.
  unfoldable pub positive_int_env : String → ℕ → ℕ
  unfolding positive_int
  positive_int_env name fallback = elim (env.getenv name) [
    | none ↦ fallback
    | some raw_value ↦ positive_int fallback (env.int raw_value)
  ]

  unfoldable pub configured_worker_count : ℕ
  unfolding positive_int_env
  configured_worker_count =
      positive_int_env "DASHBOARD_CONFIGURED_WORKER_COUNT" default_configured_worker_count

  unfoldable pub latency_window_seconds : ℕ
  unfolding positive_int_env
  latency_window_seconds = positive_int_env "DASHBOARD_LATENCY_WINDOW_SECONDS" 300

  unfoldable pub order_delivery_sla_seconds : ℕ
  unfolding positive_int_env
  order_delivery_sla_seconds = positive_int_env "DASHBOARD_ORDER_DELIVERY_SLA_SECONDS" 120

  -- `_stuck_order_thresholds()` as a lookup.
  unfoldable pub stuck_order_thresholds : OrderState → Option ℕ
  unfolding positive_int_env
  stuck_order_thresholds placed = some (positive_int_env "DASHBOARD_STUCK_PLACED_SECONDS" 18)
  stuck_order_thresholds confirmed = some (positive_int_env "DASHBOARD_STUCK_CONFIRMED_SECONDS" 18)
  stuck_order_thresholds preparing = some (positive_int_env "DASHBOARD_STUCK_PREPARING_SECONDS" 45)
  stuck_order_thresholds ready = some (positive_int_env "DASHBOARD_STUCK_READY_SECONDS" 20)
  stuck_order_thresholds out_for_delivery =
      some (positive_int_env "DASHBOARD_STUCK_OUT_FOR_DELIVERY_SECONDS" 90)
  stuck_order_thresholds _ = none

abbrev pub throughput_window_seconds : ℕ
throughput_window_seconds = 30

abbrev pub active_worker_threshold_seconds : ℕ
active_worker_threshold_seconds = 30

abbrev pub attention_order_limit : ℕ
attention_order_limit = 50
