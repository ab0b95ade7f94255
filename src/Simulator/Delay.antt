-- ===== src/Simulator/Delay.antt =====
-- backend/downstream_sim/app.py: the delay of an order in a phase, and the answer that it decides. The
-- product of the unit value and the width of the window is rounded to the nearest microsecond, as
-- `timedelta` does; the rounding of the floats before that is left out.
use Prim.Native.String.{◌++◌}
use workato_take_home.Prelude.{
  ℕ, zero, suc, ◌+◌, ◌-◌, ◌*◌, ◌/◌, String, Option, none, some, List, [], ◌∷◌, leb, if◌then◌else◌,
}
use workato_take_home.Store.Schema.{Time}
use workato_take_home.Worker.Settings.{Float, nan, infinity, micros}
use workato_take_home.Simulator.Library.{Library}
use workato_take_home.Simulator.Config.{
  Positive, finite, to_float, equal, read_positive_float_env, read_delay_range,
}

-- The keyword arguments that the endpoints pass to `_delayed_status_response`.
pub record Phase : Type 0 where
  pub salt : String
  pub min_env_name : String
  pub max_env_name : String
  pub fixed_env_name : String
  pub default_delay_seconds : Positive
  pub retry_after_env_name : String
  pub default_retry_after_seconds : Positive
  pub ready_status : String
  pub pending_status : String

-- `digest[:8]` of bytes
unfoldable pub first_bytes : ℕ → List ℕ → List ℕ
first_bytes zero digest = []
first_bytes (suc n) [] = []
first_bytes (suc n) (b ∷ digest) = b ∷ first_bytes n digest

-- `int.from_bytes(…, "big")`, after the bytes that `value` stands for.
unfoldable pub from_bytes : ℕ → List ℕ → ℕ
from_bytes value [] = value
from_bytes value (b ∷ bytes) = from_bytes (value * 256 + b) bytes

-- `(1 << 64) - 1`
abbrev pub max_bucket : ℕ
max_bucket = 18_446_744_073_709_551_615

-- `_stable_unit_interval`, as the numerator over `max_bucket`.
unfoldable pub stable_unit_interval : Library → String → ℕ
unfolding first_bytes from_bytes
stable_unit_interval lib value = from_bytes 0 (first_bytes 8 (lib.sha256 value))

-- The nearest whole number to `bucket / max_bucket * width`.
unfoldable pub scaled : ℕ → ℕ → ℕ
scaled bucket width = (2 * (bucket * width) + max_bucket) / (2 * max_bucket)

-- `minimum + unit * (maximum - minimum)`; 0 times infinity is no number.
unfoldable pub jittered : ℕ → Positive → Positive → Float
unfolding scaled
jittered bucket (finite a) (finite b) = micros (suc a + scaled bucket (b - a))
jittered zero _ _ = nan
jittered (suc bucket) _ _ = infinity

-- The delay of an order in a window.
unfoldable pub delay_in : Library → String → String → Positive × Positive → Float
unfolding equal jittered stable_unit_interval
delay_in lib salt order_id (minimum, maximum) =
    if equal minimum maximum
    then to_float minimum
    else jittered (stable_unit_interval lib (salt ++ (":" ++ order_id))) minimum maximum

-- `_deterministic_delay_seconds`
unfoldable pub deterministic_delay_seconds : Library → Phase → String → Float
unfolding read_delay_range delay_in
deterministic_delay_seconds lib phase order_id = delay_in lib phase.salt order_id (
    read_delay_range lib phase.min_env_name phase.max_env_name phase.fixed_env_name
      phase.default_delay_seconds)

-- The dictionary that `_delayed_status_response` returns.
pub record StatusResponse : Type 0 where
  pub status : String
  pub retry_after_seconds : Option Positive

-- `timedelta(seconds=…)` raises ValueError on what is no number and OverflowError on infinity.
unfoldable pub timedelta : Float → Option ℕ
timedelta (micros n) = some n
timedelta _ = none

unfoldable pub status_at : Phase → Positive → Time → Time → StatusResponse
status_at phase retry_after_seconds ready_at now =
    if leb ready_at now
    then record { status = phase.ready_status; retry_after_seconds = none }
    else record { status = phase.pending_status; retry_after_seconds = some retry_after_seconds }

-- `_delayed_status_response`; none is an exception.
unfoldable pub delayed_status_response :
    Library → Phase → String → Time → Time → Option StatusResponse
unfolding deterministic_delay_seconds timedelta status_at read_positive_float_env
delayed_status_response lib phase order_id source_started_at now =
    let retry_after_seconds =
      read_positive_float_env lib phase.retry_after_env_name phase.default_retry_after_seconds in
    elim (timedelta (deterministic_delay_seconds lib phase order_id)) [
      | none ↦ none
      | some delay ↦ some (status_at phase retry_after_seconds (source_started_at + delay) now)
    ]
