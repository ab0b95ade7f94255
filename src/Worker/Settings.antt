-- ===== src/Worker/Settings.antt =====
-- backend/worker/tasks.py: the settings that the environment gives, and the delays made of them.
-- Durations are whole microseconds, the resolution of `timedelta`.
use Prim.Native.Nat.{min}
use workato_take_home.Prelude.{
  ℕ, zero, suc, ◌+◌, ◌*◌, ◌^◌, String, Bool, true, false, Option, none, some, if◌then◌else◌, leb,
}
use workato_take_home.Store.Schema.{Time}

-- A Python float: `below n` is -(n + 1) microseconds, `micros n` is n microseconds.
pub data Float : Type 0 where
  nan infinity minus_infinity : Float
  micros below : ℕ → Float

-- `value <= 0`, which is false of nan
abbrev pub le_zero : Float → Bool
le_zero minus_infinity = true
le_zero (below n) = true
le_zero (micros zero) = true
le_zero _ = false

-- `value > 0`, which is false of nan
abbrev pub gt_zero : Float → Bool
gt_zero infinity = true
gt_zero (micros (suc n)) = true
gt_zero _ = false

pub data SettingError : Type 0 where
  not_a_number not_greater_than_zero : SettingError

pub data Setting : Type 0 where
  value : Float → Setting
  runtime_error : SettingError → Setting

-- `_read_positive_float_env`: `raw` is what `os.getenv` returns, `parse` is `float`, which raises
-- ValueError on what is no number.
unfoldable pub read_positive_float_env : (String → Option Float) → Option String → Float → Setting
read_positive_float_env parse none default = value default
read_positive_float_env parse (some raw) default = elim (parse raw) [
  | none ↦ runtime_error not_a_number
  | some v ↦ if le_zero v then runtime_error not_greater_than_zero else value v
]

-- The settings of one worker process, in the order of their readers.
pub record Settings : Type 0 where
  pub task_retry_base_delay : ℕ
  pub task_retry_max_delay : ℕ
  pub ready_check_initial_delay : ℕ
  pub ready_check_interval : ℕ
  pub ready_check_deadline : ℕ
  pub delivery_check_initial_delay : ℕ
  pub delivery_check_interval : ℕ
  pub delivery_check_deadline : ℕ
  pub unsupported_task_release_delay : ℕ

abbrev pub second : ℕ
second = 1_000_000

-- The DEFAULT_* constants.
abbrev pub default_settings : Settings
default_settings = record {
  task_retry_base_delay = 5 * second;
  task_retry_max_delay = 60 * second;
  ready_check_initial_delay = 2 * second;
  ready_check_interval = 2 * second;
  ready_check_deadline = 60 * second;
  delivery_check_initial_delay = 3 * second;
  delivery_check_interval = 3 * second;
  delivery_check_deadline = 120 * second;
  unsupported_task_release_delay = 30 * second;
}

-- `_task_retry_delay_seconds`; `max(attempts, 0)` is `attempts`, which is no negative number here.
unfoldable pub task_retry_delay : Settings → ℕ → ℕ
task_retry_delay settings attempts =
    min (settings.task_retry_base_delay * 2 ^ attempts) settings.task_retry_max_delay

-- `a or b` of a duration that may be None; 0 is false.
abbrev pub or_default : Option ℕ → ℕ → ℕ
or_default none d = d
or_default (some zero) d = d
or_default (some (suc n)) d = suc n

-- `datetime.max`, the last microsecond of the year 9999
abbrev pub max_instant : Time
max_instant = 253_402_300_799_999_999

-- `now + timedelta(seconds=…)`; none is the OverflowError of the `timedelta` or of the sum.
unfoldable pub after_delay : Time → ℕ → Option Time
after_delay now delay = if leb (now + delay) max_instant then some (now + delay) else none

-- `min(proposed_next_run_at, deadline_at)`
abbrev pub capped : Time → Option Time → Option Time
capped deadline none = none
capped deadline (some proposed) = some (min proposed deadline)

-- `_bounded_ready_check_next_run_at`
unfoldable pub bounded_ready_check_next_run_at : Settings → Time → Option ℕ → Time → Option Time
unfolding after_delay
bounded_ready_check_next_run_at settings now retry_after deadline =
    capped deadline (after_delay now (or_default retry_after settings.ready_check_interval))

-- `_bounded_delivery_check_next_run_at`
unfoldable pub bounded_delivery_check_next_run_at : Settings → Time → Option ℕ → Time → Option Time
unfolding after_delay
bounded_delivery_check_next_run_at settings now retry_after deadline =
    capped deadline (after_delay now (or_default retry_after settings.delivery_check_interval))
