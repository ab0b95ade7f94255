-- ===== src/Simulator/Config.antt =====
-- backend/downstream_sim/app.py: the readers of the environment. A float is a whole number of
-- microseconds, or not finite.
use workato_take_home.Prelude.{
  ℕ, suc, String, Bool, true, false, none, some, ltb, eqb, if◌then◌else◌,
}
use workato_take_home.Worker.Settings.{Float, infinity, micros}
use workato_take_home.Simulator.Library.{Library}

-- The floats above 0.
pub data Positive : Type 0 where
  -- one microsecond more than the number
  finite : ℕ → Positive
  unbounded : Positive

abbrev pub to_float : Positive → Float
to_float (finite n) = micros (suc n)
to_float unbounded = infinity

-- `value if value > 0 else default`
unfoldable pub positive_or : Positive → Float → Positive
positive_or default infinity = unbounded
positive_or default (micros (suc n)) = finite n
positive_or default _ = default

unfoldable pub less : Positive → Positive → Bool
less (finite a) (finite b) = ltb a b
less (finite a) unbounded = true
less unbounded _ = false

unfoldable pub equal : Positive → Positive → Bool
equal (finite a) (finite b) = eqb a b
equal unbounded unbounded = true
equal _ _ = false

-- A window of the delay, from its two ends.
unfoldable pub ordered_range : Positive → Positive → Positive × Positive
unfolding less
ordered_range minimum maximum =
    if less maximum minimum then (minimum, minimum) else (minimum, maximum)

module _ (lib : Library) where
  -- `_read_positive_float_env`
  unfoldable pub read_positive_float_env : String → Positive → Positive
  unfolding positive_or
  read_positive_float_env env_name default = elim (lib.getenv env_name) [
    | none ↦ default
    | some raw_value ↦ elim (lib.float raw_value) [
      | none ↦ default
      | some value ↦ positive_or default value
    ]
  ]

  unfoldable pub configured_range : String → String → Positive → Positive × Positive
  unfolding read_positive_float_env ordered_range
  configured_range min_env_name max_env_name fixed_delay =
      let minimum = read_positive_float_env min_env_name fixed_delay in
      ordered_range minimum (read_positive_float_env max_env_name minimum)

  -- `_read_delay_range`
  unfoldable pub read_delay_range : String → String → String → Positive → Positive × Positive
  unfolding read_positive_float_env configured_range
  read_delay_range min_env_name max_env_name fixed_env_name default =
      let fixed_delay = read_positive_float_env fixed_env_name default in
      elim (lib.getenv min_env_name) [
        | some raw_min ↦ configured_range min_env_name max_env_name fixed_delay
        | none ↦ elim (lib.getenv max_env_name) [
          | some raw_max ↦ configured_range min_env_name max_env_name fixed_delay
          | none ↦ (fixed_delay, fixed_delay)
        ]
      ]
