-- ===== src/Common/Environment.antt =====
-- What the services take from Python to read integers from the environment.
use workato_take_home.Prelude.{ℕ, String, Option}

-- A Python int: `below n` is -(n + 1).
pub data Integer : Type 0 where
  from_zero below : ℕ → Integer

-- `os.getenv`, and `int`, which raises ValueError on what is no number.
pub record Environment : Type 0 where
  pub getenv : String → Option String
  pub int : String → Option Integer
