-- ===== src/Common/Pool.antt =====
-- backend/common/db.py: the connection pool of one process.
use workato_take_home.Prelude.{
  ℕ, suc, ◌-◌, String, Bool, true, false, Option, none, some, ltb, if◌then◌else◌,
}
use workato_take_home.Common.Environment.{Environment, Integer, from_zero}

-- DatabaseConfigError by its message, or what the library raises while the pool gets ready.
pub data PoolError : Type 0 where
  url_not_configured min_exceeds_max not_ready : PoolError
  not_an_integer not_greater_than_zero : String → PoolError

pub data Checked (A : Type 0) : Type 0 where
  value : A → Checked A
  raised : PoolError → Checked A

pub record ConnectionPool : Type 0 where
  pub conninfo : String
  pub min_size : ℕ
  pub max_size : ℕ

-- `_db_pool`, and how many pools the library holds open.
pub record PoolState : Type 0 where
  pub db_pool : Option ConnectionPool
  pub open_pools : ℕ

abbrev is_empty : String → Bool
is_empty String.[] = true
is_empty (String.◌∷◌ c s) = false

unfoldable pub positive_size : String → Option Integer → Checked ℕ
positive_size env_name none = raised (not_an_integer env_name)
positive_size env_name (some (from_zero (suc n))) = value (suc n)
positive_size env_name (some _) = raised (not_greater_than_zero env_name)

unfoldable pub sized_pool : ℕ → ℕ → Checked String → Checked ConnectionPool
sized_pool min_size max_size (raised e) = raised e
sized_pool min_size max_size (value url) =
    value (record { conninfo = url; min_size = min_size; max_size = max_size })

module _ (env : Environment) where
  unfoldable pub get_database_url : Checked String
  get_database_url = elim (env.getenv "DATABASE_URL") [
    | none ↦ raised url_not_configured
    | some url ↦ if is_empty url then raised url_not_configured else value url
  ]

  -- `_read_pool_size`
  unfoldable pub read_pool_size : String → ℕ → Checked ℕ
  unfolding positive_size
  read_pool_size env_name default = elim (env.getenv env_name) [
    | none ↦ value default
    | some raw_value ↦ positive_size env_name (env.int raw_value)
  ]

  unfoldable pub checked_sizes : Checked ℕ → Checked ℕ → Checked ConnectionPool
  unfolding sized_pool get_database_url
  checked_sizes (raised e) _ = raised e
  checked_sizes (value min_size) (raised e) = raised e
  checked_sizes (value min_size) (value max_size) =
      if ltb max_size min_size
      then raised min_exceeds_max
      else sized_pool min_size max_size get_database_url

  -- The pool that the environment asks for.
  unfoldable pub configured_pool : Checked ConnectionPool
  unfolding checked_sizes read_pool_size
  configured_pool =
      checked_sizes (read_pool_size "DATABASE_POOL_MIN_SIZE" 1)
        (read_pool_size "DATABASE_POOL_MAX_SIZE" 10)

-- `pool.open()`, `pool.wait(…)` and what follows: a pool that does not get ready is closed again.
unfoldable pub open_pool :
    (ConnectionPool → Bool) → Checked ConnectionPool → PoolState → PoolState × Option PoolError
open_pool ready (raised e) s = (s, some e)
open_pool ready (value pool) s =
    let opened = suc s.open_pools in
    if ready pool
    then (record { db_pool = some pool; open_pools = opened }, none)
    else (record s { open_pools = opened - 1 }, some not_ready)

-- `configure_db_pool`
unfoldable pub configure_db_pool :
    Environment → (ConnectionPool → Bool) → PoolState → PoolState × Option PoolError
unfolding open_pool configured_pool
configure_db_pool env ready s = elim s.db_pool [
  | some pool ↦ (s, none)
  | none ↦ open_pool ready (configured_pool env) s
]

-- `close_db_pool`
unfoldable pub close_db_pool : PoolState → PoolState
close_db_pool s = elim s.db_pool [
  | none ↦ s
  | some pool ↦ record { db_pool = none; open_pools = s.open_pools - 1 }
]
