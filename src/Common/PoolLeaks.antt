-- ===== src/Common/PoolLeaks.antt =====
-- backend/common/db.py: the pools that a process holds open.
use workato_take_home.Prelude.{
  ℕ, zero, suc, ◌≤◌, ◌≡◌, refl, String, Bool, Option, none, some, arith, inl, inr, Bool-cases,
  Option-cases, ltb,
}
use workato_take_home.Common.Environment.{Environment, from_zero, below}
use workato_take_home.Common.Pool.{
  Checked, value, raised, ConnectionPool, PoolState, positive_size, read_pool_size, sized_pool,
  checked_sizes, get_database_url, configured_pool, open_pool, configure_db_pool, close_db_pool,
}

-- A pool that is in use is the only one open, and its sizes are in order; without one nothing is open.
abbrev pub SoundPool : PoolState → Type 0
SoundPool s = elim s.db_pool [
  | none ↦ s.open_pools ≡ 0
  | some pool ↦ (s.open_pools ≡ 1) × ((1 ≤ pool.min_size) × (pool.min_size ≤ pool.max_size))
]

AtLeastOne : Checked ℕ → Type 0
AtLeastOne (value n) = 1 ≤ n
AtLeastOne (raised e) = Unit

SizedPool : Checked ConnectionPool → Type 0
SizedPool (value pool) = (1 ≤ pool.min_size) × (pool.min_size ≤ pool.max_size)
SizedPool (raised e) = Unit

module _ (env : Environment) where
  read_pool_size-AtLeastOne :
      (name : String) (default : ℕ) → 1 ≤ default → AtLeastOne (read_pool_size env name default)
  unfolding AtLeastOne read_pool_size positive_size
  read_pool_size-AtLeastOne name default h = elim (Option-cases (env.getenv name)) [
    | inl e ↦ rw (e, read_pool_size) h
    | inr (raw, e) ↦
        rw (e, read_pool_size)
          (elim (env.int raw) as (λ i. AtLeastOne (positive_size name i)) [
            | none ↦ tt
            | some (from_zero zero) ↦ tt
            | some (from_zero (suc n)) ↦ omega arith
            | some (below n) ↦ tt
          ])
  ]

  checked_sizes-SizedPool :
      (low high : Checked ℕ)
      → AtLeastOne low
      → AtLeastOne high
      → SizedPool (checked_sizes env low high)
  unfolding AtLeastOne SizedPool checked_sizes sized_pool
  checked_sizes-SizedPool (raised e) high l h = tt
  checked_sizes-SizedPool (value m) (raised e) l h = tt
  checked_sizes-SizedPool (value m) (value n) l h = elim (Bool-cases (ltb n m)) [
    | inl over ↦ rw (over, checked_sizes) tt
    | inr fine ↦
        rw (fine, checked_sizes)
          (elim (get_database_url env) as (λ u. SizedPool (sized_pool m n u)) [
            | value url ↦ (l, ground (arith, fine))
            | raised e ↦ tt
          ])
  ]

  open_pool-SoundPool :
      (ready : ConnectionPool → Bool) (c : Checked ConnectionPool) (s : PoolState)
      → s.db_pool ≡ none
      → s.open_pools ≡ 0
      → SizedPool c
      → SoundPool (open_pool ready c s).0
  unfolding open_pool SizedPool
  open_pool-SoundPool ready (raised e) s unset closed sized = rw (unset) closed
  open_pool-SoundPool ready (value pool) s unset closed sized = elim (Bool-cases (ready pool)) [
    | inl up ↦ rw (up, open_pool) (omega (arith, closed), sized)
    | inr down ↦ rw (down, open_pool) (rw unset (omega (arith, closed)))
  ]

  from_state :
      (ready : ConnectionPool → Bool) (pool : Option ConnectionPool) (n : ℕ)
      → SoundPool (record { db_pool = pool; open_pools = n })
      → SoundPool (configure_db_pool env ready (record { db_pool = pool; open_pools = n })).0
        × SoundPool (close_db_pool (record { db_pool = pool; open_pools = n }))
  unfolding configure_db_pool configured_pool close_db_pool
  from_state ready none n sound = (
    open_pool-SoundPool ready (configured_pool env) (record { db_pool = none; open_pools = n }) refl
        sound
        (checked_sizes-SizedPool (read_pool_size env "DATABASE_POOL_MIN_SIZE" 1)
          (read_pool_size env "DATABASE_POOL_MAX_SIZE" 10)
          (read_pool_size-AtLeastOne "DATABASE_POOL_MIN_SIZE" 1 (omega arith))
          (read_pool_size-AtLeastOne "DATABASE_POOL_MAX_SIZE" 10 (omega arith))),
    sound,
  )
  from_state ready (some pool) n sound = (sound, omega (arith, sound.0))

-- Setting the pool up, whatever the environment holds and whether the pool gets ready or not, and closing it, both leave
-- at most the pool in use open, with sizes of at least 1 that are in order.
pub configure_db_pool-SoundPool :
    (env : Environment) (ready : ConnectionPool → Bool) (s : PoolState)
    → SoundPool s
    → SoundPool (configure_db_pool env ready s).0 × SoundPool (close_db_pool s)
configure_db_pool-SoundPool env ready s sound = from_state env ready s.db_pool s.open_pools sound
