-- ===== src/Simulator/Bounds.antt =====
-- backend/downstream_sim/app.py: how long an order waits in a phase.
use Prim.Native.String.{◌++◌ as ◌++ₛ◌}
use native.Mathlib.Nat.{mul-le-mul_right, mul-le-mul_left, pow-le-pow_right, pow-succ'}
use workato_take_home.Prelude.{
  ℕ, zero, suc, ◌+◌, ◌-◌, ◌*◌, ◌^◌, ◌≤◌, ◌<◌, ◌≡◌, refl, String, List, [], ◌∷◌, arith, inl, inr,
  Bool-cases, Option-cases, eqb, ltb,
}
use workato_take_home.Worker.Settings.{micros}
use workato_take_home.Simulator.Library.{Library}
use workato_take_home.Simulator.Config.{
  Positive, finite, unbounded, less, equal, read_positive_float_env, ordered_range,
  configured_range, read_delay_range,
}
use workato_take_home.Simulator.Delay.{
  Phase, first_bytes, from_bytes, max_bucket, stable_unit_interval, scaled, jittered, delay_in,
  deterministic_delay_seconds,
}

-- A list of bytes.
pub data Bytes : List ℕ → Type 0 where
  none_left : Bytes []
  byte : {b : ℕ} {bytes : List ℕ} → b < 256 → Bytes bytes → Bytes (b ∷ bytes)

from_bytes-lt :
    (n v : ℕ) (digest : List ℕ)
    → Bytes digest
    → from_bytes v (first_bytes n digest) < (v + 1) * 256 ^ n
unfolding from_bytes first_bytes
from_bytes-lt zero v digest h = omega arith
from_bytes-lt (suc n) v [] h =
    let positive : 256 ^ 0 ≤ 256 ^ suc n =
      pow-le-pow_right {n = 256} (omega arith) {i = 0} {j = suc n} (omega arith) in
    omega (arith, mul-le-mul_left (v + 1) positive)
from_bytes-lt (suc n) v (b ∷ digest) (byte small h) =
    let step : from_bytes v (first_bytes (suc n) (b ∷ digest)) < (v * 256 + b + 1) * 256 ^ n =
      from_bytes-lt n (v * 256 + b) digest h in
    rw (pow-succ' 256 n) (
      grind (
        arith,
        step,
        mul-le-mul_right {m = v * 256 + b + 1} {n = (v + 1) * 256} (256 ^ n) (omega (arith, small)),
      ))

scaled-le : (bucket width : ℕ) → bucket ≤ max_bucket → scaled bucket width ≤ width
unfolding scaled
scaled-le bucket width h = omega (arith, mul-le-mul_right width h)

pub stable_unit_interval-le :
    (lib : Library) (value : String)
    → Bytes (lib.sha256 value)
    → stable_unit_interval lib value ≤ max_bucket
unfolding stable_unit_interval
stable_unit_interval-le lib value h = omega (arith, from_bytes-lt 8 0 (lib.sha256 value) h)

-- The two ends of a window: neither end is below the first.
data Ordered : Positive × Positive → Type 0 where
  open_end : {a : Positive} → Ordered (a, unbounded)
  closed : {a b : ℕ} → a ≤ b → Ordered (finite a, finite b)

same-Ordered : (p : Positive) → Ordered (p, p)
same-Ordered (finite n) = closed (omega arith)
same-Ordered unbounded = open_end

ordered_range-Ordered : (p q : Positive) → Ordered (ordered_range p q)
unfolding ordered_range less
ordered_range-Ordered p unbounded = open_end
ordered_range-Ordered unbounded (finite b) = open_end
ordered_range-Ordered (finite a) (finite b) = elim (Bool-cases (ltb b a)) [
  | inl below ↦ rw (below, less) (closed (omega arith))
  | inr above ↦ rw (above, less) (closed (ground arith))
]

configured_range-Ordered :
    (lib : Library) (low high : String) (fixed : Positive)
    → Ordered (configured_range lib low high fixed)
unfolding configured_range
configured_range-Ordered lib low high fixed =
    let minimum = read_positive_float_env lib low fixed in
    ordered_range-Ordered minimum (read_positive_float_env lib high minimum)

read_delay_range-Ordered :
    (lib : Library) (low high fixed : String) (default : Positive)
    → Ordered (read_delay_range lib low high fixed default)
unfolding read_delay_range
read_delay_range-Ordered lib low high fixed default = elim (Option-cases (lib.getenv low)) [
  | inr (raw, e) ↦ rw (e, read_delay_range) (configured_range-Ordered lib low high _)
  | inl e ↦ elim (Option-cases (lib.getenv high)) [
    | inr (raw, e') ↦
        rw (e, read_delay_range)
          (rw (e', read_delay_range) (configured_range-Ordered lib low high _))
    | inl e' ↦ rw (e, read_delay_range) (rw (e', read_delay_range) (same-Ordered _))
  ]
]

Ordered→≤ :
    (a b : ℕ) (range : Positive × Positive) → range ≡ (finite a, finite b) → Ordered range → a ≤ b
Ordered→≤ a b range e open_end = absurd (cc)
Ordered→≤ a b range e (closed h) = ground (arith, e)

delay_in-Within :
    (lib : Library) (salt order_id : String) (a b : ℕ)
    → ((value : String) → Bytes (lib.sha256 value))
    → a ≤ b
    → (d : ℕ) × ((delay_in lib salt order_id (finite a, finite b) ≡ micros d)
        × ((suc a ≤ d) × (d ≤ suc b)))
unfolding delay_in equal jittered
delay_in-Within lib salt order_id a b digests h =
    let value = salt ++ₛ (":" ++ₛ order_id) in
    let bucket = stable_unit_interval lib value in
    let below = scaled-le bucket (b - a) (stable_unit_interval-le lib value (digests value)) in
    elim (Bool-cases (eqb a b)) [
      | inl same ↦ rw (same, equal) (suc a, (refl, (omega arith, omega (arith, h))))
      | inr apart ↦
          rw (apart, equal)
            (suc a + scaled bucket (b - a), (refl, (omega arith, omega (arith, h, below))))
    ]

-- If the digests are bytes and the configured window is finite, then the delay of an order lies in the window,
-- whatever the order is.
pub deterministic_delay_seconds-Within :
    (lib : Library) (phase : Phase) (order_id : String) (a b : ℕ)
    → ((value : String) → Bytes (lib.sha256 value))
    → read_delay_range lib phase.min_env_name phase.max_env_name phase.fixed_env_name
        phase.default_delay_seconds
      ≡ (finite a, finite b)
    → (d : ℕ) × ((deterministic_delay_seconds lib phase order_id ≡ micros d)
        × ((suc a ≤ d) × (d ≤ suc b)))
unfolding deterministic_delay_seconds
deterministic_delay_seconds-Within lib phase order_id a b digests range =
    rw (range, deterministic_delay_seconds)
      (delay_in-Within lib phase.salt order_id a b digests (
        Ordered→≤ a b _ range (
          read_delay_range-Ordered lib phase.min_env_name phase.max_env_name phase.fixed_env_name
            phase.default_delay_seconds)))
