-- ===== src/Worker/Idle.antt =====
-- backend/worker/main.py: how long a worker without work waits between its rounds.
use Prim.Native.Nat.{min}
use native.Mathlib.Nat.{pow-succ'}
use workato_take_home.Prelude.{
  ℕ, suc, ◌*◌, ◌^◌, ◌≡◌, refl, ◌∙◌, true, false, Option, none, some, List, [], ◌∷◌, arith,
}
use workato_take_home.Worker.Loop.{
  task_poll_initial_idle, task_poll_max_idle, Round, returned, raised, Wait, stopped, timed_out,
  after_wait, poll_round, poll_waits, run_task_poll_loop,
}

-- The delay after n rounds without work: the initial one doubled n times, up to the maximum.
abbrev pub delay_after : ℕ → ℕ
delay_after n = min (task_poll_initial_idle * 2 ^ n) task_poll_max_idle

-- The waits of rounds of which n had no work since the last one that had.
pub waits_after : ℕ → List (Round × Wait) → List (Option ℕ)
waits_after n [] = []
waits_after n ((returned true, stopped) ∷ rounds) = none ∷ []
waits_after n ((returned true, timed_out) ∷ rounds) = none ∷ waits_after 0 rounds
waits_after n ((_, stopped) ∷ rounds) = some (delay_after n) ∷ []
waits_after n ((_, timed_out) ∷ rounds) = some (delay_after n) ∷ waits_after (suc n) rounds

doubled :
    (x : ℕ) → min (min x task_poll_max_idle * 2) task_poll_max_idle ≡ min (x * 2) task_poll_max_idle
doubled x = omega arith

next_delay : (n : ℕ) → min (delay_after n * 2) task_poll_max_idle ≡ delay_after (suc n)
next_delay n = doubled (task_poll_initial_idle * 2 ^ n) ∙ rw (pow-succ' 2 n) (omega arith)

poll_waits-waits_after :
    (n : ℕ) (rounds : List (Round × Wait))
    → poll_waits (delay_after n) rounds ≡ waits_after n rounds
unfolding poll_waits poll_round after_wait waits_after
poll_waits-waits_after n [] = refl
poll_waits-waits_after n ((returned true, stopped) ∷ rounds) = refl
poll_waits-waits_after n ((returned true, timed_out) ∷ rounds) =
    rw (poll_waits-waits_after 0 rounds) refl
poll_waits-waits_after n ((returned false, stopped) ∷ rounds) = refl
poll_waits-waits_after n ((returned false, timed_out) ∷ rounds) =
    rw (next_delay n) (rw (poll_waits-waits_after (suc n) rounds) refl)
poll_waits-waits_after n ((raised, stopped) ∷ rounds) = refl
poll_waits-waits_after n ((raised, timed_out) ∷ rounds) =
    rw (next_delay n) (rw (poll_waits-waits_after (suc n) rounds) refl)

-- Whatever the rounds of a worker find, and wherever a stop ends them: a round with work is followed by no wait, and a round
-- without work, an exception among them, by a wait of the initial delay doubled once for each round without work since the
-- last one with work, up to the maximum.
pub run_task_poll_loop-backoff :
    (rounds : List (Round × Wait)) → run_task_poll_loop rounds ≡ waits_after 0 rounds
unfolding run_task_poll_loop
run_task_poll_loop-backoff rounds = poll_waits-waits_after 0 rounds
