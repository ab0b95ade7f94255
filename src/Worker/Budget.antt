-- ===== src/Worker/Budget.antt =====
-- Bounds: the delays of retries and polls, the length of a stored error, and the budget of attempts.
use native.Mathlib.Nat.{min-le_left, min-le_right, le-min, pow-le-pow_right, mul-le-mul_left}
use workato_take_home.Prelude.{
  ℕ, zero, suc, ◌+◌, ◌-◌, ◌*◌, ◌^◌, ◌≤◌, ◌<◌, ◌≡◌, refl, String, true, false, Option, none, some,
  [], ◌∷◌, ◌++◌, arith, Bool-cases, inl, inr, ◌⊎◌, length, Text, text, leb,
}
use workato_take_home.Common.StateMachine.{OrderState}
use workato_take_home.Common.TaskTypes.{pending, failed}
use workato_take_home.Store.Schema.{Uuid, Time, Task, Db}
use workato_take_home.Store.Query.{find_task}
use workato_take_home.Worker.Settings.{
  Float, le_zero, value, read_positive_float_env, Settings, task_retry_delay,
}
use workato_take_home.Worker.Errors.{split, join, take, short_error, max_last_error_length}
use workato_take_home.Worker.Lease.{
  owned_by, owned_update, failed_task, rescheduled, fail_claimed_task, reschedule_claimed_task,
  retry_or_fail_claimed_task,
}

length-take : (n : ℕ) (cs : Text) → length (take n cs) ≤ n
unfolding take
length-take zero cs = omega arith
length-take (suc n) [] = omega arith
length-take (suc n) (c ∷ cs) = ground (arith, length-take n cs)

length-++ : (cs ds : Text) → length (cs ++ ds) ≡ length cs + length ds
length-++ [] ds = omega arith
length-++ (c ∷ cs) ds = ground (arith, length-++ cs ds)

-- A text that `_short_error` returns has at most 300 characters.
pub length-short_error : (message : Text) → length (short_error message) ≤ max_last_error_length
unfolding short_error
length-short_error message =
    elim (Bool-cases (leb (length (join (split message))) max_last_error_length)) [
      | inl fits ↦ rw (fits, short_error) (ground arith)
      | inr long ↦
          rw (long, short_error)
            (let cut = take (max_last_error_length - 3) (join (split message)) in
              omega (
                arith,
                length-take (max_last_error_length - 3) (join (split message)),
                length-++ cut (text "..."),
              ))
    ]

-- The delay before a retry does not shrink as attempts are used, and never exceeds its maximum.
pub task_retry_delay-bounds :
    (settings : Settings) (attempts more : ℕ)
    → attempts ≤ more
    → (task_retry_delay settings attempts ≤ task_retry_delay settings more)
      × (task_retry_delay settings more ≤ settings.task_retry_max_delay)
unfolding task_retry_delay
task_retry_delay-bounds settings attempts more h =
    let grows =
      mul-le-mul_left settings.task_retry_base_delay (pow-le-pow_right {n = 2} (omega arith) h) in
    (
      le-min
          (omega (
            arith,
            grows,
            min-le_left (settings.task_retry_base_delay * 2 ^ attempts)
                settings.task_retry_max_delay,
          ))
          (min-le_right (settings.task_retry_base_delay * 2 ^ attempts)
            settings.task_retry_max_delay),
      min-le_right (settings.task_retry_base_delay * 2 ^ more) settings.task_retry_max_delay,
    )

-- What a failed attempt makes of the row of an owned task.
pub record Charged (error : Text) (next now : Time) (t s : Task) : Type 0 where
  pub used : s.attempts ≡ t.attempts + 1
  pub free : (s.locked_by ≡ none) × (s.locked_until ≡ none)
  pub stored : s.last_error ≡ some error
  pub outcome :
      ((s.status ≡ failed) × (t.max_attempts ≤ s.attempts))
      ⊎ ((s.status ≡ pending) × ((s.attempts < t.max_attempts) × (s.next_run_at ≡ next)))

-- On a task that the worker owns, `_retry_or_fail_claimed_task` uses one attempt, gives up the lease
-- and stores the error; the task has failed if no attempt is left, and else is due at the given time.
pub retry_or_fail_claimed_task-Charged :
    (id : Uuid) (w : String) (order : Uuid) (from to : OrderState) (next now : Time) (error : Text)
    (db : Db) (t : Task)
    → find_task id db ≡ some t
    → owned_by w t ≡ true
    → (s : Task) × ((find_task id
            (retry_or_fail_claimed_task id w order from to t.attempts t.max_attempts next error now
              db).0
          ≡ some s)
        × Charged error next now t s)
unfolding retry_or_fail_claimed_task fail_claimed_task reschedule_claimed_task
retry_or_fail_claimed_task-Charged id w order from to next now error db t found ours =
    let stored = owned_update id w db t found ours in
    elim (Bool-cases (leb t.max_attempts (t.attempts + 1))) [
      | inl over ↦ rw over (
        failed_task error now t,
        (
          stored (failed_task error now) (λ _. refl),
          record {
            used = refl;
            free = (refl, refl);
            stored = refl;
            outcome = inl (refl, ground arith);
          },
        ),
      )
      | inr more ↦ rw more (
        rescheduled next error now t,
        (
          stored (rescheduled next error now) (λ _. refl),
          record {
            used = refl;
            free = (refl, refl);
            stored = refl;
            outcome = inr (refl, (ground arith, refl));
          },
        ),
      )
    ]

-- If the default is not at most zero, then no setting that `_read_positive_float_env` returns is.
pub read_positive_float_env-le_zero :
    (parse : String → Option Float) (raw : Option String) (default v : Float)
    → le_zero default ≡ false
    → read_positive_float_env parse raw default ≡ value v
    → le_zero v ≡ false
unfolding read_positive_float_env
read_positive_float_env-le_zero parse raw default v d h = ground arith
