-- ===== src/Worker/Loop.antt =====
-- backend/worker/main.py: the loop of a worker that claims and processes tasks, and its idle delay in
-- microseconds.
use Prim.Native.Nat.{min}
use workato_take_home.Prelude.{
  ℕ, ◌*◌, Bool, false, Option, none, some, List, [], ◌∷◌, if◌then◌else◌,
}

abbrev pub task_poll_initial_idle : ℕ
task_poll_initial_idle = 100_000

abbrev pub task_poll_max_idle : ℕ
task_poll_max_idle = 1_000_000

-- One round of the loop: what `claim_and_process_one_task` returned, or that it raised.
pub data Round : Type 0 where
  returned : Bool → Round
  raised : Round

abbrev pub found_work : Round → Bool
found_work (returned found) = found
found_work raised = false

-- What ends the wait of a round without work: the stop event, or the timeout.
pub data Wait : Type 0 where
  stopped timed_out : Wait

-- The idle delay after a round, or none where the loop ends. After work the loop does not wait, and
-- ends only if the stop event is set by then.
unfoldable pub after_wait : ℕ → Wait → Option ℕ
after_wait idle_delay stopped = none
after_wait idle_delay timed_out = some (min (idle_delay * 2) task_poll_max_idle)

unfoldable pub poll_round : ℕ → Round → Wait → Option ℕ
unfolding after_wait
poll_round idle_delay round wait =
    if found_work round
    then elim wait [ stopped ↦ none | timed_out ↦ some task_poll_initial_idle ]
    else after_wait idle_delay wait

-- The waits of the rounds of `run_task_poll_loop`, from an idle delay on: none for a round with work.
unfoldable pub poll_waits : ℕ → List (Round × Wait) → List (Option ℕ)
unfolding poll_round
poll_waits idle_delay [] = []
poll_waits idle_delay ((round, wait) ∷ rounds) =
    let waited = if found_work round then none else some idle_delay in
    elim (poll_round idle_delay round wait) [
      | none ↦ waited ∷ []
      | some next ↦ waited ∷ poll_waits next rounds
    ]

-- `run_task_poll_loop`
unfoldable pub run_task_poll_loop : List (Round × Wait) → List (Option ℕ)
unfolding poll_waits
run_task_poll_loop rounds = poll_waits task_poll_initial_idle rounds
