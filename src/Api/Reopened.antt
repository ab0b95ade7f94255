-- ===== src/Api/Reopened.antt =====
-- backend/api/task_store.py: what a failed task is after its reset by an operator.
use workato_take_home.Prelude.{
  ◌≡◌, ◌+◌, ◌≤◌, refl, Bool, true, false, Option, none, some, arith, ◌==◌, ◌||◌, nat_eq,
}
use workato_take_home.Common.TaskTypes.{
  TaskType, advance_state, check_ready, check_pickup, check_delivery, pending, status_eq, type_eq,
}
use workato_take_home.Store.Schema.{Time, Task}
use workato_take_home.Api.TaskStore.{reopened, fresh_deadline}
use workato_take_home.Worker.Settings.{second}

abbrev pub is_poll : TaskType → Bool
is_poll work = work == check_ready || work == check_delivery

-- A failed task that is open again: what it is for stays, and its budget, lease and errors are reset.
pub record Reopened (now : Time) (t s : Task) : Type 0 where
  pub id : s.id ≡ t.id
  pub order_id : s.order_id ≡ t.order_id
  pub task_type : s.task_type ≡ t.task_type
  pub target_state : s.target_state ≡ t.target_state
  pub dedupe_key : s.dedupe_key ≡ t.dedupe_key
  pub max_attempts : s.max_attempts ≡ t.max_attempts
  pub created_at : s.created_at ≡ t.created_at
  pub status : s.status ≡ pending
  pub attempts : s.attempts ≡ 0
  pub next_run_at : s.next_run_at ≡ now
  pub lease : (s.locked_by ≡ none) × (s.locked_until ≡ none)
  pub last_error : s.last_error ≡ none
  pub completed_at : s.completed_at ≡ none
  -- a poll task has at least a second from now, and the deadline of another task stays
  pub poll_deadline :
      is_poll t.task_type ≡ true → (d : Time) × (s.deadline_at ≡ some d) × (now + second ≤ d)
  pub deadline : is_poll t.task_type ≡ false → s.deadline_at ≡ t.deadline_at

window_bound :
    (work : TaskType) (now created : Time) (deadline : Option Time)
    → is_poll work ≡ true
    → (d : Time) × (fresh_deadline work now created deadline ≡ some d) × (now + second ≤ d)
unfolding fresh_deadline
window_bound advance_state now created deadline h = absurd (cc)
window_bound check_ready now created none h = (_, refl, omega arith)
window_bound check_ready now created (some d) h = (_, refl, omega arith)
window_bound check_pickup now created deadline h = absurd (cc)
window_bound check_delivery now created none h = (_, refl, omega arith)
window_bound check_delivery now created (some d) h = (_, refl, omega arith)

pub reopened-Reopened : (now : Time) (t : Task) → Reopened now t (reopened now t)
unfolding fresh_deadline
reopened-Reopened now t = record {
  id = refl;
  order_id = refl;
  task_type = refl;
  target_state = refl;
  dedupe_key = refl;
  max_attempts = refl;
  created_at = refl;
  status = refl;
  attempts = refl;
  next_run_at = refl;
  lease = (refl, refl);
  last_error = refl;
  completed_at = refl;
  poll_deadline = window_bound t.task_type now t.created_at t.deadline_at;
  deadline = λ h. ground (arith, h);
}
