-- ===== src/Worker/Poll.antt =====
-- backend/worker/tasks.py: the transactions that the readiness check and the delivery check have in
-- common. The two families of functions in the source differ in their query, states and messages.
use workato_take_home.Prelude.{◌+◌, String, Option, none, some, Text, leb, if◌then◌else◌}
use workato_take_home.Common.StateMachine.{OrderState}
use workato_take_home.Store.Schema.{Time, Db}
use workato_take_home.Worker.Settings.{Settings, task_retry_delay}
use workato_take_home.Worker.Results.{
  Action, ProcessingResult, raised_overflow, poll_scheduled, Prepared, done,
}
use workato_take_home.Worker.Lease.{
  reschedule_poll_task, retry_or_fail_claimed_task, fail_claimed_task_without_attempt_increment,
  report,
}
use workato_take_home.Worker.Rows.{Row, checked}

pub record PollCheck : Type 0 where
  pub source_state : OrderState
  pub target_state : OrderState
  pub missing_deadline : Text
  pub deadline_exceeded : Text

-- A failure that consumes an attempt, on the row that was read.
unfoldable pub retry_row :
    Settings → PollCheck → Text → String → Time → Row → Db → Db × ProcessingResult
unfolding retry_or_fail_claimed_task
retry_row settings check error worker now row db =
    retry_or_fail_claimed_task row.task.id worker row.task.order_id check.source_state
      check.target_state row.task.attempts row.task.max_attempts
      (now + task_retry_delay settings row.task.attempts) error now db

-- The same where a transaction is to return the details of a call.
abbrev pub refuse {ℓ} : {A : Type ℓ} → Db × ProcessingResult → Db × Prepared A
refuse (db, res) = (db, done res)

-- After a failed request.
unfoldable pub reschedule_after_error :
    Settings → PollCheck → Text → String → Time → Option Row → Db → Db × ProcessingResult
unfolding checked retry_row
reschedule_after_error settings check error worker now row db =
    checked (λ r. r) worker now check.source_state (retry_row settings check error worker now) row
      db

-- A task without a deadline is an error; one past it has failed; any other polls again at `next`,
-- unless the computation of that instant overflows.
unfoldable pub poll_again :
    Settings → PollCheck → (Time → Option Time) → String → Time → Row → Db → Db × ProcessingResult
unfolding retry_row fail_claimed_task_without_attempt_increment reschedule_poll_task
poll_again settings check next worker now row db = elim row.task.deadline_at [
  | none ↦ retry_row settings check check.missing_deadline worker now row db
  | some deadline ↦
      if leb deadline now
      then report Action.failed row.task.order_id check.source_state check.target_state
          (some check.deadline_exceeded)
          (fail_claimed_task_without_attempt_increment row.task.id worker check.deadline_exceeded
            now db)
      else elim (next deadline) [
        | none ↦ (db, raised_overflow)
        | some next_run_at ↦
            report poll_scheduled row.task.order_id check.source_state check.target_state none
              (reschedule_poll_task row.task.id worker next_run_at now db)
      ]
]

-- After a pending answer; `next` gives the next poll by the deadline.
unfoldable pub reschedule_after_pending :
    Settings
    → PollCheck
    → (Time → Option Time)
    → String
    → Time
    → Option Row
    → Db
    → Db × ProcessingResult
unfolding checked poll_again
reschedule_after_pending settings check next worker now row db =
    checked (λ r. r) worker now check.source_state (poll_again settings check next worker now) row
      db
