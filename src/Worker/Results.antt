-- ===== src/Worker/Results.antt =====
-- backend/worker/tasks.py: the outcome of processing one claimed task.
use workato_take_home.Prelude.{Bool, true, false, Option, none, Text}
use workato_take_home.Common.StateMachine.{OrderState}
use workato_take_home.Store.Schema.{Uuid}

pub data Action : Type 0 where
  transitioned retry_scheduled failed missing_task not_running lost_ownership : Action
  completed_terminal_noop completed_stale_noop completed_optimistic_noop poll_scheduled : Action
  -- no action: an OverflowError leaves the handler, and its transaction rolls back
  overflow_error : Action

pub record ProcessingResult : Type 0 where
  pub action : Action
  pub order_id : Option Uuid
  pub from_state : Option OrderState
  pub to_state : Option OrderState
  pub error : Option Text

abbrev pub result :
    Action → Option Uuid → Option OrderState → Option OrderState → Option Text → ProcessingResult
result action order_id from to error = record {
  action = action;
  order_id = order_id;
  from_state = from;
  to_state = to;
  error = error;
}

abbrev pub raised_overflow : ProcessingResult
raised_overflow = result overflow_error none none none none

abbrev pub is_raised : Action → Bool
is_raised overflow_error = true
is_raised _ = false

-- What a preparing transaction returns: the details of the call to make, or the final result.
pub data Prepared {ℓ} (A : Type ℓ) : Type ℓ where
  call : A → Prepared A
  done : ProcessingResult → Prepared A
