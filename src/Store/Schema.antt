-- ===== src/Store/Schema.antt =====
-- The rows of the tables `orders`, `order_tasks` and `order_events`, as the migrations
-- 20260625_0001 and 20260625_0002 declare them. A UUID is a number. An instant is a number of
-- microseconds, the resolution of `timestamptz` and of Python's `datetime`.
use workato_take_home.Prelude.{ℕ, String, Option, List, Text}
use workato_take_home.Common.StateMachine.{OrderState}
use workato_take_home.Common.TaskTypes.{TaskType, TaskStatus}
use workato_take_home.Common.EventTypes.{EventType}

abbrev pub Uuid : Type 0
Uuid = ℕ

abbrev pub Time : Type 0
Time = ℕ

pub record Order : Type 0 where
  pub id : Uuid
  pub idempotency_key : String
  pub state : OrderState
  pub version : ℕ
  pub customer_ref : Option String
  pub restaurant_ref : String
  pub courier_ref : Option String
  pub terminal_reason : Option String
  pub created_at : Time
  pub updated_at : Time
  pub delivered_at : Option Time
  pub cancelled_at : Option Time

-- The parts of the text `{order_id}:{task_type}:{target_state}`.
pub record DedupeKey : Type 0 where
  pub order : Uuid
  pub work : TaskType
  pub target : OrderState

pub record Task : Type 0 where
  pub id : Uuid
  pub order_id : Uuid
  pub task_type : TaskType
  pub target_state : Option OrderState
  pub status : TaskStatus
  pub attempts : ℕ
  pub max_attempts : ℕ
  pub next_run_at : Time
  pub deadline_at : Option Time
  pub locked_by : Option String
  pub locked_until : Option Time
  pub dedupe_key : Option DedupeKey
  pub last_error : Option Text
  pub created_at : Time
  pub updated_at : Time
  pub completed_at : Option Time

-- The JSON objects that the services write, and the column's default `{}`.
pub data Metadata : Type 0 where
  empty : Metadata
  -- source, cancelled_task_count, cancelled_task_ids
  cancellation : String → ℕ → List Uuid → Metadata
  -- source, task_type, target_state, previous_attempts, previous_max_attempts, previous_last_error
  operator_retry : String → TaskType → Option OrderState → ℕ → ℕ → Option Text → Metadata

pub record Event : Type 0 where
  pub id : Uuid
  pub order_id : Uuid
  pub event_type : EventType
  pub from_state : Option OrderState
  pub to_state : Option OrderState
  pub task_id : Option Uuid
  pub worker_id : Option String
  pub occurred_at : Time
  pub metadata : Metadata

pub record Db : Type 0 where
  pub orders : List Order
  pub tasks : List Task
  pub events : List Event
