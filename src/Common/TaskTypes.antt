-- ===== src/Common/TaskTypes.antt =====
-- backend/common/task_types.py: the kinds of work and the status of a queue row.
use workato_take_home.Prelude.{ℕ, ◌≡◌, arith, Comparable, by_index}

pub data TaskType : Type 0 where
  advance_state check_ready check_pickup check_delivery : TaskType

pub data TaskStatus : Type 0 where
  pending running completed failed cancelled : TaskStatus

abbrev pub type_index : TaskType → ℕ
type_index advance_state = 0
type_index check_ready = 1
type_index check_pickup = 2
type_index check_delivery = 3

abbrev pub status_index : TaskStatus → ℕ
status_index pending = 0
status_index running = 1
status_index completed = 2
status_index failed = 3
status_index cancelled = 4

pub type_index-injective : (s t : TaskType) → type_index s ≡ type_index t → s ≡ t
type_index-injective s t h = ground arith

pub status_index-injective : (s t : TaskStatus) → status_index s ≡ status_index t → s ≡ t
status_index-injective s t h = ground arith

instance abbrev pub type_eq : Comparable TaskType
type_eq = by_index type_index type_index-injective

instance abbrev pub status_eq : Comparable TaskStatus
status_eq = by_index status_index status_index-injective
