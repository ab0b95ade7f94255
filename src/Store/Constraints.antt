-- ===== src/Store/Constraints.antt =====
-- The partial unique index `uq_order_tasks_active_dedupe_key` of migration 20260625_0002.
use workato_take_home.Prelude.{Bool, false, ◌&&◌, ◌||◌, none, some, List, [], ◌∷◌, ◌==◌, nat_eq}
use workato_take_home.Common.StateMachine.{OrderState, state_eq}
use workato_take_home.Common.TaskTypes.{TaskType, TaskStatus, pending, running, type_eq, status_eq}
use workato_take_home.Store.Table.{exists_where}
use workato_take_home.Store.Schema.{Uuid, Task}

abbrev pub is_active : TaskStatus → Bool
is_active s = s == pending || s == running

-- The partial unique index `uq_order_tasks_active_dedupe_key`, asked for a conflict.
abbrev pub active_duplicate : Uuid → TaskType → OrderState → Task → Bool
active_duplicate order work target t = elim t.dedupe_key [
  | none ↦ false
  | some k ↦ is_active t.status && (k.order == order && (k.work == work && k.target == target))
]

conflicts : Task → List Task → Bool
conflicts t tasks = elim t.dedupe_key [
  | none ↦ false
  | some k ↦ is_active t.status && exists_where (active_duplicate k.order k.work k.target) tasks
]

-- Whether two active tasks have one key.
unfoldable pub violates_unique_key : List Task → Bool
unfolding conflicts
violates_unique_key [] = false
violates_unique_key (t ∷ tasks) = conflicts t tasks || violates_unique_key tasks
