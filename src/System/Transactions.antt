-- ===== src/System/Transactions.antt =====
-- The transactions of the services as one type, what each does to the database, and the databases
-- that they reach from the empty one, in any order, by any number of workers. A worker that dies
-- between two transactions is one whose second transaction does not come.
use workato_take_home.Prelude.{◌≡◌, String, Bool, Option, none, some, []}
use workato_take_home.Store.Schema.{Uuid, Time, Task, Db}
use workato_take_home.Store.Query.{find_order, find_task}
use workato_take_home.Worker.Downstream.{Reply, Verdict, CourierAssignOutcome}
use workato_take_home.Worker.Claim.{claim_one_task}
use workato_take_home.Worker.Prepare.{prepare_transition_call, prepare_courier_assign_call}
use workato_take_home.Worker.Transition.{Run, finish_transition, finish_courier_assign}
use workato_take_home.Worker.Ready.{prepare_ready_check_call, finish_ready_check}
use workato_take_home.Worker.Delivery.{prepare_delivery_check_call, finish_delivery_check}
use workato_take_home.Worker.Dispatch.{
  Handler, transition, courier_assign, readiness_check, delivery_check, unsupported, handler_of,
  release_unsupported,
}
use workato_take_home.Api.OrderStore.{FreshOrder, create_or_get_order, cancel_order}
use workato_take_home.Api.TaskStore.{retry_failed_tasks_for_order}

-- What a worker makes of the answer to its call.
pub data Answer : Type 0 where
  verdict : Reply Verdict → Answer
  assignment : Reply CourierAssignOutcome → Answer

pub data Transaction : Type 0 where
  intake : FreshOrder → Time → String → String → Option String → Transaction
  cancellation : Uuid → Uuid → Time → Transaction
  recovery : (Uuid → Uuid) → Uuid → Time → Transaction
  claim : (Uuid → Bool) → String → Time → Transaction
  -- of one task by one worker: before its call, and after it
  before_call : Run → Uuid → String → Transaction
  after_call : Run → Answer → Uuid → String → Transaction

unfoldable pub before : Handler → Run → Uuid → String → Db → Db
unfolding prepare_transition_call prepare_courier_assign_call prepare_ready_check_call
    prepare_delivery_check_call
before (transition spec) r id w db = (prepare_transition_call spec id w r.prepared_at db).0
before courier_assign r id w db = (prepare_courier_assign_call id w r.prepared_at db).0
before readiness_check r id w db = (prepare_ready_check_call r.settings id w r.prepared_at db).0
before delivery_check r id w db = (prepare_delivery_check_call r.settings id w r.prepared_at db).0
before unsupported r id w db = db

unfoldable pub after : Handler → Run → Answer → Task → String → Db → Db
unfolding finish_transition finish_courier_assign finish_ready_check finish_delivery_check
    release_unsupported
after (transition spec) r (verdict v) t w db = (finish_transition r spec t.order_id t.id w v db).0
after courier_assign r (assignment a) t w db = (finish_courier_assign r t.order_id t.id w a db).0
after readiness_check r (verdict v) t w db = (finish_ready_check r t.id w v db).0
after delivery_check r (verdict v) t w db = (finish_delivery_check r t.id w v db).0
after unsupported r a t w db = release_unsupported r t w db
after _ r a t w db = db

unfoldable pub before_task : Run → String → Db → Option Task → Db
before_task r w db none = db
before_task r w db (some t) = before (handler_of t.task_type t.target_state) r t.id w db

unfoldable pub after_task : Run → Answer → String → Db → Option Task → Db
after_task r a w db none = db
after_task r a w db (some t) = after (handler_of t.task_type t.target_state) r a t w db

unfoldable pub execute : Transaction → Db → Db
unfolding before_task after_task before after handler_of create_or_get_order cancel_order
    retry_failed_tasks_for_order claim_one_task
execute (intake fresh now key restaurant customer) db =
    (create_or_get_order fresh now key restaurant customer db).0
execute (cancellation event order now) db = (cancel_order event order now db).0
execute (recovery fresh order now) db = (retry_failed_tasks_for_order fresh order now db).0
execute (claim locked w now) db = (claim_one_task locked w now db).0
execute (before_call r id w) db = before_task r w db (find_task id db)
execute (after_call r a id w) db = after_task r a w db (find_task id db)

-- `uuid4()` returns keys that no row has.
abbrev pub DrawsFresh : Transaction → Db → Type 0
DrawsFresh (intake fresh now key restaurant customer) db =
    (find_order fresh.order db ≡ none) × (find_task fresh.task db ≡ none)
DrawsFresh (after_call r a id w) db = find_task r.fresh.task db ≡ none
DrawsFresh _ db = Unit

abbrev pub empty_db : Db
empty_db = record { orders = []; tasks = []; events = [] }

pub data Reach : Db → Type 0 where
  start : Reach empty_db
  next : {db : Db} (tx : Transaction) → Reach db → DrawsFresh tx db → Reach (execute tx db)
