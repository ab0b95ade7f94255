-- ===== src/System/Rows.antt =====
-- The rows that the handlers read are rows of the database.
use workato_take_home.Prelude.{◌≡◌, some, arith}
use workato_take_home.Common.StateMachine.{OrderState}
use workato_take_home.Store.Schema.{Uuid, Db}
use workato_take_home.Store.Query.{find_order, find_task}
use workato_take_home.Worker.Rows.{
  Row, load_transition_task_row, load_ready_check_task_row, load_delivery_check_task_row,
}

pub record RowOf (db : Db) (task_id : Uuid) (r : Row) : Type 0 where
  pub task : find_task task_id db ≡ some r.task
  pub order : find_order r.task.order_id db ≡ some r.order

pub transition-RowOf :
    (source : OrderState) (task_id : Uuid) (db : Db) (r : Row)
    → load_transition_task_row source task_id db ≡ some r
    → RowOf db task_id r
unfolding load_transition_task_row
transition-RowOf source task_id db r h = ground arith

pub ready-RowOf :
    (task_id : Uuid) (db : Db) (r : Row)
    → load_ready_check_task_row task_id db ≡ some r
    → RowOf db task_id r
unfolding load_ready_check_task_row
ready-RowOf task_id db r h = ground arith

pub delivery-RowOf :
    (task_id : Uuid) (db : Db) (r : Row)
    → load_delivery_check_task_row task_id db ≡ some r
    → RowOf db task_id r
unfolding load_delivery_check_task_row
delivery-RowOf task_id db r h = ground arith
