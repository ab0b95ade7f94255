-- ===== src/Store/Query.antt =====
-- The statements that several services run: lookups by primary key, and updates of one row.
use workato_take_home.Prelude.{Option, ◌∷◌}
use workato_take_home.Store.Table.{find}
use workato_take_home.Store.Schema.{Uuid, Order, Task, Event, Db}

abbrev pub order_id_of : Order → Uuid
order_id_of o = o.id

abbrev pub task_id_of : Task → Uuid
task_id_of t = t.id

abbrev pub find_order : Uuid → Db → Option Order
find_order id db = find order_id_of id db.orders

abbrev pub find_task : Uuid → Db → Option Task
find_task id db = find task_id_of id db.tasks

abbrev pub insert_event : Event → Db → Db
insert_event e db = record db { events = e ∷ db.events }
