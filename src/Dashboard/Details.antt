-- ===== src/Dashboard/Details.antt =====
-- backend/api/dashboard_store.py: the detail of one order, the lists of the overview and the workers.
use workato_take_home.Prelude.{
  ℕ, Bool, ◌&&◌, ◌||◌, Option, none, some, List, [], ◌∷◌, String, ltb, eqb, ◌==◌, nat_eq, length,
}
use workato_take_home.Common.Environment.{Environment}
use workato_take_home.Common.StateMachine.{placed, state_eq}
use workato_take_home.Store.Table.{select_where}
use workato_take_home.Store.Schema.{Uuid, Time, Order, Task, Event, Db}
use workato_take_home.Store.Query.{find_order}
use workato_take_home.Worker.Heartbeat.{WorkerRow}
use workato_take_home.Dashboard.Select.{count_where, order_by, limit_rows}
use workato_take_home.Dashboard.Settings.{configured_worker_count, active_worker_threshold_seconds}
use workato_take_home.Dashboard.Health.{within}

-- `order by created_at desc, updated_at desc, id desc`
unfoldable pub task_older : Task → Task → Bool
task_older t u =
    ltb t.created_at u.created_at
    || (eqb t.created_at u.created_at
        && (ltb t.updated_at u.updated_at || (eqb t.updated_at u.updated_at && ltb t.id u.id)))

-- `order by occurred_at asc, id asc`
unfoldable pub event_later : Event → Event → Bool
event_later e f =
    ltb f.occurred_at e.occurred_at || (eqb f.occurred_at e.occurred_at && ltb f.id e.id)

pub record OrderDetail : Type 0 where
  pub order : Order
  pub tasks : List Task
  pub events : List Event

unfoldable pub detail_of : Db → Option Order → Option OrderDetail
unfolding order_by limit_rows select_where task_older event_later
detail_of db none = none
detail_of db (some o) = some (record {
  order = o;
  tasks = limit_rows 50 (order_by task_older (select_where (λ t. t.order_id == o.id) db.tasks));
  events = limit_rows 50 (order_by event_later (select_where (λ e. e.order_id == o.id) db.events));
})

unfoldable pub get_dashboard_order_detail : Uuid → Db → Option OrderDetail
unfolding detail_of
get_dashboard_order_detail order db = detail_of db (find_order order db)

pub record WorkerOverview : Type 0 where
  pub active_count : ℕ
  pub configured_count : ℕ
  pub total_seen : ℕ

unfoldable pub load_worker_overview : Environment → Time → List WorkerRow → WorkerOverview
unfolding count_where configured_worker_count
load_worker_overview env now workers = record {
  active_count =
      count_where (λ w. within active_worker_threshold_seconds now w.last_seen_at) workers;
  configured_count = configured_worker_count env;
  total_seen = length workers;
}

-- `order by updated_at desc`
unfoldable pub changed_earlier : Order → Order → Bool
changed_earlier o p = ltb o.updated_at p.updated_at

unfoldable pub load_recent_orders : Db → List Order
unfolding order_by limit_rows changed_earlier
load_recent_orders db = limit_rows 12 (order_by changed_earlier db.orders)

unfoldable pub load_placed_orders : Db → List Order
unfolding order_by limit_rows changed_earlier select_where
load_placed_orders db =
    limit_rows 5 (order_by changed_earlier (select_where (λ o. o.state == placed) db.orders))

-- An event with the idempotency key of its order; the join drops an event without an order.
unfoldable pub join_orders : Db → List Event → List (Event × String)
join_orders db [] = []
join_orders db (e ∷ events) =
    let rest = join_orders db events in
    elim (find_order e.order_id db) [ none ↦ rest | some o ↦ (e, o.idempotency_key) ∷ rest ]

abbrev occurred_earlier : Event × String → Event × String → Bool
occurred_earlier e f = ltb e.0.occurred_at f.0.occurred_at

unfoldable pub load_recent_events : Db → List (Event × String)
unfolding join_orders order_by limit_rows
load_recent_events db = limit_rows 20 (order_by occurred_earlier (join_orders db db.events))
