-- ===== src/Dashboard/Health.antt =====
-- backend/api/dashboard_store.py: the health of the queue, the throughput and the workers.
use workato_take_home.Prelude.{
  ℕ, ◌+◌, ◌*◌, Bool, false, ◌&&◌, Option, none, some, leb, ◌==◌, is_some, holds_value,
}
use workato_take_home.Common.StateMachine.{delivered, state_eq}
use workato_take_home.Common.TaskTypes.{pending, running, completed, status_eq}
use workato_take_home.Common.EventTypes.{order_created, state_transition, event_eq}
use workato_take_home.Store.Schema.{Time, Task, Db}
use workato_take_home.Worker.Settings.{second}
use workato_take_home.Worker.Claim.{expired}
use workato_take_home.Dashboard.Select.{count_where}
use workato_take_home.Dashboard.Settings.{throughput_window_seconds}

-- `t >= now() - (n * interval '1 second')`
abbrev pub within : ℕ → Time → Time → Bool
within window now t = leb now (t + window * second)

-- `locked_until >= now()`, false of null
abbrev pub held : Time → Option Time → Bool
held now none = false
held now (some t) = leb now t

pub record TaskHealth : Type 0 where
  pub due_pending : ℕ
  pub expired_running : ℕ
  pub retrying_pending : ℕ
  pub retrying_running : ℕ
  pub completed_recent : ℕ

unfoldable pub is_due_pending : Time → Task → Bool
is_due_pending now t = t.status == pending && leb t.next_run_at now

unfoldable pub is_expired_running : Time → Task → Bool
is_expired_running now t = t.status == running && expired now t.locked_until

unfoldable pub task_health : Time → Db → TaskHealth
unfolding count_where is_due_pending is_expired_running
task_health now db = record {
  due_pending = count_where (is_due_pending now) db.tasks;
  expired_running = count_where (is_expired_running now) db.tasks;
  retrying_pending = count_where (λ t. t.status == pending && is_some t.last_error) db.tasks;
  retrying_running =
      count_where (λ t. t.status == running && (held now t.locked_until && is_some t.last_error))
        db.tasks;
  completed_recent =
      count_where (λ t. t.status == completed && within throughput_window_seconds now t.updated_at)
        db.tasks;
}

pub record OrderThroughput : Type 0 where
  pub orders_created : ℕ
  -- a minute is two windows
  pub orders_created_per_minute : ℕ
  pub orders_delivered : ℕ
  pub orders_delivered_per_minute : ℕ

unfoldable pub load_order_throughput : Time → Db → OrderThroughput
unfolding count_where
load_order_throughput now db =
    let created =
      count_where
        (λ e. e.event_type == order_created && within throughput_window_seconds now e.occurred_at)
        db.events in
    let arrived =
      count_where
        (λ e.
          e.event_type == state_transition
          && (holds_value e.to_state delivered
              && within throughput_window_seconds now e.occurred_at))
        db.events in
    record {
      orders_created = created;
      orders_created_per_minute = created * 2;
      orders_delivered = arrived;
      orders_delivered_per_minute = arrived * 2;
    }
