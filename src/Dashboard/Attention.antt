-- ===== src/Dashboard/Attention.antt =====
-- backend/api/dashboard_store.py: _load_attention_order_overview, the orders that need an operator.
use workato_take_home.Prelude.{
  ℕ, ◌+◌, ◌-◌, ◌*◌, ◌/◌, Bool, true, false, ◌&&◌, ◌||◌, not, Option, none, some, List, [], ◌∷◌, ltb,
  leb, eqb, ◌==◌, if◌then◌else◌, is_some, Text, text, nat_eq, map,
}
use workato_take_home.Common.StateMachine.{OrderState, is_terminal_order_state}
use workato_take_home.Common.TaskTypes.{pending, running, failed, status_eq}
use workato_take_home.Store.Table.{select_where, exists_where}
use workato_take_home.Store.Schema.{Time, Order, Task, Db}
use workato_take_home.Worker.Settings.{second}
use workato_take_home.Worker.Claim.{expired}
use workato_take_home.Dashboard.Select.{count_where, order_by, limit_rows, first_row}
use workato_take_home.Dashboard.Settings.{attention_order_limit}

-- `extract(epoch from now() - t)::int`, rounded to the nearest second: `ahead n` is -n.
pub data Seconds : Type 0 where
  ago ahead : ℕ → Seconds

abbrev pub nearest_second : ℕ → ℕ
nearest_second microseconds = (microseconds + 500_000) / second

unfoldable pub seconds_since : Time → Time → Seconds
seconds_since now t =
    if leb t now then ago (nearest_second (now - t)) else ahead (nearest_second (t - now))

unfoldable pub shorter : Seconds → Seconds → Bool
shorter (ago a) (ago b) = ltb a b
shorter (ago a) (ahead b) = false
shorter (ahead a) (ago b) = ltb 0 (a + b)
shorter (ahead a) (ahead b) = ltb b a

unfoldable pub greatest : Seconds → Seconds → Seconds
unfolding shorter
greatest a b = if shorter a b then b else a

-- `greatest(a - limit, 0)`
unfoldable pub beyond : Seconds → ℕ → ℕ
beyond (ago a) limit = a - limit
beyond (ahead a) limit = 0

-- `t <= now() - (n * interval '1 second')`
abbrev pub older : ℕ → Time → Time → Bool
older n now t = leb (t + n * second) now

-- `text like 'prefix%'`
unfoldable pub starts_with : Text → Text → Bool
starts_with [] cs = true
starts_with (p ∷ ps) [] = false
starts_with (p ∷ ps) (c ∷ cs) = if eqb p c then starts_with ps cs else false

-- `last_error like 'unsupported task%'`, false of null
unfoldable pub is_unsupported_error : Option Text → Bool
unfolding starts_with
is_unsupported_error none = false
is_unsupported_error (some e) = starts_with (text "unsupported task") e

unfoldable pub expired_lease : Time → Task → Bool
expired_lease now t = t.status == running && expired now t.locked_until

unfoldable pub retrying : Task → Bool
retrying t = (t.status == pending || t.status == running) && is_some t.last_error

-- The rows of `problem_tasks` before they are grouped.
unfoldable pub problem : Time → Task → Bool
unfolding expired_lease retrying
problem now t = t.status == failed || (expired_lease now t || retrying t)

-- `bool_or(flag)` over the group of an order, false where there is no group.
unfoldable pub any_problem : Time → Order → (Task → Bool) → Db → Bool
unfolding problem exists_where
any_problem now o flag db =
    exists_where (λ t. t.order_id == o.id && (problem now t && flag t)) db.tasks

pub record Attention : Type 0 where
  pub order : Order
  pub age_seconds : Seconds
  pub state_seconds : Seconds
  pub overdue_seconds : ℕ
  pub stuck_seconds : ℕ
  pub state_threshold_seconds : Option ℕ
  pub is_overdue : Bool
  pub is_stuck : Bool
  pub has_failed_task : Bool
  pub has_expired_lease : Bool
  pub has_retrying_task : Bool
  pub has_unsupported_task : Bool
  pub latest_task : Option Task

-- The rank of a task in the lateral join.
unfoldable pub task_rank : Time → Task → ℕ
unfolding expired_lease is_unsupported_error
task_rank now t =
    if t.status == failed
    then 0
    else if expired_lease now t
    then 1
    else if is_unsupported_error t.last_error
    then 2
    else if is_some t.last_error
    then 3
    else 4

-- `order by <rank>, updated_at desc, created_at desc, id desc`
unfoldable pub task_behind : Time → Task → Task → Bool
unfolding task_rank
task_behind now t u =
    ltb (task_rank now u) (task_rank now t)
    || (eqb (task_rank now u) (task_rank now t)
        && (ltb t.updated_at u.updated_at
            || (eqb t.updated_at u.updated_at
                && (ltb t.created_at u.created_at
                    || (eqb t.created_at u.created_at && ltb t.id u.id)))))

unfoldable pub attention_rank : Attention → ℕ
attention_rank a =
    if a.has_failed_task
    then 0
    else if a.has_expired_lease
    then 1
    else if a.has_unsupported_task
    then 2
    else if a.is_overdue
    then 3
    else if a.is_stuck
    then 4
    else 5

unfoldable pub longest : Attention → Seconds
unfolding greatest
longest a = greatest a.age_seconds a.state_seconds

-- `order by <rank>, greatest(age_seconds, state_seconds) desc, created_at asc`: `b` goes before `a`.
unfoldable pub attention_behind : Attention → Attention → Bool
unfolding attention_rank longest shorter
attention_behind a b =
    ltb (attention_rank b) (attention_rank a)
    || (eqb (attention_rank b) (attention_rank a)
        && (shorter (longest a) (longest b)
            || (not (shorter (longest b) (longest a))
                && ltb b.order.created_at a.order.created_at)))

pub record AttentionOverview : Type 0 where
  pub total : ℕ
  pub items : List Attention

module _ (now : Time) (order_delivery_sla_seconds : ℕ)
    (stuck_thresholds : OrderState → Option ℕ) where
  unfoldable pub overdue : Order → Bool
  overdue o = older order_delivery_sla_seconds now o.created_at

  unfoldable pub stuck_beyond : Order → Option ℕ → Bool
  stuck_beyond o none = false
  stuck_beyond o (some threshold) = older threshold now o.updated_at

  unfoldable pub stuck : Order → Bool
  unfolding stuck_beyond
  stuck o = stuck_beyond o (stuck_thresholds o.state)

  -- The `where` of `attention`.
  unfoldable pub needs_attention : Db → Order → Bool
  unfolding overdue stuck any_problem
  needs_attention db o =
      not (is_terminal_order_state o.state)
      && (overdue o || (stuck o || any_problem now o (λ t. true) db))

  unfoldable pub stuck_seconds_of : Order → Option ℕ → ℕ
  unfolding beyond seconds_since
  stuck_seconds_of o none = 0
  stuck_seconds_of o (some threshold) = beyond (seconds_since now o.updated_at) threshold

  unfoldable pub attention_row : Db → Order → Attention
  unfolding seconds_since beyond stuck_seconds_of overdue stuck any_problem order_by task_behind
      select_where
  attention_row db o = record {
    order = o;
    age_seconds = seconds_since now o.created_at;
    state_seconds = seconds_since now o.updated_at;
    overdue_seconds = beyond (seconds_since now o.created_at) order_delivery_sla_seconds;
    stuck_seconds = stuck_seconds_of o (stuck_thresholds o.state);
    state_threshold_seconds = stuck_thresholds o.state;
    is_overdue = overdue o;
    is_stuck = stuck o;
    has_failed_task = any_problem now o (λ t. t.status == failed) db;
    has_expired_lease = any_problem now o (expired_lease now) db;
    has_retrying_task = any_problem now o retrying db;
    has_unsupported_task = any_problem now o (λ t. is_unsupported_error t.last_error) db;
    latest_task =
        first_row (order_by (task_behind now) (select_where (λ t. t.order_id == o.id) db.tasks));
  }

  -- The rows of the common table expression `attention`.
  unfoldable pub attention_rows : Db → List Attention
  unfolding attention_row needs_attention select_where
  attention_rows db = map (attention_row db) (select_where (needs_attention db) db.orders)

  -- `_load_attention_order_overview`; `count(*) over()` counts the rows before the limit.
  unfoldable pub load_attention_order_overview : Db → AttentionOverview
  unfolding attention_rows order_by attention_behind limit_rows
  load_attention_order_overview db =
      let rows = attention_rows db in
      record {
        total = count_where (λ a. true) rows;
        items = limit_rows attention_order_limit (order_by attention_behind rows);
      }
