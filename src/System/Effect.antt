-- ===== src/System/Effect.antt =====
-- What a worker's transaction may do to the database: nothing, put its task back, drop a task that
-- its order does not need, or commit a transition. Each transaction is shown to do one of these.
use workato_take_home.Prelude.{
  ◌+◌, ◌<◌, ◌≤◌, ◌≡◌, ◌≢◌, refl, String, true, false, Option, none, some, Text, arith, ◌==◌,
  string_eq, Bool-cases, Option-cases, inl, inr, leb, ==→≡, is_some,
}
use workato_take_home.Common.StateMachine.{
  OrderState, out_for_delivery, state_eq, next_order_state, is_terminal_order_state,
}
use workato_take_home.Common.TaskTypes.{status_eq}
use workato_take_home.Store.Table.{update_by_id, find_id}
use workato_take_home.Store.Schema.{Uuid, Time, Order, Task, Db}
use workato_take_home.Store.Query.{task_id_of, find_order, find_task}
use workato_take_home.Worker.Settings.{Settings}
use workato_take_home.Worker.Specs.{RestaurantTransitionSpec}
use workato_take_home.Worker.Results.{ProcessingResult}
use workato_take_home.Worker.Lease.{
  owned_by, released, completed_task, rescheduled, polled, failed_task, timed_out_task,
  complete_claimed_task, retry_or_fail_claimed_task, reschedule_poll_task,
  fail_claimed_task_without_attempt_increment,
}
use workato_take_home.Worker.Rows.{Row, owned_task_check_result, checked}
use workato_take_home.Worker.Finalize.{Fresh, committed}
use workato_take_home.System.Lifecycle.{IsLifecycle, other_source}
use workato_take_home.System.Rows.{RowOf}

-- The ways to put a task back, or to give it up without losing it.
pub data PutBack (t : Task) : (Task → Task) → Type 0 where
  releases : (n : Option Time) (e : Option Text) (u : Time) → PutBack t (released n e u)
  retries :
      (n : Time) (e : Text) (u : Time)
      → t.attempts + 1 < t.max_attempts
      → PutBack t (rescheduled n e u)
  polls : (n u : Time) → PutBack t (polled n u)
  fails : (e : Text) (u : Time) → t.max_attempts ≤ t.attempts + 1 → PutBack t (failed_task e u)
  times_out : (e : Text) (u : Time) → PutBack t (timed_out_task e u)

abbrev pub on_owned : String → Task → (Task → Task) → Db → Db
on_owned w t f db = record db { tasks = update_by_id task_id_of t.id (owned_by w) f db.tasks }

-- A transition that sends an order out brings its courier.
abbrev pub Carries : OrderState → Option String → Type 0
Carries target courier = (target == out_for_delivery) ≡ true → is_some courier ≡ true

-- `key` is what `uuid4()` gives to the follow-up of a commit; none where nothing is committed.
pub data Effect (w : String) (key : Option Uuid) (db db' : Db) : Type 0 where
  unchanged : db' ≡ db → Effect w key db db'
  put_back :
      (t : Task) (f : Task → Task)
      → find_task t.id db ≡ some t
      → PutBack t f
      → db' ≡ on_owned w t f db
      → Effect w key db db'
  dropped :
      (t : Task) (o : Order) (target : OrderState) (now : Time)
      → find_task t.id db ≡ some t
      → find_order t.order_id db ≡ some o
      → t.target_state ≡ some target
      → next_order_state o.state ≢ some target
      → db' ≡ on_owned w t (completed_task now) db
      → Effect w key db db'
  commits :
      (settings : Settings) (spec : RestaurantTransitionSpec) (courier : Option String)
      (fresh : Fresh) (now : Time) (row : Row)
      → some fresh.task ≡ key
      → IsLifecycle spec
      → Carries spec.target_state courier
      → find_task row.task.id db ≡ some row.task
      → find_order row.task.order_id db ≡ some row.order
      → owned_by w row.task ≡ true
      → row.order.state ≡ spec.source_state
      → row.task.target_state ≡ some spec.target_state
      → db' ≡ committed settings spec courier fresh w now row db
      → Effect w key db db'

-- A row's task is found under its own key.
pub RowOf-own :
    (db : Db) (task_id : Uuid) (r : Row) → RowOf db task_id r → find_task r.task.id db ≡ some r.task
RowOf-own db task_id r h = ground (arith, find_id task_id_of task_id db.tasks r.task, h.task)

owned_check :
    (w : String) (t : Task) → owned_task_check_result w (some t) ≡ none → owned_by w t ≡ true
unfolding owned_task_check_result
owned_check w t h = ground arith

terminal_source :
    (source target s : OrderState)
    → next_order_state source ≡ some target
    → is_terminal_order_state s ≡ true
    → (s == source) ≡ false
unfolding next_order_state is_terminal_order_state
terminal_source source target s h t = ground arith

module _ (w : String) (key : Option Uuid) (db : Db) where
  pub retry_or_fail-Effect :
      (t : Task) (order_id : Uuid) (from to : OrderState) (next now : Time) (e : Text)
      → find_task t.id db ≡ some t
      → Effect w key db
          (retry_or_fail_claimed_task t.id w order_id from to t.attempts t.max_attempts next e now
            db).0
  unfolding retry_or_fail_claimed_task
  retry_or_fail-Effect t order_id from to next now e found =
      elim (Bool-cases (leb t.max_attempts (t.attempts + 1))) [
        | inl over ↦
            put_back t (failed_task e now) found (fails e now (ground arith)) (rw (over) refl)
        | inr more ↦
            put_back t (rescheduled next e now) found (retries next e now (ground arith))
              (rw (more) refl)
      ]

  pub poll-Effect :
      (t : Task) (next now : Time)
      → find_task t.id db ≡ some t
      → Effect w key db (reschedule_poll_task t.id w next now db).0
  unfolding reschedule_poll_task
  poll-Effect t next now found = put_back t (polled next now) found (polls next now) refl

  pub time_out-Effect :
      (t : Task) (now : Time) (e : Text)
      → find_task t.id db ≡ some t
      → Effect w key db (fail_claimed_task_without_attempt_increment t.id w e now db).0
  unfolding fail_claimed_task_without_attempt_increment
  time_out-Effect t now e found = put_back t (timed_out_task e now) found (times_out e now) refl

  drop-Effect :
      (source target : OrderState) (r : Row) (now : Time)
      → find_task r.task.id db ≡ some r.task
      → find_order r.task.order_id db ≡ some r.order
      → next_order_state source ≡ some target
      → r.task.target_state ≡ some target
      → (r.order.state == source) ≡ false
      → Effect w key db (complete_claimed_task r.task.id w now db).0
  unfolding complete_claimed_task
  drop-Effect source target r now found order steps aim ne =
      dropped r.task r.order target now found order aim
        (other_source source target r.order.state steps ne) refl

  -- The checks before a handler's body either change nothing, or drop a task that its order does not
  -- need, or go on with an owned task and an order in the source state.
  pub checked-Effect :
      {A : Type 0} (finish : ProcessingResult → A) (now : Time) (source target : OrderState)
      (body : Row → Db → Db × A) (task_id : Uuid) (row : Option Row)
      → next_order_state source ≡ some target
      → ((r : Row) → row ≡ some r → RowOf db task_id r × (r.task.target_state ≡ some target))
      → ((r : Row)
          → row ≡ some r
          → owned_by w r.task ≡ true
          → r.order.state ≡ source
          → Effect w key db (body r db).0)
      → Effect w key db (checked finish w now source body row db).0
  unfolding checked
  checked-Effect finish now source target body task_id none steps rows go = unchanged refl
  checked-Effect finish now source target body task_id (some r) steps rows go =
      let (at, aim) = rows r refl in
      let found = RowOf-own db task_id r at in
      elim (Option-cases (owned_task_check_result w (some r.task))) [
        | inr (skip, e) ↦ rw (e, checked) (unchanged refl)
        | inl e ↦ elim (Bool-cases (is_terminal_order_state r.order.state)) [
          | inl end ↦
              rw (e, checked)
                (rw end (
                  drop-Effect source target r now found at.order steps aim
                    (terminal_source source target r.order.state steps end)))
          | inr on ↦ elim (Bool-cases (r.order.state == source)) [
            | inr ne ↦
                rw (e, checked)
                  (rw (on, ne) (drop-Effect source target r now found at.order steps aim ne))
            | inl eq ↦
                rw (e, checked)
                  (rw (on, eq) (go r refl (owned_check w r.task e) (==→≡ r.order.state source eq)))
          ]
        ]
      ]
