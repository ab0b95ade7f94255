-- ===== src/Worker/Polling.antt =====
-- The deadlines of poll tasks, and what an unfinished answer of the simulator is taken to mean.
use Prim.Native.Nat.{min}
use workato_take_home.Prelude.{
  ℕ, ◌+◌, ◌≤◌, ◌<◌, ◌≡◌, ◌∙◌, ap, refl, sym, subst, String, true, false, Option, none, some, arith,
  Bool-cases, inl, inr, leb, string_eq,
}
use workato_take_home.Common.StateMachine.{
  OrderState, confirmed, preparing, ready, out_for_delivery, is_terminal_order_state,
}
use workato_take_home.Common.TaskTypes.{pending, failed}
use workato_take_home.Store.Schema.{Uuid, Time, Order, Task, Db}
use workato_take_home.Store.Query.{find_order, find_task}
use workato_take_home.Worker.Settings.{
  Settings, max_instant, after_delay, capped, or_default, bounded_ready_check_next_run_at,
  bounded_delivery_check_next_run_at,
}
use workato_take_home.Worker.Downstream.{Reply, Verdict, outcome, still_pending}
use workato_take_home.Worker.Lease.{owned_by, polled, timed_out_task, owned_update}
use workato_take_home.Worker.Rows.{
  Row, checked, latest, transition_event, load_ready_check_task_row, load_delivery_check_task_row,
}
use workato_take_home.Worker.Checks.{checked-body}
use workato_take_home.Worker.Transition.{Run}
use workato_take_home.Worker.Ready.{
  ready_check, reschedule_ready_check_after_not_ready, finish_ready_check,
}
use workato_take_home.Worker.Delivery.{
  delivery_check, reschedule_delivery_check_after_in_transit, finish_delivery_check,
}
use workato_take_home.Worker.Poll.{PollCheck, poll_again, reschedule_after_pending}

-- The two kinds of work that are polled for, the state in which each is asked, its interval, and the
-- transaction after its call.
pub data PollWork : Type 0 where
  readiness delivery : PollWork

abbrev pub asked_in : PollWork → OrderState
asked_in readiness = preparing
asked_in delivery = out_for_delivery

abbrev pub interval_of : PollWork → Settings → ℕ
interval_of readiness settings = settings.ready_check_interval
interval_of delivery settings = settings.delivery_check_interval

abbrev pub finish_poll : PollWork → Run → Uuid → String → Reply Verdict → Db → Db
finish_poll readiness r id w v db = (finish_ready_check r id w v db).0
finish_poll delivery r id w v db = (finish_delivery_check r id w v db).0

-- The task has lost its lease, and no attempt.
pub record GivenBack (t s : Task) : Type 0 where
  pub attempts : s.attempts ≡ t.attempts
  pub free : (s.locked_by ≡ none) × (s.locked_until ≡ none)

-- What an unfinished poll leads to, `proposed` being the instant of the next one.
pub data Polled (t : Task) (deadline now proposed : Time) (db db' : Db) : Type 0 where
  fails :
      (s : Task)
      → deadline ≤ now
      → find_task t.id db' ≡ some s
      → GivenBack t s
      → s.status ≡ failed
      → Polled t deadline now proposed db db'
  waits :
      (s : Task)
      → now < deadline
      → proposed ≤ max_instant
      → find_task t.id db' ≡ some s
      → GivenBack t s
      → s.status ≡ pending
      → s.next_run_at ≡ min proposed deadline
      → Polled t deadline now proposed db db'
  raises :
      now < deadline → max_instant < proposed → db' ≡ db → Polled t deadline now proposed db db'

poll_again-Polled :
    (settings : Settings) (check : PollCheck) (delay : ℕ) (w : String) (now : Time) (row : Row)
    (db : Db) (deadline : Time)
    → find_task row.task.id db ≡ some row.task
    → owned_by w row.task ≡ true
    → row.task.deadline_at ≡ some deadline
    → Polled row.task deadline now
        (now + delay)
        db
        (poll_again settings check (λ d. capped d (after_delay now delay)) w now row db).0
unfolding poll_again after_delay
poll_again-Polled settings check delay w now row db deadline found ours due =
    let stored = owned_update row.task.id w db row.task found ours in
    elim (Bool-cases (leb deadline now)) [
      | inl over ↦
          rw (due, poll_again)
            (rw over (
              fails (timed_out_task check.deadline_exceeded now row.task) (ground (arith, over))
                (stored _ (λ _. refl)) (record { attempts = refl; free = (refl, refl) }) refl))
      | inr ahead ↦ elim (Bool-cases (leb (now + delay) max_instant)) [
        | inl fits ↦
            rw (due, poll_again)
              (rw (ahead, fits)
                (waits (polled (min (now + delay) deadline) now row.task) (ground (arith, ahead))
                  (ground (arith, fits)) (stored _ (λ _. refl))
                  (record { attempts = refl; free = (refl, refl) }) refl refl))
        | inr beyond ↦
            rw (due, poll_again)
              (rw (ahead, beyond) (raises (ground (arith, ahead)) (ground (arith, beyond)) refl))
      ]
    ]

-- The whole transaction, on the row that its query found.
pending-Polled :
    (settings : Settings) (check : PollCheck) (delay : ℕ) (w : String) (now : Time) (row : Row)
    (found_row : Option Row) (db : Db) (deadline : Time)
    → found_row ≡ some row
    → find_task row.task.id db ≡ some row.task
    → owned_by w row.task ≡ true
    → row.task.deadline_at ≡ some deadline
    → is_terminal_order_state row.order.state ≡ false
    → row.order.state ≡ check.source_state
    → Polled row.task deadline now
        (now + delay)
        db
        (reschedule_after_pending settings check
          (λ d. capped d (after_delay now delay))
          w
          now
          found_row
          db).0
unfolding reschedule_after_pending
pending-Polled settings check delay w now row found_row db deadline e found ours due on at =
    let next : Time → Option Time = λ d. capped d (after_delay now delay) in
    let body = poll_again settings check next w now in
    let same : checked (λ x. x) w now check.source_state body found_row db ≡ body row db =
      ap (λ x. checked (λ x. x) w now check.source_state body x db) e
      ∙ checked-body (λ x. x) w now check.source_state body row db ours on at in
    subst (λ x. Polled row.task deadline now (now + delay) db x.0) (sym same)
      (poll_again-Polled settings check delay w now row db deadline found ours due)

asked_on : (work : PollWork) → is_terminal_order_state (asked_in work) ≡ false
unfolding is_terminal_order_state
asked_on readiness = refl
asked_on delivery = refl

-- For an owned task of the readiness or the delivery check with a deadline, whose order is in the state
-- in which it is asked: if the answer is that the work is unfinished, then from the deadline on the task
-- has failed; before it the task is pending and due at the earlier of its deadline and the instant that
-- the hint, or without one the interval, gives; both cost no attempt and give up the lease. If that
-- instant is beyond the year 9999 and the deadline is ahead, the handler raises and changes nothing.
pub finish_poll-Polled :
    (work : PollWork) (r : Run) (hint : Option ℕ) (w : String) (db : Db) (t : Task) (o : Order)
    (deadline : Time)
    → find_task t.id db ≡ some t
    → find_order t.order_id db ≡ some o
    → owned_by w t ≡ true
    → t.deadline_at ≡ some deadline
    → o.state ≡ asked_in work
    → Polled t deadline r.finished_at
        (r.finished_at + or_default hint (interval_of work r.settings))
        db
        (finish_poll work r t.id w (outcome (still_pending hint)) db)
unfolding finish_ready_check finish_delivery_check reschedule_ready_check_after_not_ready
    reschedule_delivery_check_after_in_transit bounded_ready_check_next_run_at
    bounded_delivery_check_next_run_at load_ready_check_task_row load_delivery_check_task_row
finish_poll-Polled readiness r hint w db t o deadline found order ours due at =
    let row : Row = record {
      task = t;
      order = o;
      started_at = latest (transition_event t.order_id confirmed preparing) db.events;
    } in
    let e : load_ready_check_task_row t.id db ≡ some row = ground (arith, found, order) in
    pending-Polled r.settings ready_check (or_default hint r.settings.ready_check_interval) w
      r.finished_at row _ db deadline e found ours due (rw at (asked_on readiness)) at
finish_poll-Polled delivery r hint w db t o deadline found order ours due at =
    let row : Row = record {
      task = t;
      order = o;
      started_at = latest (transition_event t.order_id ready out_for_delivery) db.events;
    } in
    let e : load_delivery_check_task_row t.id db ≡ some row = ground (arith, found, order) in
    pending-Polled r.settings delivery_check (or_default hint r.settings.delivery_check_interval) w
      r.finished_at row _ db deadline e found ours due (rw at (asked_on delivery)) at
