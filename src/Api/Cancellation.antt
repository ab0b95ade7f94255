-- ===== src/Api/Cancellation.antt =====
-- What a cancellation and an operator's retry do to the order, to its tasks and to those of others.
use workato_take_home.Prelude.{
  ◌≡◌, ◌≢◌, ◌∙◌, ap, sym, subst, refl, true, false, none, some, List, arith, ==_refl, ==→≡,
  Bool-cases, Option-cases, inl, inr, if◌then◌else◌, nat_eq,
}
use workato_take_home.Common.StateMachine.{is_terminal_order_state}
use workato_take_home.Common.TaskTypes
use workato_take_home.Common.TaskTypes.{
  TaskType, advance_state, check_ready, check_pickup, check_delivery, pending, failed, status_eq,
  type_eq,
}
use workato_take_home.Store.Changes.{CancelledRow}
use workato_take_home.Store.Table.{
  find, update_where, find-update_by_id, find-update_where, select_where,
}
use workato_take_home.Store.Constraints.{is_active, violates_unique_key}
use workato_take_home.Store.Schema.{Uuid, Time, Order, Task, Db}
use workato_take_home.Store.Query.{order_id_of, task_id_of, find_order, find_task}
use workato_take_home.Api.OrderStore.{
  cancelled_order, cancelled_task, open_task_of, cancel_found, cancel_order,
}
use workato_take_home.Api.Reopened.{Reopened, reopened-Reopened}
use workato_take_home.Api.TaskStore.{
  Recovery, no_order, retried, integrity_error, failed_task_of, reopened, reset_failed,
  retry_failed_tasks_for_order,
}
use workato_take_home.Store.Members.{Member, select_where-Member, select_where-keeps}

pub cancelled_order-CancelledRow :
    (now : Time) (o : Order) → CancelledRow now o (cancelled_order now o)
cancelled_order-CancelledRow now o = record {
  state = refl;
  version = refl;
  terminal_reason = refl;
  cancelled_at = refl;
  updated_at = refl;
  courier_ref = refl;
  rest = record {
    id = refl;
    idempotency_key = refl;
    customer_ref = refl;
    restaurant_ref = refl;
    created_at = refl;
    delivered_at = refl;
  };
}

-- What an effective cancellation leaves; `p` is the row that the order has then.
pub record Cancelled (order : Uuid) (now : Time) (o p : Order) (db db' : Db) : Type 0 where
  pub ended : find_order order db' ≡ some p
  pub row : CancelledRow now o p
  pub others : (k : Uuid) → k ≢ order → find_order k db' ≡ find_order k db
  pub stopped :
      (k : Uuid) (t : Task)
      → find_task k db' ≡ some t
      → t.order_id ≡ order
      → is_active t.status ≡ false
  pub given_up :
      (k : Uuid) (t : Task)
      → find_task k db ≡ some t
      → t.order_id ≡ order
      → is_active t.status ≡ true
      → (s : Task) × (find_task k db' ≡ some s)
        × (s.status ≡ TaskTypes.cancelled)
        × (s.locked_by ≡ none)
  pub kept :
      (k : Uuid) (t : Task)
      → find_task k db ≡ some t
      → t.order_id ≢ order
      → find_task k db' ≡ some t

module _ (event order : Uuid) (now : Time) (db : Db) where
  cancel_found-Cancelled :
      (o : Order)
      → find_order order db ≡ some o
      → is_terminal_order_state o.state ≡ false
      → Cancelled order now o
          (cancelled_order now o)
          db
          (cancel_found event order now (some o) db).0
  unfolding cancel_found
  cancel_found-Cancelled o found on = rw on (record {
    ended = ground (
      arith,
      find-update_by_id order_id_of order (λ _. true) (cancelled_order now) order db.orders
          (λ _. refl),
      found,
    );
    row = cancelled_order-CancelledRow now o;
    given_up = λ k t there mine active. (
      cancelled_task now t,
      ground (
        arith,
        find-update_where task_id_of (open_task_of order) (cancelled_task now) k db.tasks
            (λ _. refl),
        there,
        mine,
        active,
      ),
      refl,
      refl,
    );
    others = λ k ne. ground (
      arith,
      find-update_by_id order_id_of order (λ _. true) (cancelled_order now) k db.orders (λ _. refl),
    );
    stopped = λ k t there mine. ground (
      arith,
      find-update_where task_id_of (open_task_of order) (cancelled_task now) k db.tasks (λ _. refl),
      there,
    );
    kept = λ k t there other. ground (
      arith,
      find-update_where task_id_of (open_task_of order) (cancelled_task now) k db.tasks (λ _. refl),
      there,
    );
  })

-- If an order has not ended, then `cancel_order` leaves and returns its row cancelled by an operator,
-- one version on; it cancels each pending or running task of the order, leaves none of them, and
-- changes no other order and no task of another order.
pub cancel_order-Cancelled :
    (event order : Uuid) (now : Time) (db : Db) (o : Order)
    → find_order order db ≡ some o
    → is_terminal_order_state o.state ≡ false
    → (p : Order) × Cancelled order now o p db (cancel_order event order now db).0
      × ((cancel_order event order now db).1 ≡ some p)
unfolding cancel_order cancel_found
cancel_order-Cancelled event order now db o found on =
    rw (found, cancel_order)
      (cancelled_order now o, cancel_found-Cancelled event order now db o found on, rw on refl)

-- An effective retry, and the tasks that it returns.
pub record Retries (order : Uuid) (now : Time) (db db' : Db) (tasks : List Task) : Type 0 where
  pub orders : db'.orders ≡ db.orders
  pub listed :
      (t : Task) → Member t tasks → Member t db.tasks × (t.order_id ≡ order) × (t.status ≡ failed)
  pub complete :
      (t : Task) → Member t db.tasks → t.order_id ≡ order → t.status ≡ failed → Member t tasks
  pub reopens :
      (k : Uuid) (t : Task)
      → find_task k db ≡ some t
      → t.order_id ≡ order
      → t.status ≡ failed
      → (s : Task) × (find_task k db' ≡ some s) × Reopened now t s
  pub kept :
      (k : Uuid) (t : Task)
      → find_task k db ≡ some t
      → (t.order_id ≡ order → t.status ≢ failed)
      → find_task k db' ≡ some t

-- What each outcome of a retry means.
abbrev pub RetryOutcome : Uuid → Time → Db → Db → Recovery → Type 0
RetryOutcome order now db db' no_order = (find_order order db ≡ none) × (db' ≡ db)
RetryOutcome order now db db' integrity_error =
    (violates_unique_key (update_where (failed_task_of order) (reopened now) db.tasks) ≡ true)
    × (db' ≡ db)
RetryOutcome order now db db' (retried tasks) = Retries order now db db' tasks

reset_rows :
    (order : Uuid) (now : Time) (db : Db) (k : Uuid) (t : Task)
    → find_task k db ≡ some t
    → find task_id_of k (update_where (failed_task_of order) (reopened now) db.tasks)
      ≡ some (if failed_task_of order t then reopened now t else t)
reset_rows order now db k t there = ground (
  arith,
  find-update_where task_id_of (failed_task_of order) (reopened now) k db.tasks (λ _. refl),
  there,
)

is_failed_of :
    (order : Uuid) (t : Task)
    → t.order_id ≡ order
    → t.status ≡ failed
    → failed_task_of order t ≡ true
is_failed_of order t mine over = rw (mine, over) (rw (==_refl order) refl)

failed_of :
    (order : Uuid) (t : Task)
    → failed_task_of order t ≡ true
    → (t.order_id ≡ order) × (t.status ≡ failed)
failed_of order t h =
    (==→≡ t.order_id order (ground (arith, h)), ==→≡ t.status failed (ground (arith, h)))

reset-Retries :
    (order : Uuid) (now : Time) (db db' : Db)
    → db'.orders ≡ db.orders
    → db'.tasks ≡ update_where (failed_task_of order) (reopened now) db.tasks
    → Retries order now db db' (select_where (failed_task_of order) db.tasks)
reset-Retries order now db db' orders tasks =
    let row : (k : Uuid) (t : Task)
        → find_task k db ≡ some t
        → find_task k db' ≡ some (if failed_task_of order t then reopened now t else t) =
      λ k t there.
        subst
          (λ ts. find task_id_of k ts ≡ some (if failed_task_of order t then reopened now t else t))
          (sym tasks) (reset_rows order now db k t there) in
    record {
      orders = orders;
      listed = λ t m.
          let (there, h) = select_where-Member t (failed_task_of order) db.tasks m in
          let (mine, over) = failed_of order t h in (there, mine, over);
      complete = λ t there mine over.
          select_where-keeps t (failed_task_of order) db.tasks there
            (is_failed_of order t mine over);
      reopens = λ k t there mine over. (
        reopened now t,
        row k t there
            ∙ ap (λ b. some (if b then reopened now t else t)) (is_failed_of order t mine over),
        reopened-Reopened now t,
      );
      kept = λ k t there other. elim (Bool-cases (failed_task_of order t)) [
        | inl hit ↦ let (mine, over) = failed_of order t hit in absurd (other mine over)
        | inr miss ↦ row k t there ∙ ap (λ b. some (if b then reopened now t else t)) miss
      ];
    }

-- `retry_failed_tasks_for_order` reports a missing order or a broken unique index and then changes
-- nothing; or it returns exactly the failed tasks of the order, keeps every order, makes each of those
-- tasks pending and due now with no attempts used and no lease or error, with at least a second to its
-- deadline if its work is polled for, and changes no other task.
pub retry_failed_tasks_for_order-RetryOutcome :
    (fresh : Uuid → Uuid) (order : Uuid) (now : Time) (db : Db)
    → RetryOutcome order now db
        (retry_failed_tasks_for_order fresh order now db).0
        (retry_failed_tasks_for_order fresh order now db).1
unfolding retry_failed_tasks_for_order reset_failed
retry_failed_tasks_for_order-RetryOutcome fresh order now db =
    elim (Option-cases (find_order order db)) [
      | inl e ↦ rw (e, reset_failed) (e, refl)
      | inr (o, e) ↦
          elim (Bool-cases
            (violates_unique_key (update_where (failed_task_of order) (reopened now) db.tasks))) [
              | inl bad ↦ rw (e, reset_failed) (rw bad (bad, refl))
              | inr good ↦ rw (e, reset_failed) (rw good (reset-Retries order now db _ refl refl))
            ]
    ]
