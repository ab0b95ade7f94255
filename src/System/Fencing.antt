-- ===== src/System/Fencing.antt =====
-- The lease as a fence: the two transactions of backend/worker/tasks.py for a task, on a row that the
-- worker does not own.
use workato_take_home.Prelude.{
  ℕ, Text, ◌+◌, ◌≡◌, refl, String, Bool, true, false, Option, none, some, List, [], ◌∷◌, arith,
  Bool-cases, Option-cases, inl, inr, is_some, sym, subst, ap, eqb,
}
use workato_take_home.Common.StateMachine.{OrderState, preparing, out_for_delivery}
use workato_take_home.Store.Table.{find, update_by_id, find_id}
use workato_take_home.Store.Schema.{Uuid, Time, Task, Db}
use workato_take_home.Store.Query.{task_id_of, find_task}
use workato_take_home.Worker.Specs.{
  RestaurantTransitionSpec, courier_assign_spec, ready_finalization_spec,
  delivery_finalization_spec,
}
use workato_take_home.Worker.Results.{done, ProcessingResult}
use workato_take_home.Worker.Downstream.{
  Reply, Verdict, CourierAssignOutcome, outcome, error, reached, still_pending, assigned,
  not_assigned,
}
use workato_take_home.Worker.Lease.{owned_by, released, release_claimed_task}
use workato_take_home.Worker.Rows.{Row, owned_task_check_result, checked}
use workato_take_home.Worker.Settings.{
  after_delay, or_default, bounded_ready_check_next_run_at, bounded_delivery_check_next_run_at,
}
use workato_take_home.Worker.Finalize.{commit_transition, finalize_transition_task, finalize_row}
use workato_take_home.Worker.Prepare.{
  transition_call, prepare_transition_call, prepare_courier_assign_call,
}
use workato_take_home.Worker.Reschedule.{
  reschedule_transition_after_pending, reschedule_transition_task, retry_owned, schedule_poll,
}
use workato_take_home.Worker.Transition.{Run, finish_transition, finish_courier_assign}
use workato_take_home.Worker.Poll.{
  retry_row, poll_again, reschedule_after_error, reschedule_after_pending,
}
use workato_take_home.Worker.Ready.{
  ready_check, ready_check_call, prepare_ready_check_call, finish_ready_check,
  reschedule_ready_check_after_error, reschedule_ready_check_after_not_ready,
}
use workato_take_home.Worker.Delivery
use workato_take_home.Worker.Delivery.{
  delivery_check_call, prepare_delivery_check_call, finish_delivery_check,
  reschedule_delivery_check_after_error, reschedule_delivery_check_after_in_transit,
}
use workato_take_home.Worker.Dispatch.{
  Handler, transition, courier_assign, readiness_check, delivery_check, unsupported, handler_of,
  release_unsupported, unsupported_error,
}
use workato_take_home.System.Rows.{RowOf, transition-RowOf, ready-RowOf, delivery-RowOf}
use workato_take_home.System.Transactions.{
  Answer, verdict, assignment, before_call, after_call, before, after, before_task, after_task,
  execute,
}

-- An update by primary key whose guard its row fails changes nothing.
update_by_id-miss :
    (guard : Task → Bool) (f : Task → Task) (id : Uuid) (rows : List Task) (t : Task)
    → find task_id_of id rows ≡ some t
    → guard t ≡ false
    → update_by_id task_id_of id guard f rows ≡ rows
unfolding update_by_id find
update_by_id-miss guard f id [] t found out = refl
update_by_id-miss guard f id (r ∷ rows) t found out = elim (Bool-cases (eqb r.id id)) [
  | inl e ↦
      let miss : guard r ≡ false = subst (λ x. guard x ≡ false) (ground arith) out in
      rw (e, miss) refl
  | inr e ↦ rw e (ap (λ x. r ∷ x) (update_by_id-miss guard f id rows t (ground arith) out))
]

not_owned :
    (w : String) (t : Task)
    → owned_by w t ≡ false
    → is_some (owned_task_check_result w (some t)) ≡ true
unfolding owned_task_check_result
not_owned w t h = ground arith

module _ (w : String) (id : Uuid) (db : Db) (t : Task) (found : find_task id db ≡ some t)
    (out : owned_by w t ≡ false) where
  checked-fenced :
      {A : Type 0} (finish : ProcessingResult → A) (now : Time) (source : OrderState)
      (body : Row → Db → Db × A) (row : Option Row)
      → ((r : Row) → row ≡ some r → RowOf db id r)
      → (checked finish w now source body row db).0 ≡ db
  unfolding checked
  checked-fenced finish now source body none rows = refl
  checked-fenced finish now source body (some r) rows =
      let same : t ≡ r.task = ground (arith, (rows r refl).task, found) in
      let skipped = not_owned w r.task (subst (λ x. owned_by w x ≡ false) same out) in
      elim (Option-cases (owned_task_check_result w (some r.task))) [
        | inl e ↦ absurd (ground arith)
        | inr (skip, e) ↦ rw (e, checked) refl
      ]

  prepare-fenced :
      (spec : RestaurantTransitionSpec) (now : Time)
      → (prepare_transition_call spec id w now db).0 ≡ db
  unfolding prepare_transition_call
  prepare-fenced spec now =
      checked-fenced done now spec.source_state (transition_call spec) _
        (transition-RowOf spec.source_state id db)

  before-fenced : (h : Handler) (r : Run) → before h r id w db ≡ db
  unfolding before prepare_transition_call prepare_courier_assign_call prepare_ready_check_call
      prepare_delivery_check_call
  before-fenced (transition spec) r = prepare-fenced spec r.prepared_at
  before-fenced courier_assign r = prepare-fenced courier_assign_spec r.prepared_at
  before-fenced readiness_check r =
      checked-fenced done r.prepared_at preparing (ready_check_call r.settings w r.prepared_at) _
        (ready-RowOf id db)
  before-fenced delivery_check r =
      checked-fenced done r.prepared_at out_for_delivery
        (delivery_check_call r.settings w r.prepared_at) _ (delivery-RowOf id db)
  before-fenced unsupported r = refl

  error-fenced :
      (r : Run) (spec : RestaurantTransitionSpec) (e : Text) (order : Uuid)
      → (reschedule_transition_task r.settings spec e order id w r.finished_at db).0 ≡ db
  unfolding reschedule_transition_task retry_owned
  error-fenced r spec e order = elim (Option-cases (owned_task_check_result w (some t))) [
    | inl ours ↦ absurd (ground (arith, not_owned w t out))
    | inr (skip, e') ↦ rw (found, retry_owned) (rw (e', retry_owned) refl)
  ]

  pending-fenced :
      (r : Run) (spec : RestaurantTransitionSpec) (hint : Option ℕ)
      → (reschedule_transition_after_pending r.settings spec hint id w r.finished_at db).0 ≡ db
  unfolding reschedule_transition_after_pending
  pending-fenced r spec hint =
      elim (Option-cases
        (after_delay r.finished_at (or_default hint r.settings.task_retry_base_delay))) [
          | inl over ↦ rw (over, reschedule_transition_after_pending) refl
          | inr (at, fits) ↦
              rw (fits, reschedule_transition_after_pending)
                (checked-fenced (λ x. x) r.finished_at spec.source_state
                  (schedule_poll spec w at r.finished_at) _
                  (transition-RowOf spec.source_state id db))
        ]

  finalize-fenced :
      (r : Run) (spec : RestaurantTransitionSpec) (courier : Option String)
      → (finalize_transition_task r.settings spec courier r.fresh id w r.finished_at db).0 ≡ db
  unfolding finalize_transition_task finalize_row
  finalize-fenced r spec courier =
      checked-fenced (λ x. x) r.finished_at spec.source_state
        (commit_transition r.settings spec courier r.fresh w r.finished_at) _
        (transition-RowOf spec.source_state id db)

  finish_transition-fenced :
      (r : Run) (spec : RestaurantTransitionSpec) (order : Uuid) (v : Reply Verdict)
      → (finish_transition r spec order id w v db).0 ≡ db
  unfolding finish_transition
  finish_transition-fenced r spec order (error e) = error-fenced r spec e order
  finish_transition-fenced r spec order (outcome (still_pending hint)) = pending-fenced r spec hint
  finish_transition-fenced r spec order (outcome reached) = finalize-fenced r spec none

  finish_courier-fenced :
      (r : Run) (order : Uuid) (a : Reply CourierAssignOutcome)
      → (finish_courier_assign r order id w a db).0 ≡ db
  unfolding finish_courier_assign
  finish_courier-fenced r order (error e) = error-fenced r courier_assign_spec e order
  finish_courier-fenced r order (outcome (not_assigned hint)) =
      pending-fenced r courier_assign_spec hint
  finish_courier-fenced r order (outcome (assigned courier)) =
      finalize-fenced r courier_assign_spec (some courier)

  finish_ready-fenced : (r : Run) (v : Reply Verdict) → (finish_ready_check r id w v db).0 ≡ db
  unfolding finish_ready_check reschedule_ready_check_after_error
      reschedule_ready_check_after_not_ready reschedule_after_error reschedule_after_pending
  finish_ready-fenced r (error e) =
      checked-fenced (λ x. x) r.finished_at preparing
        (retry_row r.settings ready_check e w r.finished_at) _ (ready-RowOf id db)
  finish_ready-fenced r (outcome (still_pending hint)) =
      checked-fenced (λ x. x) r.finished_at preparing
        (poll_again r.settings ready_check
          (bounded_ready_check_next_run_at r.settings r.finished_at hint) w r.finished_at)
        _ (ready-RowOf id db)
  finish_ready-fenced r (outcome reached) = finalize-fenced r ready_finalization_spec none

  finish_delivery-fenced :
      (r : Run) (v : Reply Verdict) → (finish_delivery_check r id w v db).0 ≡ db
  unfolding finish_delivery_check reschedule_delivery_check_after_error
      reschedule_delivery_check_after_in_transit reschedule_after_error reschedule_after_pending
  finish_delivery-fenced r (error e) =
      checked-fenced (λ x. x) r.finished_at out_for_delivery
        (retry_row r.settings Delivery.delivery_check e w r.finished_at) _ (delivery-RowOf id db)
  finish_delivery-fenced r (outcome (still_pending hint)) =
      checked-fenced (λ x. x) r.finished_at out_for_delivery
        (poll_again r.settings Delivery.delivery_check
          (bounded_delivery_check_next_run_at r.settings r.finished_at hint) w r.finished_at)
        _ (delivery-RowOf id db)
  finish_delivery-fenced r (outcome reached) = finalize-fenced r delivery_finalization_spec none

  release-fenced : (r : Run) → t.id ≡ id → release_unsupported r t w db ≡ db
  unfolding release_unsupported release_claimed_task
  release-fenced r own =
      ap (λ ts. record db { tasks = ts })
        (update_by_id-miss (owned_by w)
          (released (some (r.finished_at + r.settings.unsupported_task_release_delay))
            (some (unsupported_error t)) r.finished_at)
          t.id db.tasks t (ground (arith, own, found)) out)

  after-fenced : (h : Handler) (r : Run) (a : Answer) → t.id ≡ id → after h r a t w db ≡ db
  unfolding after
  after-fenced (transition spec) r (verdict v) e =
      subst (λ i. (finish_transition r spec t.order_id i w v db).0 ≡ db) (sym e)
        (finish_transition-fenced r spec t.order_id v)
  after-fenced (transition spec) r (assignment a) e = refl
  after-fenced courier_assign r (assignment a) e =
      subst (λ i. (finish_courier_assign r t.order_id i w a db).0 ≡ db) (sym e)
        (finish_courier-fenced r t.order_id a)
  after-fenced courier_assign r (verdict v) e = refl
  after-fenced readiness_check r (verdict v) e =
      subst (λ i. (finish_ready_check r i w v db).0 ≡ db) (sym e) (finish_ready-fenced r v)
  after-fenced readiness_check r (assignment a) e = refl
  after-fenced delivery_check r (verdict v) e =
      subst (λ i. (finish_delivery_check r i w v db).0 ≡ db) (sym e) (finish_delivery-fenced r v)
  after-fenced delivery_check r (assignment a) e = refl
  after-fenced unsupported r a e = release-fenced r e

-- If the row of a task does not show it as running under this worker (the lease expired and another
-- worker took the task, it was put back, or an operator cancelled it), then neither of the worker's
-- two transactions for the task changes the database, whatever the simulator answered.
pub execute-fenced :
    (w : String) (id : Uuid) (db : Db) (t : Task) (r : Run) (a : Answer)
    → find_task id db ≡ some t
    → owned_by w t ≡ false
    → (execute (before_call r id w) db ≡ db) × (execute (after_call r a id w) db ≡ db)
unfolding execute before_task after_task
execute-fenced w id db t r a found out =
    let own = find_id task_id_of id db.tasks t found in
    (
      rw (found, before_task)
          (subst (λ i. before (handler_of t.task_type t.target_state) r i w db ≡ db) (sym own)
            (before-fenced w id db t found out (handler_of t.task_type t.target_state) r)),
      rw (found, after_task)
          (after-fenced w id db t found out (handler_of t.task_type t.target_state) r a own),
    )
