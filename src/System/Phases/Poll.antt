-- ===== src/System/Phases/Poll.antt =====
-- The effects of the transactions of readiness checks and delivery checks.
use workato_take_home.Prelude.{
  ◌≡◌, refl, String, Option, none, some, Text, Bool-cases, Option-cases, inl, inr, leb, nat_eq,
}
use workato_take_home.Common.StateMachine.{
  OrderState, state_eq, next_order_state, preparing, ready, out_for_delivery, delivered,
}
use workato_take_home.Store.Schema.{Uuid, Time, Db}
use workato_take_home.Worker.Settings.{Settings}
use workato_take_home.Worker.Specs.{ready_finalization_spec, delivery_finalization_spec}
use workato_take_home.Worker.Results.{done}
use workato_take_home.Worker.Downstream.{Reply, outcome, error, Verdict, reached, still_pending}
use workato_take_home.Worker.Rows.{Row, load_ready_check_task_row, load_delivery_check_task_row}
use workato_take_home.Worker.Poll.{
  PollCheck, retry_row, poll_again, reschedule_after_error, reschedule_after_pending,
}
use workato_take_home.Worker.Transition.{Run}
use workato_take_home.Worker.Ready.{
  ready_check, ready_check_call, prepare_ready_check_call, finish_ready_check,
}
use workato_take_home.Worker.Delivery.{
  delivery_check, delivery_check_call, prepare_delivery_check_call, finish_delivery_check,
}
use workato_take_home.System.Lifecycle.{ready-IsLifecycle, delivery-IsLifecycle}
use workato_take_home.System.Rows.{RowOf, ready-RowOf, delivery-RowOf}
use workato_take_home.System.Effect.{
  Effect, unchanged, RowOf-own, retry_or_fail-Effect, poll-Effect, time_out-Effect, checked-Effect,
}
use workato_take_home.System.Phases.Command.{Aims, finalize-Effect}

module _ (w : String) (key : Option Uuid) (db : Db) (task_id : Uuid) where
  abbrev Reads : Option Row → OrderState → Type 0
  Reads row target =
      (r : Row) → row ≡ some r → RowOf db task_id r × (r.task.target_state ≡ some target)

  retry_row-Effect :
      (settings : Settings) (check : PollCheck) (e : Text) (now : Time) (r : Row)
      → RowOf db task_id r
      → Effect w key db (retry_row settings check e w now r db).0
  unfolding retry_row
  retry_row-Effect settings check e now r at =
      retry_or_fail-Effect w key db r.task _ _ _ _ now e (RowOf-own db task_id r at)

  poll_again_row-Effect :
      (settings : Settings) (check : PollCheck) (next : Time → Option Time) (now : Time) (r : Row)
      → RowOf db task_id r
      → Effect w key db (poll_again settings check next w now r db).0
  unfolding poll_again
  poll_again_row-Effect settings check next now r at =
      let found = RowOf-own db task_id r at in
      elim (Option-cases r.task.deadline_at) [
        | inl e ↦
            rw (e, poll_again) (retry_row-Effect settings check check.missing_deadline now r at)
        | inr (d, e) ↦ elim (Bool-cases (leb d now)) [
          | inl late ↦
              rw (e, poll_again)
                (rw late (time_out-Effect w key db r.task now check.deadline_exceeded found))
          | inr early ↦ elim (Option-cases (next d)) [
            | inl over ↦ rw (e, poll_again) (rw (early, poll_again) (rw over (unchanged refl)))
            | inr (at, fits) ↦
                rw (e, poll_again)
                  (rw (early, poll_again) (rw fits (poll-Effect w key db r.task at now found)))
          ]
        ]
      ]

  module _ (check : PollCheck) (row : Option Row) where
    error-Effect :
        next_order_state check.source_state ≡ some check.target_state
        → Reads row check.target_state
        → (settings : Settings) (e : Text) (now : Time)
        → Effect w key db (reschedule_after_error settings check e w now row db).0
    unfolding reschedule_after_error
    error-Effect steps rows settings e now =
        checked-Effect w key db (λ r. r) now check.source_state check.target_state _ task_id row
          steps rows (λ r h o s. retry_row-Effect settings check e now r (rows r h).0)

    poll_again-Effect :
        next_order_state check.source_state ≡ some check.target_state
        → Reads row check.target_state
        → (settings : Settings) (next : Time → Option Time) (now : Time)
        → Effect w key db (reschedule_after_pending settings check next w now row db).0
    unfolding reschedule_after_pending
    poll_again-Effect steps rows settings next now =
        checked-Effect w key db (λ r. r) now check.source_state check.target_state _ task_id row
          steps rows (λ r h o s. poll_again_row-Effect settings check next now r (rows r h).0)

  ready_call-Effect :
      (settings : Settings) (now : Time) (r : Row)
      → RowOf db task_id r
      → Effect w key db (ready_check_call settings w now r db).0
  unfolding ready_check_call
  ready_call-Effect settings now r at = elim (Option-cases r.task.deadline_at) [
    | inl e ↦
        rw (e, ready_check_call)
          (retry_row-Effect settings ready_check ready_check.missing_deadline now r at)
    | inr (d, e) ↦ elim (Option-cases r.started_at) [
      | inl n ↦
          rw (e, ready_check_call)
            (rw (n, ready_check_call) (retry_row-Effect settings ready_check _ now r at))
      | inr (t, n) ↦ rw (e, ready_check_call) (rw (n, ready_check_call) (unchanged refl))
    ]
  ]

  module _ (aims : Aims task_id db ready) where
    ready_rows : Reads (load_ready_check_task_row task_id db) ready
    ready_rows r h = let at = ready-RowOf task_id db r h in (at, aims r.task at.task)

    pub prepare_ready-Effect :
        (settings : Settings) (now : Time)
        → Effect w key db (prepare_ready_check_call settings task_id w now db).0
    unfolding prepare_ready_check_call
    prepare_ready-Effect settings now =
        checked-Effect w key db done now preparing ready _ task_id _ ready-IsLifecycle.steps
          ready_rows (λ r h o s. ready_call-Effect settings now r (ready_rows r h).0)

    pub finish_ready-Effect :
        (run : Run) (reply : Reply Verdict)
        → some run.fresh.task ≡ key
        → Effect w key db (finish_ready_check run task_id w reply db).0
    unfolding finish_ready_check
    finish_ready-Effect run (error e) d =
        error-Effect ready_check _ ready-IsLifecycle.steps ready_rows run.settings e run.finished_at
    finish_ready-Effect run (outcome reached) d =
        finalize-Effect w key db task_id ready_finalization_spec ready-IsLifecycle aims run.settings
          none run.fresh run.finished_at (λ e. absurd (cc)) d
    finish_ready-Effect run (outcome (still_pending hint)) d =
        poll_again-Effect ready_check _ ready-IsLifecycle.steps ready_rows run.settings _
          run.finished_at

  delivery_call-Effect :
      (settings : Settings) (now : Time) (r : Row)
      → RowOf db task_id r
      → Effect w key db (delivery_check_call settings w now r db).0
  unfolding delivery_check_call
  delivery_call-Effect settings now r at = elim (Option-cases r.task.deadline_at) [
    | inl e ↦
        rw (e, delivery_check_call)
          (retry_row-Effect settings delivery_check delivery_check.missing_deadline now r at)
    | inr (d, e) ↦ elim (Option-cases r.started_at) [
      | inl n ↦
          rw (e, delivery_check_call)
            (rw (n, delivery_check_call) (retry_row-Effect settings delivery_check _ now r at))
      | inr (t, n) ↦ elim (Option-cases r.order.courier_ref) [
        | inl m ↦
            rw (e, delivery_check_call)
              (rw (n, delivery_check_call)
                (rw (m, delivery_check_call) (retry_row-Effect settings delivery_check _ now r at)))
        | inr (c, m) ↦
            rw (e, delivery_check_call)
              (rw (n, delivery_check_call) (rw (m, delivery_check_call) (unchanged refl)))
      ]
    ]
  ]

  module _ (aims : Aims task_id db delivered) where
    delivery_rows : Reads (load_delivery_check_task_row task_id db) delivered
    delivery_rows r h = let at = delivery-RowOf task_id db r h in (at, aims r.task at.task)

    pub prepare_delivery-Effect :
        (settings : Settings) (now : Time)
        → Effect w key db (prepare_delivery_check_call settings task_id w now db).0
    unfolding prepare_delivery_check_call
    prepare_delivery-Effect settings now =
        checked-Effect w key db done now out_for_delivery delivered _ task_id _
          delivery-IsLifecycle.steps delivery_rows
          (λ r h o s. delivery_call-Effect settings now r (delivery_rows r h).0)

    pub finish_delivery-Effect :
        (run : Run) (reply : Reply Verdict)
        → some run.fresh.task ≡ key
        → Effect w key db (finish_delivery_check run task_id w reply db).0
    unfolding finish_delivery_check
    finish_delivery-Effect run (error e) d =
        error-Effect delivery_check _ delivery-IsLifecycle.steps delivery_rows run.settings e
          run.finished_at
    finish_delivery-Effect run (outcome reached) d =
        finalize-Effect w key db task_id delivery_finalization_spec delivery-IsLifecycle aims
          run.settings none run.fresh run.finished_at (λ e. absurd (cc)) d
    finish_delivery-Effect run (outcome (still_pending hint)) d =
        poll_again-Effect delivery_check _ delivery-IsLifecycle.steps delivery_rows run.settings _
          run.finished_at
