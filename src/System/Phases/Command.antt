-- ===== src/System/Phases/Command.antt =====
-- The effects of the transactions of transition tasks, courier assignments and unsupported tasks.
use workato_take_home.Prelude.{
  ℕ, ◌+◌, ◌≡◌, refl, String, Option, none, some, Text, arith, Option-cases, inl, inr, true, false,
  ◌==◌, nat_eq,
}
use workato_take_home.Common.StateMachine.{OrderState, state_eq, out_for_delivery}
use workato_take_home.Store.Table.{hits, find_id}
use workato_take_home.Store.Schema.{Uuid, Time, Task, Db}
use workato_take_home.Store.Query.{order_id_of, task_id_of, find_order, find_task}
use workato_take_home.Worker.Settings.{Settings, or_default, after_delay}
use workato_take_home.Worker.Specs.{RestaurantTransitionSpec, courier_assign_spec}
use workato_take_home.Worker.Results.{done}
use workato_take_home.Worker.Downstream.{
  Reply, outcome, error, Verdict, reached, still_pending, CourierAssignOutcome, assigned,
  not_assigned,
}
use workato_take_home.Worker.Lease.{owned_by, released}
use workato_take_home.Worker.Rows.{Row, load_transition_task_row, owned_task_check_result}
use workato_take_home.Worker.Prepare.{prepare_transition_call, prepare_courier_assign_call}
use workato_take_home.Worker.Finalize.{
  Fresh, at_version, commit_transition, finalize_transition_task,
}
use workato_take_home.Worker.Reschedule.{
  reschedule_transition_after_pending, reschedule_transition_task, retry_owned,
}
use workato_take_home.Worker.Transition.{Run, finish_transition, finish_courier_assign}
use workato_take_home.Worker.Dispatch.{release_unsupported, unsupported_error}
use workato_take_home.System.Lifecycle.{IsLifecycle, courier-IsLifecycle}
use workato_take_home.System.Rows.{RowOf, transition-RowOf}
use workato_take_home.System.Effect.{
  Effect, Carries, unchanged, put_back, commits, releases, RowOf-own, retry_or_fail-Effect,
  poll-Effect, checked-Effect,
}

-- A task that a handler was chosen for aims at the target of the handler's spec.
abbrev pub Aims : Uuid → Db → OrderState → Type 0
Aims task_id db target = (t : Task) → find_task task_id db ≡ some t → t.target_state ≡ some target

-- The order that was just read in the source state has the version that was read.
order_hit :
    (db : Db) (spec : RestaurantTransitionSpec) (r : Row)
    → find_order r.task.order_id db ≡ some r.order
    → r.order.state ≡ spec.source_state
    → hits order_id_of r.task.order_id (at_version r.order.version spec.source_state) db.orders
      ≡ true
order_hit db spec r found s = rw (found, hits) (ground arith)

module _ (w : String) (key : Option Uuid) (db : Db) (task_id : Uuid) where
  own_task : (t : Task) → find_task task_id db ≡ some t → find_task t.id db ≡ some t
  own_task t h = ground (arith, find_id task_id_of task_id db.tasks t, h)

  module _ (spec : RestaurantTransitionSpec) (l : IsLifecycle spec)
      (aims : Aims task_id db spec.target_state) where
    transition_rows :
        (r : Row)
        → load_transition_task_row spec.source_state task_id db ≡ some r
        → RowOf db task_id r × (r.task.target_state ≡ some spec.target_state)
    transition_rows r h =
        let at = transition-RowOf spec.source_state task_id db r h in (at, aims r.task at.task)

    pub prepare_transition-Effect :
        (now : Time) → Effect w key db (prepare_transition_call spec task_id w now db).0
    unfolding prepare_transition_call
    prepare_transition-Effect now =
        checked-Effect w key db done now spec.source_state spec.target_state _ task_id _ l.steps
          transition_rows (λ r e o s. unchanged refl)

    commit-Effect :
        (settings : Settings) (courier : Option String) (fresh : Fresh) (now : Time)
        → Carries spec.target_state courier
        → (r : Row) → some fresh.task ≡ key
        → load_transition_task_row spec.source_state task_id db ≡ some r
        → owned_by w r.task ≡ true
        → r.order.state ≡ spec.source_state
        → Effect w key db (commit_transition settings spec courier fresh w now r db).0
    unfolding commit_transition
    commit-Effect settings courier fresh now c r d e o s =
        let (at, aim) = transition_rows r e in
        rw (order_hit db spec r at.order s) (
          commits settings spec courier fresh now r d l c (RowOf-own db task_id r at) at.order o s
            aim refl)

    pub finalize-Effect :
        (settings : Settings) (courier : Option String) (fresh : Fresh) (now : Time)
        → Carries spec.target_state courier
        → some fresh.task ≡ key
        → Effect w key db (finalize_transition_task settings spec courier fresh task_id w now db).0
    unfolding finalize_transition_task
    finalize-Effect settings courier fresh now c d =
        checked-Effect w key db (λ r. r) now spec.source_state spec.target_state _ task_id _ l.steps
          transition_rows (λ r. commit-Effect settings courier fresh now c r d)

    pub pending-Effect :
        (settings : Settings) (hint : Option ℕ) (now : Time)
        → Effect w key db
            (reschedule_transition_after_pending settings spec hint task_id w now db).0
    unfolding reschedule_transition_after_pending
    pending-Effect settings hint now =
        elim (Option-cases (after_delay now (or_default hint settings.task_retry_base_delay))) [
          | inl over ↦ rw (over, reschedule_transition_after_pending) (unchanged refl)
          | inr (at, fits) ↦
              rw (fits, reschedule_transition_after_pending)
                (checked-Effect w key db (λ r. r) now spec.source_state spec.target_state _ task_id
                  _ l.steps transition_rows
                  (λ r e o s.
                    poll-Effect w key db r.task at now
                      (RowOf-own db task_id r (transition_rows r e).0)))
        ]

  module _ (spec : RestaurantTransitionSpec) (l : IsLifecycle spec)
      (aims : Aims task_id db spec.target_state) where
    -- A failed call looks at the task alone.
    retry-Effect :
        (settings : Settings) (e : Text) (order_id : Uuid) (now : Time)
        → Effect w key db (reschedule_transition_task settings spec e order_id task_id w now db).0
    unfolding reschedule_transition_task
    retry-Effect settings e order_id now = elim (Option-cases (find_task task_id db)) [
      | inl lost ↦ rw (lost, retry_owned) (unchanged refl)
      | inr (t, found) ↦ elim (Option-cases (owned_task_check_result w (some t))) [
        | inr (skip, ours) ↦ rw (found, retry_owned) (rw (ours, retry_owned) (unchanged refl))
        | inl ours ↦
            rw (found, retry_owned)
              (rw (ours, retry_owned)
                (retry_or_fail-Effect w key db t order_id _ _ _ now e (own_task t found)))
      ]
    ]

    pub finish_transition-Effect :
        (run : Run) (order_id : Uuid) (reply : Reply Verdict)
        → (spec.target_state == out_for_delivery) ≡ false
        → some run.fresh.task ≡ key
        → Effect w key db (finish_transition run spec order_id task_id w reply db).0
    unfolding finish_transition
    finish_transition-Effect run order_id (error e) ne d =
        retry-Effect run.settings e order_id run.finished_at
    finish_transition-Effect run order_id (outcome reached) ne d =
        finalize-Effect spec l aims run.settings none run.fresh run.finished_at
          (λ e. absurd (ground (arith, e, ne))) d
    finish_transition-Effect run order_id (outcome (still_pending hint)) ne d =
        pending-Effect spec l aims run.settings hint run.finished_at

  module _ (aims : Aims task_id db out_for_delivery) where
    pub prepare_courier-Effect :
        (now : Time) → Effect w key db (prepare_courier_assign_call task_id w now db).0
    unfolding prepare_courier_assign_call
    prepare_courier-Effect now =
        prepare_transition-Effect courier_assign_spec courier-IsLifecycle aims now

    pub finish_courier-Effect :
        (run : Run) (order_id : Uuid) (reply : Reply CourierAssignOutcome)
        → some run.fresh.task ≡ key
        → Effect w key db (finish_courier_assign run order_id task_id w reply db).0
    unfolding finish_courier_assign
    finish_courier-Effect run order_id (error e) d =
        retry-Effect courier_assign_spec courier-IsLifecycle aims run.settings e order_id
          run.finished_at
    finish_courier-Effect run order_id (outcome (assigned courier)) d =
        finalize-Effect courier_assign_spec courier-IsLifecycle aims run.settings (some courier)
          run.fresh run.finished_at (λ _. refl) d
    finish_courier-Effect run order_id (outcome (not_assigned hint)) d =
        pending-Effect courier_assign_spec courier-IsLifecycle aims run.settings hint
          run.finished_at

  pub unsupported-Effect :
      (run : Run) (t : Task)
      → find_task t.id db ≡ some t
      → Effect w key db (release_unsupported run t w db)
  unfolding release_unsupported
  unsupported-Effect run t found =
      let later : Option Time =
        some (run.finished_at + run.settings.unsupported_task_release_delay) in
      let why : Option Text = some (unsupported_error t) in
      put_back t (released later why run.finished_at) found (releases later why run.finished_at)
        refl
