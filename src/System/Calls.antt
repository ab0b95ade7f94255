-- ===== src/System/Calls.antt =====
-- The transactions of backend/worker/tasks.py before and after a call, as the handlers compose them.
use workato_take_home.Prelude.{
  ◌+◌, ◌≡◌, refl, String, Option, none, some, ap, inl, inr, ◌⊎◌, Bool-cases, Option-cases, leb,
  ◌==◌, Text,
}
use workato_take_home.Common.StateMachine.{
  OrderState, preparing, out_for_delivery, is_terminal_order_state, state_eq,
}
use workato_take_home.Store.Schema.{Uuid, Time, Db}
use workato_take_home.Store.Query.{find_task}
use workato_take_home.Worker.Specs.{RestaurantTransitionSpec, courier_assign_spec}
use workato_take_home.Worker.Results.{ProcessingResult, Prepared, call, done}
use workato_take_home.Worker.Downstream.{
  Reply, outcome, error, Verdict, reached, still_pending, CourierAssignOutcome, assigned,
  not_assigned, RestaurantTransitionCall,
}
use workato_take_home.Worker.Lease.{retry_or_fail_claimed_task}
use workato_take_home.Worker.Rows.{
  Row, owned_task_check_result, checked, load_ready_check_task_row, load_delivery_check_task_row,
}
use workato_take_home.Worker.Prepare.{
  courier_call, transition_call, prepare_transition_call, prepare_courier_assign_call,
}
use workato_take_home.Worker.Reschedule.{retry_owned, reschedule_transition_task}
use workato_take_home.Worker.Transition.{Run, finish_transition, finish_courier_assign}
use workato_take_home.Worker.Ready.{ready_check_call, prepare_ready_check_call}
use workato_take_home.Worker.Delivery.{delivery_check_call, prepare_delivery_check_call}

-- A transaction before a call that goes on to the call has changed nothing.
abbrev pub CallsUnchanged {ℓ} : {A : Type ℓ} → Db → Db × Prepared A → Type 0
CallsUnchanged db (d, done x) = Unit
CallsUnchanged db (d, call c) = d ≡ db

module _ {A : Type 0} (w : String) (now : Time) (source : OrderState)
    (body : Row → Db → Db × Prepared A) (db : Db) where
  pub checked-CallsUnchanged :
      (row : Option Row)
      → ((r : Row) → CallsUnchanged db (body r db))
      → CallsUnchanged db (checked done w now source body row db)
  unfolding checked
  checked-CallsUnchanged none split = tt
  checked-CallsUnchanged (some r) split =
      elim (Option-cases (owned_task_check_result w (some r.task))) [
        | inr (skip, e) ↦ rw (e, checked) tt
        | inl e ↦ elim (Bool-cases (is_terminal_order_state r.order.state)) [
          | inl end ↦ rw (e, checked) (rw end tt)
          | inr on ↦ elim (Bool-cases (r.order.state == source)) [
            | inl here ↦ rw (e, checked) (rw (on, here) (split r))
            | inr moved ↦ rw (e, checked) (rw (on, moved) tt)
          ]
        ]
      ]

-- The order's key is only reported.
order_only_reported :
    (r : Run) (spec : RestaurantTransitionSpec) (m : Text) (o p id : Uuid) (w : String) (db : Db)
    → (reschedule_transition_task r.settings spec m o id w r.finished_at db).0
      ≡ (reschedule_transition_task r.settings spec m p id w r.finished_at db).0
unfolding reschedule_transition_task retry_or_fail_claimed_task
order_only_reported r spec m o p id w db = elim (Option-cases (find_task id db)) [
  | inl e ↦ rw (e, retry_owned) refl
  | inr (t, e) ↦ elim (Option-cases (owned_task_check_result w (some t))) [
    | inr (skip, k) ↦ rw (e, retry_owned) (rw (k, retry_owned) refl)
    | inl k ↦ elim (Bool-cases (leb t.max_attempts (t.attempts + 1))) [
      | inl over ↦ rw (e, retry_owned) (rw (k, retry_owned) (rw over refl))
      | inr more ↦ rw (e, retry_owned) (rw (k, retry_owned) (rw more refl))
    ]
  ]
]

pub finish_transition-order :
    (r : Run) (spec : RestaurantTransitionSpec) (o p id : Uuid) (w : String) (v : Reply Verdict)
    (db : Db)
    → (finish_transition r spec o id w v db).0 ≡ (finish_transition r spec p id w v db).0
unfolding finish_transition
finish_transition-order r spec o p id w (error e) db = order_only_reported r spec e o p id w db
finish_transition-order r spec o p id w (outcome (still_pending hint)) db = refl
finish_transition-order r spec o p id w (outcome reached) db = refl

pub finish_courier_assign-order :
    (r : Run) (o p id : Uuid) (w : String) (a : Reply CourierAssignOutcome) (db : Db)
    → (finish_courier_assign r o id w a db).0 ≡ (finish_courier_assign r p id w a db).0
unfolding finish_courier_assign
finish_courier_assign-order r o p id w (error e) db =
    order_only_reported r courier_assign_spec e o p id w db
finish_courier_assign-order r o p id w (outcome (not_assigned hint)) db = refl
finish_courier_assign-order r o p id w (outcome (assigned courier)) db = refl

-- The processing of a task from what its first transaction returned.
abbrev pub proceed {ℓ} :
    {A : Type ℓ} → Db × Prepared A → (A → Db → Db × ProcessingResult) → Db × ProcessingResult
proceed (db', prepared) go = elim prepared [ done res ↦ (db', res) | call c ↦ go c db' ]

pub proceed-splits :
    {A : Type 0} (db : Db) (res : Db × Prepared A) (go : A → Db → Db × ProcessingResult)
    → CallsUnchanged db res
    → ((proceed res go).0 ≡ res.0) ⊎ ((c : A) × ((proceed res go).0 ≡ (go c db).0))
proceed-splits db (d, done x) go e = inl refl
proceed-splits db (d, call c) go e = inr (c, ap (λ z. (go c z).0) e)

courier_call-CallsUnchanged :
    (db d : Db) (p : Prepared RestaurantTransitionCall)
    → CallsUnchanged db (d, p)
    → CallsUnchanged db (d, courier_call p)
unfolding courier_call
courier_call-CallsUnchanged db d (done x) h = tt
courier_call-CallsUnchanged db d (call c) h = h

module _ (r : Run) (w : String) (db : Db) (id : Uuid) where
  pub prepare_transition-CallsUnchanged :
      (spec : RestaurantTransitionSpec)
      → CallsUnchanged db (prepare_transition_call spec id w r.prepared_at db)
  unfolding prepare_transition_call transition_call
  prepare_transition-CallsUnchanged spec =
      checked-CallsUnchanged w r.prepared_at spec.source_state (transition_call spec) db _
        (λ row. refl)

  ready_call-CallsUnchanged :
      (row : Row) → CallsUnchanged db (ready_check_call r.settings w r.prepared_at row db)
  unfolding ready_check_call
  ready_call-CallsUnchanged row = elim (Option-cases row.task.deadline_at) [
    | inl e ↦ rw (e, ready_check_call) tt
    | inr (deadline, e) ↦ elim (Option-cases row.started_at) [
      | inl e' ↦ rw (e, ready_check_call) (rw (e', ready_check_call) tt)
      | inr (started, e') ↦ rw (e, ready_check_call) (rw (e', ready_check_call) refl)
    ]
  ]

  delivery_call-CallsUnchanged :
      (row : Row) → CallsUnchanged db (delivery_check_call r.settings w r.prepared_at row db)
  unfolding delivery_check_call
  delivery_call-CallsUnchanged row = elim (Option-cases row.task.deadline_at) [
    | inl e ↦ rw (e, delivery_check_call) tt
    | inr (deadline, e) ↦ elim (Option-cases row.started_at) [
      | inl e' ↦ rw (e, delivery_check_call) (rw (e', delivery_check_call) tt)
      | inr (started, e') ↦ elim (Option-cases row.order.courier_ref) [
        | inl e'' ↦
            rw (e, delivery_check_call)
              (rw (e', delivery_check_call) (rw (e'', delivery_check_call) tt))
        | inr (courier, e'') ↦
            rw (e, delivery_check_call)
              (rw (e', delivery_check_call) (rw (e'', delivery_check_call) refl))
      ]
    ]
  ]

  pub prepare_ready-CallsUnchanged :
      CallsUnchanged db (prepare_ready_check_call r.settings id w r.prepared_at db)
  unfolding prepare_ready_check_call
  prepare_ready-CallsUnchanged =
      checked-CallsUnchanged w r.prepared_at preparing (ready_check_call r.settings w r.prepared_at)
        db (load_ready_check_task_row id db) ready_call-CallsUnchanged

  pub prepare_delivery-CallsUnchanged :
      CallsUnchanged db (prepare_delivery_check_call r.settings id w r.prepared_at db)
  unfolding prepare_delivery_check_call
  prepare_delivery-CallsUnchanged =
      checked-CallsUnchanged w r.prepared_at out_for_delivery
        (delivery_check_call r.settings w r.prepared_at) db (load_delivery_check_task_row id db)
        delivery_call-CallsUnchanged

  pub prepare_courier-CallsUnchanged :
      CallsUnchanged db (prepare_courier_assign_call id w r.prepared_at db)
  unfolding prepare_courier_assign_call
  prepare_courier-CallsUnchanged =
      courier_call-CallsUnchanged db _ _ (prepare_transition-CallsUnchanged courier_assign_spec)
