-- ===== src/System/Prepared.antt =====
-- The transactions before a call in backend/worker/tasks.py, in the databases that the services reach.
use workato_take_home.Prelude.{
  ◌≡◌, refl, ◌∙◌, String, true, false, Option, none, some, arith, ◌==◌, nat_eq, subst, ap, is_some,
  sym,
}
use workato_take_home.Common.StateMachine.{
  OrderState, placed, confirmed, preparing, ready, out_for_delivery, delivered, cancelled, failed,
  next_order_state, is_terminal_order_state, state_eq,
}
use workato_take_home.Common.TaskTypes.{type_eq}
use workato_take_home.Store.Schema.{Uuid, Order, Task, Db}
use workato_take_home.Store.Query.{find_order, find_task}
use workato_take_home.Worker.Specs.{
  RestaurantTransitionSpec, confirm_spec, start_prep_spec, courier_assign_spec,
}
use workato_take_home.Worker.Lease.{owned_by}
use workato_take_home.Worker.Results.{Prepared, call, done}
use workato_take_home.Worker.Rows.{
  Row, checked, load_ready_check_task_row, load_delivery_check_task_row,
}
use workato_take_home.Worker.Prepare.{
  transition_call, courier_call, prepare_transition_call, prepare_courier_assign_call,
}
use workato_take_home.Worker.Checks.{checked-body}
use workato_take_home.Worker.Ready.{ready_check_call, prepare_ready_check_call}
use workato_take_home.Worker.Delivery.{delivery_check_call, prepare_delivery_check_call}
use workato_take_home.Worker.Transition.{Run}
use workato_take_home.Worker.Dispatch.{
  Handler, transition, courier_assign, readiness_check, delivery_check, unsupported, handler_of,
}
use workato_take_home.System.Lifecycle.{work_for}
use workato_take_home.System.Transactions.{Reach}
use workato_take_home.System.Invariant.Tasks.{TaskOk}
use workato_take_home.System.Invariant.State.{Serves}
use workato_take_home.System.Pipeline.{Reach-TaskOk}
use workato_take_home.System.OrderRows.{OrderOk, Reach-OrderOk}
use workato_take_home.System.Progress.{loaded}
use workato_take_home.System.Audit.{Logged}
use workato_take_home.System.Trail.{Reach-Logged}

-- The transaction changes nothing and goes on to the call.
abbrev pub Goes : {A : Type 0} → Db → Db × Prepared A → Type 0
Goes {A = A} db res = (c : A) × (res ≡ (db, call c))

-- What the first transaction of a handler does.
abbrev pub GoesOn : Handler → Run → Uuid → String → Db → Type 0
GoesOn (transition spec) r id w db = Goes db (prepare_transition_call spec id w r.prepared_at db)
GoesOn courier_assign r id w db = Goes db (prepare_courier_assign_call id w r.prepared_at db)
GoesOn readiness_check r id w db =
    Goes db (prepare_ready_check_call r.settings id w r.prepared_at db)
GoesOn delivery_check r id w db =
    Goes db (prepare_delivery_check_call r.settings id w r.prepared_at db)
GoesOn unsupported r id w db = ⊥

given : {A : Type 0} → {x : Option A} → is_some x ≡ true → (a : A) × (x ≡ some a)
given {x = none} h = absurd (cc)
given {x = some a} h = (a, refl)

module _ (r : Run) (w : String) (db : Db) (t : Task) (o : Order)
    (found : find_task t.id db ≡ some t) (order : find_order t.order_id db ≡ some o)
    (ours : owned_by w t ≡ true) (on : is_terminal_order_state o.state ≡ false) where
  transition-Goes :
      (spec : RestaurantTransitionSpec)
      → o.state ≡ spec.source_state
      → Goes db (prepare_transition_call spec t.id w r.prepared_at db)
  unfolding prepare_transition_call transition_call
  transition-Goes spec at =
      let (s, e) = loaded spec.source_state t.id db t o found order in
      let row : Row = record { task = t; order = o; started_at = s } in
      (
        _,
        ap (λ x. checked done w r.prepared_at spec.source_state (transition_call spec) x db) e
            ∙ checked-body done w r.prepared_at spec.source_state (transition_call spec) row db ours
                on at,
      )

  courier-Goes : o.state ≡ ready → Goes db (prepare_courier_assign_call t.id w r.prepared_at db)
  unfolding prepare_courier_assign_call courier_call
  courier-Goes at =
      let (c, e) = transition-Goes courier_assign_spec at in
      (_, ap (λ x. (x.0, courier_call x.1)) e)

  -- The body of a poll handler, once its row is complete.
  ready-Goes :
      is_some t.deadline_at ≡ true
      → Logged db.events t.order_id confirmed preparing
      → o.state ≡ preparing
      → Goes db (prepare_ready_check_call r.settings t.id w r.prepared_at db)
  unfolding prepare_ready_check_call load_ready_check_task_row ready_check_call
  ready-Goes timed logged at =
      let (d, due) = given timed in
      let (s, began) = given logged in
      let row : Row = record { task = t; order = o; started_at = some s } in
      let e : load_ready_check_task_row t.id db ≡ some row = ground (arith, found, order, began) in
      (
        record { order_id = t.order_id; restaurant_ref = o.restaurant_ref; prep_started_at = s },
        ap
              (λ x.
                checked done w r.prepared_at preparing (ready_check_call r.settings w r.prepared_at)
                  x db)
              e
            ∙ checked-body done w r.prepared_at preparing
                (ready_check_call r.settings w r.prepared_at) row db ours on at
            ∙ rw (due, ready_check_call) refl,
      )

  delivery-Goes :
      is_some t.deadline_at ≡ true
      → Logged db.events t.order_id ready out_for_delivery
      → is_some o.courier_ref ≡ true
      → o.state ≡ out_for_delivery
      → Goes db (prepare_delivery_check_call r.settings t.id w r.prepared_at db)
  unfolding prepare_delivery_check_call load_delivery_check_task_row delivery_check_call
  delivery-Goes timed logged carried at =
      let (d, due) = given timed in
      let (s, began) = given logged in
      let (c, courier) = given carried in
      let row : Row = record { task = t; order = o; started_at = some s } in
      let e : load_delivery_check_task_row t.id db ≡ some row =
        ground (arith, found, order, began) in
      (
        record { order_id = t.order_id; courier_ref = c; dispatched_at = s },
        ap
              (λ x.
                checked done w r.prepared_at out_for_delivery
                  (delivery_check_call r.settings w r.prepared_at) x db)
              e
            ∙ checked-body done w r.prepared_at out_for_delivery
                (delivery_check_call r.settings w r.prepared_at) row db ours on at
            ∙ rw (due, delivery_check_call) (rw (courier, delivery_check_call) refl),
      )

module _ (r : Run) (w : String) (db : Db) (t : Task) (o : Order) (reach : Reach db)
    (found : find_task t.id db ≡ some t) (order : find_order t.order_id db ≡ some o)
    (ours : owned_by w t ≡ true) (on : is_terminal_order_state o.state ≡ false) where
  task_ok : TaskOk t
  task_ok = Reach-TaskOk db t.id t reach found

  order_ok : OrderOk o
  order_ok = Reach-OrderOk db t.order_id o reach order

  -- The step into the order's state is in the log.
  entered :
      (source : OrderState)
      → next_order_state source ≡ some o.state
      → (o.state == cancelled) ≡ false
      → Logged db.events t.order_id source o.state
  entered source step live =
      Reach-Logged db t.order_id o source o.state reach order step
        (rw live (omega (arith, order_ok.forward live)))

  handler-GoesOn :
      (state : OrderState) (h : Handler)
      → o.state ≡ state
      → work_for state ≡ some t.task_type
      → t.target_state ≡ next_order_state state
      → is_terminal_order_state state ≡ false
      → h ≡ handler_of t.task_type t.target_state
      → GoesOn h r t.id w db
  unfolding next_order_state is_terminal_order_state handler_of
  handler-GoesOn placed h e work aim live at =
      subst (λ x. GoesOn x r t.id w db) {x = transition confirm_spec}
        (ground (arith, at, work, aim))
        (transition-Goes r w db t o found order ours on confirm_spec e)
  handler-GoesOn confirmed h e work aim live at =
      subst (λ x. GoesOn x r t.id w db) {x = transition start_prep_spec}
        (ground (arith, at, work, aim))
        (transition-Goes r w db t o found order ours on start_prep_spec e)
  handler-GoesOn preparing h e work aim live at =
      subst (λ x. GoesOn x r t.id w db) {x = readiness_check} (ground (arith, at, work, aim))
        (ready-Goes r w db t o found order ours on (task_ok.timed (ground (arith, work)))
          (subst (Logged db.events t.order_id confirmed) e
            (entered confirmed (ap some (sym e)) (ground (arith, e))))
          e)
  handler-GoesOn ready h e work aim live at =
      subst (λ x. GoesOn x r t.id w db) {x = courier_assign} (ground (arith, at, work, aim))
        (courier-Goes r w db t o found order ours on e)
  handler-GoesOn out_for_delivery h e work aim live at =
      subst (λ x. GoesOn x r t.id w db) {x = delivery_check} (ground (arith, at, work, aim))
        (delivery-Goes r w db t o found order ours on (task_ok.timed (ground (arith, work)))
          (subst (Logged db.events t.order_id ready) e
            (entered ready (ap some (sym e)) (ground (arith, e))))
          (order_ok.carried (ground (arith, e))) e)
  handler-GoesOn delivered h e work aim live at = absurd (cc)
  handler-GoesOn cancelled h e work aim live at = absurd (cc)
  handler-GoesOn failed h e work aim live at = absurd (cc)

-- In every database that the services reach, if a worker owns the task that serves an order which has
-- not ended, then there is a handler for the task, and the handler's first transaction changes nothing
-- and goes on to the call: the deadline, the audit event and the courier that it asks for are there.
pub Reach-GoesOn :
    (r : Run) (w : String) (db : Db) (t : Task) (o : Order)
    → Reach db
    → find_task t.id db ≡ some t
    → find_order t.order_id db ≡ some o
    → owned_by w t ≡ true
    → is_terminal_order_state o.state ≡ false
    → Serves t o
    → GoesOn (handler_of t.task_type t.target_state) r t.id w db
Reach-GoesOn r w db t o reach found order ours on s =
    handler-GoesOn r w db t o reach found order ours on o.state _ refl s.work s.target on refl
