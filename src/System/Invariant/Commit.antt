-- ===== src/System/Invariant/Commit.antt =====
-- The invariant through a committed transition: the order enters the target state, its next task is
-- there, and only the task that was performed is completed.
use workato_take_home.Prelude.{
  ℕ, ◌≡◌, ◌≢◌, refl, String, false, Option, none, some, List, arith, Bool-cases, inl, inr, ◌⊎◌, eqb,
  eqb_iff, ◌∙◌, sym, subst, nat_eq, ap,
}
use workato_take_home.Common.StateMachine.{
  OrderState, placed, confirmed, preparing, ready, out_for_delivery, delivered, state_eq,
  next_order_state, is_terminal_order_state,
}
use workato_take_home.Common.TaskTypes.{TaskType, advance_state, check_ready, check_delivery}
use workato_take_home.Store.Table.{find, apply_if, find_id, find-update_by_id}
use workato_take_home.Store.Lookup.{addressed, Image-update_by_id, find_at}
use workato_take_home.Store.Distinct.{Distinct-update_by_id}
use workato_take_home.Store.Schema.{Uuid, Time, Order, Task, Db}
use workato_take_home.Store.Query.{order_id_of, task_id_of, find_order, find_task}
use workato_take_home.Worker.Settings.{Settings}
use workato_take_home.Worker.Specs.{RestaurantTransitionSpec}
use workato_take_home.Worker.Lease.{owned_by, completed_task}
use workato_take_home.Worker.Rows.{Row}
use workato_take_home.Worker.Followup.{insert_followup}
use workato_take_home.Worker.Finalize.{Fresh, at_version, advanced, committed}
use workato_take_home.System.Lifecycle.{IsLifecycle, work_for}
use workato_take_home.System.Invariant.Tasks.{TaskOk, completed-TaskOk}
use workato_take_home.System.Invariant.State.{HasWork, ActiveWork, active_live, Inv, image-TaskOk}
use workato_take_home.System.Invariant.Followup.{
  Extends, insert_followup-Extends, insert_followup-LiveTask,
}

-- A state that is not terminal names its work and its next state.
next_exists :
    (s : OrderState)
    → is_terminal_order_state s ≡ false
    → (work : TaskType) × (target : OrderState) × (work_for s ≡ some work)
      × (next_order_state s ≡ some target)
unfolding is_terminal_order_state next_order_state
next_exists placed h = (advance_state, confirmed, refl, refl)
next_exists confirmed h = (advance_state, preparing, refl, refl)
next_exists preparing h = (check_ready, ready, refl, refl)
next_exists ready h = (advance_state, out_for_delivery, refl, refl)
next_exists out_for_delivery h = (check_delivery, delivered, refl, refl)
next_exists _ h = absurd (cc)

-- No step of the lifecycle leads back to where it started.
next_twice :
    (s t u : OrderState) → next_order_state s ≡ some t → next_order_state t ≡ some u → t ≢ u
unfolding next_order_state
next_twice s t u h k = ground arith

abbrev order_of : Task → Uuid
order_of t = t.order_id

module _ (settings : Settings) (spec : RestaurantTransitionSpec) (courier : Option String)
    (fresh : Fresh) (w : String) (now : Time) (row : Row) (db : Db) (l : IsLifecycle spec)
    (task : find_task row.task.id db ≡ some row.task)
    (order : find_order row.task.order_id db ≡ some row.order)
    (source : row.order.state ≡ spec.source_state)
    (aim : row.task.target_state ≡ some spec.target_state) (drawn : find_task fresh.task db ≡ none)
    (h : Inv db) where
  abbrev id : Uuid
  id = row.task.order_id

  abbrev inserted : List Task
  inserted = insert_followup settings spec fresh.task id now db.tasks

  abbrev ending : Task → Task
  ending = apply_if (addressed task_id_of row.task.id (owned_by w)) (completed_task now)

  extends : Extends db.tasks inserted
  extends =
      insert_followup-Extends db.tasks h.distinct h.task_ok fresh.task id drawn settings spec l now

  -- The order rows after the update.
  order_after :
      (k : ℕ) (o : Order)
      → find_order k (committed settings spec courier fresh w now row db) ≡ some o
      → ((k ≡ id) × (o ≡ advanced spec.target_state now courier row.order))
        ⊎ ((k ≢ id) × (find_order k db ≡ some o))
  unfolding committed
  order_after k o there =
      let after =
        find-update_by_id order_id_of id (at_version row.order.version spec.source_state)
          (advanced spec.target_state now courier) k db.orders (λ o. refl) in
      elim (Bool-cases (eqb id k)) [
        | inl e ↦ inl (ground arith, ground (arith, after, order, source))
        | inr e ↦ inr (ground arith, ground (arith, after))
      ]

  -- Another row than the performed task's is not reached by the completion.
  not_same :
      (t : Task)
      → find task_id_of t.id inserted ≡ some t
      → t ≢ row.task
      → addressed task_id_of row.task.id (owned_by w) t ≡ false
  not_same t there ne = elim (Bool-cases (eqb t.id row.task.id)) [
    | inr e ↦ ground arith
    | inl e ↦
        let same : row.task.id ≡ t.id = sym ((eqb_iff t.id row.task.id).0 e) in
        absurd (
          ne (
            cc (
              there,
              find_at task_id_of inserted t.id row.task.id row.task (sym same)
                  (extends.kept row.task task),
            )))
  ]

  -- The task that was performed is not the one that the new state needs.
  not_performed :
      (work : TaskType) (target : OrderState)
      → next_order_state spec.target_state ≡ some target
      → (t : Task) → find task_id_of t.id inserted ≡ some t
      → t.target_state ≡ some target
      → addressed task_id_of row.task.id (owned_by w) t ≡ false
  not_performed work target n t there a =
      not_same t there
        λ e. next_twice spec.source_state spec.target_state target l.steps n (cc (e, aim, a))

  -- The row of a task that was not performed is still there.
  untouched :
      (t : Task)
      → find task_id_of t.id inserted ≡ some t
      → addressed task_id_of row.task.id (owned_by w) t ≡ false
      → find_task t.id (committed settings spec courier fresh w now row db) ≡ some t
  unfolding committed
  untouched t there miss = ground (
    arith,
    Image-update_by_id task_id_of row.task.id (owned_by w) (completed_task now) inserted (λ s. refl)
        t.id,
  )

  -- The state that was entered has a pending or running task.
  pub new_work :
      is_terminal_order_state spec.target_state ≡ false
      → ActiveWork
          (committed settings spec courier fresh w now row db)
          (advanced spec.target_state now courier row.order)
  new_work on =
      let (work, target, wk, n) = next_exists spec.target_state on in
      let (t, there, o, wt, a, live) =
        insert_followup-LiveTask db.tasks h.distinct h.task_ok fresh.task id drawn settings spec l
          now work target wk n in
      (
        t,
        untouched t there (not_performed work target n t there a),
        record {
          of_order = o ∙ sym (find_id order_id_of id db.orders row.order order);
          work = wk ∙ sym (ap some wt);
          target = a ∙ sym n;
          live = active_live t.status live;
        },
        live,
      )

  new_order :
      is_terminal_order_state spec.target_state ≡ false
      → HasWork
          (committed settings spec courier fresh w now row db)
          (advanced spec.target_state now courier row.order)
  new_order on = let (t, there, s, active) = new_work on in (t, there, s)

  other_order :
      (k : ℕ) (o : Order)
      → k ≢ id
      → find_order k db ≡ some o
      → HasWork db o
      → HasWork (committed settings spec courier fresh w now row db) o
  other_order k o ne found (t, there, s) = (
    t,
    untouched t (extends.kept t there) (
        not_same t (extends.kept t there)
          λ e. ne (sym (find_id order_id_of k db.orders o found) ∙ sym s.of_order ∙ ap order_of e)),
    s,
  )

  ending-TaskOk :
      (k : ℕ) (t : Task) → find task_id_of k inserted ≡ some t → TaskOk t → TaskOk (ending t)
  ending-TaskOk k t there ok = elim (Bool-cases (addressed task_id_of row.task.id (owned_by w) t)) [
    | inl hit ↦ rw hit (completed-TaskOk t now ok)
    | inr miss ↦ rw miss ok
  ]

  served_after :
      (k : ℕ) (o : Order)
      → find_order k (committed settings spec courier fresh w now row db) ≡ some o
      → is_terminal_order_state o.state ≡ false
      → ((k ≡ id) × (o ≡ advanced spec.target_state now courier row.order))
        ⊎ ((k ≢ id) × (find_order k db ≡ some o))
      → HasWork (committed settings spec courier fresh w now row db) o
  served_after k o there on (inl (e, a)) =
      subst (HasWork (committed settings spec courier fresh w now row db)) (sym a)
        (new_order (subst (λ x. is_terminal_order_state x.state ≡ false) a on))
  served_after k o there on (inr (ne, found)) = other_order k o ne found (h.served k o found on)

  pub committed-Inv : Inv (committed settings spec courier fresh w now row db)
  unfolding committed
  committed-Inv = record {
    distinct =
        Distinct-update_by_id task_id_of row.task.id (owned_by w) (completed_task now) inserted
          (λ s. refl) extends.distinct;
    task_ok =
        image-TaskOk (record db { tasks = inserted }) _ ending
          (Image-update_by_id task_id_of row.task.id (owned_by w) (completed_task now) inserted
            (λ s. refl))
          extends.task_ok ending-TaskOk db.orders db.events;
    served = λ k o there on. served_after k o there on (order_after k o there);
  }
