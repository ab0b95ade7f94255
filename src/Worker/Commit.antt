-- ===== src/Worker/Commit.antt =====
-- The optimistic lock of `_finalize_transition_task`: what its statements do to the database when
-- the order is as it was read, and when another transaction has changed it.
use workato_take_home.Prelude.{
  ◌≡◌, refl, String, true, false, Option, none, some, ◌∷◌, arith, Bool-cases, inl, inr, sym, subst,
  ◌⊎◌, ◌≢◌, ==→≡, ℕ, nat_eq,
}
use workato_take_home.Common.StateMachine.{OrderState, state_eq}
use workato_take_home.Common.EventTypes.{state_transition}
use workato_take_home.Store.Changes.{Stepped}
use workato_take_home.Common.TaskTypes.{completed, status_eq}
use workato_take_home.Store.Table.{update_by_id, hits, find-update_by_id}
use workato_take_home.Store.Schema.{Time, Order, Task, Event, Db}
use workato_take_home.Store.Query.{order_id_of, task_id_of, find_order, find_task}
use workato_take_home.Worker.Settings.{Settings}
use workato_take_home.Worker.Specs.{RestaurantTransitionSpec}
use workato_take_home.Worker.Lease.{owned_by, owned_update, completed_task, complete_claimed_task}
use workato_take_home.Worker.Rows.{Row}
use workato_take_home.Worker.Finalize.{
  Fresh, at_version, advanced, transition_audit, committed, commit_transition,
}

-- The event of a step.
pub record Audits (spec : RestaurantTransitionSpec) (w : String) (now : Time) (row : Row)
    (e : Event) : Type 0 where
  pub order_id : e.order_id ≡ row.task.order_id
  pub event_type : e.event_type ≡ state_transition
  pub from_state : e.from_state ≡ some spec.source_state
  pub to_state : e.to_state ≡ some spec.target_state
  pub task_id : e.task_id ≡ some row.task.id
  pub worker_id : e.worker_id ≡ some w
  pub occurred_at : e.occurred_at ≡ now

pub advanced-Stepped :
    (target : OrderState) (now : Time) (courier : Option String) (o : Order)
    → Stepped target now courier o (advanced target now courier o)
advanced-Stepped target now courier o = record {
  state = refl;
  version = refl;
  courier_ref = refl;
  updated_at = refl;
  terminal_reason = refl;
  cancelled_at = refl;
  rest = record {
    id = refl;
    idempotency_key = refl;
    customer_ref = refl;
    restaurant_ref = refl;
    created_at = refl;
    delivered_at = refl;
  };
}

-- The finalization takes effect: one step of the order, and one event.
pub record Commits (spec : RestaurantTransitionSpec) (courier : Option String) (fresh : Fresh)
    (w : String) (now : Time) (row : Row) (o : Order) (db db' : Db) : Type 0 where
  pub advances :
      (p : Order) × (find_order row.task.order_id db' ≡ some p)
      × Stepped spec.target_state now courier o p
  pub records :
      (e : Event) × (db'.events ≡ e ∷ db.events) × (e.id ≡ fresh.event) × Audits spec w now row e

-- The finalization has lost: nothing happens but that the task is completed, if still owned.
pub record Loses (w : String) (now : Time) (row : Row) (db db' : Db) : Type 0 where
  pub orders : db'.orders ≡ db.orders
  pub events : db'.events ≡ db.events
  pub tasks :
      db'.tasks ≡ update_by_id task_id_of row.task.id (owned_by w) (completed_task now) db.tasks
  pub ended :
      (t : Task)
      → find_task row.task.id db ≡ some t
      → owned_by w t ≡ true
      → (s : Task) × (find_task row.task.id db' ≡ some s)
        × (s.status ≡ completed)
        × (s.completed_at ≡ some now)
        × (s.locked_by ≡ none)

module _ (settings : Settings) (spec : RestaurantTransitionSpec) (courier : Option String)
    (fresh : Fresh) (w : String) (now : Time) (row : Row) (db : Db) (o : Order)
    (found : find_order row.task.order_id db ≡ some o) where
  abbrev after_commit : Db
  after_commit = (commit_transition settings spec courier fresh w now row db).0

  hits_order :
      hits order_id_of row.task.order_id (at_version row.order.version spec.source_state) db.orders
      ≡ at_version row.order.version spec.source_state o
  hits_order = rw (found, hits) refl

  pub hit-committed :
      at_version row.order.version spec.source_state o ≡ true
      → after_commit ≡ committed settings spec courier fresh w now row db
  unfolding commit_transition
  hit-committed fits = ground (arith, hits_order, fits)

  miss-completed :
      at_version row.order.version spec.source_state o ≡ false
      → after_commit ≡ (complete_claimed_task row.task.id w now db).0
  unfolding commit_transition
  miss-completed stale = ground (arith, hits_order, stale)

  committed-Commits :
      at_version row.order.version spec.source_state o ≡ true
      → Commits spec courier fresh w now row o db
          (committed settings spec courier fresh w now row db)
  unfolding committed complete_claimed_task
  committed-Commits fits =
      let after =
        find-update_by_id order_id_of row.task.order_id
          (at_version row.order.version spec.source_state) (advanced spec.target_state now courier)
          row.task.order_id db.orders (λ _. refl) in
      record {
        advances = (
          advanced spec.target_state now courier o,
          ground (arith, after, found, fits),
          advanced-Stepped spec.target_state now courier o,
        );
        records = (
          transition_audit spec fresh.event row.task.order_id row.task.id w now,
          refl,
          refl,
          record {
            order_id = refl;
            event_type = refl;
            from_state = refl;
            to_state = refl;
            task_id = refl;
            worker_id = refl;
            occurred_at = refl;
          },
        );
      }

  complete_claimed_task-Loses : Loses w now row db (complete_claimed_task row.task.id w now db).0
  unfolding complete_claimed_task
  complete_claimed_task-Loses = record {
    orders = refl;
    events = refl;
    tasks = refl;
    ended = λ t there ours. (
      completed_task now t,
      owned_update row.task.id w db t there ours (completed_task now) (λ _. refl),
      refl,
      refl,
      refl,
    );
  }

read_and_found :
    (version : ℕ) (source : OrderState) (o : Order)
    → ((at_version version source o ≡ true) × ((o.version ≡ version) × (o.state ≡ source)))
      ⊎ ((at_version version source o ≡ false) × (o.version ≡ version → o.state ≢ source))
read_and_found version source o = elim (Bool-cases (at_version version source o)) [
  | inl fits ↦ inl (fits, (ground (arith, fits), ==→≡ o.state source (ground (arith, fits))))
  | inr stale ↦ inr (stale, λ same at. ground (arith, stale, same, at))
]

-- On the order row as it is in the database, the statements of a finalization either find the version
-- that was read and the source state, and then take the order one step on and append the event of the
-- step; or find another version or state, and then change no order and no event and add no task, and
-- only complete the worker's own task.
pub commit_transition-optimistic :
    (settings : Settings) (spec : RestaurantTransitionSpec) (courier : Option String)
    (fresh : Fresh) (w : String) (now : Time) (row : Row) (db : Db) (o : Order)
    → find_order row.task.order_id db ≡ some o
    → (((o.version ≡ row.order.version) × (o.state ≡ spec.source_state))
        × Commits spec courier fresh w now row o db
            (commit_transition settings spec courier fresh w now row db).0)
      ⊎ ((o.version ≡ row.order.version → o.state ≢ spec.source_state)
          × Loses w now row db (commit_transition settings spec courier fresh w now row db).0)
commit_transition-optimistic settings spec courier fresh w now row db o found =
    elim (read_and_found row.order.version spec.source_state o) [
      | inl (fits, as_read) ↦ inl (
        as_read,
        subst (Commits spec courier fresh w now row o db)
            (sym (hit-committed settings spec courier fresh w now row db o found fits))
            (committed-Commits settings spec courier fresh w now row db o found fits),
      )
      | inr (stale, other) ↦ inr (
        other,
        subst (Loses w now row db)
            (sym (miss-completed settings spec courier fresh w now row db o found stale))
            (complete_claimed_task-Loses settings spec courier fresh w now row db o found),
      )
    ]

-- Of two finalizations from one read of an order, the one that commits second, with whatever spec,
-- finds the order changed: it changes no order and no event, adds no task, and only
-- completes its own task.
pub commit_transition-once :
    (settings : Settings) (spec spec' : RestaurantTransitionSpec) (courier courier' : Option String)
    (fresh fresh' : Fresh) (w w' : String) (now now' : Time) (row row' : Row) (db : Db)
    → find_order row.task.order_id db ≡ some row.order
    → row.order.state ≡ spec.source_state
    → row'.task.order_id ≡ row.task.order_id
    → row'.order ≡ row.order
    → let db1 = (commit_transition settings spec courier fresh w now row db).0 in
      Loses w' now' row' db1 (commit_transition settings spec' courier' fresh' w' now' row' db1).0
commit_transition-once settings spec spec' courier courier' fresh fresh' w w' now now' row row' db
      found source same_order same =
    let db1 = (commit_transition settings spec courier fresh w now row db).0 in
    let fits : at_version row.order.version spec.source_state row.order ≡ true =
      ground (arith, source) in
    let first =
      subst (Commits spec courier fresh w now row row.order db)
        (sym (hit-committed settings spec courier fresh w now row db row.order found fits))
        (committed-Commits settings spec courier fresh w now row db row.order found fits) in
    let (o, advances, step) = first.advances in
    let there : find_order row'.task.order_id db1 ≡ some o =
      subst (λ k. find_order k db1 ≡ some o) (sym same_order) advances in
    let stale : at_version row'.order.version spec'.source_state o ≡ false =
      ground (arith, same, step.version) in
    subst (Loses w' now' row' db1)
      (sym (miss-completed settings spec' courier' fresh' w' now' row' db1 o there stale))
      (complete_claimed_task-Loses settings spec' courier' fresh' w' now' row' db1 o there)
