-- ===== src/System/Invariant/State.antt =====
-- The invariant: every task row is as it should be, and every order that has not ended has a task
-- that will take it further. What keeps it, where a transaction updates task rows in place.
use workato_take_home.Prelude.{arith, ◌≡◌, Bool, true, false, some, List, ℕ, ◌∙◌, sym, subst}
use workato_take_home.Common.StateMachine.{next_order_state, is_terminal_order_state}
use workato_take_home.Common.TaskTypes.{TaskStatus, status_eq, pending, running, failed}
use workato_take_home.Store.Constraints.{is_active}
use workato_take_home.Store.Table.{find_id}
use workato_take_home.Store.Lookup.{Image, find_at, Image-some, Image-preimage}
use workato_take_home.Store.Distinct.{Distinct}
use workato_take_home.Store.Schema.{Order, Task, Event, Db}
use workato_take_home.Store.Query.{order_id_of, task_id_of, find_order, find_task}
use workato_take_home.System.Lifecycle.{work_for}
use workato_take_home.System.Invariant.Tasks.{TaskOk}

-- A task that waits, runs, or waits for an operator after its failure.
abbrev pub is_live : TaskStatus → Bool
is_live pending = true
is_live running = true
is_live failed = true
is_live _ = false

-- The task is what takes the order out of its state.
pub record Serves (t : Task) (o : Order) : Type 0 where
  pub of_order : t.order_id ≡ o.id
  pub work : work_for o.state ≡ some t.task_type
  pub target : t.target_state ≡ next_order_state o.state
  pub live : is_live t.status ≡ true

abbrev pub HasWork : Db → Order → Type 0
HasWork db o = (t : Task) × (find_task t.id db ≡ some t) × Serves t o

-- A task that takes the order further without an operator.
abbrev pub ActiveWork : Db → Order → Type 0
ActiveWork db o =
    (t : Task) × (find_task t.id db ≡ some t) × Serves t o × (is_active t.status ≡ true)

pub active_live : (s : TaskStatus) → is_active s ≡ true → is_live s ≡ true
active_live s h = ground arith

pub record Inv (db : Db) : Type 0 where
  pub distinct : Distinct task_id_of db.tasks
  pub task_ok : (k : ℕ) (t : Task) → find_task k db ≡ some t → TaskOk t
  pub served :
      (k : ℕ) (o : Order)
      → find_order k db ≡ some o
      → is_terminal_order_state o.state ≡ false
      → HasWork db o

-- What an update of a task leaves alone.
pub record SameWork (s t : Task) : Type 0 where
  pub id : s.id ≡ t.id
  pub order : s.order_id ≡ t.order_id
  pub work : s.task_type ≡ t.task_type
  pub target : s.target_state ≡ t.target_state

module _ (db : Db) (tasks' : List Task) (g : Task → Task)
    (image : Image task_id_of g db.tasks tasks') where
  pub image-TaskOk :
      ((k : ℕ) (t : Task) → find_task k db ≡ some t → TaskOk t)
      → ((k : ℕ) (t : Task) → find_task k db ≡ some t → TaskOk t → TaskOk (g t))
      → (orders : List Order) (events : List Event) (k : ℕ) (t : Task)
      → find_task k (record { orders = orders; tasks = tasks'; events = events }) ≡ some t
      → TaskOk t
  image-TaskOk ok keeps orders events k t h =
      let (s, found, e) = Image-preimage task_id_of g db.tasks tasks' k t image h in
      subst TaskOk (sym e) (keeps k s found (ok k s found))

  pub image-HasWork :
      (o : Order) (orders : List Order) (events : List Event)
      → ((t : Task) → SameWork (g t) t)
      → ((t : Task) → find_task t.id db ≡ some t → Serves t o → is_live (g t).status ≡ true)
      → HasWork db o
      → HasWork (record { orders = orders; tasks = tasks'; events = events }) o
  image-HasWork o orders events same alive (t, found, s) =
      let w = same t in
      let there = Image-some task_id_of g db.tasks tasks' t.id t image found in
      (
        g t,
        find_at task_id_of tasks' (g t).id t.id (g t) w.id there,
        record {
          of_order = w.order ∙ s.of_order;
          work = rw w.work s.work;
          target = w.target ∙ s.target;
          live = alive t found s;
        },
      )

  -- The orders stay, and no task that its order needs is lost.
  pub image-Inv :
      (events : List Event)
      → Inv db
      → Distinct task_id_of tasks'
      → ((t : Task) → SameWork (g t) t)
      → ((k : ℕ) (t : Task) → find_task k db ≡ some t → TaskOk t → TaskOk (g t))
      → ((t : Task) (o : Order)
          → find_task t.id db ≡ some t
          → find_order t.order_id db ≡ some o
          → Serves t o
          → is_live (g t).status ≡ true)
      → Inv (record { orders = db.orders; tasks = tasks'; events = events })
  image-Inv events h distinct same keeps alive = record {
    distinct = distinct;
    task_ok = image-TaskOk h.task_ok keeps db.orders events;
    served = λ k o found on.
        image-HasWork o db.orders events same
          (λ t there s.
            alive t o there
              (find_at order_id_of db.orders t.order_id k o
                (s.of_order ∙ find_id order_id_of k db.orders o found) found)
              s)
          (h.served k o found on);
  }
