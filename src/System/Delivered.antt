-- ===== src/System/Delivered.antt =====
-- Rounds of a worker of backend/worker/tasks.py whose calls succeed, and how far they take an order.
use workato_take_home.Prelude.{
  ap, ℕ, zero, suc, ◌+◌, ◌-◌, ◌≤◌, ◌≡◌, refl, String, Bool, true, false, none, some, arith, sym,
  ◌∙◌, Bool-cases, inl, inr, ==_refl, string_eq,
}
use workato_take_home.Common.StateMachine.{
  OrderState, delivered, state_index, state_eq, next_order_state, is_terminal_order_state,
}
use workato_take_home.Common.TaskTypes.{status_eq}
use workato_take_home.Store.Table.{find_id}
use workato_take_home.Store.Lookup.{find_at}
use workato_take_home.Store.Schema.{Uuid, Time, Order, Task, Db}
use workato_take_home.Store.Query.{order_id_of, find_order, find_task}
use workato_take_home.Worker.Claim.{leased, claim_one_task}
use workato_take_home.Worker.Lease.{owned_by}
use workato_take_home.Worker.Transition.{Run}
use workato_take_home.Worker.Dispatch.{handler_of}
use workato_take_home.System.Transactions.{claim, after_call, execute, Reach, next}
use workato_take_home.System.Invariant.State.{Serves, ActiveWork}
use workato_take_home.System.Invariant.Reachable.{Reach-Inv}
use workato_take_home.System.Progress.{success, after_call-advances}
use workato_take_home.System.Prepared.{GoesOn, Reach-GoesOn}
use workato_take_home.System.Stages.{after_call-ActiveWork}
use workato_take_home.System.Turn.{
  unused, unused-none, due, all_but, claims, claimed_row, claim-order,
}

-- Rounds of a worker from an instant on, in the order of their instants: each claims a task, its
-- first transaction goes on to the call and changes nothing, the call has the success of the order's
-- state, and the second transaction draws an unused key.
pub data Rounds (w courier : String) : Time → Db → Db → Type 0 where
  finished : {past : Time} {db : Db} → Rounds w courier past db db
  round :
      {past : Time} {db db' : Db} (locked : Uuid → Bool) (now : Time) (r : Run) (t : Task)
      (o : Order)
      → past ≤ now
      → now ≤ r.prepared_at
      → r.prepared_at ≤ r.finished_at
      → find_order t.order_id db ≡ some o
      → (claim_one_task locked w now db).1 ≡ some t
      → GoesOn (handler_of t.task_type t.target_state) r t.id w (execute (claim locked w now) db)
      → find_task r.fresh.task (execute (claim locked w now) db) ≡ none
      → Rounds w courier r.finished_at
          (execute
            (after_call r (success o.state courier) t.id w)
            (execute (claim locked w now) db))
          db'
      → Rounds w courier past db db'

-- The run of the next round: it draws an unused key, at an instant after the one before it.
abbrev next_run : Run → Db → Task → Run
next_run r db t = record r {
  prepared_at = due r.finished_at t;
  finished_at = due r.finished_at t;
  fresh = record { event = r.fresh.event; task = unused db.tasks };
}

-- Where a round takes an order that an active task serves.
record Advanced (w courier : String) (past : Time) (k : Uuid) (o : Order) (db : Db) : Type 0 where
  pub db' : Db
  pub run : Run
  pub reach : Reach db'
  pub rounds :
      {db'' : Db} → Rounds w courier run.finished_at db' db'' → Rounds w courier past db db''
  pub order : Order
  pub there : find_order k db' ≡ some order
  pub step : next_order_state o.state ≡ some order.state
  pub work : is_terminal_order_state order.state ≡ false → ActiveWork db' order

module _ (w courier : String) (r : Run) (db : Db) (k : Uuid) (o : Order) (reach : Reach db)
    (there : find_order k db ≡ some o) (on : is_terminal_order_state o.state ≡ false) where
  round-Advanced : ActiveWork db o → Advanced w courier r.finished_at k o db
  round-Advanced (t, found, s, active) =
      let h = Reach-Inv reach in
      let at = due r.finished_at t in
      let db1 = execute (claim (all_but t.id) w at) db in
      let t1 = leased w at t in
      let run = next_run r db1 t in
      let reach1 : Reach db1 = next (claim (all_but t.id) w at) reach tt in
      let row : find_task t1.id db1 ≡ some t1 = claimed_row w r.finished_at db t h found active in
      let same : t.order_id ≡ k = s.of_order ∙ find_id order_id_of k db.orders o there in
      let kept : find_order k db1 ≡ some o =
        claim-order w r.finished_at db t h found active k o there in
      let order : find_order t1.order_id db1 ≡ some o =
        find_at order_id_of db1.orders t1.order_id k o same kept in
      let s1 : Serves t1 o = record {
        of_order = s.of_order;
        work = s.work;
        target = s.target;
        live = refl;
      } in
      let free : find_task run.fresh.task db1 ≡ none =
        unused-none db1.tasks (unused db1.tasks) (omega arith) in
      let (target, (step, (p, moved, row_p))) =
        after_call-advances run w courier db1 t1 o row order (owned at t) on s1 in
      record {
        db' = execute (after_call run (success o.state courier) t1.id w) db1;
        run = run;
        reach = next (after_call run (success o.state courier) t1.id w) reach1 free;
        rounds =
            round (all_but t.id) at run t1 o (omega arith) (omega arith) (omega arith)
              (find_at order_id_of db.orders t1.order_id k o same there)
              (claims w r.finished_at db t h found active)
              (Reach-GoesOn run w db1 t1 o reach1 row order (owned at t) on s1) free;
        order = p;
        there = find_at order_id_of _ k t1.order_id p (sym same) moved;
        step = step ∙ ap some (sym row_p.state);
        work =
            after_call-ActiveWork run w courier db1 t1 o row order (owned at t) on s1
              (Reach-Inv reach1) free p row_p.rest.id (step ∙ ap some (sym row_p.state));
      }
    where
      owned : (at : Time) (t : Task) → owned_by w (leased w at t) ≡ true
      owned at t = ==_refl w

next_end :
    (s t : OrderState)
    → next_order_state s ≡ some t
    → (state_index t ≡ suc (state_index s)) × (is_terminal_order_state t ≡ true → t ≡ delivered)
unfolding next_order_state is_terminal_order_state
next_end s t h = ground arith

no_step_left : (s : OrderState) → state_index s ≡ 5 → is_terminal_order_state s ≡ true
unfolding is_terminal_order_state
no_step_left s h = ground arith

-- The rounds that deliver an order.
abbrev pub Delivers : String → String → Time → Uuid → Db → Type 0
Delivers w courier past k db =
    (db' : Db) × (o : Order) × Rounds w courier past db db'
    × (find_order k db' ≡ some o)
    × (o.state ≡ delivered)

deliver :
    (steps : ℕ) (w courier : String) (r : Run) (db : Db) (k : Uuid) (o : Order)
    → state_index o.state + steps ≡ 5
    → Reach db
    → find_order k db ≡ some o
    → is_terminal_order_state o.state ≡ false
    → ActiveWork db o
    → Delivers w courier r.finished_at k db
deliver zero w courier r db k o left reach there on work =
    absurd (ground (arith, no_step_left o.state (omega (arith, left)), on))
deliver (suc steps) w courier r db k o left reach there on work =
    let a = round-Advanced w courier r db k o reach there on work in
    let (up, end) = next_end o.state a.order.state a.step in
    elim (Bool-cases (is_terminal_order_state a.order.state)) [
      | inl over ↦ (a.db', a.order, a.rounds finished, a.there, end over)
      | inr still ↦
          let (db'', p, rounds, found, at) =
            deliver steps w courier a.run a.db' k a.order (omega (arith, left, up)) a.reach a.there
              still (a.work still) in
          (db'', p, a.rounds rounds, found, at)
    ]

steps_left :
    (s : OrderState) → is_terminal_order_state s ≡ false → (n : ℕ) × (state_index s + n ≡ 5)
unfolding is_terminal_order_state
steps_left s h = (5 - state_index s, ground arith)

-- In every database that the services reach, an order that has not ended and whose task is pending or
-- running can be delivered: from any instant on, rounds of one worker whose calls succeed, with no help
-- by an operator, lead to a database in which the order is delivered.
pub Reach-Delivers :
    (w courier : String) (r : Run) (db : Db) (k : Uuid) (o : Order)
    → Reach db
    → find_order k db ≡ some o
    → is_terminal_order_state o.state ≡ false
    → ActiveWork db o
    → Delivers w courier r.finished_at k db
Reach-Delivers w courier r db k o reach there on work =
    let (n, left) = steps_left o.state on in deliver n w courier r db k o left reach there on work
