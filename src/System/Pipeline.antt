-- ===== src/System/Pipeline.antt =====
-- What the services promise of an order, over every order of transactions by any number of workers.
use workato_take_home.Prelude.{◌≡◌, true, false, some, arith, subst}
use workato_take_home.Common.StateMachine.{next_order_state, is_terminal_order_state}
use workato_take_home.Store.Schema.{Uuid, Order, Task, Db}
use workato_take_home.Store.Query.{find_order, find_task}
use workato_take_home.System.Transactions.{Transaction, execute, DrawsFresh, Reach}
use workato_take_home.System.Invariant.Tasks.{TaskOk}
use workato_take_home.System.Invariant.State.{HasWork}
use workato_take_home.System.Invariant.Reachable.{Reach-Inv}
use workato_take_home.System.Moves.{Moved, stays, steps, cancels, execute-Follows}

-- In every database that the services reach, an order that has not ended has a task row of its own
-- whose kind and target fit the order's state, and which is pending, running or failed.
pub Reach-HasWork :
    (db : Db) (k : Uuid) (o : Order)
    → Reach db
    → find_order k db ≡ some o
    → is_terminal_order_state o.state ≡ false
    → HasWork db o
Reach-HasWork db k o r found on = (Reach-Inv r).served k o found on

-- In every database that the services reach, each task row has a dedupe key of its order, type and
-- target, a lease exactly while it is running, attempts within its budget (and one left while it is
-- active), a completion time exactly when it is completed, and a deadline if its work is polled for.
pub Reach-TaskOk : (db : Db) (k : Uuid) (t : Task) → Reach db → find_task k db ≡ some t → TaskOk t
Reach-TaskOk db k t r found = (Reach-Inv r).task_ok k t found

stopped : (o p : Order) → is_terminal_order_state o.state ≡ true → Moved o p → p ≡ o
unfolding next_order_state is_terminal_order_state
stopped o p end (stays e) = e
stopped o p end (steps target courier now s c row) = absurd (ground arith)
stopped o p end (cancels now on row) = absurd (ground arith)

-- If `uuid4()` draws fresh keys, then no transaction changes the row of an order that has ended.
pub execute-terminal :
    (db : Db) (k : Uuid) (o : Order) (tx : Transaction)
    → find_order k db ≡ some o
    → is_terminal_order_state o.state ≡ true
    → DrawsFresh tx db
    → find_order k (execute tx db) ≡ some o
execute-terminal db k o tx found end d =
    let (p, there, moved, logged) = execute-Follows k o db found tx d in
    subst (λ x. find_order k (execute tx db) ≡ some x) (stopped o p end moved) there
