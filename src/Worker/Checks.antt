-- ===== src/Worker/Checks.antt =====
-- backend/worker/tasks.py: the checks with which a handler begins, on a row of its own.
use workato_take_home.Prelude.{◌≡◌, refl, String, true, false, none, some, arith, ◌==◌}
use workato_take_home.Common.StateMachine.{OrderState, state_eq, is_terminal_order_state}
use workato_take_home.Store.Schema.{Time, Task, Db}
use workato_take_home.Worker.Results.{ProcessingResult}
use workato_take_home.Worker.Lease.{owned_by}
use workato_take_home.Worker.Rows.{Row, owned_task_check_result, checked}

pub owned-check :
    (w : String) (t : Task) → owned_by w t ≡ true → owned_task_check_result w (some t) ≡ none
unfolding owned_task_check_result
owned-check w t h = ground arith

-- On a row of its own, with the order in the source state, a handler goes on to its body.
pub checked-body :
    {A : Type 0} (finish : ProcessingResult → A) (w : String) (now : Time) (source : OrderState)
    (body : Row → Db → Db × A) (row : Row) (db : Db)
    → owned_by w row.task ≡ true
    → is_terminal_order_state row.order.state ≡ false
    → row.order.state ≡ source
    → checked finish w now source body (some row) db ≡ body row db
unfolding checked
checked-body finish w now source body row db ours on at =
    let here : (row.order.state == source) ≡ true = ground (arith, at) in
    rw (owned-check w row.task ours, checked) (rw (on, here) refl)
