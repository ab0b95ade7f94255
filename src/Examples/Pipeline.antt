-- ===== src/Examples/Pipeline.antt =====
-- The theorems on the whole pipeline at the sample databases.
use workato_take_home.Prelude.{◌≡◌, refl, false, some, none, arith}
use workato_take_home.Common.StateMachine.{
  OrderState, placed, next_order_state, is_terminal_order_state,
}
use workato_take_home.Store.Table.{find, exists_where, update_by_id, update_where, select_where}
use workato_take_home.Store.Query.{find_order}
use workato_take_home.Worker.Downstream.{outcome, reached}
use workato_take_home.Api.OrderStore.{cancelled_order}
use workato_take_home.System.Transactions.{claim, before_call, after_call, verdict, execute, Reach}
use workato_take_home.System.Invariant.Tasks.{TaskOk}
use workato_take_home.System.Invariant.State.{HasWork}
use workato_take_home.System.OrderRows.{OrderOk, Reach-OrderOk}
use workato_take_home.System.Pipeline.{Reach-HasWork, Reach-TaskOk, execute-terminal}
use workato_take_home.Worker.Finalize.{advanced, commit_transition}
use workato_take_home.Worker.Rows.{load_transition_task_row}
use workato_take_home.System.Progress.{Reaches, success, assigned_courier, after_call-advances}
use workato_take_home.Worker.Dispatch.{handler_of, claim_and_process_one_task}
use workato_take_home.System.Rounds.{claim_and_process_one_task-Reach}
use workato_take_home.System.Keys.{Reach-one_order_per_key}
use workato_take_home.System.Prepared.{GoesOn, Reach-GoesOn}
use workato_take_home.System.Delivered.{Delivers, Reach-Delivers}
use workato_take_home.System.Audit.{Logged}
use workato_take_home.System.Trail.{Reach-Logged}
use workato_take_home.System.Transactions.{next}
use workato_take_home.Worker.Dispatch.{transition}
use workato_take_home.Worker.Specs.{confirm_spec}
use workato_take_home.Common.StateMachine.{confirmed}
use workato_take_home.System.Fencing.{execute-fenced}
use workato_take_home.Examples.Samples.{
  busy_db, busy_db-Reach, placed_db, claimed_db, cancelled_db, placed_1, task_3, claimed_3, run,
  placed_db-Reach,
}

Reach-HasWork_example : HasWork placed_db placed_1
unfolding execute find exists_where is_terminal_order_state
Reach-HasWork_example = Reach-HasWork placed_db 1 placed_1 placed_db-Reach refl refl

Reach-TaskOk_example : TaskOk task_3
unfolding execute find exists_where
Reach-TaskOk_example = Reach-TaskOk placed_db 3 task_3 placed_db-Reach refl

Reach-OrderOk_example : OrderOk placed_1
unfolding execute find exists_where
Reach-OrderOk_example = Reach-OrderOk placed_db 1 placed_1 placed_db-Reach refl

execute-terminal_example :
    find_order 1 (execute (claim (λ _. false) "w" 60) cancelled_db)
    ≡ some (cancelled_order 50 placed_1)
unfolding execute find exists_where update_by_id update_where select_where is_terminal_order_state
execute-terminal_example =
    execute-terminal cancelled_db 1 (cancelled_order 50 placed_1) (claim (λ _. false) "w" 60) refl
      refl tt

execute-fenced_example :
    (execute (before_call run 3 "v") claimed_db ≡ claimed_db)
    × (execute (after_call run (verdict (outcome reached)) 3 "v") claimed_db ≡ claimed_db)
unfolding execute find exists_where update_by_id
execute-fenced_example =
    execute-fenced "v" 3 claimed_db claimed_3 run (verdict (outcome reached)) refl refl

after_call-advances_example :
    (target : OrderState) × ((next_order_state placed ≡ some target)
      × Reaches 1 target 40
          (assigned_courier placed "courier")
          placed_1
          (execute (after_call run (success placed "courier") 3 "w") claimed_db))
unfolding execute find exists_where update_by_id is_terminal_order_state next_order_state
after_call-advances_example =
    after_call-advances run "w" "courier" claimed_db claimed_3 placed_1 refl refl refl refl
      (record { of_order = refl; work = refl; target = refl; live = refl })

claim_and_process_one_task-Reach_example :
    Reach (claim_and_process_one_task (λ _. false) run "w" 20 placed_db).0
unfolding execute find exists_where
claim_and_process_one_task-Reach_example =
    claim_and_process_one_task-Reach (λ _. false) run "w" 20 placed_db placed_db-Reach refl

Reach-one_order_per_key_example : placed_1.id ≡ placed_1.id
unfolding execute find exists_where
Reach-one_order_per_key_example =
    Reach-one_order_per_key busy_db 1 1 placed_1 placed_1 busy_db-Reach refl refl refl

Reach-GoesOn_example : GoesOn (transition confirm_spec) run 3 "w" claimed_db
unfolding execute find exists_where update_by_id is_terminal_order_state next_order_state handler_of
Reach-GoesOn_example =
    Reach-GoesOn run "w" claimed_db claimed_3 placed_1
      (next (claim (λ _. false) "w" 20) placed_db-Reach tt) refl refl refl refl
      (record { of_order = refl; work = refl; target = refl; live = refl })

Reach-Logged_example :
    Logged
      (execute (after_call run (verdict (outcome reached)) 3 "w") claimed_db).events
      1
      placed
      confirmed
unfolding execute find exists_where update_by_id next_order_state load_transition_task_row
    is_terminal_order_state commit_transition
Reach-Logged_example =
    Reach-Logged (execute (after_call run (verdict (outcome reached)) 3 "w") claimed_db) 1
      (advanced confirmed 40 none placed_1) placed confirmed
      (next (after_call run (verdict (outcome reached)) 3 "w")
        (next (claim (λ _. false) "w" 20) placed_db-Reach tt) refl)
      refl refl (omega arith)

Reach-Delivers_example : Delivers "w" "courier" 40 1 placed_db
unfolding execute find exists_where is_terminal_order_state next_order_state
Reach-Delivers_example =
    Reach-Delivers "w" "courier" run placed_db 1 placed_1 placed_db-Reach refl refl
      (task_3, refl, record { of_order = refl; work = refl; target = refl; live = refl }, refl)
