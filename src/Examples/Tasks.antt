-- ===== src/Examples/Tasks.antt =====
-- The theorems on the worker at the sample databases.
use workato_take_home.Prelude.{◌≡◌, ◌≢◌, ◌⊎◌, refl, false, none, some, text, arith}
use workato_take_home.Common.StateMachine.{placed, confirmed}
use workato_take_home.Store.Table.{find, exists_where, update_by_id}
use workato_take_home.Store.Schema.{Task}
use workato_take_home.Store.Query.{find_task}
use workato_take_home.Worker.Settings.{default_settings}
use workato_take_home.Worker.Specs.{confirm_spec}
use workato_take_home.Worker.Lease.{retry_or_fail_claimed_task}
use workato_take_home.Worker.Claim.{claim_one_task, leased}
use workato_take_home.Worker.Claim.Choice.{available}
use workato_take_home.Worker.Claim.Exclusive.{
  Claimed, claim_one_task-Claimed, claim_one_task-none, claim_one_task-exclusive,
}
use workato_take_home.Worker.Finalize.{commit_transition}
use workato_take_home.Worker.Commit.{
  Commits, Loses, commit_transition-once, commit_transition-optimistic,
}
use workato_take_home.Worker.Budget.{Charged, retry_or_fail_claimed_task-Charged}
use workato_take_home.System.Transactions.{execute}
use workato_take_home.Worker.Polling.{Polled, readiness, finish_poll, finish_poll-Polled}
use workato_take_home.Worker.Downstream.{outcome, still_pending}
use workato_take_home.Examples.Samples.{
  preparing_1, preparing_db, placed_db, busy_db, claimed_db, placed_1, task_13, claimed_3, row_3,
  polled_row, run,
}

commit_transition-once_example :
    let db1 =
      (commit_transition default_settings confirm_spec none run.fresh "w" 40 row_3 claimed_db).0 in
    Loses "v" 41 row_3 db1
      (commit_transition default_settings confirm_spec none
        (record { event = 6; task = 7 })
        "v"
        41
        row_3
        db1).0
unfolding execute find exists_where update_by_id
commit_transition-once_example =
    commit_transition-once default_settings confirm_spec confirm_spec none none run.fresh
      (record { event = 6; task = 7 }) "w" "v" 40 41 row_3 row_3 claimed_db refl refl refl refl

commit_transition-optimistic_example :
    (((placed_1.version ≡ 0) × (placed_1.state ≡ placed))
      × Commits confirm_spec none run.fresh "w" 40 row_3 placed_1 claimed_db
          (commit_transition default_settings confirm_spec none run.fresh "w" 40 row_3
            claimed_db).0)
    ⊎ ((placed_1.version ≡ 0 → placed_1.state ≢ placed)
        × Loses "w" 40 row_3 claimed_db
            (commit_transition default_settings confirm_spec none run.fresh "w" 40 row_3
              claimed_db).0)
unfolding execute find exists_where update_by_id
commit_transition-optimistic_example =
    commit_transition-optimistic default_settings confirm_spec none run.fresh "w" 40 row_3
      claimed_db placed_1 refl

claim_one_task-Claimed_example :
    Claimed (λ _. false) "w" 20 placed_db (claim_one_task (λ _. false) "w" 20 placed_db).0 claimed_3
unfolding execute find exists_where update_by_id claim_one_task
claim_one_task-Claimed_example =
    claim_one_task-Claimed (λ _. false) "w" 20 placed_db claimed_3 (refl, tt) refl

claim_one_task-none_example :
    ((claim_one_task (λ _. false) "w" 5 placed_db).0 ≡ placed_db)
    × ((s : Task) → find_task s.id placed_db ≡ some s → available (λ _. false) 5 s ≡ false)
unfolding execute find exists_where claim_one_task
claim_one_task-none_example = claim_one_task-none (λ _. false) "w" 5 placed_db refl

claim_one_task-exclusive_example : (leased "v" 21 task_13).id ≢ claimed_3.id
unfolding execute find exists_where update_by_id claim_one_task
claim_one_task-exclusive_example =
    claim_one_task-exclusive (λ _. false) (λ _. false) "w" "v" 20 21 busy_db claimed_3
      (leased "v" 21 task_13) (refl, (refl, tt)) (omega arith) refl refl

finish_poll-Polled_example :
    Polled polled_row.task 100 40 2_000_040 preparing_db
      (finish_poll readiness run polled_row.task.id "w" (outcome (still_pending none)) preparing_db)
unfolding find
finish_poll-Polled_example =
    finish_poll-Polled readiness run none "w" preparing_db polled_row.task preparing_1 100 refl refl
      refl refl refl

retry_or_fail_claimed_task-Charged_example :
    (s : Task) × ((find_task 3
          (retry_or_fail_claimed_task 3 "w" 1 placed confirmed 0 3 60
            (text "timeout")
            40
            claimed_db).0
        ≡ some s)
      × Charged (text "timeout") 60 40 claimed_3 s)
unfolding execute find exists_where update_by_id
retry_or_fail_claimed_task-Charged_example =
    retry_or_fail_claimed_task-Charged 3 "w" 1 placed confirmed 60 40 (text "timeout") claimed_db
      claimed_3 refl refl
