-- ===== src/Examples/Dashboard.antt =====
-- The theorems on the dashboard at the sample databases.
use workato_take_home.Prelude.{◌+◌, ◌≡◌, ◌↔◌, false, length, none, ◌==◌}
use workato_take_home.Common.Environment.{Environment}
use workato_take_home.Common.StateMachine.{OrderState, state_eq}
use workato_take_home.Common.TaskTypes.{TaskStatus, status_eq}
use workato_take_home.Worker.Claim.{claimable, claim_one_task}
use workato_take_home.Dashboard.Select.{count_where}
use workato_take_home.Dashboard.Settings.{stuck_order_thresholds}
use workato_take_home.Dashboard.Counts.{count_of, sum_counts, order_counts, task_counts}
use workato_take_home.Dashboard.Health.{task_health}
use workato_take_home.Dashboard.Attention.{load_attention_order_overview}
use workato_take_home.Dashboard.Totals.{order_counts-scan}
use workato_take_home.Dashboard.Backlog.{task_health-backlog}
use workato_take_home.Dashboard.Listed.{Shows, load_attention_order_overview-Shows}
use workato_take_home.Dashboard.Details.{get_dashboard_order_detail}
use workato_take_home.Dashboard.History.{Viewed, get_dashboard_order_detail-Viewed}
use workato_take_home.Store.Query.{find_order}
use workato_take_home.Examples.Samples.{busy_db}

abbrev default_environment : Environment
default_environment = record { getenv = λ name. none; int = λ raw. none }

order_counts-scan_example :
    (((s : OrderState)
        → count_of s (order_counts busy_db) ≡ count_where (λ o. o.state == s) busy_db.orders)
      × (sum_counts (order_counts busy_db) ≡ length busy_db.orders))
    × (((s : TaskStatus)
          → count_of s (task_counts busy_db) ≡ count_where (λ t. t.status == s) busy_db.tasks)
        × (sum_counts (task_counts busy_db) ≡ length busy_db.tasks))
order_counts-scan_example = order_counts-scan busy_db

task_health-backlog_example :
    ((task_health 20 busy_db).due_pending + (task_health 20 busy_db).expired_running
      ≡ count_where (claimable 20) busy_db.tasks)
    × (((task_health 20 busy_db).due_pending + (task_health 20 busy_db).expired_running ≡ 0)
        ↔ ((claim_one_task (λ _. false) "w" 20 busy_db).1 ≡ none))
task_health-backlog_example = task_health-backlog 20 "w" busy_db

load_attention_order_overview-Shows_example :
    Shows 200_000_000 120 (stuck_order_thresholds default_environment) busy_db (
      load_attention_order_overview 200_000_000 120
        (stuck_order_thresholds default_environment)
        busy_db)
load_attention_order_overview-Shows_example =
    load_attention_order_overview-Shows 200_000_000 120 (stuck_order_thresholds default_environment)
      busy_db

get_dashboard_order_detail-Viewed_example :
    Viewed busy_db (find_order 1 busy_db) (get_dashboard_order_detail 1 busy_db)
get_dashboard_order_detail-Viewed_example = get_dashboard_order_detail-Viewed 1 busy_db
