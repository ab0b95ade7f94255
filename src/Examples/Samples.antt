-- ===== src/Examples/Samples.antt =====
-- The databases, the worker's run and the rows that the examples are about.
use workato_take_home.Prelude.{String, false, none, some, [], ◌∷◌, text, refl}
use workato_take_home.Common.StateMachine.{confirmed, preparing, ready}
use workato_take_home.Common.TaskTypes.{advance_state, check_ready, failed}
use workato_take_home.Store.Table.{find, exists_where}
use workato_take_home.Store.Schema.{Order, Task, Db}
use workato_take_home.Worker.Settings.{default_settings}
use workato_take_home.Worker.Downstream.{
  Request, HttpResult, response, string, RestaurantTransitionCall, RestaurantReadyCheckCall,
  CourierDeliveryCheckCall,
}
use workato_take_home.Worker.Specs.{confirm_spec}
use workato_take_home.Worker.Claim.{leased}
use workato_take_home.Worker.Rows.{Row}
use workato_take_home.Worker.Followup.{followup_task}
use workato_take_home.Worker.Transition.{Run}
use workato_take_home.Api.OrderStore.{placed_order}
use workato_take_home.System.Transactions.{
  Transaction, intake, cancellation, claim, execute, empty_db, Reach, start, next,
}

abbrev pub accept_1 : Transaction
accept_1 = intake (record { order = 1; event = 2; task = 3 }) 10 "key" "restaurant" none

abbrev pub accept_2 : Transaction
accept_2 = intake (record { order = 11; event = 12; task = 13 }) 11 "other" "restaurant" none

abbrev pub placed_db : Db
placed_db = execute accept_1 empty_db

abbrev pub busy_db : Db
busy_db = execute accept_2 placed_db

abbrev pub claimed_db : Db
claimed_db = execute (claim (λ _. false) "w" 20) placed_db

abbrev pub cancelled_db : Db
cancelled_db = execute (cancellation 9 1 50) placed_db

abbrev pub placed_1 : Order
placed_1 = placed_order 1 "key" "restaurant" none 10

abbrev pub task_3 : Task
task_3 = followup_task 3 1 advance_state confirmed 10 none 10

abbrev pub task_13 : Task
task_13 = followup_task 13 11 advance_state confirmed 11 none 11

abbrev pub claimed_3 : Task
claimed_3 = leased "w" 20 task_3

abbrev pub row_3 : Row
row_3 = record { task = claimed_3; order = placed_1; started_at = some 10 }

abbrev pub yes : String → Request → HttpResult
yes status request =
    response 200 (record { fields = ("status", string status) ∷ []; repr = text "{}" })

abbrev pub run : Run
run = record {
  settings = default_settings;
  post = yes "confirmed";
  prepared_at = 30;
  finished_at = 40;
  fresh = record { event = 4; task = 5 };
}

pub placed_db-Reach : Reach placed_db
unfolding execute find exists_where
placed_db-Reach = next accept_1 start (refl, refl)

-- A readiness check that is being processed, with a deadline.
abbrev pub polled_row : Row
polled_row = record {
  task = leased "w" 20 (followup_task 7 1 check_ready ready 10 (some 100) 10);
  order = placed_1;
  started_at = some 10;
}

abbrev pub polled_db : Db
polled_db = record { orders = placed_1 ∷ []; tasks = polled_row.task ∷ []; events = [] }

abbrev pub preparing_1 : Order
preparing_1 = record placed_1 { state = preparing; version = 2 }

abbrev pub preparing_db : Db
preparing_db = record polled_db { orders = preparing_1 ∷ [] }

-- A readiness check that has used all its attempts.
abbrev pub failed_check : Task
failed_check = record polled_row.task {
  status = failed;
  attempts = 5;
  locked_by = none;
  locked_until = none;
}

abbrev pub failed_db : Db
failed_db = record { orders = preparing_1 ∷ []; tasks = failed_check ∷ task_13 ∷ []; events = [] }

abbrev pub confirm_call : RestaurantTransitionCall
confirm_call = record {
  order_id = 1;
  restaurant_ref = "restaurant";
  source_started_at = 10;
  spec = confirm_spec;
}

abbrev pub ready_call : RestaurantReadyCheckCall
ready_call = record { order_id = 1; restaurant_ref = "restaurant"; prep_started_at = 20 }

abbrev pub delivery_call : CourierDeliveryCheckCall
delivery_call = record { order_id = 1; courier_ref = "courier"; dispatched_at = 30 }

pub busy_db-Reach : Reach busy_db
unfolding execute find exists_where
busy_db-Reach = next accept_2 placed_db-Reach (refl, refl)
