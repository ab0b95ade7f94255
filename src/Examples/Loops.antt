-- ===== src/Examples/Loops.antt =====
-- The theorems on the worker's loop, its heartbeat and the connection pool at samples.
use workato_take_home.Prelude.{◌≡◌, ◌≢◌, refl, String, false, none, some, List, [], ◌∷◌}
use workato_take_home.Worker.Loop.{Round, returned, raised, Wait, timed_out, run_task_poll_loop}
use workato_take_home.Worker.Idle.{waits_after, run_task_poll_loop-backoff}
use workato_take_home.Worker.Heartbeat.{
  WorkerIdentity, WorkerRow, worker_row, record_worker_heartbeat,
}
use workato_take_home.Worker.Alive.{Alive, record_worker_heartbeat-row}
use workato_take_home.Common.Environment.{Environment}
use workato_take_home.Common.Pool.{PoolState, configure_db_pool, close_db_pool}
use workato_take_home.Common.PoolLeaks.{SoundPool, configure_db_pool-SoundPool}

abbrev quiet_rounds : List (Round × Wait)
quiet_rounds = (returned false, timed_out) ∷ (raised, timed_out) ∷ (returned false, timed_out) ∷ []

run_task_poll_loop-backoff_example : run_task_poll_loop quiet_rounds ≡ waits_after 0 quiet_rounds
run_task_poll_loop-backoff_example = run_task_poll_loop-backoff quiet_rounds

abbrev identity_1 : WorkerIdentity
identity_1 = record { worker_id = "worker-1"; hostname = "host"; started_at = 5; metadata = "{}" }

abbrev row_1 : WorkerRow
row_1 = record {
  worker_id = "worker-1";
  hostname = some "old";
  started_at = 3;
  last_seen_at = 7;
  metadata = "[]";
}

record_worker_heartbeat-row_example :
    ((row : WorkerRow) × (worker_row "worker-1" (record_worker_heartbeat identity_1 15 (row_1 ∷ []))
        ≡ some row)
      × Alive identity_1 15 (some row_1) row)
    × ((other : String)
        → "worker-1" ≢ other
        → worker_row other (record_worker_heartbeat identity_1 15 (row_1 ∷ []))
          ≡ worker_row other (row_1 ∷ []))
unfolding worker_row
record_worker_heartbeat-row_example = record_worker_heartbeat-row identity_1 15 (row_1 ∷ [])

abbrev unset_environment : Environment
unset_environment = record { getenv = λ name. none; int = λ raw. none }

abbrev no_pool : PoolState
no_pool = record { db_pool = none; open_pools = 0 }

configure_db_pool-SoundPool_example :
    SoundPool (configure_db_pool unset_environment (λ pool. false) no_pool).0
    × SoundPool (close_db_pool no_pool)
configure_db_pool-SoundPool_example =
    configure_db_pool-SoundPool unset_environment (λ pool. false) no_pool refl
