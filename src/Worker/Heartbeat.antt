-- ===== src/Worker/Heartbeat.antt =====
-- backend/worker/heartbeat.py: the row of a worker in the table `workers`.
use workato_take_home.Prelude.{
  String, Option, none, some, List, [], ◌∷◌, ◌==◌, string_eq, if◌then◌else◌,
}
use workato_take_home.Store.Schema.{Time}

-- The identity of a process, or a row; `metadata` is the JSON text.
pub record WorkerIdentity : Type 0 where
  pub worker_id : String
  pub hostname : String
  pub started_at : Time
  pub metadata : String

pub record WorkerRow : Type 0 where
  pub worker_id : String
  pub hostname : Option String
  pub started_at : Time
  pub last_seen_at : Time
  pub metadata : String

unfoldable pub new_worker_row : WorkerIdentity → Time → WorkerRow
new_worker_row identity seen_at = record {
  worker_id = identity.worker_id;
  hostname = some identity.hostname;
  started_at = identity.started_at;
  last_seen_at = seen_at;
  metadata = identity.metadata;
}

unfoldable pub refreshed : WorkerIdentity → Time → WorkerRow → WorkerRow
refreshed identity seen_at row = record row {
  hostname = some identity.hostname;
  last_seen_at = seen_at;
  metadata = identity.metadata;
}

-- `record_worker_heartbeat`: the insertion, or the update of the row with the key.
unfoldable pub record_worker_heartbeat : WorkerIdentity → Time → List WorkerRow → List WorkerRow
unfolding new_worker_row refreshed
record_worker_heartbeat identity seen_at [] = new_worker_row identity seen_at ∷ []
record_worker_heartbeat identity seen_at (row ∷ rows) =
    let rest = record_worker_heartbeat identity seen_at rows in
    if row.worker_id == identity.worker_id
    then refreshed identity seen_at row ∷ rows
    else row ∷ rest

-- `select … from workers where worker_id = …`
unfoldable pub worker_row : String → List WorkerRow → Option WorkerRow
worker_row id [] = none
worker_row id (row ∷ rows) = if row.worker_id == id then some row else worker_row id rows
