-- ===== src/Worker/Alive.antt =====
-- backend/worker/heartbeat.py: what a heartbeat leaves in the table of the workers.
use workato_take_home.Prelude.{
  ◌≡◌, ◌≢◌, refl, ◌∙◌, sym, String, false, Option, none, some, List, [], ◌∷◌, inl, inr, Bool-cases,
  ◌==◌, ==→≡, ==_refl, string_eq, subst, arith,
}
use workato_take_home.Store.Schema.{Time}
use workato_take_home.Worker.Heartbeat.{
  WorkerIdentity, WorkerRow, new_worker_row, refreshed, record_worker_heartbeat, worker_row,
}

apart_test : (s t : String) → s ≢ t → (s == t) ≡ false
apart_test s t ne = elim (Bool-cases (s == t)) [ inl e ↦ absurd (ne (==→≡ s t e)) | inr e ↦ e ]

-- The row that a heartbeat leaves, given the one before it.
abbrev pub beaten : WorkerIdentity → Time → Option WorkerRow → WorkerRow
beaten identity seen_at none = new_worker_row identity seen_at
beaten identity seen_at (some row) = refreshed identity seen_at row

-- The same and the rows of the other workers.
heartbeat-beaten :
    (identity : WorkerIdentity) (seen_at : Time) (rows : List WorkerRow)
    → (worker_row identity.worker_id (record_worker_heartbeat identity seen_at rows)
        ≡ some (beaten identity seen_at (worker_row identity.worker_id rows)))
      × ((other : String)
          → identity.worker_id ≢ other
          → worker_row other (record_worker_heartbeat identity seen_at rows)
            ≡ worker_row other rows)
unfolding record_worker_heartbeat worker_row new_worker_row refreshed
heartbeat-beaten identity seen_at [] = (
  rw (==_refl identity.worker_id) refl,
  λ other ne. rw (apart_test identity.worker_id other ne) refl,
)
heartbeat-beaten identity seen_at (row ∷ rows) =
    let (here, others) = heartbeat-beaten identity seen_at rows in
    elim (Bool-cases (row.worker_id == identity.worker_id)) [
      | inl same ↦
          rw (same, record_worker_heartbeat)
            (
              rw (same, worker_row) refl,
              λ other ne.
                  rw
                    (
                      apart_test row.worker_id other
                          (λ e. ne (sym (==→≡ row.worker_id identity.worker_id same) ∙ e)),
                      worker_row,
                    )
                    refl,
            )
      | inr apart ↦
          rw (apart, record_worker_heartbeat)
            (rw (apart, worker_row) here, λ other ne. rw (others other ne) refl)
    ]

-- The start of a worker: that of its row, if it has one.
abbrev pub start_of : WorkerIdentity → Option WorkerRow → Time
start_of identity none = identity.started_at
start_of identity (some row) = row.started_at

-- The row of a worker that is alive, given the one before.
pub record Alive (identity : WorkerIdentity) (seen_at : Time) (before : Option WorkerRow)
    (row : WorkerRow) : Type 0 where
  pub worker_id : row.worker_id ≡ identity.worker_id
  pub hostname : row.hostname ≡ some identity.hostname
  pub metadata : row.metadata ≡ identity.metadata
  pub last_seen_at : row.last_seen_at ≡ seen_at
  pub started_at : row.started_at ≡ start_of identity before

worker_row-id :
    (id : String) (rows : List WorkerRow) (row : WorkerRow)
    → worker_row id rows ≡ some row
    → row.worker_id ≡ id
unfolding worker_row
worker_row-id id [] row h = absurd (cc)
worker_row-id id (x ∷ rows) row h = elim (Bool-cases (x.worker_id == id)) [
  | inl same ↦
      let here : x ≡ row = ground (arith, h, same) in
      subst (λ y. y.worker_id ≡ id) here (==→≡ x.worker_id id same)
  | inr apart ↦ worker_row-id id rows row (ground (arith, h, apart))
]

beaten-Alive :
    (identity : WorkerIdentity) (seen_at : Time) (before : Option WorkerRow)
    → ((row : WorkerRow) → before ≡ some row → row.worker_id ≡ identity.worker_id)
    → Alive identity seen_at before (beaten identity seen_at before)
unfolding new_worker_row refreshed
beaten-Alive identity seen_at none named = record {
  worker_id = refl;
  hostname = refl;
  metadata = refl;
  last_seen_at = refl;
  started_at = refl;
}
beaten-Alive identity seen_at (some row) named = record {
  worker_id = named row refl;
  hostname = refl;
  metadata = refl;
  last_seen_at = refl;
  started_at = refl;
}

-- After a heartbeat the worker has a row with its host, its metadata and the instant of the heartbeat
-- as the time at which it was last seen; the time at which it started is that of the row before, or of
-- the process if there was none. No other worker's row changes.
pub record_worker_heartbeat-row :
    (identity : WorkerIdentity) (seen_at : Time) (rows : List WorkerRow)
    → ((row : WorkerRow) × (worker_row identity.worker_id
            (record_worker_heartbeat identity seen_at rows)
          ≡ some row)
        × Alive identity seen_at (worker_row identity.worker_id rows) row)
      × ((other : String)
          → identity.worker_id ≢ other
          → worker_row other (record_worker_heartbeat identity seen_at rows)
            ≡ worker_row other rows)
record_worker_heartbeat-row identity seen_at rows =
    let (here, others) = heartbeat-beaten identity seen_at rows in
    (
      (
        beaten identity seen_at (worker_row identity.worker_id rows),
        here,
        beaten-Alive identity seen_at (worker_row identity.worker_id rows)
            (worker_row-id identity.worker_id rows),
      ),
      others,
    )
