-- ===== src/Worker/Claim.antt =====
-- backend/worker/tasks.py: `claim_one_task`, one statement that selects and leases a task.
pub mod Choice
pub mod Exclusive
use workato_take_home.Prelude.{
  ℕ, ◌+◌, ◌*◌, String, Bool, true, false, not, ◌&&◌, ◌||◌, Option, none, some, List, [], ◌∷◌, leb,
  ltb, eqb, ◌==◌, if◌then◌else◌,
}
use workato_take_home.Common.TaskTypes.{pending, running, status_eq}
use workato_take_home.Store.Table.{update_by_id}
use workato_take_home.Store.Schema.{Uuid, Time, Task, Db}
use workato_take_home.Store.Query.{task_id_of}
use workato_take_home.Worker.Settings.{second}

abbrev pub lease_seconds : ℕ
lease_seconds = 30

-- `locked_until < now()`, false of null
abbrev pub expired : Time → Option Time → Bool
expired now none = false
expired now (some t) = ltb t now

unfoldable pub claimable : Time → Task → Bool
claimable now t =
    (t.status == pending && leb t.next_run_at now)
    || (t.status == running && expired now t.locked_until)

-- `order by updated_at, next_run_at, created_at, id`
unfoldable pub precedes : Task → Task → Bool
precedes t u =
    ltb t.updated_at u.updated_at
    || (eqb t.updated_at u.updated_at
        && (ltb t.next_run_at u.next_run_at
            || (eqb t.next_run_at u.next_run_at
                && (ltb t.created_at u.created_at
                    || (eqb t.created_at u.created_at && ltb t.id u.id)))))

unfoldable pub first_of_two : Task → Option Task → Task
unfolding precedes
first_of_two t none = t
first_of_two t (some u) = if precedes u t then u else t

-- `for update skip locked limit 1`: `locked` says which rows other transactions hold.
unfoldable pub candidate : (Uuid → Bool) → Time → List Task → Option Task
unfolding claimable first_of_two
candidate locked now [] = none
candidate locked now (t ∷ tasks) =
    let rest = candidate locked now tasks in
    if claimable now t && not (locked t.id) then some (first_of_two t rest) else rest

abbrev pub leased : String → Time → Task → Task
leased worker now t = record t {
  status = running;
  locked_by = some worker;
  locked_until = some (now + lease_seconds * second);
  updated_at = now;
}

-- The claimed row as the statement returns it, or None.
unfoldable pub claim_one_task : (Uuid → Bool) → String → Time → Db → Db × Option Task
unfolding candidate
claim_one_task locked worker now db = elim (candidate locked now db.tasks) [
  | none ↦ (db, none)
  | some t ↦ (
    record db { tasks = update_by_id task_id_of t.id (λ _. true) (leased worker now) db.tasks },
    some (leased worker now t),
  )
]
