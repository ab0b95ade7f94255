-- ===== src/Worker/Claim/Exclusive.antt =====
-- claim_one_task of backend/worker/tasks.py as a whole: its result, and a second claim after it.
use workato_take_home.Prelude.{
  ◌+◌, ◌*◌, ◌≡◌, ◌≢◌, ◌≤◌, refl, String, Bool, true, false, none, some, arith, Option-cases, inl,
  inr, Bool-cases, subst,
}
use workato_take_home.Common.TaskTypes.{running}
use workato_take_home.Store.Table.{update_by_id, find-update_by_id}
use workato_take_home.Store.Distinct.{Distinct, Distinct-update_by_id}
use workato_take_home.Store.Schema.{Uuid, Time, Task, Db}
use workato_take_home.Store.Query.{task_id_of, find_task}
use workato_take_home.Worker.Settings.{second}
use workato_take_home.Worker.Claim.{
  claimable, precedes, candidate, leased, lease_seconds, claim_one_task,
}
use workato_take_home.Worker.Claim.Choice.{available, candidate-first, candidate-chosen}

-- What a claim is: an available row, before which no available row goes, now leased to the worker.
pub record Claimed (locked : Uuid → Bool) (w : String) (now : Time) (db db' : Db) (t : Task)
    : Type 0 where
  pub row : Task
  pub was : find_task t.id db ≡ some row
  pub free : available locked now row ≡ true
  pub first :
      (s : Task)
      → find_task s.id db ≡ some s
      → available locked now s ≡ true
      → precedes s row ≡ false
  pub returned : t ≡ leased w now row
  pub stored : find_task t.id db' ≡ some t
  -- the lease of 30 seconds, on a row that is otherwise about the same work
  pub lease :
      (t.status ≡ running)
      × (t.locked_by ≡ some w)
      × (t.locked_until ≡ some (now + lease_seconds * second))
  pub same_work : (t.id ≡ row.id) × (t.attempts ≡ row.attempts)

claim_one_task-Distinct :
    (locked : Uuid → Bool) (w : String) (now : Time) (db : Db)
    → Distinct task_id_of db.tasks
    → Distinct task_id_of (claim_one_task locked w now db).0.tasks
unfolding claim_one_task
claim_one_task-Distinct locked w now db d = elim (Option-cases (candidate locked now db.tasks)) [
  | inl e ↦ rw (e, claim_one_task) d
  | inr (s, e) ↦
      rw (e, claim_one_task)
        (Distinct-update_by_id task_id_of s.id (λ _. true) (leased w now) db.tasks (λ _. refl) d)
]

-- A fresh lease keeps other workers away until it expires.
leased_unavailable :
    (locked : Uuid → Bool) (w : String) (now now' : Time)
    → now' ≤ now + lease_seconds * second
    → (s t : Task) → t ≡ leased w now s
    → available locked now' t ≡ true
    → ⊥
unfolding claimable
leased_unavailable locked w now now' soon s t e av = ground arith

module _ (locked : Uuid → Bool) (w : String) (now : Time) (db : Db) where
  claimed : Task → Db
  claimed s = record db { tasks = update_by_id task_id_of s.id (λ _. true) (leased w now) db.tasks }

  candidate-Claimed :
      (s : Task)
      → Distinct task_id_of db.tasks
      → candidate locked now db.tasks ≡ some s
      → Claimed locked w now db (claimed s) (leased w now s)
  unfolding claimed
  candidate-Claimed s d e =
      let (there, free) = candidate-chosen locked now db.tasks s d e in
      record {
        row = s;
        was = there;
        free = free;
        first = λ u found av.
            let (v, chosen, least) = candidate-first locked now db.tasks u found av in
            let same : v ≡ s = ground (arith, chosen, e) in
            subst (λ x. precedes u x ≡ false) same least;
        returned = refl;
        lease = (refl, refl, refl);
        same_work = (refl, refl);
        stored =
            let after =
              find-update_by_id task_id_of s.id (λ _. true) (leased w now) s.id db.tasks
                (λ _. refl) in
            ground (arith, after, there);
      }

  candidate-none :
      (s : Task)
      → candidate locked now db.tasks ≡ none
      → find_task s.id db ≡ some s
      → available locked now s ≡ false
  candidate-none s e there = elim (Bool-cases (available locked now s)) [
    | inr taken ↦ taken
    | inl av ↦
        let (v, chosen, least) = candidate-first locked now db.tasks s there av in absurd (cc)
  ]

-- If the task keys are distinct and `claim_one_task` returns a task, then the row was available (due
-- or with an expired lease, and not locked by another transaction), no available row goes before it
-- in the order of the query, and the table now holds it leased to the worker for 30 seconds.
pub claim_one_task-Claimed :
    (locked : Uuid → Bool) (w : String) (now : Time) (db : Db) (t : Task)
    → Distinct task_id_of db.tasks
    → (claim_one_task locked w now db).1 ≡ some t
    → Claimed locked w now db (claim_one_task locked w now db).0 t
unfolding claim_one_task claimed
claim_one_task-Claimed locked w now db t d h = elim (Option-cases (candidate locked now db.tasks)) [
  | inl e ↦ absurd (ground (arith, e, h))
  | inr (s, e) ↦
      let same : leased w now s ≡ t = ground (arith, e, h) in
      subst (λ x. Claimed locked w now db (claim_one_task locked w now db).0 x) same
        (rw (e, claim_one_task) (candidate-Claimed locked w now db s d e))
]

-- If `claim_one_task` returns None, then it changes nothing and the table holds no available row.
pub claim_one_task-none :
    (locked : Uuid → Bool) (w : String) (now : Time) (db : Db)
    → (claim_one_task locked w now db).1 ≡ none
    → ((claim_one_task locked w now db).0 ≡ db)
      × ((s : Task) → find_task s.id db ≡ some s → available locked now s ≡ false)
unfolding claim_one_task
claim_one_task-none locked w now db h = elim (Option-cases (candidate locked now db.tasks)) [
  | inl e ↦ (rw (e, claim_one_task) refl, λ s there. candidate-none locked w now db s e there)
  | inr (s, e) ↦ absurd (ground (arith, e, h))
]

-- If the task keys are distinct and a worker claims a task, then a worker that claims within the next
-- 30 seconds from the table as the first claim left it gets another task or none.
pub claim_one_task-exclusive :
    (locked locked' : Uuid → Bool) (w w' : String) (now now' : Time) (db : Db) (t u : Task)
    → Distinct task_id_of db.tasks
    → now' ≤ now + lease_seconds * second
    → (claim_one_task locked w now db).1 ≡ some t
    → (claim_one_task locked' w' now' (claim_one_task locked w now db).0).1 ≡ some u
    → u.id ≢ t.id
claim_one_task-exclusive locked locked' w w' now now' db t u d soon got got' same =
    let db' = (claim_one_task locked w now db).0 in
    let a = claim_one_task-Claimed locked w now db t d got in
    let b =
      claim_one_task-Claimed locked' w' now' db' u (claim_one_task-Distinct locked w now db d)
        got' in
    leased_unavailable locked' w now now' soon a.row b.row
      (ground (arith, a.returned, a.stored, b.was, same)) b.free
