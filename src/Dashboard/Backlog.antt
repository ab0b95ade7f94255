-- ===== src/Dashboard/Backlog.antt =====
-- backend/api/dashboard_store.py with backend/worker/tasks.py: the backlog that the dashboard shows, and
-- the tasks that a worker can claim.
use workato_take_home.Prelude.{
  ◌+◌, ◌≡◌, ◌↔◌, ◌⊎◌, refl, ◌∙◌, sym, String, Bool, true, false, ◌||◌, none, List, [], ◌∷◌, arith,
  inl, inr, Bool-cases, Option-cases, leb, ◌==◌,
}
use workato_take_home.Common.TaskTypes.{pending, running, status_eq}
use workato_take_home.Store.Schema.{Time, Task, Db}
use workato_take_home.Worker.Claim.{claimable, candidate, claim_one_task}
use workato_take_home.Dashboard.Select.{count_where}
use workato_take_home.Dashboard.Health.{is_due_pending, is_expired_running, task_health}

or_false : (b : Bool) → (b || false) ≡ b
or_false true = refl
or_false false = refl

-- A task that can be claimed is due or has expired, never both.
either :
    (now : Time) (t : Task)
    → (is_due_pending now t ≡ claimable now t) × (is_expired_running now t ≡ false)
      ⊎ (is_due_pending now t ≡ false) × (is_expired_running now t ≡ claimable now t)
unfolding is_due_pending is_expired_running claimable
either now t = elim (Bool-cases (t.status == pending)) [
  | inl waits ↦
      let other : (t.status == running) ≡ false = ground (arith, waits) in
      inl (rw (waits, other) (sym (or_false (leb t.next_run_at now))), rw other refl)
  | inr not_waiting ↦ inr (rw not_waiting refl, rw not_waiting refl)
]

backlog :
    (now : Time) (tasks : List Task)
    → count_where (is_due_pending now) tasks + count_where (is_expired_running now) tasks
      ≡ count_where (claimable now) tasks
unfolding count_where
backlog now [] = refl
backlog now (t ∷ tasks) =
    let rest = backlog now tasks in
    elim (either now t) [
      | inl (due, idle) ↦
          rw (due, idle)
            (elim (Bool-cases (claimable now t)) [
              | inl free ↦ rw free (omega (arith, rest))
              | inr kept ↦ rw kept (omega (arith, rest))
            ])
      | inr (idle, over) ↦
          rw (idle, over)
            (elim (Bool-cases (claimable now t)) [
              | inl free ↦ rw free (omega (arith, rest))
              | inr kept ↦ rw kept (omega (arith, rest))
            ])
    ]

candidate-counted :
    (now : Time) (tasks : List Task)
    → (count_where (claimable now) tasks ≡ 0) ↔ (candidate (λ _. false) now tasks ≡ none)
unfolding count_where candidate
candidate-counted now [] = (λ h. refl, λ h. refl)
candidate-counted now (t ∷ tasks) = elim (Bool-cases (claimable now t)) [
  | inl free ↦ rw (free, candidate) (λ h. absurd (omega (arith, h)), λ h. absurd (cc))
  | inr kept ↦ rw (kept, candidate) (candidate-counted now tasks)
]

-- The due and the expired tasks that the dashboard counts are together the tasks that a worker can claim, and their
-- number is 0 exactly when a worker that no lock hinders would get no task at that instant.
pub task_health-backlog :
    (now : Time) (w : String) (db : Db)
    → ((task_health now db).due_pending + (task_health now db).expired_running
        ≡ count_where (claimable now) db.tasks)
      × (((task_health now db).due_pending + (task_health now db).expired_running ≡ 0)
          ↔ ((claim_one_task (λ _. false) w now db).1 ≡ none))
unfolding task_health claim_one_task
task_health-backlog now w db =
    let sum = backlog now db.tasks in
    let (idle, waits) = candidate-counted now db.tasks in
    let none_found : (candidate (λ _. false) now db.tasks ≡ none)
        ↔ ((claim_one_task (λ _. false) w now db).1 ≡ none) =
      elim (Option-cases (candidate (λ _. false) now db.tasks)) [
        | inl e ↦ rw (e, claim_one_task) (λ h. refl, λ h. refl)
        | inr (t, e) ↦ rw (e, claim_one_task) (λ h. absurd (cc), λ h. absurd (cc))
      ] in
    (sum, (λ h. none_found.0 (idle (sym sum ∙ h)), λ h. sum ∙ waits (none_found.1 h)))
