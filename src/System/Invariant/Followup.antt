-- ===== src/System/Invariant/Followup.antt =====
-- The follow-up of a transition: after it, the table has a live task for the state that was entered.
use workato_take_home.Prelude.{
  ℕ, ◌≡◌, refl, true, false, Option, none, some, List, ◌∷◌, arith, Bool-cases, Option-cases, inl,
  inr, eqb, ◌∙◌, subst, ◌⊎◌, ap, ==→≡, is_some,
}
use workato_take_home.Common.StateMachine.{OrderState, next_order_state, state_eq}
use workato_take_home.Common.TaskTypes.{TaskType, type_eq}
use workato_take_home.Store.Table.{find, exists_where, find-cons}
use workato_take_home.Store.Distinct.{Distinct, exists_where-find, find_head, find_below}
use workato_take_home.Store.Schema.{Uuid, Time, Task}
use workato_take_home.Store.Constraints.{is_active, active_duplicate}
use workato_take_home.Store.Query.{task_id_of}
use workato_take_home.Worker.Settings.{Settings}
use workato_take_home.Worker.Specs.{RestaurantTransitionSpec}
use workato_take_home.Worker.Followup.{
  followup_schedule_for_spec, followup_task, insert_followup_task, insert_followup,
}
use workato_take_home.System.Lifecycle.{IsLifecycle, work_for}
use workato_take_home.System.Invariant.Tasks.{Polls, TaskOk, KeyedBy, followup-TaskOk}

abbrev pub AllOk : List Task → Type 0
AllOk tasks = (k : ℕ) (t : Task) → find task_id_of k tasks ≡ some t → TaskOk t

-- A pending or running task of `order` for this work and target.
abbrev pub LiveTask : List Task → Uuid → TaskType → OrderState → Type 0
LiveTask tasks order work target =
    (t : Task) × (find task_id_of t.id tasks ≡ some t)
    × (t.order_id ≡ order)
    × (t.task_type ≡ work)
    × (t.target_state ≡ some target)
    × (is_active t.status ≡ true)

-- What an insertion leaves of the table: its rows, with distinct keys, and all in order.
pub record Extends (tasks tasks' : List Task) : Type 0 where
  pub distinct : Distinct task_id_of tasks'
  pub task_ok : AllOk tasks'
  pub kept : (t : Task) → find task_id_of t.id tasks ≡ some t → find task_id_of t.id tasks' ≡ some t

-- The schedule of a follow-up that polls has a deadline.
schedule-timed :
    (settings : Settings) (work : TaskType) (now : Time)
    → Polls work
    → is_some (followup_schedule_for_spec settings (some work) now).1 ≡ true
unfolding followup_schedule_for_spec
schedule-timed settings work now p = ground arith

duplicate_row :
    (order : Uuid) (work : TaskType) (target : OrderState) (t : Task) (s : OrderState)
    → KeyedBy t s
    → active_duplicate order work target t ≡ true
    → (t.order_id ≡ order)
      × (t.task_type ≡ work)
      × (t.target_state ≡ some target)
      × (is_active t.status ≡ true)
duplicate_row order work target t s key h =
    let same : s ≡ target = ==→≡ s target (ground arith) in
    (ground arith, ==→≡ t.task_type work (ground arith), key.0 ∙ ap some same, ground arith)

module _ (tasks : List Task) (d : Distinct task_id_of tasks) (ok : AllOk tasks) where
  same-Extends : Extends tasks tasks
  same-Extends = record { distinct = d; task_ok = ok; kept = λ t h. h }

  pub insert-Extends :
      (t : Task) → find task_id_of t.id tasks ≡ none → TaskOk t → Extends tasks (t ∷ tasks)
  insert-Extends t fresh good = record {
    distinct = (fresh, d);
    task_ok = λ k s h. cons_ok k s h (Bool-cases (eqb t.id k));
    kept = λ s h. find_below task_id_of t s tasks fresh h;
  }
    where
      cons_ok :
          (k : ℕ) (s : Task)
          → find task_id_of k (t ∷ tasks) ≡ some s
          → (eqb t.id k ≡ true) ⊎ (eqb t.id k ≡ false)
          → TaskOk s
      cons_ok k s h (inl e) = subst TaskOk (ground (arith, find-cons task_id_of t k tasks)) good
      cons_ok k s h (inr e) = ok k s (ground (arith, find-cons task_id_of t k tasks))

  -- A row that the unique index would clash with is a live task itself.
  duplicate-LiveTask :
      (order : Uuid) (work : TaskType) (target : OrderState)
      → exists_where (active_duplicate order work target) tasks ≡ true
      → LiveTask tasks order work target
  duplicate-LiveTask order work target h =
      let (t, found, dup) = exists_where-find task_id_of _ tasks d h in
      let (s, key) = (ok t.id t found).keyed in
      let (o, w, a, live) = duplicate_row order work target t s key dup in (t, found, o, w, a, live)

  module _ (id order : Uuid) (fresh : find task_id_of id tasks ≡ none) where
    insert_task-Extends :
        (work : TaskType) (target : OrderState) (next : Time) (deadline : Option Time) (now : Time)
        → (Polls work → is_some deadline ≡ true)
        → let tasks' = insert_followup_task id order work target next deadline now tasks in
          Extends tasks tasks' × LiveTask tasks' order work target
    unfolding insert_followup_task
    insert_task-Extends work target next deadline now timed =
        let t = followup_task id order work target next deadline now in
        elim (Bool-cases (exists_where (active_duplicate order work target) tasks)) [
          | inl dup ↦ rw dup (same-Extends, duplicate-LiveTask order work target dup)
          | inr free ↦ rw free (
            insert-Extends t fresh (followup-TaskOk id order work target next deadline now timed),
            (t, find_head task_id_of t tasks, refl, refl, refl, refl),
          )
        ]

    module _ (settings : Settings) (spec : RestaurantTransitionSpec) (l : IsLifecycle spec)
        (now : Time) where
      -- The insertion keeps the table, and a state that is not terminal gets its task.
      pub insert_followup-Extends : Extends tasks (insert_followup settings spec id order now tasks)
      unfolding insert_followup
      insert_followup-Extends = elim (Option-cases spec.next_task_type) [
        | inl e ↦ rw (e, insert_followup) same-Extends
        | inr (work, e) ↦ elim (Option-cases spec.next_target_state) [
          | inl n ↦ rw (e, insert_followup) (rw (n, insert_followup) same-Extends)
          | inr (target, n) ↦
              rw (e, insert_followup)
                (rw (n, insert_followup)
                  (insert_task-Extends work target _ _ now (schedule-timed settings work now)).0)
        ]
      ]

      pub insert_followup-LiveTask :
          (work : TaskType) (target : OrderState)
          → work_for spec.target_state ≡ some work
          → next_order_state spec.target_state ≡ some target
          → LiveTask (insert_followup settings spec id order now tasks) order work target
      unfolding insert_followup
      insert_followup-LiveTask work target w n =
          rw (l.next_work ∙ w, insert_followup)
            (rw (l.next_target ∙ n, insert_followup)
              (insert_task-Extends work target _ _ now (schedule-timed settings work now)).1)
