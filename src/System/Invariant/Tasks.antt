-- ===== src/System/Invariant/Tasks.antt =====
-- What holds of every task row by itself, and the updates that keep it.
use workato_take_home.Prelude.{
  ◌<◌, ◌≤◌, ◌≡◌, refl, String, true, Option, some, arith, ◌==◌, ◌||◌, is_some, string_eq,
}
use workato_take_home.Common.StateMachine.{OrderState}
use workato_take_home.Common.TaskTypes.{
  TaskType, type_eq, check_ready, check_delivery, running, completed, status_eq,
}
use workato_take_home.Store.Schema.{Uuid, Time, Task}
use workato_take_home.Store.Constraints.{is_active}
use workato_take_home.Worker.Lease.{owned_by, completed_task}
use workato_take_home.Worker.Claim.{claimable, leased}
use workato_take_home.Worker.Followup.{followup_task}
use workato_take_home.Api.OrderStore.{cancelled_task}
use workato_take_home.Api.TaskStore.{fresh_deadline, reopened}
use workato_take_home.System.Effect.{PutBack, releases, retries, polls, fails, times_out}

-- The dedupe key names the order, the work and the target.
abbrev pub KeyedBy : Task → OrderState → Type 0
KeyedBy t target =
    (t.target_state ≡ some target)
    × (t.dedupe_key ≡ some (record { order = t.order_id; work = t.task_type; target = target }))

-- The work that is repeated until it is done or its deadline is over.
abbrev pub Polls : TaskType → Type 0
Polls work = (work == check_ready || work == check_delivery) ≡ true

pub record TaskOk (t : Task) : Type 0 where
  pub keyed : (target : OrderState) × KeyedBy t target
  -- a lease exactly while the task runs
  pub holder : is_some t.locked_by ≡ (t.status == running)
  pub lease : is_some t.locked_until ≡ (t.status == running)
  -- attempts stay within the budget, and an active task has one left
  pub budget : t.attempts ≤ t.max_attempts
  pub room : is_active t.status ≡ true → t.attempts < t.max_attempts
  pub positive : 0 < t.max_attempts
  -- a completion time exactly when the task is completed
  pub ended : is_some t.completed_at ≡ (t.status == completed)
  -- a task that polls has a deadline
  pub timed : Polls t.task_type → is_some t.deadline_at ≡ true

pub PutBack-TaskOk :
    (w : String) (t : Task) (f : Task → Task)
    → PutBack t f
    → owned_by w t ≡ true
    → TaskOk t
    → TaskOk (f t)
PutBack-TaskOk w t f (releases n e u) o h = ground arith
PutBack-TaskOk w t f (retries n e u more) o h = ground arith
PutBack-TaskOk w t f (polls n u) o h = ground arith
PutBack-TaskOk w t f (fails e u over) o h = ground arith
PutBack-TaskOk w t f (times_out e u) o h = ground arith

pub completed-TaskOk : (t : Task) (now : Time) → TaskOk t → TaskOk (completed_task now t)
completed-TaskOk t now h = ground arith

pub leased-TaskOk :
    (w : String) (t : Task) (now : Time)
    → claimable now t ≡ true
    → TaskOk t
    → TaskOk (leased w now t)
unfolding claimable
leased-TaskOk w t now c h = ground arith

pub cancelled-TaskOk :
    (t : Task) (now : Time) → is_active t.status ≡ true → TaskOk t → TaskOk (cancelled_task now t)
cancelled-TaskOk t now a h = ground arith

fresh_deadline-timed :
    (work : TaskType) (now created : Time) (deadline : Option Time)
    → (Polls work → is_some deadline ≡ true)
    → Polls work
    → is_some (fresh_deadline work now created deadline) ≡ true
unfolding fresh_deadline
fresh_deadline-timed work now created deadline h p = ground arith

pub reopened-TaskOk : (t : Task) (now : Time) → TaskOk t → TaskOk (reopened now t)
reopened-TaskOk t now h = record {
  keyed = h.keyed;
  holder = refl;
  lease = refl;
  budget = omega arith;
  room = λ _. h.positive;
  positive = h.positive;
  ended = refl;
  timed = fresh_deadline-timed t.task_type now t.created_at t.deadline_at h.timed;
}

pub followup-TaskOk :
    (id order : Uuid) (work : TaskType) (target : OrderState) (next : Time) (deadline : Option Time)
    (now : Time)
    → (Polls work → is_some deadline ≡ true)
    → TaskOk (followup_task id order work target next deadline now)
followup-TaskOk id order work target next deadline now h = record {
  keyed = (target, (refl, refl));
  holder = refl;
  lease = refl;
  budget = omega arith;
  room = λ _. omega arith;
  positive = omega arith;
  ended = refl;
  timed = h;
}
