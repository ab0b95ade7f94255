-- ===== src/System/Rounds.antt =====
-- claim_and_process_one_task of backend/worker/tasks.py as a sequence of transactions.
use workato_take_home.Prelude.{
  ◌≡◌, refl, String, Bool, true, Option, none, some, arith, sym, subst, ◌∙◌, inl, inr, ◌⊎◌,
  Option-cases, [],
}
use workato_take_home.Common.StateMachine.{state_eq}
use workato_take_home.Store.Schema.{Uuid, Time, Task, Db}
use workato_take_home.Store.Query.{task_id_of, find_task}
use workato_take_home.Worker.Downstream.{
  error, call_restaurant_transition, call_courier_assign, call_restaurant_ready_check,
  call_courier_delivery_check,
}
use workato_take_home.Worker.Dispatch.{
  Handler, transition, courier_assign, readiness_check, delivery_check, unsupported, handler_of,
  process_with, process_claimed, claim_and_process_one_task,
}
use workato_take_home.System.Transactions.{
  Answer, verdict, assignment, before, after, before_task, after_task, claim, before_call,
  after_call, execute, Reach, next,
}
use workato_take_home.Store.Table.{find-update_by_id}
use workato_take_home.Worker.Claim.{candidate, leased, claim_one_task}
use workato_take_home.Worker.Claim.Exclusive.{claim_one_task-Claimed}
use workato_take_home.System.Invariant.Reachable.{Reach-Inv}
use workato_take_home.Worker.Prepare.{prepare_transition_call, prepare_courier_assign_call}
use workato_take_home.Worker.Transition.{
  Run, finish_transition, finish_courier_assign, process_transition_task,
  process_courier_assign_task,
}
use workato_take_home.Worker.Ready.{
  prepare_ready_check_call, finish_ready_check, process_ready_check_task,
}
use workato_take_home.Worker.Delivery.{
  prepare_delivery_check_call, finish_delivery_check, process_delivery_check_task,
}
use workato_take_home.System.Calls.{
  proceed-splits, prepare_transition-CallsUnchanged, prepare_courier-CallsUnchanged,
  prepare_ready-CallsUnchanged, prepare_delivery-CallsUnchanged, finish_transition-order,
  finish_courier_assign-order,
}

-- A handler does what one of the task's two transactions does.
module _ (r : Run) (w : String) (db : Db) (t : Task) where
  abbrev Round : Handler → Type 0
  Round h =
      (process_with h r t w db ≡ before h r t.id w db)
      ⊎ ((a : Answer) × (process_with h r t w db ≡ after h r a t w db))

  process_with-Round : (h : Handler) → Round h
  unfolding process_with before after process_transition_task process_courier_assign_task
      process_ready_check_task process_delivery_check_task
  process_with-Round (transition spec) =
      elim (proceed-splits db (prepare_transition_call spec t.id w r.prepared_at db)
        (λ c d. finish_transition r spec c.order_id t.id w (call_restaurant_transition r.post c) d)
        (prepare_transition-CallsUnchanged r w db t.id spec)) [
          | inl e ↦ inl e
          | inr (c, e) ↦ inr (
            verdict (call_restaurant_transition r.post c),
            e
                ∙ finish_transition-order r spec c.order_id t.order_id t.id w
                    (call_restaurant_transition r.post c) db,
          )
        ]
  process_with-Round courier_assign =
      elim (proceed-splits db (prepare_courier_assign_call t.id w r.prepared_at db)
        (λ c d. finish_courier_assign r c.order_id t.id w (call_courier_assign r.post c) d)
        (prepare_courier-CallsUnchanged r w db t.id)) [
          | inl e ↦ inl e
          | inr (c, e) ↦ inr (
            assignment (call_courier_assign r.post c),
            e
                ∙ finish_courier_assign-order r c.order_id t.order_id t.id w
                    (call_courier_assign r.post c) db,
          )
        ]
  process_with-Round readiness_check =
      elim (proceed-splits db (prepare_ready_check_call r.settings t.id w r.prepared_at db)
        (λ c d. finish_ready_check r t.id w (call_restaurant_ready_check r.post c) d)
        (prepare_ready-CallsUnchanged r w db t.id)) [
          | inl e ↦ inl e
          | inr (c, e) ↦ inr (verdict (call_restaurant_ready_check r.post c), e)
        ]
  process_with-Round delivery_check =
      elim (proceed-splits db (prepare_delivery_check_call r.settings t.id w r.prepared_at db)
        (λ c d. finish_delivery_check r t.id w (call_courier_delivery_check r.post c) d)
        (prepare_delivery-CallsUnchanged r w db t.id)) [
          | inl e ↦ inl e
          | inr (c, e) ↦ inr (verdict (call_courier_delivery_check r.post c), e)
        ]
  process_with-Round unsupported = inr (verdict (error []), refl)

execute-before :
    (r : Run) (w : String) (db : Db) (t : Task)
    → find_task t.id db ≡ some t
    → execute (before_call r t.id w) db ≡ before (handler_of t.task_type t.target_state) r t.id w db
unfolding execute before_task
execute-before r w db t there = rw (there, before_task) refl

execute-after :
    (r : Run) (w : String) (db : Db) (t : Task) (a : Answer)
    → find_task t.id db ≡ some t
    → execute (after_call r a t.id w) db ≡ after (handler_of t.task_type t.target_state) r a t w db
unfolding execute after_task
execute-after r w db t a there = rw (there, after_task) refl

claim-keeps_free :
    (locked : Uuid → Bool) (w : String) (now : Time) (db : Db) (k : Uuid)
    → find_task k db ≡ none
    → find_task k (claim_one_task locked w now db).0 ≡ none
unfolding claim_one_task
claim-keeps_free locked w now db k free = elim (Option-cases (candidate locked now db.tasks)) [
  | inl e ↦ rw (e, claim_one_task) free
  | inr (s, e) ↦
      rw (e, claim_one_task)
        (ground (
          arith,
          free,
          find-update_by_id task_id_of s.id (λ _. true) (leased w now) k db.tasks (λ _. refl),
        ))
]

module _ (r : Run) (w : String) (db : Db) (reach : Reach db)
    (free : find_task r.fresh.task db ≡ none) where
  process_claimed-Reach :
      (claimed : Option Task)
      → ((t : Task) → claimed ≡ some t → find_task t.id db ≡ some t)
      → Reach (process_claimed r w db claimed).0
  unfolding process_claimed
  process_claimed-Reach none there = reach
  process_claimed-Reach (some t) there =
      elim (process_with-Round r w db t (handler_of t.task_type t.target_state)) [
        | inl e ↦
            subst Reach (execute-before r w db t (there t refl) ∙ sym e)
              (next (before_call r t.id w) reach tt)
        | inr (a, e) ↦
            subst Reach (execute-after r w db t a (there t refl) ∙ sym e)
              (next (after_call r a t.id w) reach free)
      ]

-- From a database that the services reach, with an unused key for the follow-up task, a round of a
-- worker (claim, first transaction, call, second transaction, whatever the simulator answers) leads to
-- a database that the services reach.
pub claim_and_process_one_task-Reach :
    (locked : Uuid → Bool) (r : Run) (w : String) (now : Time) (db : Db)
    → Reach db
    → find_task r.fresh.task db ≡ none
    → Reach (claim_and_process_one_task locked r w now db).0
unfolding claim_and_process_one_task execute
claim_and_process_one_task-Reach locked r w now db reach free =
    process_claimed-Reach r w (claim_one_task locked w now db).0
      (next (claim locked w now) reach tt) (claim-keeps_free locked w now db r.fresh.task free)
      (claim_one_task locked w now db).1
      (λ t e. (claim_one_task-Claimed locked w now db t (Reach-Inv reach).distinct e).stored)
