-- ===== src/System/Invariant/Reachable.antt =====
-- Every transaction keeps the invariant, so it holds of every database that the services reach.
use workato_take_home.Prelude.{
  ◌≡◌, refl, String, Option, none, some, arith, Option-cases, inl, inr, sym, subst, false, ◌==◌,
}
use workato_take_home.Common.StateMachine.{
  OrderState, state_eq, placed, confirmed, preparing, ready, out_for_delivery, delivered, cancelled,
  failed,
}
use workato_take_home.Common.TaskTypes.{TaskType, advance_state, check_ready, check_delivery}
use workato_take_home.Store.Table.{find, find_id}
use workato_take_home.Store.Schema.{Uuid, Task, Db}
use workato_take_home.Store.Query.{task_id_of, find_task}
use workato_take_home.Worker.Transition.{Run}
use workato_take_home.Worker.Dispatch.{
  Handler, transition, courier_assign, readiness_check, delivery_check, unsupported, handler_of,
}
use workato_take_home.System.Lifecycle.{IsLifecycle, confirm-IsLifecycle, start_prep-IsLifecycle}
use workato_take_home.System.Effect.{Effect, unchanged, put_back, dropped, commits}
use workato_take_home.System.Phases.Command.{
  prepare_transition-Effect, prepare_courier-Effect, finish_transition-Effect,
  finish_courier-Effect, unsupported-Effect,
}
use workato_take_home.System.Phases.Poll.{
  prepare_ready-Effect, finish_ready-Effect, prepare_delivery-Effect, finish_delivery-Effect,
}
use workato_take_home.System.Transactions.{
  Answer, verdict, assignment, Transaction, intake, cancellation, recovery, claim, before_call,
  after_call, before, after, execute, DrawsFresh, empty_db, Reach, start, next, before_task,
  after_task,
}
use workato_take_home.System.Invariant.State.{Inv}
use workato_take_home.System.Invariant.Worker.{PutBack-Inv, dropped-Inv, claim-Inv}
use workato_take_home.System.Invariant.Commit.{committed-Inv}
use workato_take_home.System.Invariant.Api.{intake-Inv, cancel-Inv, retry-Inv}

-- The handler that is chosen for a task aims at the task's target.
abbrev pub Fits : Handler → Option OrderState → Type 0
Fits (transition spec) target =
    IsLifecycle spec
    × (target ≡ some spec.target_state)
    × ((spec.target_state == out_for_delivery) ≡ false)
Fits courier_assign target = target ≡ some out_for_delivery
Fits readiness_check target = target ≡ some ready
Fits delivery_check target = target ≡ some delivered
Fits unsupported target = Unit

pub handler-Fits :
    (work : TaskType) (target : Option OrderState) → Fits (handler_of work target) target
unfolding handler_of
handler-Fits advance_state none = tt
handler-Fits advance_state (some placed) = tt
handler-Fits advance_state (some confirmed) = (confirm-IsLifecycle, refl, refl)
handler-Fits advance_state (some preparing) = (start_prep-IsLifecycle, refl, refl)
handler-Fits advance_state (some ready) = tt
handler-Fits advance_state (some out_for_delivery) = refl
handler-Fits advance_state (some delivered) = tt
handler-Fits advance_state (some cancelled) = tt
handler-Fits advance_state (some failed) = tt
handler-Fits check_ready (some ready) = refl
handler-Fits check_delivery (some delivered) = refl
handler-Fits _ _ = tt

module _ (w : String) (db : Db) (r : Run) (t : Task) (found : find_task t.id db ≡ some t) where
  aims_of :
      (target : OrderState)
      → t.target_state ≡ some target
      → (s : Task) → find_task t.id db ≡ some s
      → s.target_state ≡ some target
  aims_of target e s there = ground arith

  pub before-Effect :
      (h : Handler) → Fits h t.target_state → Effect w none db (before h r t.id w db)
  unfolding before
  before-Effect (transition spec) (l, e, ne) =
      prepare_transition-Effect w none db t.id spec l (aims_of spec.target_state e) r.prepared_at
  before-Effect courier_assign e =
      prepare_courier-Effect w none db t.id (aims_of out_for_delivery e) r.prepared_at
  before-Effect readiness_check e =
      prepare_ready-Effect w none db t.id (aims_of ready e) r.settings r.prepared_at
  before-Effect delivery_check e =
      prepare_delivery-Effect w none db t.id (aims_of delivered e) r.settings r.prepared_at
  before-Effect unsupported e = unchanged refl

  pub after-Effect :
      (h : Handler) (a : Answer)
      → Fits h t.target_state
      → Effect w (some r.fresh.task) db (after h r a t w db)
  unfolding after
  after-Effect (transition spec) (verdict v) (l, e, ne) =
      finish_transition-Effect w (some r.fresh.task) db t.id spec l (aims_of spec.target_state e) r
        t.order_id v ne refl
  after-Effect (transition spec) (assignment a) e = unchanged refl
  after-Effect courier_assign (assignment a) e =
      finish_courier-Effect w (some r.fresh.task) db t.id (aims_of out_for_delivery e) r t.order_id
        a refl
  after-Effect courier_assign (verdict v) e = unchanged refl
  after-Effect readiness_check (verdict v) e =
      finish_ready-Effect w (some r.fresh.task) db t.id (aims_of ready e) r v refl
  after-Effect readiness_check (assignment a) e = unchanged refl
  after-Effect delivery_check (verdict v) e =
      finish_delivery-Effect w (some r.fresh.task) db t.id (aims_of delivered e) r v refl
  after-Effect delivery_check (assignment a) e = unchanged refl
  after-Effect unsupported a e = unsupported-Effect w (some r.fresh.task) db t.id r t found

-- An effect keeps the invariant, if the key that it draws is free.
Effect-Inv :
    (w : String) (key : Option Uuid) (db db' : Db)
    → ((k : Uuid) → some k ≡ key → find_task k db ≡ none)
    → Effect w key db db'
    → Inv db
    → Inv db'
Effect-Inv w key db db' free (unchanged e) h = subst Inv (sym e) h
Effect-Inv w key db db' free (put_back t f found p e) h =
    subst Inv (sym e) (PutBack-Inv w db t found h f p)
Effect-Inv w key db db' free (dropped t o target now found order aim ne e) h =
    subst Inv (sym e) (dropped-Inv w db t found h o target now order aim ne)
Effect-Inv w key db db' free
      (commits settings spec courier fresh now row d l c found order owned source aim e) h =
    subst Inv (sym e) (
      committed-Inv settings spec courier fresh w now row db l found order source aim
        (free fresh.task d) h)

drawn_key :
    (key : Uuid) (db : Db)
    → find_task key db ≡ none
    → (k : Uuid) → some k ≡ some key
    → find_task k db ≡ none
drawn_key key db free k e = ground (arith, free)

pub own : (id : Uuid) (db : Db) (t : Task) → find_task id db ≡ some t → find_task t.id db ≡ some t
own id db t h = ground (arith, find_id task_id_of id db.tasks t, h)

pub execute-Inv : (tx : Transaction) (db : Db) → DrawsFresh tx db → Inv db → Inv (execute tx db)
unfolding execute
execute-Inv (intake fresh now key restaurant customer) db d h =
    intake-Inv fresh now key restaurant customer db d.1 h
execute-Inv (cancellation event order now) db d h = cancel-Inv event order now db h
execute-Inv (recovery fresh order now) db d h = retry-Inv fresh order now db h
execute-Inv (claim locked w now) db d h = claim-Inv locked w now db h
execute-Inv (before_call r id w) db d h = elim (Option-cases (find_task id db)) [
  | inl e ↦ rw (e, before_task) h
  | inr (t, e) ↦
      rw (e, before_task)
        (Effect-Inv w none db _ (λ k p. absurd (cc))
          (before-Effect w db r t (own id db t e) (handler_of t.task_type t.target_state)
            (handler-Fits t.task_type t.target_state))
          h)
]
execute-Inv (after_call r a id w) db d h = elim (Option-cases (find_task id db)) [
  | inl e ↦ rw (e, after_task) h
  | inr (t, e) ↦
      rw (e, after_task)
        (Effect-Inv w (some r.fresh.task) db _ (drawn_key r.fresh.task db d)
          (after-Effect w db r t (own id db t e) (handler_of t.task_type t.target_state) a
            (handler-Fits t.task_type t.target_state))
          h)
]

empty-Inv : Inv empty_db
unfolding find
empty-Inv = record {
  distinct = tt;
  task_ok = λ k t h. absurd (cc);
  served = λ k o h on. absurd (cc);
}

pub Reach-Inv : {db : Db} → Reach db → Inv db
Reach-Inv start = empty-Inv
Reach-Inv (next {db = db} tx r d) = execute-Inv tx db d (Reach-Inv r)
