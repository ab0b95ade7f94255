-- ===== src/System/Turn.antt =====
-- A claim of backend/worker/tasks.py that takes one given task, and an unused key for what follows.
use workato_take_home.Prelude.{
  suc, ◌+◌, ◌≤◌, ◌≡◌, refl, String, Bool, true, false, not, Option, none, some, List, [], ◌∷◌,
  arith, subst, sym, inl, inr, eqb, string_eq, Option-cases,
}
use workato_take_home.Common.StateMachine.{state_eq}
use workato_take_home.Common.TaskTypes.{status_eq}
use workato_take_home.Store.Table.{find, find-cons}
use workato_take_home.Store.Constraints.{is_active}
use workato_take_home.Store.Schema.{Uuid, Time, Order, Task, Db}
use workato_take_home.Store.Query.{order_id_of, task_id_of, find_order, find_task}
use workato_take_home.Worker.Claim.{claimable, leased, candidate, claim_one_task}
use workato_take_home.Worker.Claim.Choice.{available, candidate-first, candidate-chosen}
use workato_take_home.Worker.Claim.Exclusive.{claim_one_task-Claimed}
use workato_take_home.System.Transactions.{claim, execute}
use workato_take_home.System.Invariant.Tasks.{TaskOk}
use workato_take_home.System.Invariant.State.{Inv}

-- A key above those of all rows.
pub unused : List Task → Uuid
unused [] = 0
unused (t ∷ tasks) = suc (t.id + unused tasks)

pub unused-none : (tasks : List Task) (k : Uuid) → unused tasks ≤ k → find task_id_of k tasks ≡ none
unfolding find unused
unused-none [] k h = refl
unused-none (t ∷ tasks) k h =
    let other : eqb t.id k ≡ false = ground (arith, h) in
    ground (arith, find-cons task_id_of t k tasks, other, unused-none tasks k (omega (arith, h)))

abbrev pub until : Option Time → Time
until none = 0
until (some u) = u

-- An instant after an earlier one, at which an active task may be claimed.
abbrev pub due : Time → Task → Time
due past t = past + (t.next_run_at + suc (until t.locked_until))

abbrev pub all_but : Uuid → Uuid → Bool
all_but id j = not (eqb j id)

pub due-claimable :
    (past : Time) (t : Task)
    → TaskOk t
    → is_active t.status ≡ true
    → claimable (due past t) t ≡ true
unfolding claimable
due-claimable past t ok active = ground (arith, ok.lease, active)

orders_kept :
    (locked : Uuid → Bool) (w : String) (now : Time) (db : Db)
    → (claim_one_task locked w now db).0.orders ≡ db.orders
unfolding claim_one_task
orders_kept locked w now db = elim (Option-cases (candidate locked now db.tasks)) [
  | inl e ↦ rw (e, claim_one_task) refl
  | inr (t, e) ↦ rw (e, claim_one_task) refl
]

module _ (w : String) (past : Time) (db : Db) (t : Task) (h : Inv db)
    (found : find_task t.id db ≡ some t) (active : is_active t.status ≡ true) where
  abbrev now : Time
  now = due past t

  abbrev after_claim : Db
  after_claim = execute (claim (all_but t.id) w now) db

  chosen : candidate (all_but t.id) now db.tasks ≡ some t
  chosen =
      let due_now = due-claimable past t (h.task_ok t.id t found) active in
      let free : available (all_but t.id) now t ≡ true = ground (arith, due_now) in
      let (u, c, least) = candidate-first (all_but t.id) now db.tasks t found free in
      let (there, av) = candidate-chosen (all_but t.id) now db.tasks u h.distinct c in
      let same : u ≡ t = ground (arith, av, there, found) in
      subst (λ x. candidate (all_but t.id) now db.tasks ≡ some x) same c

  pub claims : (claim_one_task (all_but t.id) w now db).1 ≡ some (leased w now t)
  unfolding claim_one_task
  claims = rw (chosen, claim_one_task) refl

  pub claimed_row : find_task t.id after_claim ≡ some (leased w now t)
  unfolding execute
  claimed_row =
      (claim_one_task-Claimed (all_but t.id) w now db (leased w now t) h.distinct claims).stored

  pub claim-order :
      (k : Uuid) (o : Order) → find_order k db ≡ some o → find_order k after_claim ≡ some o
  unfolding execute
  claim-order k o there =
      subst (λ x. find order_id_of k x ≡ some o) (sym (orders_kept (all_but t.id) w now db)) there
