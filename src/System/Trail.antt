-- ===== src/System/Trail.antt =====
-- The audit log over the transactions of all services: each step of an order has its event.
use workato_take_home.Prelude.{
  ℕ, ◌+◌, ◌-◌, ◌≤◌, ◌≡◌, false, some, List, arith, Bool-cases, Option-cases, inl, inr, subst, sym,
  ap, ◌∙◌, ◌==◌, if◌then◌else◌, nat_eq,
}
use workato_take_home.Common.StateMachine.{
  OrderState, cancelled, state_index, state_eq, next_order_state, is_terminal_order_state,
}
use workato_take_home.Store.Table.{find}
use workato_take_home.Store.Schema.{Uuid, Order, Event, Db}
use workato_take_home.Store.Query.{find_order}
use workato_take_home.System.Audit.{Logged}
use workato_take_home.System.Transactions.{execute, Reach, start, next}
use workato_take_home.System.Moves.{Moved, stays, steps, cancels, execute-Follows}
use workato_take_home.System.Births.{execute-Newborn}
use workato_take_home.System.OrderRows.{Newborn, placed-Born, OrderOk, Reach-OrderOk}
use workato_take_home.System.Log.{execute-Keeps}

-- How many steps of the lifecycle an order has taken; a cancellation is one version too.
abbrev pub steps_taken : Order → ℕ
steps_taken o = if o.state == cancelled then o.version - 1 else o.version

-- Two steps that end at the same place are the same.
same_step :
    (s t u v : OrderState)
    → next_order_state s ≡ some t
    → next_order_state u ≡ some v
    → state_index v ≡ state_index t
    → (u ≡ s) × (v ≡ t)
unfolding next_order_state
same_step s t u v h k e = ground arith

step_index :
    (s t : OrderState)
    → next_order_state s ≡ some t
    → (state_index t ≡ state_index s + 1) × ((s == cancelled) ≡ false) × ((t == cancelled) ≡ false)
unfolding next_order_state
step_index s t h = ground arith

not_cancelled : (s : OrderState) → is_terminal_order_state s ≡ false → (s == cancelled) ≡ false
unfolding is_terminal_order_state
not_cancelled s h = ground arith

-- The steps before an order's last move were taken before it, or are that move.
module _ (source target : OrderState) (step : next_order_state source ≡ some target) (k : Uuid)
    (old new : List Event) (keeps : Logged old k source target → Logged new k source target)
    (o : Order) (ok : OrderOk o)
    (before : state_index target ≤ steps_taken o → Logged old k source target) where
  Moved-Logged :
      (p : Order)
      → Moved o p
      → (next_order_state o.state ≡ some p.state → Logged new k o.state p.state)
      → state_index target ≤ steps_taken p
      → Logged new k source target
  Moved-Logged p (stays e) logged h =
      keeps (before (subst (λ x. state_index target ≤ steps_taken x) e h))
  Moved-Logged p (steps t courier now s c row) logged h =
      let (up, on, on') = step_index o.state t s in
      let v = ok.forward on in
      elim (Bool-cases (state_index target == state_index t)) [
        | inl e ↦
            let (a, b) = same_step o.state t source target s step (ground (arith, e)) in
            subst (λ x. Logged new k x target) (sym a)
              (subst (λ x. Logged new k o.state x) (sym b)
                (subst (λ x. Logged new k o.state x) row.state
                  (logged (s ∙ ap some (sym row.state)))))
        | inr ne ↦
            keeps (before (rw on (ground (arith, h, on', up, v, ne, row.state, row.version))))
      ]
  Moved-Logged p (cancels now live row) logged h =
      keeps (before (rw (not_cancelled o.state live) (ground (arith, h, row.state, row.version))))

-- In every database that the services reach, the audit log holds the event of every step that an
-- order has taken, a cancelled order's steps before its cancellation included.
pub Reach-Logged :
    (db : Db) (k : Uuid) (o : Order) (source target : OrderState)
    → Reach db
    → find_order k db ≡ some o
    → next_order_state source ≡ some target
    → state_index target ≤ steps_taken o
    → Logged db.events k source target
unfolding find
Reach-Logged db k o source target start found step taken = absurd (cc)
Reach-Logged db k o source target (next {db = old} tx r d) found step taken =
    elim (Option-cases (find_order k old)) [
      | inl absent ↦
          let new = execute-Newborn k o old absent Newborn tx (placed-Born old tx) found in
          let (up, on, on') = step_index source target step in
          absurd (ground (arith, new, up, taken))
      | inr (p, was) ↦
          let (q, there, moved, logged) = execute-Follows k p old was tx d in
          let same : q ≡ o = ground (arith, there, found) in
          Moved-Logged source target step k old.events (execute tx old).events
            (λ h. execute-Keeps k source target old h tx) p (Reach-OrderOk old k p r was)
            (Reach-Logged old k p source target r was step) q moved logged
            (subst (λ x. state_index target ≤ steps_taken x) (sym same) taken)
    ]
