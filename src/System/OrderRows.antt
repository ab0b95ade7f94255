-- ===== src/System/OrderRows.antt =====
-- The state, the version and the end of every order row, over the transactions of all services.
use workato_take_home.Prelude.{
  ◌≤◌, ◌≡◌, refl, true, false, Option, none, some, arith, Option-cases, inl, inr, subst, sym,
  is_some, or_else, ◌==◌, ◌||◌, nat_eq,
}
use workato_take_home.Common.StateMachine.{
  OrderState, placed, out_for_delivery, delivered, cancelled, failed, state_index, state_eq,
  next_order_state, is_terminal_order_state,
}
use workato_take_home.Store.Table.{find}
use workato_take_home.Store.Schema.{Uuid, Time, Order, Db}
use workato_take_home.Store.Query.{find_order}
use workato_take_home.System.Transactions.{
  Transaction, intake, cancellation, recovery, claim, before_call, after_call, Reach, start, next,
}
use workato_take_home.System.Moves.{Moved, stays, steps, cancels, execute-Follows}
use workato_take_home.System.Births.{Born, execute-Newborn}

-- A row that was not there before is that of a placed order.
abbrev pub Newborn : Order → Type 0
Newborn p =
    (p.state ≡ placed) × ((p.version ≡ 0) × ((p.cancelled_at ≡ none) × (p.terminal_reason ≡ none)))

-- What holds of every order row.
pub record OrderOk (o : Order) : Type 0 where
  -- no code sets this state
  pub sound : (o.state == failed) ≡ false
  -- each step of the lifecycle is one version, and a cancellation is one more
  pub forward : (o.state == cancelled) ≡ false → o.version ≡ state_index o.state
  pub bounded : o.version ≤ 5
  pub instant : is_some o.cancelled_at ≡ (o.state == cancelled)
  pub reason : is_some o.terminal_reason ≡ (o.state == cancelled)
  -- an order that was sent out has its courier
  pub carried :
      (o.state == out_for_delivery || o.state == delivered) ≡ true → is_some o.courier_ref ≡ true

pub placed-Born : (db : Db) (tx : Transaction) → Born Newborn db tx
placed-Born db (intake fresh now key restaurant customer) = λ e. (refl, (refl, (refl, refl)))
placed-Born db (cancellation event order now) = tt
placed-Born db (recovery fresh order now) = tt
placed-Born db (claim locked w now) = tt
placed-Born db (before_call r id w) = tt
placed-Born db (after_call r a id w) = tt

Newborn-OrderOk : (o : Order) → Newborn o → OrderOk o
Newborn-OrderOk o h = ground arith

before_end :
    (s : OrderState)
    → is_terminal_order_state s ≡ false
    → (state_index s ≤ 4) × ((s == cancelled) ≡ false)
unfolding is_terminal_order_state
before_end s on = ground arith

is_some-or_else : (o : Option Time) (now : Time) → is_some (or_else o (some now)) ≡ true
is_some-or_else none now = refl
is_some-or_else (some t) now = refl

Moved-OrderOk : (o p : Order) → Moved o p → OrderOk o → OrderOk p
unfolding next_order_state is_terminal_order_state
Moved-OrderOk o p (stays e) h = subst OrderOk (sym e) h
Moved-OrderOk o p (steps target courier now s c row) h = ground arith
Moved-OrderOk o p (cancels now on row) h =
    let (low, other) = before_end o.state on in
    let v = h.forward other in
    record {
      sound = rw row.state refl;
      forward = λ e. absurd (ground (arith, e, row.state));
      bounded = omega (arith, v, low, row.version);
      instant = rw (row.cancelled_at, row.state) (is_some-or_else o.cancelled_at now);
      reason = rw (row.terminal_reason, row.state) refl;
      carried = λ e. absurd (ground (arith, e, row.state));
    }

-- In every database that the services reach, no order is in state failed; the version of an order
-- that is not cancelled is the number of steps to its state, and no version exceeds 5; an order
-- has a cancellation time and a terminal reason exactly when it is cancelled, and a courier when it
-- is out for delivery or delivered.
pub Reach-OrderOk :
    (db : Db) (k : Uuid) (o : Order) → Reach db → find_order k db ≡ some o → OrderOk o
unfolding find
Reach-OrderOk db k o start h = absurd (cc)
Reach-OrderOk db k o (next {db = old} tx r d) h = elim (Option-cases (find_order k old)) [
  | inl absent ↦
      Newborn-OrderOk o (execute-Newborn k o old absent Newborn tx (placed-Born old tx) h)
  | inr (p, found) ↦
      let (q, there, moved, logged) = execute-Follows k p old found tx d in
      let same : q ≡ o = ground (arith, there, h) in
      subst OrderOk same (Moved-OrderOk p q moved (Reach-OrderOk old k p r found))
]
