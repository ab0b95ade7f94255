-- ===== src/Store/Changes.antt =====
-- How the rows of orders change, column by column, in terms of the table alone.
use workato_take_home.Prelude.{◌+◌, ◌≡◌, String, Option, some, or_else}
use workato_take_home.Common.StateMachine.{OrderState, cancelled}
use workato_take_home.Store.Schema.{Time, Order}

-- The columns that no service changes.
pub record SameOrder (o p : Order) : Type 0 where
  pub id : p.id ≡ o.id
  pub idempotency_key : p.idempotency_key ≡ o.idempotency_key
  pub customer_ref : p.customer_ref ≡ o.customer_ref
  pub restaurant_ref : p.restaurant_ref ≡ o.restaurant_ref
  pub created_at : p.created_at ≡ o.created_at
  pub delivered_at : p.delivered_at ≡ o.delivered_at

-- A step into a state: one version on, with the courier that it brings, if it brings one.
pub record Stepped (target : OrderState) (now : Time) (courier : Option String) (o p : Order)
    : Type 0 where
  pub state : p.state ≡ target
  pub version : p.version ≡ o.version + 1
  pub courier_ref : p.courier_ref ≡ or_else courier o.courier_ref
  pub updated_at : p.updated_at ≡ now
  pub terminal_reason : p.terminal_reason ≡ o.terminal_reason
  pub cancelled_at : p.cancelled_at ≡ o.cancelled_at
  pub rest : SameOrder o p

-- A cancellation by an operator: one version on, with its reason and its instant.
pub record CancelledRow (now : Time) (o p : Order) : Type 0 where
  pub state : p.state ≡ cancelled
  pub version : p.version ≡ o.version + 1
  pub terminal_reason : p.terminal_reason ≡ some "operator_cancelled"
  pub cancelled_at : p.cancelled_at ≡ or_else o.cancelled_at (some now)
  pub updated_at : p.updated_at ≡ now
  pub courier_ref : p.courier_ref ≡ o.courier_ref
  pub rest : SameOrder o p
