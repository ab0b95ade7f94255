-- ===== src/Common/StateMachine.antt =====
-- backend/common/state_machine.py: the order lifecycle.
use workato_take_home.Prelude.{
  ℕ, ◌≡◌, Bool, true, false, Option, none, some, List, [], ◌∷◌, arith, Comparable, by_index,
  option_eq,
}

pub data OrderState : Type 0 where
  placed confirmed preparing ready out_for_delivery delivered cancelled failed : OrderState

-- The position in ORDER_STATES.
abbrev pub state_index : OrderState → ℕ
state_index placed = 0
state_index confirmed = 1
state_index preparing = 2
state_index ready = 3
state_index out_for_delivery = 4
state_index delivered = 5
state_index cancelled = 6
state_index failed = 7

pub state_index-injective : (s t : OrderState) → state_index s ≡ state_index t → s ≡ t
state_index-injective s t h = ground arith

instance abbrev pub state_eq : Comparable OrderState
state_eq = by_index state_index state_index-injective

pub order_states : List OrderState
order_states =
    placed ∷ confirmed ∷ preparing ∷ ready ∷ out_for_delivery ∷ delivered ∷ cancelled ∷ failed ∷ []

-- ORDER_TRANSITIONS as a lookup.
unfoldable pub next_order_state : OrderState → Option OrderState
next_order_state placed = some confirmed
next_order_state confirmed = some preparing
next_order_state preparing = some ready
next_order_state ready = some out_for_delivery
next_order_state out_for_delivery = some delivered
next_order_state _ = none

unfoldable pub can_transition : OrderState → OrderState → Bool
unfolding next_order_state
can_transition from to = option_eq (next_order_state from) (some to)

unfoldable pub is_terminal_order_state : OrderState → Bool
is_terminal_order_state delivered = true
is_terminal_order_state cancelled = true
is_terminal_order_state failed = true
is_terminal_order_state _ = false
