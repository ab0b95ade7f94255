-- ===== src/System/Lifecycle.antt =====
-- What the table of transitions has to do with the lifecycle: each spec performs one step of it, and
-- names the work that the next step needs.
use workato_take_home.Prelude.{◌≡◌, refl, ◌≢◌, Option, none, some, arith, ◌==◌, false}
use workato_take_home.Common.StateMachine.{
  OrderState, placed, confirmed, preparing, ready, out_for_delivery, state_eq, next_order_state,
}
use workato_take_home.Common.TaskTypes.{TaskType, advance_state, check_ready, check_delivery}
use workato_take_home.Worker.Specs.{
  RestaurantTransitionSpec, confirm_spec, start_prep_spec, ready_finalization_spec,
  courier_assign_spec, delivery_finalization_spec,
}

-- The kind of task that takes an order out of a state.
abbrev pub work_for : OrderState → Option TaskType
work_for placed = some advance_state
work_for confirmed = some advance_state
work_for preparing = some check_ready
work_for ready = some advance_state
work_for out_for_delivery = some check_delivery
work_for _ = none

pub record IsLifecycle (spec : RestaurantTransitionSpec) : Type 0 where
  pub steps : next_order_state spec.source_state ≡ some spec.target_state
  pub next_work : spec.next_task_type ≡ work_for spec.target_state
  pub next_target : spec.next_target_state ≡ next_order_state spec.target_state

pub confirm-IsLifecycle : IsLifecycle confirm_spec
unfolding next_order_state
confirm-IsLifecycle = record { steps = refl; next_work = refl; next_target = refl }

pub start_prep-IsLifecycle : IsLifecycle start_prep_spec
unfolding next_order_state
start_prep-IsLifecycle = record { steps = refl; next_work = refl; next_target = refl }

pub ready-IsLifecycle : IsLifecycle ready_finalization_spec
unfolding next_order_state
ready-IsLifecycle = record { steps = refl; next_work = refl; next_target = refl }

pub courier-IsLifecycle : IsLifecycle courier_assign_spec
unfolding next_order_state
courier-IsLifecycle = record { steps = refl; next_work = refl; next_target = refl }

pub delivery-IsLifecycle : IsLifecycle delivery_finalization_spec
unfolding next_order_state
delivery-IsLifecycle = record { steps = refl; next_work = refl; next_target = refl }

-- A state other than the source does not lead to the target.
pub other_source :
    (source target s : OrderState)
    → next_order_state source ≡ some target
    → (s == source) ≡ false
    → next_order_state s ≢ some target
unfolding next_order_state
other_source source target s h ne = ground arith

-- A terminal state leads nowhere.
pub no_loop : (s t : OrderState) → next_order_state s ≡ some t → (t == s) ≡ false
unfolding next_order_state
no_loop s t h = ground arith
