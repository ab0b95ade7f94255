-- ===== src/System/Audit.antt =====
-- The events that a transition of backend/worker/tasks.py leaves: what the audit log holds after it.
use workato_take_home.Prelude.{
  ◌≡◌, refl, Bool, true, List, ◌∷◌, ◌++◌, [], is_some, Bool-cases, inl, inr, ==_refl, nat_eq,
  String,
}
use workato_take_home.Common.StateMachine.{OrderState, state_eq}
use workato_take_home.Store.Schema.{Uuid, Time, Event}
use workato_take_home.Worker.Specs.{RestaurantTransitionSpec}
use workato_take_home.Worker.Rows.{latest, transition_event}
use workato_take_home.Worker.Finalize.{transition_audit}

-- The log has an event of this step of this order.
abbrev pub Logged : List Event → Uuid → OrderState → OrderState → Type 0
Logged events k source target = is_some (latest (transition_event k source target) events) ≡ true

latest-cons :
    (m : Event → Bool) (e : Event) (events : List Event)
    → is_some (latest m events) ≡ true
    → is_some (latest m (e ∷ events)) ≡ true
unfolding latest
latest-cons m e events h = elim (Bool-cases (m e)) [ inl hit ↦ rw hit refl | inr miss ↦ rw miss h ]

pub Logged-cons :
    (k : Uuid) (source target : OrderState) (e : Event) (events : List Event)
    → Logged events k source target
    → Logged (e ∷ events) k source target
Logged-cons k source target e events h = latest-cons (transition_event k source target) e events h

pub Logged-append :
    (k : Uuid) (source target : OrderState) (new events : List Event)
    → Logged events k source target
    → Logged (new ++ events) k source target
Logged-append k source target [] events h = h
Logged-append k source target (e ∷ new) events h =
    Logged-cons k source target e (new ++ events) (Logged-append k source target new events h)

hit-latest :
    (m : Event → Bool) (e : Event) (events : List Event)
    → m e ≡ true
    → is_some (latest m (e ∷ events)) ≡ true
unfolding latest
hit-latest m e events hit = rw hit refl

-- The event of a committed transition.
pub transition_audit-Logged :
    (spec : RestaurantTransitionSpec) (id k task : Uuid) (w : String) (now : Time)
    (events : List Event)
    → Logged (transition_audit spec id k task w now ∷ events) k spec.source_state spec.target_state
transition_audit-Logged spec id k task w now events =
    hit-latest (transition_event k spec.source_state spec.target_state)
      (transition_audit spec id k task w now) events
      (rw (==_refl k, ==_refl spec.source_state) (==_refl spec.target_state))
