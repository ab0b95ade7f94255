-- ===== src/Simulator/KillSwitch.antt =====
-- backend/downstream_sim/app.py: the kill switches, a dictionary from the names of the simulated
-- services. Requests are served one after another, so that each access under the lock is one step.
use workato_take_home.Prelude.{
  String, Bool, false, Option, none, some, List, [], ◌∷◌, ◌==◌, string_eq, if◌then◌else◌, get_or,
  map,
}

abbrev pub KillSwitches : Type 0
KillSwitches = List (String × Bool)

abbrev pub simulated_services : List String
simulated_services =
    "restaurant_confirm" ∷ "restaurant_start_prep" ∷ "restaurant_check_ready" ∷ "courier_assign"
    ∷ "courier_check_delivery" ∷ []

-- `{service_name: False for service_name in SIMULATED_SERVICES}`
abbrev pub initial_kill_switches : KillSwitches
initial_kill_switches = map (λ service_name. (service_name, false)) simulated_services

-- `_kill_switches.get(service_name)`
unfoldable pub switch_of : String → KillSwitches → Option Bool
switch_of name [] = none
switch_of name ((other, killed) ∷ switches) =
    if other == name then some killed else switch_of name switches

-- `_kill_switches[service_name] = killed` at a key of the dictionary
unfoldable pub assign_switch : String → Bool → KillSwitches → KillSwitches
assign_switch name killed [] = []
assign_switch name killed ((other, was) ∷ switches) =
    let rest = assign_switch name killed switches in
    if other == name then (other, killed) ∷ switches else (other, was) ∷ rest

pub record KillSwitchState : Type 0 where
  pub service : String
  pub killed : Bool
  pub status : String

unfoldable pub shown : String → Bool → KillSwitchState
shown name killed = record {
  service = name;
  killed = killed;
  status = if killed then "killed" else "online";
}

-- `_kill_switch_state`; a name that is no key, which no caller passes, reads as not killed.
unfoldable pub kill_switch_state : String → KillSwitches → KillSwitchState
unfolding shown switch_of
kill_switch_state name switches = shown name (get_or (switch_of name switches) false)

-- `_kill_switch_snapshot`
unfoldable pub kill_switch_snapshot : KillSwitches → List KillSwitchState
unfolding kill_switch_state
kill_switch_snapshot switches = map (λ name. kill_switch_state name switches) simulated_services

-- `_set_kill_switch`; none is the response 404.
unfoldable pub set_kill_switch :
    String → Bool → KillSwitches → KillSwitches × Option KillSwitchState
unfolding switch_of assign_switch kill_switch_state
set_kill_switch name killed switches = elim (switch_of name switches) [
  | none ↦ (switches, none)
  | some was ↦
      let after = assign_switch name killed switches in (after, some (kill_switch_state name after))
]
