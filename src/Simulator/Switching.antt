-- ===== src/Simulator/Switching.antt =====
-- backend/downstream_sim/app.py: what setting a kill switch changes.
use workato_take_home.Prelude.{
  ◌≡◌, ◌≢◌, refl, ◌∙◌, ap, sym, String, Bool, false, Option, some, [], ◌∷◌, arith, ◌==◌, ==→≡,
  string_eq, inl, inr, Bool-cases, Option-cases,
}
use workato_take_home.Store.Schema.{Uuid, Time}
use workato_take_home.Simulator.Library.{Library}
use workato_take_home.Simulator.KillSwitch.{
  KillSwitches, KillSwitchState, switch_of, assign_switch, shown, kill_switch_state,
  set_kill_switch,
}
use workato_take_home.Simulator.Endpoints.{
  Endpoint, returns, http_exception, raises, is_empty, sent, raise_if_service_killed, serve,
}
use workato_take_home.Simulator.Stages.{Stage, service_of, ask}
use workato_take_home.Simulator.Contract.{ask-routed}

switch_of-assign_switch :
    (name : String) (killed was : Bool) (switches : KillSwitches)
    → switch_of name switches ≡ some was
    → switch_of name (assign_switch name killed switches) ≡ some killed
unfolding switch_of assign_switch
switch_of-assign_switch name killed was [] found = absurd (cc)
switch_of-assign_switch name killed was ((other, b) ∷ switches) found =
    elim (Bool-cases (other == name)) [
      | inl same ↦ rw (same, assign_switch) (rw (same, switch_of) refl)
      | inr apart ↦
          let rest : switch_of name switches ≡ some was = ground (arith, found, apart) in
          rw (apart, assign_switch)
            (rw (apart, switch_of) (switch_of-assign_switch name killed was switches rest))
    ]

switch_of-other :
    (name asked : String) (killed : Bool) (switches : KillSwitches)
    → name ≢ asked
    → switch_of asked (assign_switch name killed switches) ≡ switch_of asked switches
unfolding switch_of assign_switch
switch_of-other name asked killed [] apart = refl
switch_of-other name asked killed ((other, b) ∷ switches) apart =
    elim (Bool-cases (other == name)) [
      | inl same ↦ elim (Bool-cases (other == asked)) [
        | inl also ↦ absurd (apart (sym (==→≡ other name same) ∙ ==→≡ other asked also))
        | inr there ↦ rw (same, assign_switch) (rw (there, switch_of) refl)
      ]
      | inr there ↦
          rw (there, assign_switch)
            (rw (switch_of-other name asked killed switches apart, switch_of) refl)
    ]

-- Setting a switch back to what it was restores all switches.
assign_switch-restores :
    (name : String) (killed was : Bool) (switches : KillSwitches)
    → switch_of name switches ≡ some was
    → assign_switch name was (assign_switch name killed switches) ≡ switches
unfolding switch_of assign_switch
assign_switch-restores name killed was [] found = refl
assign_switch-restores name killed was ((other, b) ∷ switches) found =
    elim (Bool-cases (other == name)) [
      | inl same ↦
          let here : b ≡ was = ground (arith, found, same) in
          rw (same, assign_switch) (rw (same, here) refl)
      | inr apart ↦
          let rest : switch_of name switches ≡ some was = ground (arith, found, apart) in
          rw (apart, assign_switch)
            (rw (apart, assign_switch-restores name killed was switches rest) refl)
    ]

-- What setting the switch of a known service does.
pub record Toggled (name : String) (killed was : Bool) (switches : KillSwitches)
    (result : KillSwitches × Option KillSwitchState) : Type 0 where
  pub answer : result.1 ≡ some (shown name killed)
  pub here : switch_of name result.0 ≡ some killed
  pub others : (asked : String) → name ≢ asked → switch_of asked result.0 ≡ switch_of asked switches
  pub restores : (set_kill_switch name was result.0).0 ≡ switches

-- Setting the switch of a known service answers with the new state of that service, changes no other
-- switch, and is undone by setting it back.
pub set_kill_switch-Toggled :
    (name : String) (killed was : Bool) (switches : KillSwitches)
    → switch_of name switches ≡ some was
    → Toggled name killed was switches (set_kill_switch name killed switches)
unfolding set_kill_switch kill_switch_state
set_kill_switch-Toggled name killed was switches found =
    let here = switch_of-assign_switch name killed was switches found in
    rw (found, set_kill_switch)
      (record {
        answer = rw here refl;
        here = here;
        others = λ asked apart. switch_of-other name asked killed switches apart;
        restores =
            rw (here, set_kill_switch) (assign_switch-restores name killed was switches found);
      })

raised-alike :
    (lib : Library) (a b : KillSwitches) (now : Time) (name : String) (rest : Endpoint)
    → switch_of name a ≡ switch_of name b
    → raise_if_service_killed lib a now name rest ≡ raise_if_service_killed lib b now name rest
unfolding raise_if_service_killed
raised-alike lib a b now name rest same = rw (same, raise_if_service_killed) refl

sent-alike :
    (lib : Library) (a b : KillSwitches) (now : Time) (e : Endpoint)
    → sent lib a now e ≡ sent lib b now e
unfolding sent
sent-alike lib a b now (returns fields) = refl
sent-alike lib a b now (http_exception code detail) = refl
sent-alike lib a b now raises = refl

-- Setting one service's switch, known or not, changes nothing of what the worker reads in a stage of another service.
pub set_kill_switch-ask :
    (lib : Library) (switches : KillSwitches) (name : String) (killed : Bool) (now : Time)
    (order : Uuid) (ref : String) (started : Time) (stage : Stage)
    → is_empty (lib.str order) ≡ false
    → is_empty ref ≡ false
    → name ≢ service_of stage
    → ask (serve lib (set_kill_switch name killed switches).0 now) stage order ref started
      ≡ ask (serve lib switches now) stage order ref started
unfolding set_kill_switch
set_kill_switch-ask lib switches name killed now order ref started stage id_given ref_given apart =
    elim (Option-cases (switch_of name switches)) [
      | inl unknown ↦ rw (unknown, set_kill_switch) refl
      | inr (was, found) ↦
          rw (found, set_kill_switch)
            (let after = assign_switch name killed switches in
              ask-routed lib after now order ref started stage id_given ref_given
              ∙ ap (λ res. ask (λ _. res) stage order ref started)
                  (ap (sent lib after now) (
                      raised-alike lib after switches now (service_of stage) _
                        (switch_of-other name (service_of stage) killed switches apart))
                    ∙ sent-alike lib after switches now _)
              ∙ sym (ask-routed lib switches now order ref started stage id_given ref_given))
    ]
