-- ===== src/System/Simulated.antt =====
-- backend/worker/tasks.py with backend/downstream_sim/app.py: a worker's task whose call the simulator
-- answers.
use workato_take_home.Prelude.{
  ℕ, suc, ◌+◌, ◌≤◌, ◌≡◌, ◌∙◌, refl, String, true, false, some, arith, leb,
}
use workato_take_home.Common.StateMachine.{OrderState, next_order_state, is_terminal_order_state}
use workato_take_home.Store.Schema.{Time, Order, Task, Db}
use workato_take_home.Store.Query.{find_order, find_task}
use workato_take_home.Worker.Settings.{micros}
use workato_take_home.Worker.Downstream.{number, reached}
use workato_take_home.Worker.Lease.{owned_by}
use workato_take_home.Worker.Transition.{Run}
use workato_take_home.Simulator.Library.{Library}
use workato_take_home.Simulator.KillSwitch.{KillSwitches, switch_of}
use workato_take_home.Simulator.Endpoints.{is_empty, serve}
use workato_take_home.Simulator.Stages.{
  Stage, confirming, starting_prep, checking_ready, assigning, checking_delivery, service_of, ask,
  answer_of, by_clock, courier_for, source_of,
}
use workato_take_home.Simulator.Contract.{Configured, ask-served}
use workato_take_home.System.Transactions.{after_call, execute}
use workato_take_home.System.Invariant.State.{Serves}
use workato_take_home.System.Progress.{Reaches, success, assigned_courier, after_call-advances}

answer_of-success :
    (stage : Stage) (courier : String)
    → answer_of stage courier reached ≡ success (source_of stage) courier
answer_of-success confirming courier = refl
answer_of-success starting_prep courier = refl
answer_of-success checking_ready courier = refl
answer_of-success assigning courier = refl
answer_of-success checking_delivery courier = refl

source_of-live : (stage : Stage) → is_terminal_order_state (source_of stage) ≡ false
unfolding is_terminal_order_state
source_of-live confirming = refl
source_of-live starting_prep = refl
source_of-live checking_ready = refl
source_of-live assigning = refl
source_of-live checking_delivery = refl

by_clock-over :
    (now ready_at : Time) (hint : ℕ) → ready_at ≤ now → by_clock now ready_at hint ≡ reached
by_clock-over now ready_at hint h =
    let over : leb ready_at now ≡ true = ground (arith, h) in rw over refl

-- If a worker owns the task that serves an order, the switch of the stage's service is off, the configured delay of
-- the order and the hint are finite, and that delay since the start of the stage is over when the simulator answers,
-- then after the worker's call, for a reference that is not empty, and its second transaction the order's row has the
-- next state, a version one higher, the courier of the order if the stage is the assignment, and the instant of the
-- transaction in `updated_at`; its other columns stay, `delivered_at` among them.
pub after_call-simulated :
    (r : Run) (w : String) (db : Db) (t : Task) (o : Order) (lib : Library)
    (switches : KillSwitches) (now : Time) (ref : String) (started : Time) (stage : Stage)
    (delay retry_after : ℕ)
    → find_task t.id db ≡ some t
    → find_order t.order_id db ≡ some o
    → owned_by w t ≡ true
    → Serves t o
    → o.state ≡ source_of stage
    → is_empty (lib.str t.order_id) ≡ false
    → is_empty ref ≡ false
    → ((n : ℕ) → lib.encode (micros n) ≡ some (number n))
    → switch_of (service_of stage) switches ≡ some false
    → Configured lib stage t.order_id delay retry_after
    → started + delay ≤ now
    → (target : OrderState) × ((next_order_state o.state ≡ some target)
        × Reaches t.order_id target r.finished_at
            (assigned_courier o.state (courier_for lib t.order_id))
            o
            (execute
              (after_call r (ask (serve lib switches now) stage t.order_id ref started) t.id w)
              db))
after_call-simulated r w db t o lib switches now ref started stage delay retry_after found order
      ours serves at id_given ref_given json on c over =
    let courier = courier_for lib t.order_id in
    let read : answer_of stage courier (by_clock now (started + delay) (suc retry_after))
        ≡ success o.state courier =
      rw (by_clock-over now (started + delay) (suc retry_after) over, at)
        (answer_of-success stage courier) in
    let heard : ask (serve lib switches now) stage t.order_id ref started
        ≡ success o.state courier =
      ask-served lib switches now t.order_id ref started stage delay retry_after id_given ref_given
        json on c
      ∙ read in
    let live : is_terminal_order_state o.state ≡ false = rw at (source_of-live stage) in
    rw heard (after_call-advances r w courier db t o found order ours live serves)
