-- ===== src/Loadgen/Actions.antt =====
-- backend/loadgen/app.py: the sections of all handlers, producers and requests as one type, and the
-- states that they reach in any order.
use workato_take_home.Prelude.{ℕ, zero, suc, Text}
use workato_take_home.Store.Schema.{Time}
use workato_take_home.Loadgen.Controller.{
  StartLoadRequest, LoadGenerator, new_generator, Outcome, start, stop, update_rate, open_client,
  close_client, check_round, launch, send_order,
}

-- What a producer or a request does.
pub data Work : Type 0 where
  check : Time → Work
  -- `_wake_event` ends the wait before its time: the round begins again
  wake : Work
  -- `_inflight_semaphore.acquire()`
  acquire : Work
  proceed : Work
  complete : ℕ → Outcome → Work
  -- `_inflight_tasks.discard`, the callback of a task that is done
  discard : Work
  -- the handlers that start nothing
  halt : Time → Work
  set_rate : ℕ → Work
  open_http : Work
  close_http : Work

unfoldable pub check_action : Time → ℕ → LoadGenerator → LoadGenerator
unfolding check_round
check_action now zero g = g
check_action now (suc others) g = check_round now others g

unfoldable pub wake_action : ℕ → LoadGenerator → LoadGenerator
wake_action zero g = g
wake_action (suc others) g = record g { waiting = others; looping = suc g.looping }

-- Only a producer that waits asks for a slot, and only a free slot is given.
unfoldable pub acquire_action : ℕ → ℕ → LoadGenerator → LoadGenerator
acquire_action (suc others) (suc free) g = record g {
  waiting = others;
  slots = free;
  acquired = suc g.acquired;
}
acquire_action _ _ g = g

unfoldable pub proceed_action : ℕ → LoadGenerator → LoadGenerator
unfolding launch
proceed_action zero g = g
proceed_action (suc others) g = launch others g

unfoldable pub discard_action : ℕ → LoadGenerator → LoadGenerator
discard_action zero g = g
discard_action (suc n) g = record g { finished = n }

unfoldable pub work : Work → LoadGenerator → LoadGenerator
unfolding check_action wake_action acquire_action proceed_action discard_action send_order stop
    update_rate open_client close_client
work (check now) g = check_action now g.looping g
work wake g = wake_action g.waiting g
work acquire g = acquire_action g.waiting g.slots g
work proceed g = proceed_action g.acquired g
work (complete n outcome) g = send_order n outcome g
work discard g = discard_action g.finished g
work (halt now) g = stop now g
work (set_rate rate) g = (update_rate rate g).0
work open_http g = open_client g
work close_http g = close_client g

-- The states after a state, without a further start.
pub data Works (g : LoadGenerator) : LoadGenerator → Type 0 where
  here : Works g g
  then : {h : LoadGenerator} (w : Work) → Works g h → Works g (work w h)

-- All states of a process.
pub data Reach (max_inflight : ℕ) : LoadGenerator → Type 0 where
  fresh : Reach max_inflight (new_generator max_inflight)
  worked : {g : LoadGenerator} (w : Work) → Reach max_inflight g → Reach max_inflight (work w g)
  started :
      {g : LoadGenerator} (request : StartLoadRequest) (run_id : Text) (now : Time)
      → Reach max_inflight g
      → Reach max_inflight (start request run_id now g).0
