-- ===== src/Loadgen/Limit.antt =====
-- backend/loadgen/app.py: the limit of a run on its orders.
use workato_take_home.Prelude.{
  ℕ, zero, suc, ◌+◌, ◌≤◌, ◌<◌, ◌≡◌, refl, ◌∙◌, some, arith, inl, inr, Bool-cases, leb, eqb, Text,
  length, false,
}
use workato_take_home.Store.Schema.{Time}
use workato_take_home.Loadgen.Controller.{
  StartLoadRequest, LoadgenRunConfig, LoadGenerator, accepted, inflight_count, begun, start, stop,
  update_rate, open_client, close_client, limit_reached, check_round, launch, Outcome, no_client,
  raised, http_error, answered, record_failure, record_outcome, send_order,
}
use workato_take_home.Loadgen.Actions.{
  Work, check, wake, acquire, proceed, complete, discard, halt, set_rate, open_http, close_http,
  check_action, wake_action, acquire_action, proceed_action, discard_action, work, Works, here,
  then,
}

-- A run with a limit and one producer at most, which counts as an attempt once it has passed the check.
record Limited (m : ℕ) (g : LoadGenerator) : Type 0 where
  config : LoadgenRunConfig
  configured : g.run_config ≡ some config
  limit : config.max_orders ≡ some m
  single : g.looping + (g.waiting + g.acquired) ≤ 1
  room : g.attempted_count + (g.waiting + g.acquired) ≤ m

below_limit :
    (config : LoadgenRunConfig) (m attempted : ℕ)
    → config.max_orders ≡ some m
    → limit_reached config attempted ≡ false
    → attempted < m
unfolding limit_reached
below_limit config m attempted limit h = ground (arith, limit, h)

module _ (m : ℕ) where
  -- A change of a run that leaves its config and does not add to its producers or attempts.
  kept :
      (g h : LoadGenerator)
      → h.run_config ≡ g.run_config
      → h.looping + (h.waiting + h.acquired) ≤ g.looping + (g.waiting + g.acquired)
      → h.attempted_count + (h.waiting + h.acquired) ≤ g.attempted_count + (g.waiting + g.acquired)
      → Limited m g
      → Limited m h
  kept g h same fewer less l = record {
    config = l.config;
    configured = same ∙ l.configured;
    limit = l.limit;
    single = omega (arith, l.single, fewer);
    room = omega (arith, l.room, less);
  }

  check_action-Limited :
      (now : Time) (n : ℕ) (g : LoadGenerator)
      → g.looping ≡ n
      → Limited m g
      → Limited m (check_action now n g)
  unfolding check_action check_round
  check_action-Limited now zero g at l = l
  check_action-Limited now (suc others) g at l = elim (Bool-cases g.running) [
    | inr off ↦
        rw (l.configured, check_round) (rw off (kept g _ refl (omega (arith, at)) (omega arith) l))
    | inl on ↦ elim (Bool-cases (limit_reached l.config g.attempted_count)) [
      | inl over ↦
          rw (l.configured, check_round)
            (rw (on, over) (kept g _ refl (omega (arith, at)) (omega arith) l))
      | inr more ↦
          let room = below_limit l.config m g.attempted_count l.limit more in
          rw (l.configured, check_round)
            (rw (on, more)
              (record {
                config = l.config;
                configured = l.configured;
                limit = l.limit;
                single = omega (arith, l.single, at);
                room = omega (arith, l.single, at, room);
              }))
    ]
  ]

  proceed_action-Limited :
      (n : ℕ) (g : LoadGenerator) → g.acquired ≡ n → Limited m g → Limited m (proceed_action n g)
  unfolding proceed_action launch
  proceed_action-Limited zero g at l = l
  proceed_action-Limited (suc others) g at l = elim (Bool-cases g.running) [
    | inr off ↦
        rw (l.configured, launch) (rw off (kept g _ refl (omega (arith, at)) (omega (arith, at)) l))
    | inl on ↦
        rw (l.configured, launch) (rw on (kept g _ refl (omega (arith, at)) (omega (arith, at)) l))
  ]

  wake_action-Limited :
      (n : ℕ) (g : LoadGenerator) → g.waiting ≡ n → Limited m g → Limited m (wake_action n g)
  unfolding wake_action
  wake_action-Limited zero g at l = l
  wake_action-Limited (suc n) g at l = kept g _ refl (omega (arith, at)) (omega (arith, at)) l

  acquire_action-Limited :
      (n free : ℕ) (g : LoadGenerator)
      → g.waiting ≡ n
      → Limited m g
      → Limited m (acquire_action n free g)
  unfolding acquire_action
  acquire_action-Limited zero free g at l = l
  acquire_action-Limited (suc n) zero g at l = l
  acquire_action-Limited (suc n) (suc free) g at l =
      kept g _ refl (omega (arith, at)) (omega (arith, at)) l

  discard_action-Limited :
      (n : ℕ) (g : LoadGenerator) → Limited m g → Limited m (discard_action n g)
  unfolding discard_action
  discard_action-Limited zero g l = l
  discard_action-Limited (suc n) g l = kept g _ refl (omega arith) (omega arith) l

  stop-Limited : (now : Time) (g : LoadGenerator) → Limited m g → Limited m (stop now g)
  unfolding stop
  stop-Limited now g l = elim (Bool-cases g.running) [
    | inl on ↦ rw (on, stop) (kept g _ refl (omega arith) (omega arith) l)
    | inr off ↦ rw (off, stop) (kept g _ refl (omega arith) (omega arith) l)
  ]

  update_rate-Limited :
      (rate : ℕ) (g : LoadGenerator) → Limited m g → Limited m (update_rate rate g).0
  unfolding update_rate
  update_rate-Limited rate g l = elim (Bool-cases g.running) [
    | inl on ↦ rw (on, update_rate) (kept g _ refl (omega arith) (omega arith) l)
    | inr off ↦ rw (off, update_rate) (kept g _ refl (omega arith) (omega arith) l)
  ]

  record_outcome-Limited :
      (o : Outcome) (g : LoadGenerator) → Limited m g → Limited m (record_outcome o g)
  unfolding record_outcome record_failure
  record_outcome-Limited no_client g l = kept g _ refl (omega arith) (omega arith) l
  record_outcome-Limited raised g l = l
  record_outcome-Limited (http_error e) g l = kept g _ refl (omega arith) (omega arith) l
  record_outcome-Limited (answered code body) g l = elim (Bool-cases (eqb code 201)) [
    | inl created ↦ rw created (kept g _ refl (omega arith) (omega arith) l)
    | inr other ↦ elim (Bool-cases (eqb code 200)) [
      | inl reused ↦ rw (other, reused) (kept g _ refl (omega arith) (omega arith) l)
      | inr failed ↦ rw (other, failed) (kept g _ refl (omega arith) (omega arith) l)
    ]
  ]

  send_order-Limited :
      (n : ℕ) (o : Outcome) (g : LoadGenerator) → Limited m g → Limited m (send_order n o g)
  unfolding send_order
  send_order-Limited n o g l = elim (Bool-cases (leb (length g.sending) n)) [
    | inl out ↦ rw (out, send_order) l
    | inr sent ↦
        rw (sent, send_order)
          (kept (record_outcome o g) _ refl (omega arith) (omega arith)
            (record_outcome-Limited o g l))
  ]

  work-Limited : (w : Work) (g : LoadGenerator) → Limited m g → Limited m (work w g)
  unfolding work open_client close_client
  work-Limited (check now) g l = check_action-Limited now g.looping g refl l
  work-Limited wake g l = wake_action-Limited g.waiting g refl l
  work-Limited acquire g l = acquire_action-Limited g.waiting g.slots g refl l
  work-Limited proceed g l = proceed_action-Limited g.acquired g refl l
  work-Limited (complete n o) g l = send_order-Limited n o g l
  work-Limited discard g l = discard_action-Limited g.finished g l
  work-Limited (halt now) g l = stop-Limited now g l
  work-Limited (set_rate rate) g l = update_rate-Limited rate g l
  work-Limited open_http g l = kept g _ refl (omega arith) (omega arith) l
  work-Limited close_http g l = kept g _ refl (omega arith) (omega arith) l

  Works-Limited : (g h : LoadGenerator) → Limited m g → Works g h → Limited m h
  Works-Limited g h l here = l
  Works-Limited g h l (then w ws) = work-Limited w _ (Works-Limited g _ l ws)

  start-Limited :
      (request : StartLoadRequest) (run_id : Text) (now : Time) (g : LoadGenerator)
      → request.max_orders ≡ some m
      → g.looping + (g.waiting + g.acquired) ≡ 0
      → (start request run_id now g).1 ≡ accepted
      → Limited m (start request run_id now g).0
  unfolding start begun
  start-Limited request run_id now g limit alone ok = elim (Bool-cases g.running) [
    | inl on ↦ absurd (ground (arith, ok, on))
    | inr off ↦ elim (Bool-cases (eqb (inflight_count g) 0)) [
      | inr busy ↦ absurd (ground (arith, ok, off, busy))
      | inl drained ↦
          rw (off, drained)
            (record {
              config = _;
              configured = refl;
              limit = limit;
              single = omega (arith, alone);
              room = omega (arith, alone);
            })
    ]
  ]

-- If a run with a limit is accepted while no producer of an earlier run is left, then until the next start, whatever
-- the handlers, the producer and the requests do in any order, the run never attempts more orders than its limit.
pub start-limit :
    (request : StartLoadRequest) (run_id : Text) (now : Time) (m : ℕ) (g h : LoadGenerator)
    → request.max_orders ≡ some m
    → g.looping + (g.waiting + g.acquired) ≡ 0
    → (start request run_id now g).1 ≡ accepted
    → Works (start request run_id now g).0 h
    → h.attempted_count ≤ m
start-limit request run_id now m g h limit alone ok ws =
    omega
      (arith, (Works-Limited m _ h (start-Limited m request run_id now g limit alone ok) ws).room)
