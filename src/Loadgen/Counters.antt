-- ===== src/Loadgen/Counters.antt =====
-- backend/loadgen/app.py: how the counters of a run, the requests in flight and the slots fit together.
use workato_take_home.Prelude.{
  ℕ, zero, suc, ◌+◌, ◌≤◌, ◌≡◌, refl, false, List, [], ◌∷◌, length, arith, inl, inr, Bool-cases,
  Option-cases, leb, eqb, Text,
}
use workato_take_home.Store.Schema.{Time}
use workato_take_home.Loadgen.Controller.{
  StartLoadRequest, Send, LoadGenerator, new_generator, inflight_count, begun, start, stop,
  update_rate, open_client, close_client, limit_reached, check_round, launch, Outcome, no_client,
  raised, http_error, answered, record_failure, record_outcome, without, send_order,
}
use workato_take_home.Loadgen.Actions.{
  Work, check, wake, acquire, proceed, complete, discard, halt, set_rate, open_http, close_http,
  check_action, wake_action, acquire_action, proceed_action, discard_action, work, Reach, fresh,
  worked, started,
}

-- Each slot of the semaphore is free, held by a producer, or held by a request without a result; successes are created or
-- reused; and every success, failure and request without a result is an attempt.
pub record Accounted (max_inflight : ℕ) (g : LoadGenerator) : Type 0 where
  pub held : g.slots + (g.acquired + length g.sending) ≡ max_inflight
  pub split : g.created_count + g.reused_count ≡ g.successful_count
  pub counted : g.successful_count + (g.failed_count + length g.sending) ≤ g.attempted_count

length-without :
    (n : ℕ) (sends : List Send)
    → leb (length sends) n ≡ false
    → suc (length (without n sends)) ≡ length sends
unfolding without
length-without n [] h = ground (arith, h)
length-without zero (s ∷ sends) h = refl
length-without (suc n) (s ∷ sends) h = ground (arith, length-without n sends, h)

module _ (max : ℕ) where
  check_round-Accounted :
      (now : Time) (others : ℕ) (g : LoadGenerator)
      → Accounted max g
      → Accounted max (check_round now others g)
  unfolding check_round
  check_round-Accounted now others g a = elim (Option-cases g.run_config) [
    | inl e ↦ rw (e, check_round) (record { held = a.held; split = a.split; counted = a.counted })
    | inr (c, e) ↦ elim (Bool-cases g.running) [
      | inr off ↦
          rw (e, check_round)
            (rw off (record { held = a.held; split = a.split; counted = a.counted }))
      | inl on ↦ elim (Bool-cases (limit_reached c g.attempted_count)) [
        | inl over ↦
            rw (e, check_round)
              (rw (on, over) (record { held = a.held; split = a.split; counted = a.counted }))
        | inr more ↦
            rw (e, check_round)
              (rw (on, more) (record { held = a.held; split = a.split; counted = a.counted }))
      ]
    ]
  ]

  proceed_action-Accounted :
      (n : ℕ) (g : LoadGenerator)
      → g.acquired ≡ n
      → Accounted max g
      → Accounted max (proceed_action n g)
  unfolding proceed_action launch
  proceed_action-Accounted zero g at a = a
  proceed_action-Accounted (suc others) g at a = elim (Option-cases g.run_config) [
    | inl e ↦
        rw (e, launch)
          (record { held = omega (arith, a.held, at); split = a.split; counted = a.counted })
    | inr (c, e) ↦ elim (Bool-cases g.running) [
      | inr off ↦
          rw (e, launch)
            (rw off
              (record { held = omega (arith, a.held, at); split = a.split; counted = a.counted }))
      | inl on ↦
          rw (e, launch)
            (rw on (record {
              held = omega (arith, a.held, at);
              split = a.split;
              counted = omega (arith, a.counted);
            }))
    ]
  ]

  acquire_action-Accounted :
      (n free : ℕ) (g : LoadGenerator)
      → g.slots ≡ free
      → Accounted max g
      → Accounted max (acquire_action n free g)
  unfolding acquire_action
  acquire_action-Accounted zero free g at a = a
  acquire_action-Accounted (suc n) zero g at a = a
  acquire_action-Accounted (suc n) (suc free) g at a = record {
    held = omega (arith, a.held, at);
    split = a.split;
    counted = a.counted;
  }

  -- A result leaves the slots and the requests in flight alone, and counts at most one attempt.
  record_outcome-split :
      (o : Outcome) (g : LoadGenerator)
      → g.created_count + g.reused_count ≡ g.successful_count
      → (record_outcome o g).created_count + (record_outcome o g).reused_count
        ≡ (record_outcome o g).successful_count
  unfolding record_outcome record_failure
  record_outcome-split no_client g h = h
  record_outcome-split raised g h = h
  record_outcome-split (http_error e) g h = h
  record_outcome-split (answered code body) g h = elim (Bool-cases (eqb code 201)) [
    | inl created ↦ rw created (omega (arith, h))
    | inr other ↦ elim (Bool-cases (eqb code 200)) [
      | inl reused ↦ rw (other, reused) (omega (arith, h))
      | inr failed ↦ rw (other, failed) h
    ]
  ]

  record_outcome-counted :
      (o : Outcome) (g : LoadGenerator)
      → ((record_outcome o g).successful_count + (record_outcome o g).failed_count
          ≤ suc (g.successful_count + g.failed_count))
        × ((record_outcome o g).attempted_count ≡ g.attempted_count)
  unfolding record_outcome record_failure
  record_outcome-counted no_client g = (omega arith, refl)
  record_outcome-counted raised g = (omega arith, refl)
  record_outcome-counted (http_error e) g = (omega arith, refl)
  record_outcome-counted (answered code body) g = elim (Bool-cases (eqb code 201)) [
    | inl created ↦ rw created (omega arith, refl)
    | inr other ↦ elim (Bool-cases (eqb code 200)) [
      | inl reused ↦ rw (other, reused) (omega arith, refl)
      | inr failed ↦ rw (other, failed) (omega arith, refl)
    ]
  ]

  record_outcome-held :
      (o : Outcome) (g : LoadGenerator)
      → ((record_outcome o g).slots ≡ g.slots) × ((record_outcome o g).acquired ≡ g.acquired)
  unfolding record_outcome record_failure
  record_outcome-held no_client g = (refl, refl)
  record_outcome-held raised g = (refl, refl)
  record_outcome-held (http_error e) g = (refl, refl)
  record_outcome-held (answered code body) g = elim (Bool-cases (eqb code 201)) [
    | inl created ↦ rw created (refl, refl)
    | inr other ↦ elim (Bool-cases (eqb code 200)) [
      | inl reused ↦ rw (other, reused) (refl, refl)
      | inr failed ↦ rw (other, failed) (refl, refl)
    ]
  ]

  send_order-Accounted :
      (n : ℕ) (o : Outcome) (g : LoadGenerator) → Accounted max g → Accounted max (send_order n o g)
  unfolding send_order
  send_order-Accounted n o g a = elim (Bool-cases (leb (length g.sending) n)) [
    | inl out ↦ rw (out, send_order) a
    | inr sent ↦
        let gone = length-without n g.sending sent in
        let (count, attempts) = record_outcome-counted o g in
        let (slots, acquired) = record_outcome-held o g in
        rw (sent, send_order)
          (record {
            held = omega (arith, a.held, gone, acquired);
            split = record_outcome-split o g a.split;
            counted = omega (arith, a.counted, gone, count, attempts);
          })
  ]

  wake_action-Accounted :
      (n : ℕ) (g : LoadGenerator) → Accounted max g → Accounted max (wake_action n g)
  unfolding wake_action
  wake_action-Accounted zero g a = a
  wake_action-Accounted (suc n) g a = record { held = a.held; split = a.split; counted = a.counted }

  discard_action-Accounted :
      (n : ℕ) (g : LoadGenerator) → Accounted max g → Accounted max (discard_action n g)
  unfolding discard_action
  discard_action-Accounted zero g a = a
  discard_action-Accounted (suc n) g a = record {
    held = a.held;
    split = a.split;
    counted = a.counted;
  }

  check_action-Accounted :
      (now : Time) (n : ℕ) (g : LoadGenerator)
      → Accounted max g
      → Accounted max (check_action now n g)
  unfolding check_action
  check_action-Accounted now zero g a = a
  check_action-Accounted now (suc others) g a = check_round-Accounted now others g a

  stop-Accounted : (now : Time) (g : LoadGenerator) → Accounted max g → Accounted max (stop now g)
  unfolding stop
  stop-Accounted now g a = elim (Bool-cases g.running) [
    | inl on ↦ rw (on, stop) (record { held = a.held; split = a.split; counted = a.counted })
    | inr off ↦ rw (off, stop) (record { held = a.held; split = a.split; counted = a.counted })
  ]

  update_rate-Accounted :
      (rate : ℕ) (g : LoadGenerator) → Accounted max g → Accounted max (update_rate rate g).0
  unfolding update_rate
  update_rate-Accounted rate g a = elim (Bool-cases g.running) [
    | inl on ↦ rw (on, update_rate) (record { held = a.held; split = a.split; counted = a.counted })
    | inr off ↦
        rw (off, update_rate) (record { held = a.held; split = a.split; counted = a.counted })
  ]

  -- A new run starts from counters at 0, which fit since nothing is in flight.
  start-Accounted :
      (request : StartLoadRequest) (run_id : Text) (now : Time) (g : LoadGenerator)
      → Accounted max g
      → Accounted max (start request run_id now g).0
  unfolding start begun
  start-Accounted request run_id now g a = elim (Bool-cases g.running) [
    | inl on ↦ rw (on, start) (record { held = a.held; split = a.split; counted = a.counted })
    | inr off ↦ elim (Bool-cases (eqb (inflight_count g) 0)) [
      | inr busy ↦ rw (off, busy) (record { held = a.held; split = a.split; counted = a.counted })
      | inl none_left ↦
          rw (off, none_left)
            (record { held = a.held; split = refl; counted = ground (arith, none_left) })
    ]
  ]

  work-Accounted : (w : Work) (g : LoadGenerator) → Accounted max g → Accounted max (work w g)
  unfolding work open_client close_client
  work-Accounted (check now) g a = check_action-Accounted now g.looping g a
  work-Accounted wake g a = wake_action-Accounted g.waiting g a
  work-Accounted acquire g a = acquire_action-Accounted g.waiting g.slots g refl a
  work-Accounted proceed g a = proceed_action-Accounted g.acquired g refl a
  work-Accounted (complete n o) g a = send_order-Accounted n o g a
  work-Accounted discard g a = discard_action-Accounted g.finished g a
  work-Accounted (halt now) g a = stop-Accounted now g a
  work-Accounted (set_rate rate) g a = update_rate-Accounted rate g a
  work-Accounted open_http g a = record { held = a.held; split = a.split; counted = a.counted }
  work-Accounted close_http g a = record { held = a.held; split = a.split; counted = a.counted }

-- In every state that the load generator reaches, by any interleaving of its handlers, producers and requests: each slot
-- of the semaphore is free, held by a producer, or held by a request that has no result; the successes are the created
-- and the reused orders; and the successes, the failures and the requests without a result are together at most the
-- attempts.
pub Reach-Accounted : (max : ℕ) (g : LoadGenerator) → Reach max g → Accounted max g
unfolding new_generator
Reach-Accounted max g fresh = record { held = omega arith; split = refl; counted = omega arith }
Reach-Accounted max g (worked w r) = work-Accounted max w _ (Reach-Accounted max _ r)
Reach-Accounted max g (started request run_id now r) =
    start-Accounted max request run_id now _ (Reach-Accounted max _ r)
