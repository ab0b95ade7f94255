-- ===== src/Examples/Loadgen.antt =====
-- The theorems on the load generator at a sample run.
use workato_take_home.Prelude.{◌≤◌, ◌≡◌, refl, some, []}
use workato_take_home.Prelude.{text}
use workato_take_home.Loadgen.Controller.{
  StartLoadRequest, LoadgenRunConfig, LoadGenerator, Send, new_generator, start, answered,
}
use workato_take_home.Loadgen.Actions.{
  check, acquire, proceed, complete, work, here, then, fresh, worked, started,
}
use workato_take_home.Loadgen.Counters.{Accounted, Reach-Accounted}
use workato_take_home.Loadgen.Limit.{start-limit}
use workato_take_home.Loadgen.Keys.{idempotency_key-injective}

abbrev request_1 : StartLoadRequest
request_1 = record {
  rate_per_second = 5_000_000;
  max_orders = some 1;
  restaurant_ref = text "restaurant-1";
  customer_ref_prefix = text "loadgen-customer";
}

abbrev started_1 : LoadGenerator
started_1 = (start request_1 (text "a1") 10 (new_generator 2)).0

abbrev launched_1 : LoadGenerator
launched_1 = work proceed (work acquire (work (check 11) started_1))

Reach-Accounted_example : Accounted 2 (work (complete 0 (answered 201 [])) launched_1)
Reach-Accounted_example = Reach-Accounted 2 (work (complete 0 (answered 201 [])) launched_1) (
    worked (complete 0 (answered 201 [])) (
      worked proceed (worked acquire (worked (check 11) (started request_1 (text "a1") 10 fresh)))))

start-limit_example : launched_1.attempted_count ≤ 1
unfolding start new_generator
start-limit_example =
    start-limit request_1 (text "a1") 10 1 (new_generator 2) launched_1 refl refl refl
      (then proceed (then acquire (then (check 11) here)))

abbrev config_1 : LoadgenRunConfig
config_1 = record {
  run_id = text "a1";
  restaurant_ref = text "restaurant-1";
  customer_ref_prefix = text "loadgen-customer";
  max_orders = some 1;
}

abbrev send_7 : Send
send_7 = record { run_config = config_1; sequence = 7 }

idempotency_key-injective_example :
    (send_7.run_config.run_id ≡ send_7.run_config.run_id) × (send_7.sequence ≡ send_7.sequence)
idempotency_key-injective_example = idempotency_key-injective send_7 send_7 refl refl
