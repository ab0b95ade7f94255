-- ===== src/Loadgen/Controller.antt =====
-- backend/loadgen/app.py: the state of the class LoadGenerator and the sections of its methods that run
-- under the lock. What an `await` lets in between is another action.
use workato_take_home.Prelude.{
  ℕ, zero, suc, ◌+◌, String, Bool, true, false, not, Option, none, some, List, [], ◌∷◌, length,
  Text, text, ◌++◌, leb, eqb, if◌then◌else◌,
}
use workato_take_home.Store.Schema.{Time}
use workato_take_home.Worker.Errors.{take, decimal}

-- A request to start; a rate is a number of orders in a million seconds.
pub record StartLoadRequest : Type 0 where
  pub rate_per_second : ℕ
  pub max_orders : Option ℕ
  pub restaurant_ref : Text
  pub customer_ref_prefix : Text

pub record LoadgenRunConfig : Type 0 where
  pub run_id : Text
  pub restaurant_ref : Text
  pub customer_ref_prefix : Text
  pub max_orders : Option ℕ

-- A request that was launched and has no result yet.
pub record Send : Type 0 where
  pub run_config : LoadgenRunConfig
  pub sequence : ℕ

pub record LoadGenerator : Type 0 where
  pub max_inflight : ℕ
  -- the value of the semaphore
  pub slots : ℕ
  -- producer loops: before the check under the lock, after it, and with a slot but nothing launched
  pub looping : ℕ
  pub waiting : ℕ
  pub acquired : ℕ
  -- the tasks of `_inflight_tasks`: those without a result, and those not yet discarded
  pub sending : List Send
  pub finished : ℕ
  pub client_open : Bool
  pub running : Bool
  pub run_config : Option LoadgenRunConfig
  pub rate_per_second : ℕ
  pub started_at : Option Time
  pub stopped_at : Option Time
  pub attempted_count : ℕ
  pub successful_count : ℕ
  pub created_count : ℕ
  pub reused_count : ℕ
  pub failed_count : ℕ
  pub last_error : Option Text

-- `__init__`
unfoldable pub new_generator : ℕ → LoadGenerator
new_generator max_inflight = record {
  max_inflight = max_inflight;
  slots = max_inflight;
  looping = 0;
  waiting = 0;
  acquired = 0;
  sending = [];
  finished = 0;
  client_open = false;
  running = false;
  run_config = none;
  rate_per_second = 0;
  started_at = none;
  stopped_at = none;
  attempted_count = 0;
  successful_count = 0;
  created_count = 0;
  reused_count = 0;
  failed_count = 0;
  last_error = none;
}

-- `len(self._inflight_tasks)`
abbrev pub inflight_count : LoadGenerator → ℕ
inflight_count g = length g.sending + g.finished

-- Whether a response is 200 with the status, or the 409 with its message.
pub data Control : Type 0 where
  accepted : Control
  conflict : String → Control

-- The state of a new run.
unfoldable pub begun : StartLoadRequest → Text → Time → LoadGenerator → LoadGenerator
begun request run_id now g = record g {
  looping = suc g.looping;
  running = true;
  run_config = some (record {
    run_id = run_id;
    restaurant_ref = request.restaurant_ref;
    customer_ref_prefix = request.customer_ref_prefix;
    max_orders = request.max_orders;
  });
  rate_per_second = request.rate_per_second;
  started_at = some now;
  stopped_at = none;
  attempted_count = 0;
  successful_count = 0;
  created_count = 0;
  reused_count = 0;
  failed_count = 0;
  last_error = none;
}

unfoldable pub start : StartLoadRequest → Text → Time → LoadGenerator → LoadGenerator × Control
unfolding begun
start request run_id now g =
    if g.running
    then (g, conflict "load generation is already running")
    else if eqb (inflight_count g) 0
    then (begun request run_id now g, accepted)
    else (g, conflict "previous load generation run is still draining")

-- `stop` up to its first `await`; after it `stop` only waits.
unfoldable pub stop : Time → LoadGenerator → LoadGenerator
stop now g = if g.running then record g { running = false; stopped_at = some now } else g

unfoldable pub update_rate : ℕ → LoadGenerator → LoadGenerator × Control
update_rate rate g =
    if g.running
    then (record g { rate_per_second = rate }, accepted)
    else (g, conflict "load generation is not running")

-- `open`, and the end of `close` after its `stop`.
unfoldable pub open_client : LoadGenerator → LoadGenerator
open_client g = record g { client_open = true }

unfoldable pub close_client : LoadGenerator → LoadGenerator
close_client g = record g { client_open = false }

-- `self._run_config.max_orders is not None and self._attempted_count >= self._run_config.max_orders`
unfoldable pub limit_reached : LoadgenRunConfig → ℕ → Bool
limit_reached config attempted = elim config.max_orders [
  | none ↦ false
  | some max ↦ leb max attempted
]

-- The first section of a round of `_producer_loop`, by a producer that has left the loop's head: it
-- ends, or goes on to wait.
unfoldable pub check_round : Time → ℕ → LoadGenerator → LoadGenerator
unfolding limit_reached
check_round now others g = elim g.run_config [
  | none ↦ record g { looping = others }
  | some config ↦
      if not g.running
      then record g { looping = others }
      else if limit_reached config g.attempted_count
      then record g { looping = others; running = false; stopped_at = some now }
      else record g { looping = others; waiting = suc g.waiting }
]

-- The second half of `_launch_order_request`, by a producer that holds a slot.
unfoldable pub launch : ℕ → LoadGenerator → LoadGenerator
launch others g = elim g.run_config [
  | none ↦ record g { acquired = others; looping = suc g.looping; slots = suc g.slots }
  | some config ↦
      if not g.running
      then record g { acquired = others; looping = suc g.looping; slots = suc g.slots }
      else record g {
        acquired = others;
        looping = suc g.looping;
        attempted_count = suc g.attempted_count;
        sending = record { run_config = config; sequence = suc g.attempted_count } ∷ g.sending;
      }
]

-- What comes of a request: no client, an httpx.HTTPError with its text, a response with its code and
-- text, or an exception that is no httpx.HTTPError.
pub data Outcome : Type 0 where
  no_client raised : Outcome
  http_error : Text → Outcome
  answered : ℕ → Text → Outcome

unfoldable pub record_failure : Text → LoadGenerator → LoadGenerator
record_failure error g = record g { failed_count = suc g.failed_count; last_error = some error }

-- The sections of `_send_order_with_reserved_slot` that change the counters.
unfoldable pub record_outcome : Outcome → LoadGenerator → LoadGenerator
unfolding record_failure take
record_outcome no_client g = record_failure (text "HTTP client is not initialized") g
record_outcome raised g = g
record_outcome (http_error error) g = record_failure error g
record_outcome (answered code body) g =
    if eqb code 201
    then record g { successful_count = suc g.successful_count; created_count = suc g.created_count }
    else if eqb code 200
    then record g { successful_count = suc g.successful_count; reused_count = suc g.reused_count }
    else record_failure (decimal code ++ (text ": " ++ take 200 body)) g

-- `_send_order` of the request at a position of `sending`, with the release of its slot.
unfoldable pub without : ℕ → List Send → List Send
without n [] = []
without zero (s ∷ sends) = sends
without (suc n) (s ∷ sends) = s ∷ without n sends

unfoldable pub send_order : ℕ → Outcome → LoadGenerator → LoadGenerator
unfolding record_outcome without
send_order n outcome g =
    let g' = record_outcome outcome g in
    if leb (length g.sending) n
    then g
    else record g' { sending = without n g.sending; slots = suc g.slots; finished = suc g.finished }

-- The header and the payload of a request.
unfoldable pub idempotency_key : Send → Text
idempotency_key s = text "loadgen-" ++ (s.run_config.run_id ++ (text "-" ++ decimal s.sequence))

unfoldable pub customer_ref : Send → Text
customer_ref s = s.run_config.customer_ref_prefix ++ (text "-" ++ decimal s.sequence)
