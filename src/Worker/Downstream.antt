-- ===== src/Worker/Downstream.antt =====
-- backend/worker/tasks.py: the requests to the downstream simulator and the checks of its answers.
-- What httpx and its JSON decoder return is data here; the client itself is a parameter of the
-- handlers. JSON numbers are whole microseconds where they stand for seconds.
use workato_take_home.Prelude.{
  ℕ, suc, String, Bool, false, Option, none, some, List, [], ◌∷◌, ◌++◌, Text, text, eqb, leb, ◌==◌,
  string_eq, if◌then◌else◌,
}
use workato_take_home.Store.Schema.{Uuid, Time}
use workato_take_home.Worker.Errors.{short_error, decimal}
use workato_take_home.Worker.Specs.{RestaurantTransitionSpec}

-- A JSON value as far as the worker looks into it: `below n` is -(n + 1).
pub data Json : Type 0 where
  null container : Json
  boolean : Bool → Json
  number below : ℕ → Json
  string : String → Json

-- A decoded object: `body.get` reads the first entry of a key; `repr` is `repr(body)`.
pub record Body : Type 0 where
  pub fields : List (String × Json)
  pub repr : Text

pub data HttpResult : Type 0 where
  -- `httpx.TimeoutException` and `httpx.RequestError`, with the text of the exception
  timeout request_error : Text → HttpResult
  -- a response by its status code; `invalid_json` holds the text of the ValueError,
  -- `not_an_object` the repr of the decoded value
  invalid_json not_an_object : ℕ → Text → HttpResult
  response : ℕ → Body → HttpResult

-- The path of the URL, and the payload: the order, the restaurant or courier and the instant.
pub record Request : Type 0 where
  pub path : String
  pub order_id : Uuid
  pub ref_field : String
  pub ref : String
  pub started_at_field : String
  pub started_at : Time

pub data Reply (A : Type 0) : Type 0 where
  outcome : A → Reply A
  error : Text → Reply A

-- `body.get(key)`
unfoldable pub get : String → List (String × Json) → Option Json
get k [] = none
get k ((j, v) ∷ m) = if j == k then some v else get k m

-- `_valid_positive_number`
unfoldable pub valid_positive_number : Option Json → Option ℕ
valid_positive_number (some (number (suc n))) = some (suc n)
valid_positive_number _ = none

unfoldable pub is_string : Option Json → String → Bool
is_string (some (string s)) t = s == t
is_string _ t = false

-- The part that the four callers share: the exceptions, the status code, the decoder and the type of
-- the body. `action` stands in the messages on the transport, `name` in those on the body.
unfoldable pub check_status : Text → ℕ → Reply (Unit {0})
check_status action code =
    if leb 500 code
    then error
        (short_error (text "downstream returned " ++ (decimal code ++ (text " from " ++ action))))
    else if eqb code 200
    then outcome tt
    else error (
        short_error
          (text "downstream returned unexpected " ++ (decimal code ++ (text " from " ++ action))))

unfoldable pub invalid_body : Text → Text → Reply Body
invalid_body name repr =
    error (short_error (text "downstream returned invalid " ++ (name ++ (text " body: " ++ repr))))

unfoldable pub after_status : Reply (Unit {0}) → Reply Body → Reply Body
after_status (outcome _) next = next
after_status (error e) next = error e

unfoldable pub checked_body : Text → Text → HttpResult → Reply Body
unfolding check_status invalid_body after_status
checked_body action name (timeout exc) =
    error (short_error (text "downstream timeout calling " ++ (action ++ (text ": " ++ exc))))
checked_body action name (request_error exc) =
    error
      (short_error (text "downstream request failed calling " ++ (action ++ (text ": " ++ exc))))
checked_body action name (invalid_json code exc) =
    after_status (check_status action code)
      (error (short_error (text "downstream returned invalid JSON: " ++ exc)))
checked_body action name (not_an_object code repr) =
    after_status (check_status action code) (invalid_body name repr)
checked_body action name (response code body) =
    after_status (check_status action code) (outcome body)

-- What a call reports: whether the source state is left, with the hint for the next poll.
pub data Verdict : Type 0 where
  reached : Verdict
  still_pending : Option ℕ → Verdict

pub record RestaurantTransitionCall : Type 0 where
  pub order_id : Uuid
  pub restaurant_ref : String
  pub source_started_at : Time
  pub spec : RestaurantTransitionSpec

-- A body whose status is the success or the pending status of the call.
unfoldable pub read_status : Text → String → String → Body → Reply Verdict
unfolding is_string invalid_body valid_positive_number get
read_status name expected pending body =
    if is_string (get "status" body.fields) expected
    then outcome reached
    else if is_string (get "status" body.fields) pending
    then outcome (still_pending (valid_positive_number (get "retry_after_seconds" body.fields)))
    else error (
        short_error
          (text "downstream returned invalid " ++ (name ++ (text " body: " ++ body.repr))))

unfoldable pub read_reply : (Body → Reply Verdict) → Reply Body → Reply Verdict
read_reply read (outcome body) = read body
read_reply read (error e) = error e

abbrev pub transition_request : RestaurantTransitionCall → Request
transition_request c = record {
  path = c.spec.endpoint_path;
  order_id = c.order_id;
  ref_field = "restaurant_ref";
  ref = c.restaurant_ref;
  started_at_field = c.spec.source_started_at_field;
  started_at = c.source_started_at;
}

-- `_call_restaurant_transition`
unfoldable pub call_restaurant_transition :
    (Request → HttpResult) → RestaurantTransitionCall → Reply Verdict
unfolding read_reply checked_body read_status
call_restaurant_transition post c =
    let action = text c.spec.action_name in
    read_reply (read_status action c.spec.expected_status c.spec.pending_status)
      (checked_body action action (post (transition_request c)))

pub record RestaurantReadyCheckCall : Type 0 where
  pub order_id : Uuid
  pub restaurant_ref : String
  pub prep_started_at : Time

abbrev pub ready_request : RestaurantReadyCheckCall → Request
ready_request c = record {
  path = "/restaurant/check-ready";
  order_id = c.order_id;
  ref_field = "restaurant_ref";
  ref = c.restaurant_ref;
  started_at_field = "prep_started_at";
  started_at = c.prep_started_at;
}

-- `_call_restaurant_ready_check`
unfoldable pub call_restaurant_ready_check :
    (Request → HttpResult) → RestaurantReadyCheckCall → Reply Verdict
unfolding read_reply checked_body read_status
call_restaurant_ready_check post c =
    read_reply (read_status (text "check-ready") "ready" "not_ready")
      (checked_body (text "restaurant check-ready") (text "check-ready") (post (ready_request c)))

pub record CourierDeliveryCheckCall : Type 0 where
  pub order_id : Uuid
  pub courier_ref : String
  pub dispatched_at : Time

abbrev pub delivery_request : CourierDeliveryCheckCall → Request
delivery_request c = record {
  path = "/courier/check-delivery";
  order_id = c.order_id;
  ref_field = "courier_ref";
  ref = c.courier_ref;
  started_at_field = "dispatched_at";
  started_at = c.dispatched_at;
}

-- `_call_courier_delivery_check`
unfoldable pub call_courier_delivery_check :
    (Request → HttpResult) → CourierDeliveryCheckCall → Reply Verdict
unfolding read_reply checked_body read_status
call_courier_delivery_check post c =
    read_reply (read_status (text "check-delivery") "delivered" "in_transit") (
      checked_body (text "courier check-delivery") (text "check-delivery")
        (post (delivery_request c)))

pub record CourierAssignCall : Type 0 where
  pub order_id : Uuid
  pub restaurant_ref : String
  pub ready_at : Time

pub data CourierAssignOutcome : Type 0 where
  assigned : String → CourierAssignOutcome
  not_assigned : Option ℕ → CourierAssignOutcome

-- `not courier_ref or not isinstance(courier_ref, str)` is the error.
read_courier_ref : Text → Option Json → Reply CourierAssignOutcome
read_courier_ref repr (some (string String.[])) =
    error
      (short_error (text "downstream returned missing courier_ref in assign response: " ++ repr))
read_courier_ref repr (some (string ref)) = outcome (assigned ref)
read_courier_ref repr _ =
    error
      (short_error (text "downstream returned missing courier_ref in assign response: " ++ repr))

unfoldable pub read_assignment : Reply Body → Reply CourierAssignOutcome
unfolding is_string read_courier_ref valid_positive_number get
read_assignment (error e) = error e
read_assignment (outcome body) =
    if is_string (get "status" body.fields) "not_assigned"
    then outcome (not_assigned (valid_positive_number (get "retry_after_seconds" body.fields)))
    else if is_string (get "status" body.fields) "assigned"
    then read_courier_ref body.repr (get "courier_ref" body.fields)
    else error (short_error (text "downstream returned invalid courier assign body: " ++ body.repr))

abbrev pub assign_request : CourierAssignCall → Request
assign_request c = record {
  path = "/courier/assign";
  order_id = c.order_id;
  ref_field = "restaurant_ref";
  ref = c.restaurant_ref;
  started_at_field = "ready_at";
  started_at = c.ready_at;
}

-- `_call_courier_assign`
unfoldable pub call_courier_assign :
    (Request → HttpResult) → CourierAssignCall → Reply CourierAssignOutcome
unfolding read_assignment checked_body
call_courier_assign post c =
    read_assignment
      (checked_body (text "courier assign") (text "courier assign") (post (assign_request c)))
