-- ===== src/Worker/Answers.antt =====
-- What an answer of the simulator must be for the worker to move an order.
use workato_take_home.Prelude.{
  ℕ, ◌≡◌, refl, String, true, Option, none, some, ◌++◌, text, Text, arith, Bool-cases, inl, inr,
  string_eq, ==→≡, ap,
}
use workato_take_home.Worker.Errors.{short_error}
use workato_take_home.Worker.Downstream.{
  Json, string, null, container, boolean, number, below, RestaurantReadyCheckCall,
  CourierDeliveryCheckCall, call_restaurant_ready_check, call_courier_delivery_check,
  transition_request, ready_request, delivery_request, Body, HttpResult, timeout, request_error,
  invalid_json, not_an_object, response, Request, Reply, outcome, error, Verdict, reached,
  call_restaurant_transition, RestaurantTransitionCall, get, check_status, after_status,
  invalid_body, is_string, checked_body, read_status, read_reply, read_assignment,
  CourierAssignCall, assigned, assign_request, call_courier_assign,
}

after_status-outcome :
    (s : Reply (Unit {0})) (next : Reply Body) (body : Body)
    → after_status s next ≡ outcome body
    → (s ≡ outcome tt) × (next ≡ outcome body)
unfolding after_status
after_status-outcome (outcome tt) next body e = (refl, e)
after_status-outcome (error m) next body e = ground (arith, e)

check_status-ok : (action : Text) (code : ℕ) → check_status action code ≡ outcome tt → code ≡ 200
unfolding check_status
check_status-ok action code e = ground (arith, e)

checked_body-response :
    (action name : Text) (h : HttpResult) (body : Body)
    → checked_body action name h ≡ outcome body
    → h ≡ response 200 body
unfolding checked_body invalid_body
checked_body-response action name (timeout exc) body e = ground (arith, e)
checked_body-response action name (request_error exc) body e = ground (arith, e)
checked_body-response action name (invalid_json code exc) body e =
    let parse = error (short_error (text "downstream returned invalid JSON: " ++ exc)) in
    let (ok, same) = after_status-outcome (check_status action code) parse body e in
    absurd (ground (arith, same))
checked_body-response action name (not_an_object code repr) body e =
    let (ok, same) =
      after_status-outcome (check_status action code) (invalid_body name repr) body e in
    absurd (ground (arith, same))
checked_body-response action name (response code b) body e =
    let (ok, same) = after_status-outcome (check_status action code) (outcome b) body e in
    ground (arith, check_status-ok action code ok, same)

-- The answer that a verdict rests on: status code 200 and a body that says so.
abbrev pub Says : HttpResult → String → Type 0
Says h status =
    (body : Body) × ((h ≡ response 200 body) × (get "status" body.fields ≡ some (string status)))

is_string-true : (o : Option Json) (s : String) → is_string o s ≡ true → o ≡ some (string s)
unfolding is_string
is_string-true none s e = absurd (ground (arith, e))
is_string-true (some null) s e = absurd (ground (arith, e))
is_string-true (some container) s e = absurd (ground (arith, e))
is_string-true (some (boolean b)) s e = absurd (ground (arith, e))
is_string-true (some (number n)) s e = absurd (ground (arith, e))
is_string-true (some (below n)) s e = absurd (ground (arith, e))
is_string-true (some (string t)) s e = ap (λ x. some (string x)) (==→≡ t s e)

read_reply-outcome :
    (read : Body → Reply Verdict) (b : Reply Body) (v : Verdict)
    → read_reply read b ≡ outcome v
    → (body : Body) × ((b ≡ outcome body) × (read body ≡ outcome v))
unfolding read_reply
read_reply-outcome read (outcome body) v e = (body, (refl, e))
read_reply-outcome read (error m) v e = absurd (ground (arith, e))

read_status-reached :
    (name : Text) (expected pending : String) (body : Body)
    → read_status name expected pending body ≡ outcome reached
    → get "status" body.fields ≡ some (string expected)
unfolding read_status is_string
read_status-reached name expected pending body e =
    elim (Bool-cases (is_string (get "status" body.fields) expected)) [
      | inl says ↦ is_string-true (get "status" body.fields) expected says
      | inr no_match ↦ absurd (ground (arith, e, no_match))
    ]

read_reply-Says :
    (name : Text) (expected pending : String) (action : Text) (h : HttpResult)
    → read_reply (read_status name expected pending) (checked_body action name h) ≡ outcome reached
    → Says h expected
unfolding read_reply
read_reply-Says name expected pending action h e =
    let (body, (decoded, read)) =
      read_reply-outcome (read_status name expected pending) (checked_body action name h) reached
        e in
    (
      body,
      (
        checked_body-response action name h body decoded,
        read_status-reached name expected pending body read,
      ),
    )

-- `_call_restaurant_transition` reports that the restaurant has accepted only if the simulator
-- answered its request, which holds the order, the restaurant and the instant at which the source
-- state began, with status code 200 and a JSON object whose status is the one that the spec expects.
pub call_restaurant_transition-Says :
    (post : Request → HttpResult) (c : RestaurantTransitionCall)
    → call_restaurant_transition post c ≡ outcome reached
    → Says (post (transition_request c)) c.spec.expected_status
unfolding call_restaurant_transition
call_restaurant_transition-Says post c e =
    read_reply-Says (text c.spec.action_name) c.spec.expected_status c.spec.pending_status
      (text c.spec.action_name) (post (transition_request c)) e

-- `_call_restaurant_ready_check` reports an order as ready only on status code 200 and status ready.
pub call_restaurant_ready_check-Says :
    (post : Request → HttpResult) (c : RestaurantReadyCheckCall)
    → call_restaurant_ready_check post c ≡ outcome reached
    → Says (post (ready_request c)) "ready"
unfolding call_restaurant_ready_check
call_restaurant_ready_check-Says post c e =
    read_reply-Says (text "check-ready") "ready" "not_ready" (text "restaurant check-ready")
      (post (ready_request c)) e

-- `_call_courier_delivery_check` reports an order as delivered only on status code 200 and status
-- delivered.
pub call_courier_delivery_check-Says :
    (post : Request → HttpResult) (c : CourierDeliveryCheckCall)
    → call_courier_delivery_check post c ≡ outcome reached
    → Says (post (delivery_request c)) "delivered"
unfolding call_courier_delivery_check
call_courier_delivery_check-Says post c e =
    read_reply-Says (text "check-delivery") "delivered" "in_transit" (text "courier check-delivery")
      (post (delivery_request c)) e

read_assignment-outcome :
    (b : Reply Body) (courier : String)
    → read_assignment b ≡ outcome (assigned courier)
    → (body : Body) × ((b ≡ outcome body) × (get "status" body.fields ≡ some (string "assigned")))
unfolding read_assignment
read_assignment-outcome (error m) courier e = absurd (ground (arith, e))
read_assignment-outcome (outcome body) courier e =
    elim (Bool-cases (is_string (get "status" body.fields) "not_assigned")) [
      | inl waits ↦ absurd (ground (arith, e, waits))
      | inr no_wait ↦ elim (Bool-cases (is_string (get "status" body.fields) "assigned")) [
        | inl says ↦ (body, (refl, is_string-true (get "status" body.fields) "assigned" says))
        | inr no_match ↦ absurd (ground (arith, e, no_wait, no_match))
      ]
    ]

-- `_call_courier_assign` reports a courier only on status code 200 and status assigned.
pub call_courier_assign-Says :
    (post : Request → HttpResult) (c : CourierAssignCall) (courier : String)
    → call_courier_assign post c ≡ outcome (assigned courier)
    → Says (post (assign_request c)) "assigned"
unfolding call_courier_assign
call_courier_assign-Says post c courier e =
    let answer =
      checked_body (text "courier assign") (text "courier assign") (post (assign_request c)) in
    let (body, (decoded, says)) = read_assignment-outcome answer courier e in
    (
      body,
      (
        checked_body-response (text "courier assign") (text "courier assign")
            (post (assign_request c)) body decoded,
        says,
      ),
    )
