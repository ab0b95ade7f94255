-- ===== src/Api/Http.antt =====
-- backend/api/app.py: the handlers of orders, from a request that FastAPI has read to the response, and
-- what each does to the database. Starlette answers 500 to an exception that no handler names.
use workato_take_home.Prelude.{
  ℕ, String, Bool, true, false, ◌&&◌, Option, none, some, List, if◌then◌else◌,
}
use Prim.Native.Char.{code}
use workato_take_home.Store.Schema.{Uuid, Time, Order, Task, Db}
use workato_take_home.Worker.Errors.{is_space}
use workato_take_home.Api.OrderStore
use workato_take_home.Api.OrderStore.{
  FreshOrder, Intake, created, existing, lookup_failed, create_or_get_order, cancel_order,
}
use workato_take_home.Api.TaskStore
use workato_take_home.Api.TaskStore.{Recovery, no_order, retried, retry_failed_tasks_for_order}

-- What opening a connection comes to: DatabaseConfigError with its text, or psycopg.Error.
pub data Connection : Type 0 where
  connected unreachable : Connection
  not_configured : String → Connection

pub record CreateOrderRequest : Type 0 where
  pub restaurant_ref : String
  pub customer_ref : Option String

pub data Response : Type 0 where
  order_response : ℕ → Order → Response
  retried_response : Uuid → List Task → Response
  http_error : ℕ → String → Response
  -- 409 with the order that has the key and the request
  conflict_response : Order → CreateOrderRequest → Response
  unprocessable internal_error : Response

abbrev pub status_code : Response → ℕ
status_code (order_response code o) = code
status_code (retried_response order tasks) = 200
status_code (http_error code detail) = code
status_code (conflict_response o request) = 409
status_code unprocessable = 422
status_code internal_error = 500

-- `str.strip` from the left, and from the right
unfoldable pub strip_left : String → String
unfolding is_space
strip_left String.[] = String.[]
strip_left (String.◌∷◌ c s) = if is_space (code c) then strip_left s else String.◌∷◌ c s

abbrev pub is_blank : String → Bool
is_blank String.[] = true
is_blank (String.◌∷◌ c s) = false

unfoldable pub strip_right : String → String
unfolding is_space
strip_right String.[] = String.[]
strip_right (String.◌∷◌ c s) =
    let rest = strip_right s in
    if is_space (code c) && is_blank rest then String.[] else String.◌∷◌ c rest

-- `idempotency_key.strip() if idempotency_key else ""`
unfoldable pub cleaned_key : Option String → String
unfolding strip_left strip_right
cleaned_key none = ""
cleaned_key (some key) = strip_right (strip_left key)

-- The `except` clauses that the handlers share, around the work on an open connection.
unfoldable pub with_database : Connection → Db → Db × Response → Db × Response
with_database connected db result = result
with_database (not_configured detail) db result = (db, http_error 503 detail)
with_database unreachable db result = (db, http_error 503 "postgres is not reachable")

-- The response to the result of an intake; an integrity error is a psycopg.Error.
unfoldable pub intake_response : CreateOrderRequest → Intake → Response
intake_response request (created o) = order_response 201 o
intake_response request (existing o) = order_response 200 o
intake_response request (OrderStore.conflict o) = conflict_response o request
intake_response request lookup_failed = internal_error
intake_response request OrderStore.integrity_error = http_error 503 "postgres is not reachable"

-- What a request with a key comes to, given the result that its intake has.
unfoldable pub after_intake :
    Connection → CreateOrderRequest → String → Db → Db × Intake → Db × Response
unfolding with_database intake_response
after_intake connection request key db (db', intake) =
    if is_blank request.restaurant_ref
    then (db, unprocessable)
    else if is_blank key
    then (db, http_error 400 "Idempotency-Key header is required")
    else with_database connection db (db', intake_response request intake)

-- `create_order`, with the check of the body's fields before it
unfoldable pub create_order :
    Connection → FreshOrder → Time → CreateOrderRequest → Option String → Db → Db × Response
unfolding cleaned_key after_intake create_or_get_order
create_order connection fresh now request idempotency_key db =
    let key = cleaned_key idempotency_key in
    after_intake connection request key db
      (create_or_get_order fresh now key request.restaurant_ref request.customer_ref db)

unfoldable pub found_response : Option Order → Response
found_response none = http_error 404 "order not found"
found_response (some o) = order_response 200 o

unfoldable pub cancel_existing_order : Connection → Uuid → Uuid → Time → Db → Db × Response
unfolding with_database cancel_order found_response
cancel_existing_order connection event order now db =
    let (db', result) = cancel_order event order now db in
    with_database connection db (db', found_response result)

unfoldable pub recovery_response : Uuid → Recovery → Response
recovery_response order no_order = http_error 404 "order not found"
recovery_response order (retried tasks) = retried_response order tasks
recovery_response order TaskStore.integrity_error = http_error 503 "postgres is not reachable"

unfoldable pub retry_failed_order_tasks :
    Connection → (Uuid → Uuid) → Uuid → Time → Db → Db × Response
unfolding with_database retry_failed_tasks_for_order recovery_response
retry_failed_order_tasks connection fresh order now db =
    let (db', result) = retry_failed_tasks_for_order fresh order now db in
    with_database connection db (db', recovery_response order result)
