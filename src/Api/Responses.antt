-- ===== src/Api/Responses.antt =====
-- backend/api/app.py: what a client can conclude from a response.
use workato_take_home.Prelude.{
  ℕ, ◌≡◌, ◌⊎◌, refl, ◌∙◌, ap, sym, String, false, Option, arith, inl, inr, Bool-cases, Option-cases,
}
use workato_take_home.Common.StateMachine.{confirmed, is_terminal_order_state}
use workato_take_home.Common.TaskTypes.{advance_state}
use workato_take_home.Store.Table.{exists_where, update_where}
use workato_take_home.Store.Constraints.{active_duplicate, violates_unique_key}
use workato_take_home.Store.Schema.{Uuid, Time, Order, Db}
use workato_take_home.Store.Query.{find_order}
use workato_take_home.Api.OrderStore
use workato_take_home.Api.OrderStore.{
  lookup_failed, find_by_key, insert_order, FreshOrder, Intake, created, existing,
  create_or_get_order, cancel_order, cancel_found,
}
use workato_take_home.Api.TaskStore.{
  failed_task_of, reopened, retry_failed_tasks_for_order, reset_failed,
}
use workato_take_home.Api.Http.{
  Connection, connected, unreachable, not_configured, http_error, CreateOrderRequest, Response,
  order_response, status_code, is_blank, cleaned_key, with_database, intake_response, after_intake,
  found_response, recovery_response, create_order, cancel_existing_order, retry_failed_order_tasks,
}

-- A response 201 comes from an intake that created the order.
created_by :
    (request : CreateOrderRequest) (i : Intake) (o : Order)
    → intake_response request i ≡ order_response 201 o
    → i ≡ created o
unfolding intake_response
created_by request (created p) o h = cc
created_by request (existing p) o h = absurd (ground (arith, h))
created_by request (OrderStore.conflict p) o h = absurd (cc)
created_by request lookup_failed o h = absurd (cc)
created_by request OrderStore.integrity_error o h = absurd (cc)

served :
    (connection : Connection) (request : CreateOrderRequest) (db db' d : Db) (i : Intake)
    (o : Order)
    → with_database connection db (d, intake_response request i) ≡ (db', order_response 201 o)
    → ◌≡◌ {A = Db × Intake} (d, i) (db', created o)
unfolding with_database
served connected request db db' d i o h =
    let same : i ≡ created o = created_by request i o (ap (λ x. x.1) h) in
    let stored : d ≡ db' = ap (λ x. x.0) h in rw (same, stored) refl
served (not_configured detail) request db db' d i o h =
    let wrong : http_error 503 detail ≡ order_response 201 o = ap (λ x. x.1) h in absurd (cc)
served unreachable request db db' d i o h =
    let wrong : http_error 503 "postgres is not reachable" ≡ order_response 201 o =
      ap (λ x. x.1) h in
    absurd (cc)

-- A request that gets 201 names a restaurant and a key, and its intake created the order.
pub accepted :
    (connection : Connection) (request : CreateOrderRequest) (key : String) (db db' : Db)
    (r : Db × Intake) (o : Order)
    → after_intake connection request key db r ≡ (db', order_response 201 o)
    → (is_blank request.restaurant_ref ≡ false) × ((is_blank key ≡ false) × (r ≡ (db', created o)))
unfolding after_intake with_database
accepted connection request key db db' (d, i) o h =
    elim (Bool-cases (is_blank request.restaurant_ref)) [
      | inl blank ↦ absurd (ground (arith, h, blank))
      | inr given ↦ elim (Bool-cases (is_blank key)) [
        | inl blank ↦ absurd (ground (arith, h, given, blank))
        | inr keyed ↦ (
          given,
          (
            keyed,
            let open_case : with_database connection db (d, intake_response request i)
                    ≡ (db', order_response 201 o) =
                  sym (rw (given, keyed, after_intake) refl) ∙ h in
                served connection request db db' d i o open_case,
          ),
        )
      ]
    ]

-- The database is the old one unless the response has the code.
abbrev Unchanged : ℕ → Db → Db × Response → Type 0
Unchanged code db result = (status_code result.1 ≡ code) ⊎ (result.0 ≡ db)

with_database-Unchanged :
    (code : ℕ) (connection : Connection) (db : Db) (result : Db × Response)
    → Unchanged code db result
    → Unchanged code db (with_database connection db result)
unfolding with_database
with_database-Unchanged code connected db result u = u
with_database-Unchanged code (not_configured detail) db result u = inr refl
with_database-Unchanged code unreachable db result u = inr refl

module _ (fresh : FreshOrder) (now : Time) (key : String) (request : CreateOrderRequest)
    (db : Db) where
  abbrev result : Db × Intake
  result = create_or_get_order fresh now key request.restaurant_ref request.customer_ref db

  intake-Unchanged : Unchanged 201 db (result.0, intake_response request result.1)
  unfolding create_or_get_order insert_order intake_response
  intake-Unchanged = elim (Option-cases (find_by_key key db.orders)) [
    | inr (o, e) ↦ rw (e, create_or_get_order) (inr refl)
    | inl e ↦
        elim (Bool-cases
          (exists_where (active_duplicate fresh.order advance_state confirmed) db.tasks)) [
            | inl dup ↦ rw (e, create_or_get_order) (rw (dup, insert_order) (inr refl))
            | inr fine ↦ rw (e, create_or_get_order) (rw (fine, insert_order) (inl refl))
          ]
  ]

  after_intake-Unchanged :
      (connection : Connection) → Unchanged 201 db (after_intake connection request key db result)
  unfolding after_intake
  after_intake-Unchanged connection = elim (Bool-cases (is_blank request.restaurant_ref)) [
    | inl blank ↦ rw (blank, after_intake) (inr refl)
    | inr given ↦ elim (Bool-cases (is_blank key)) [
      | inl blank ↦ rw (given, blank, after_intake) (inr refl)
      | inr keyed ↦
          rw (given, keyed, after_intake)
            (with_database-Unchanged 201 connection db (result.0, intake_response request result.1)
              intake-Unchanged)
    ]
  ]

cancel-Unchanged :
    (event order : Uuid) (now : Time) (db : Db)
    → Unchanged 200 db
        ((cancel_order event order now db).0, found_response (cancel_order event order now db).1)
unfolding cancel_order found_response
cancel-Unchanged event order now db = elim (Option-cases (find_order order db)) [
  | inl e ↦ rw (e, cancel_found) (inr refl)
  | inr (o, e) ↦ elim (Bool-cases (is_terminal_order_state o.state)) [
    | inl ended ↦ rw (e, cancel_found) (rw ended (inr refl))
    | inr on ↦ rw (e, cancel_found) (rw on (inl refl))
  ]
]

retry-Unchanged :
    (fresh : Uuid → Uuid) (order : Uuid) (now : Time) (db : Db)
    → Unchanged 200 db (
      (retry_failed_tasks_for_order fresh order now db).0,
      recovery_response order (retry_failed_tasks_for_order fresh order now db).1,
    )
unfolding retry_failed_tasks_for_order recovery_response
retry-Unchanged fresh order now db = elim (Option-cases (find_order order db)) [
  | inl e ↦ rw (e, reset_failed) (inr refl)
  | inr (o, e) ↦
      elim (Bool-cases
        (violates_unique_key (update_where (failed_task_of order) (reopened now) db.tasks))) [
          | inl clash ↦ rw (e, reset_failed) (rw (clash, reset_failed) (inr refl))
          | inr fine ↦ rw (e, reset_failed) (rw (fine, reset_failed) (inl refl))
        ]
]

-- A creation of an order is answered with 201 or changes nothing, and a cancellation and a retry are answered with 200 or
-- change nothing: an invalid request, an order that is not found, a conflict, and a database that is not configured or not
-- reached leave the rows as they are.
pub create_order-unchanged :
    (connection : Connection) (request : CreateOrderRequest) (fresh : FreshOrder)
    (key : Option String) (event order : Uuid) (audit : Uuid → Uuid) (now : Time) (db : Db)
    → ((status_code (create_order connection fresh now request key db).1 ≡ 201)
        ⊎ ((create_order connection fresh now request key db).0 ≡ db))
      × (((status_code (cancel_existing_order connection event order now db).1 ≡ 200)
            ⊎ ((cancel_existing_order connection event order now db).0 ≡ db))
          × ((status_code (retry_failed_order_tasks connection audit order now db).1 ≡ 200)
              ⊎ ((retry_failed_order_tasks connection audit order now db).0 ≡ db)))
unfolding create_order cancel_existing_order retry_failed_order_tasks
create_order-unchanged connection request fresh key event order audit now db = (
  after_intake-Unchanged fresh now (cleaned_key key) request db connection,
  (
    with_database-Unchanged 200 connection db
        ((cancel_order event order now db).0, found_response (cancel_order event order now db).1)
        (cancel-Unchanged event order now db),
    with_database-Unchanged 200 connection db
        (
          (retry_failed_tasks_for_order audit order now db).0,
          recovery_response order (retry_failed_tasks_for_order audit order now db).1,
        )
        (retry-Unchanged audit order now db),
  ),
)
