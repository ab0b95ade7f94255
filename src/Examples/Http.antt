-- ===== src/Examples/Http.antt =====
-- The theorems on the HTTP handlers at the sample databases.
use workato_take_home.Prelude.{◌≡◌, ◌⊎◌, none}
use workato_take_home.Api.Http.{
  unreachable, CreateOrderRequest, status_code, create_order, cancel_existing_order,
  retry_failed_order_tasks,
}
use workato_take_home.Api.Responses.{create_order-unchanged}
use workato_take_home.Examples.Samples.{placed_db}

abbrev order_request : CreateOrderRequest
order_request = record { restaurant_ref = "restaurant"; customer_ref = none }

create_order-unchanged_example :
    ((status_code
          (create_order unreachable
            (record { order = 21; event = 22; task = 23 })
            12
            order_request
            none
            placed_db).1
        ≡ 201)
      ⊎ ((create_order unreachable
            (record { order = 21; event = 22; task = 23 })
            12
            order_request
            none
            placed_db).0
          ≡ placed_db))
    × (((status_code (cancel_existing_order unreachable 9 1 12 placed_db).1 ≡ 200)
          ⊎ ((cancel_existing_order unreachable 9 1 12 placed_db).0 ≡ placed_db))
        × ((status_code (retry_failed_order_tasks unreachable (λ k. k) 1 12 placed_db).1 ≡ 200)
            ⊎ ((retry_failed_order_tasks unreachable (λ k. k) 1 12 placed_db).0 ≡ placed_db)))
create_order-unchanged_example =
    create_order-unchanged unreachable order_request (record { order = 21; event = 22; task = 23 })
      none 9 1 (λ k. k) 12 placed_db
