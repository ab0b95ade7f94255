-- ===== src/Api/Intake.antt =====
-- create_or_get_order of backend/api/order_store.py on a key that is in use.
use workato_take_home.Prelude.{
  ◌≡◌, ◌≢◌, refl, String, Bool, Option, some, List, ◌∷◌, arith, Bool-cases, Option-cases, inl, inr,
  ◌&&◌, if◌then◌else◌, nat_eq, ◌==◌, string_eq, option_eq, ==_refl,
}
use workato_take_home.Common.StateMachine.{confirmed}
use workato_take_home.Common.TaskTypes.{advance_state}
use workato_take_home.Store.Table.{exists_where}
use workato_take_home.Store.Constraints.{active_duplicate}
use workato_take_home.Store.Schema.{Time, Order, Db}
use workato_take_home.Api.OrderStore.{
  FreshOrder, created, existing, conflict, placed_order, find_by_key, reuse, insert_order,
  create_or_get_order,
}

-- Whether a request asks for the order as it was placed.
abbrev pub same_request : String → Option String → Order → Bool
same_request restaurant customer o =
    (o.restaurant_ref == restaurant) && option_eq o.customer_ref customer

module _ (key : String) where
  pub find_by_key-cons :
      (o : Order) (orders : List Order)
      → o.idempotency_key ≡ key
      → find_by_key key (o ∷ orders) ≡ some o
  unfolding find_by_key
  find_by_key-cons o orders e = rw e (rw (==_refl key) refl)

-- If an order with the key exists, then intake changes nothing, and returns that order when the
-- restaurant and the customer of the request are those of the order, and a conflict otherwise.
pub create_or_get_order-existing :
    (fresh : FreshOrder) (now : Time) (key restaurant : String) (customer : Option String) (db : Db)
    (o : Order)
    → find_by_key key db.orders ≡ some o
    → create_or_get_order fresh now key restaurant customer db
      ≡ (db, if same_request restaurant customer o then existing o else conflict o)
unfolding create_or_get_order reuse
create_or_get_order-existing fresh now key restaurant customer db o found =
    rw (found, create_or_get_order) (ground arith)

module _ (fresh : FreshOrder) (now : Time) (key restaurant : String) (customer : Option String)
    (db db' : Db) (o : Order) where
  abbrev new_order : Order
  new_order = placed_order fresh.order key restaurant customer now

  insert_order-created :
      insert_order fresh new_order now db ≡ (db', created o)
      → (db'.orders ≡ o ∷ db.orders) × (o ≡ new_order)
  unfolding insert_order
  insert_order-created h =
      elim (Bool-cases
        (exists_where (active_duplicate fresh.order advance_state confirmed) db.tasks)) [
          | inl dup ↦ absurd (ground (arith, h, dup))
          | inr fine ↦ ground (arith, h, fine)
        ]

  reuse-created : (p : Order) → reuse restaurant customer (some p) ≢ created o
  unfolding reuse
  reuse-created p h = elim (Bool-cases (same_request restaurant customer p)) [
    | inl same ↦ ground (arith, h)
    | inr other ↦ ground (arith, h)
  ]

  pub create_or_get_order-created :
      create_or_get_order fresh now key restaurant customer db ≡ (db', created o)
      → (db'.orders ≡ o ∷ db.orders) × (o ≡ new_order)
  unfolding create_or_get_order
  create_or_get_order-created h = elim (Option-cases (find_by_key key db.orders)) [
    | inl e ↦ insert_order-created (ground (arith, e, h))
    | inr (p, e) ↦ absurd (reuse-created p (ground (arith, e, h)))
  ]
