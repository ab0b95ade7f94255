-- ===== src/System/Requests.antt =====
-- Requests with one idempotency key over time: backend/api/order_store.py and backend/api/app.py, with
-- whatever transactions of the services in between.
use workato_take_home.Prelude.{
  ◌≡◌, ◌≢◌, ◌∙◌, refl, sym, ap, subst, String, true, Option, none, some, arith, Bool-cases, inl,
  inr, string_eq, option_eq, ==→≡, if◌then◌else◌,
}
use workato_take_home.Store.Schema.{Time, Order, Db}
use workato_take_home.Store.Changes.{SameOrder}
use workato_take_home.Api.OrderStore.{
  FreshOrder, created, existing, conflict, find_by_key, create_or_get_order,
}
use workato_take_home.Api.Intake.{
  same_request, find_by_key-cons, create_or_get_order-existing, create_or_get_order-created,
}
use workato_take_home.Api.Responses.{accepted}
use workato_take_home.System.Later.{Later, Holds, Later-Holds}

option_eq→≡ : (a b : Option String) → option_eq a b ≡ true → a ≡ b
option_eq→≡ none none h = refl
option_eq→≡ none (some b) h = absurd (cc)
option_eq→≡ (some a) none h = absurd (cc)
option_eq→≡ (some a) (some b) h = ap some (==→≡ a b h)

same_request_means :
    (restaurant : String) (customer : Option String) (p : Order)
    → same_request restaurant customer p ≡ true
    → (p.restaurant_ref ≡ restaurant) × (p.customer_ref ≡ customer)
same_request_means restaurant customer p h = (
  ==→≡ p.restaurant_ref restaurant (ground (arith, h)),
  option_eq→≡ p.customer_ref customer (ground (arith, h)),
)

module _ (fresh fresh' : FreshOrder) (now now' : Time) (key restaurant : String)
    (customer : Option String) (db db' db'' : Db) (o : Order)
    (accepted : create_or_get_order fresh now key restaurant customer db ≡ (db', created o))
    (later : Later db' db'') where
  still_held : Holds key o db''.orders
  still_held =
      let (rows, new) =
        create_or_get_order-created fresh now key restaurant customer db db' o accepted in
      Later-Holds key db' db'' o later (
        subst (λ os. find_by_key key os ≡ some o) (sym rows)
          (find_by_key-cons key o db.orders (ap (λ x. x.idempotency_key) new)))

  asked : (o.restaurant_ref ≡ restaurant) × (o.customer_ref ≡ customer)
  asked =
      let (rows, new) =
        create_or_get_order-created fresh now key restaurant customer db db' o accepted in
      (ap (λ x. x.restaurant_ref) new, ap (λ x. x.customer_ref) new)

-- If intake has accepted an order for a key, then a request with the key for another restaurant or
-- another customer, after any transactions of the services, changes nothing and is a conflict with the
-- row that the order has then.
pub create_or_get_order-conflict :
    (fresh fresh' : FreshOrder) (now now' : Time) (key restaurant restaurant' : String)
    (customer customer' : Option String) (db db' db'' : Db) (o : Order)
    → create_or_get_order fresh now key restaurant customer db ≡ (db', created o)
    → Later db' db''
    → (restaurant' ≡ restaurant → customer' ≢ customer)
    → (p : Order) × SameOrder o p
      × (create_or_get_order fresh' now' key restaurant' customer' db'' ≡ (db'', conflict p))
create_or_get_order-conflict fresh fresh' now now' key restaurant restaurant' customer customer' db
      db' db'' o made later other =
    let (p, found, e) =
      still_held fresh fresh' now now' key restaurant customer db db' db'' o made later in
    let (r, c) = asked fresh fresh' now now' key restaurant customer db db' db'' o made later in
    (
      p,
      e,
      elim (Bool-cases (same_request restaurant' customer' p)) [
        | inr differs ↦
            create_or_get_order-existing fresh' now' key restaurant' customer' db'' p found
            ∙ ap (λ b. (db'', if b then existing p else conflict p)) differs
        | inl fits ↦
            let (r', c') = same_request_means restaurant' customer' p fits in
            absurd (other (sym r' ∙ (e.restaurant_ref ∙ r)) (sym c' ∙ (e.customer_ref ∙ c)))
      ],
    )
