-- ===== src/System/Later.antt =====
-- The order that has an idempotency key, over whatever transactions of the services.
use workato_take_home.Prelude.{
  ◌≡◌, ◌∙◌, refl, subst, String, Bool, true, false, none, some, List, [], ◌∷◌, arith, Bool-cases,
  inl, inr, ◌==◌, eqb, string_eq, ==→≡,
}
use workato_take_home.Store.Table.{update_by_id}
use workato_take_home.Store.Schema.{Uuid, Order, Db}
use workato_take_home.Store.Changes.{SameOrder}
use workato_take_home.Store.Query.{order_id_of}
use workato_take_home.Api.OrderStore.{find_by_key}
use workato_take_home.System.Changes.{Change, same, updates, inserts, execute-Change}
use workato_take_home.System.Transactions.{Transaction, execute}

-- A database that transactions of the services lead to, in any order, by any number of workers.
pub data Later (db : Db) : Db → Type 0 where
  at_once : Later db db
  after : {db' : Db} (tx : Transaction) → Later db db' → Later db (execute tx db')

same_row : (o : Order) → SameOrder o o
same_row o = record {
  id = refl;
  idempotency_key = refl;
  customer_ref = refl;
  restaurant_ref = refl;
  created_at = refl;
  delivered_at = refl;
}

same_still : (o p q : Order) → SameOrder o p → SameOrder p q → SameOrder o q
same_still o p q h k = record {
  id = k.id ∙ h.id;
  idempotency_key = k.idempotency_key ∙ h.idempotency_key;
  customer_ref = k.customer_ref ∙ h.customer_ref;
  restaurant_ref = k.restaurant_ref ∙ h.restaurant_ref;
  created_at = k.created_at ∙ h.created_at;
  delivered_at = k.delivered_at ∙ h.delivered_at;
}

-- The order that has a key, whatever has become of it.
abbrev pub Holds : String → Order → List Order → Type 0
Holds key o orders = (p : Order) × (find_by_key key orders ≡ some p) × SameOrder o p

module _ (key : String) where
  head-Holds :
      (x y o : Order) (orders : List Order)
      → SameOrder x y
      → find_by_key key (x ∷ orders) ≡ some o
      → Holds key o (y ∷ orders)
  unfolding find_by_key
  head-Holds x y o orders e h = elim (Bool-cases (x.idempotency_key == key)) [
    | inl mine ↦
        let this : x ≡ o = ground (arith, h, mine) in
        let still : (y.idempotency_key == key) ≡ true = rw e.idempotency_key mine in
        (y, rw still refl, subst (λ z. SameOrder z y) this e)
    | inr other ↦
        let still : (y.idempotency_key == key) ≡ false = rw e.idempotency_key other in
        (o, rw still (ground (arith, h, other)), same_row o)
  ]

  tail-Holds :
      (x o : Order) (orders orders' : List Order)
      → find_by_key key (x ∷ orders) ≡ some o
      → (find_by_key key orders ≡ some o → Holds key o orders')
      → Holds key o (x ∷ orders')
  unfolding find_by_key
  tail-Holds x o orders orders' h below = elim (Bool-cases (x.idempotency_key == key)) [
    | inl mine ↦ (o, rw mine (ground (arith, h, mine)), same_row o)
    | inr other ↦ let (p, there, e) = below (ground (arith, h, other)) in (p, rw other there, e)
  ]

  update-Holds :
      (k : Uuid) (guard : Order → Bool) (f : Order → Order)
      → ((o : Order) → SameOrder o (f o))
      → (o : Order) (orders : List Order) → find_by_key key orders ≡ some o
      → Holds key o (update_by_id order_id_of k guard f orders)
  unfolding update_by_id
  update-Holds k guard f keeps o [] h = (o, h, same_row o)
  update-Holds k guard f keeps o (x ∷ orders) h = elim (Bool-cases (eqb x.id k)) [
    | inl here ↦ elim (Bool-cases (guard x)) [
      | inl fits ↦ rw here (rw fits (head-Holds x (f x) o orders (keeps x) h))
      | inr out ↦ rw here (rw out (head-Holds x x o orders (same_row x) h))
    ]
    | inr apart ↦ rw apart (
        tail-Holds x o orders (update_by_id order_id_of k guard f orders) h
          (update-Holds k guard f keeps o orders))
  ]

  Change-Holds :
      (o : Order) (orders orders' : List Order)
      → Change orders orders'
      → find_by_key key orders ≡ some o
      → Holds key o orders'
  unfolding find_by_key
  Change-Holds o orders orders' same h = (o, h, same_row o)
  Change-Holds o orders orders' (updates k guard f keeps) h =
      update-Holds k guard f keeps o orders h
  Change-Holds o orders orders' (inserts q unused) h =
      elim (Bool-cases (q.idempotency_key == key)) [
        | inl clash ↦
            let e : q.idempotency_key ≡ key = ==→≡ q.idempotency_key key clash in
            absurd (ground (arith, h, subst (λ x. find_by_key x orders ≡ none) e unused))
        | inr other ↦ (o, rw other h, same_row o)
      ]

  -- An order keeps its key for as long as the services run.
  pub Later-Holds :
      (db db' : Db) (o : Order)
      → Later db db'
      → find_by_key key db.orders ≡ some o
      → Holds key o db'.orders
  Later-Holds db db' o at_once h = (o, h, same_row o)
  Later-Holds db db' o (after {db' = d} tx l) h =
      let (p, there, e) = Later-Holds db d o l h in
      let (q, here, e') =
        Change-Holds p d.orders (execute tx d).orders (execute-Change d tx) there in
      (q, here, same_still o p q e e')
