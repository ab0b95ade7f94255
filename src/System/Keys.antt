-- ===== src/System/Keys.antt =====
-- The idempotency keys of the order rows, over the transactions of all services.
use workato_take_home.Prelude.{
  ◌≡◌, ◌≢◌, refl, String, true, Option, none, some, List, [], ◌∷◌, arith, Bool-cases, Option-cases,
  inl, inr, eqb, sym, ap, ◌∙◌, subst, ◌==◌, string_eq, ==_refl,
}
use workato_take_home.Store.Table.{find, find_id}
use workato_take_home.Store.Schema.{Uuid, Order, Db}
use workato_take_home.Store.Query.{order_id_of, find_order}
use workato_take_home.Api.OrderStore.{find_by_key}
use workato_take_home.System.Transactions.{
  Transaction, intake, cancellation, recovery, claim, before_call, after_call, execute, DrawsFresh,
  Reach, start, next,
}
use workato_take_home.System.Moves.{Moved, stays, steps, cancels, execute-Follows}
use workato_take_home.System.Births.{Born, execute-Newborn}

-- A key that no order has is not that of an order.
find_by_key-none :
    (key : String) (orders : List Order) (k : Uuid) (o : Order)
    → find_by_key key orders ≡ none
    → find order_id_of k orders ≡ some o
    → o.idempotency_key ≢ key
unfolding find_by_key find
find_by_key-none key [] k o unused found e = absurd (cc)
find_by_key-none key (x ∷ orders) k o unused found e =
    elim (Bool-cases (x.idempotency_key == key)) [
      | inl same ↦ absurd (ground (arith, unused, same))
      | inr other ↦ elim (Bool-cases (eqb x.id k)) [
        | inr below ↦
            find_by_key-none key orders k o (ground (arith, unused, other))
              (ground (arith, found, below)) e
        | inl here ↦
            let this : x ≡ o = ground (arith, found, here) in
            let clash : (x.idempotency_key == key) ≡ true =
              subst (λ s. (s == key) ≡ true) (sym (ap (λ y. y.idempotency_key) this ∙ e))
                (==_refl key) in
            absurd (ground (arith, clash, other))
      ]
    ]

-- The identifier that an intake draws for its order.
abbrev drawn_order : Transaction → Option Uuid
drawn_order (intake fresh now key restaurant customer) = some fresh.order
drawn_order _ = none

-- The row that an intake inserts: its key was not in use, and its identifier is the one drawn.
abbrev Inserted : Db → Transaction → Order → Type 0
Inserted db tx o = (find_by_key o.idempotency_key db.orders ≡ none) × (some o.id ≡ drawn_order tx)

inserted-Born : (db : Db) (tx : Transaction) → Born (Inserted db tx) db tx
inserted-Born db (intake fresh now key restaurant customer) = λ e. (e, refl)
inserted-Born db (cancellation event order now) = tt
inserted-Born db (recovery fresh order now) = tt
inserted-Born db (claim locked w now) = tt
inserted-Born db (before_call r id w) = tt
inserted-Born db (after_call r a id w) = tt

inserted-same :
    (db : Db) (tx : Transaction) (o p : Order) → Inserted db tx o → Inserted db tx p → o.id ≡ p.id
inserted-same db tx o p h k = ground (arith, h.1, k.1)

Moved-key : (o p : Order) → Moved o p → p.idempotency_key ≡ o.idempotency_key
Moved-key o p (stays e) = ap (λ x. x.idempotency_key) e
Moved-key o p (steps target courier now s c row) = row.rest.idempotency_key
Moved-key o p (cancels now on row) = row.rest.idempotency_key

module _ (old : Db) (tx : Transaction) (d : DrawsFresh tx old) where
  -- A row that was there before has kept its key.
  earlier :
      (k : Uuid) (o o' : Order)
      → find_order k old ≡ some o
      → find_order k (execute tx old) ≡ some o'
      → o'.idempotency_key ≡ o.idempotency_key
  earlier k o o' found there =
      let (q, here, moved, logged) = execute-Follows k o old found tx d in
      let same : q ≡ o' = ground (arith, here, there) in
      ap (λ x. x.idempotency_key) (sym same) ∙ Moved-key o q moved

  -- A new row does not share its key with one that was there before.
  unshared :
      (k j : Uuid) (o o' p' : Order)
      → find_order k old ≡ some o
      → find_order k (execute tx old) ≡ some o'
      → Inserted old tx p'
      → o'.idempotency_key ≢ p'.idempotency_key
  unshared k j o o' p' found there new same =
      find_by_key-none p'.idempotency_key old.orders k o new.0 found
        (sym (earlier k o o' found there) ∙ same)

  inserted :
      (k : Uuid) (o' : Order)
      → find_order k old ≡ none
      → find_order k (execute tx old) ≡ some o'
      → Inserted old tx o'
  inserted k o' absent there =
      execute-Newborn k o' old absent (Inserted old tx) tx (inserted-Born old tx) there

-- In every database that the services reach, two order rows with the same idempotency key are the
-- same row.
pub Reach-one_order_per_key :
    (db : Db) (k j : Uuid) (o p : Order)
    → Reach db
    → find_order k db ≡ some o
    → find_order j db ≡ some p
    → o.idempotency_key ≡ p.idempotency_key
    → k ≡ j
unfolding find
Reach-one_order_per_key db k j o p start found found' same = absurd (cc)
Reach-one_order_per_key db k j o p (next {db = old} tx r d) found found' same =
    elim (Option-cases (find_order k old)) [
      | inl new ↦ elim (Option-cases (find_order j old)) [
        | inl new' ↦
            let ids =
              inserted-same old tx o p (inserted old tx d k o new found)
                (inserted old tx d j p new' found') in
            sym (find_id order_id_of k (execute tx old).orders o found)
            ∙ (ids ∙ find_id order_id_of j (execute tx old).orders p found')
        | inr (p', was) ↦
            absurd
              (unshared old tx d j k p' p o was found' (inserted old tx d k o new found) (sym same))
      ]
      | inr (o', was) ↦ elim (Option-cases (find_order j old)) [
        | inl new' ↦
            absurd (unshared old tx d k j o' o p was found (inserted old tx d j p new' found') same)
        | inr (p', was') ↦
            Reach-one_order_per_key old k j o' p' r was was' (
              sym (earlier old tx d k o' o was found)
              ∙ (same ∙ earlier old tx d j p' p was' found'))
      ]
    ]
