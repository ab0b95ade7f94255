-- ===== src/System/Invariant/Api.antt =====
-- The invariant through the transactions of the API.
use workato_take_home.Prelude.{
  ℕ, ◌≡◌, ◌≢◌, refl, String, true, false, Option, none, some, ◌∷◌, arith, Bool-cases, Option-cases,
  inl, inr, eqb, eqb_iff, ◌∙◌, sym, subst, nat_eq,
}
use workato_take_home.Common.StateMachine.{
  placed, confirmed, next_order_state, is_terminal_order_state,
}
use workato_take_home.Common.TaskTypes.{advance_state}
use workato_take_home.Store.Table.{
  find, find-cons, find_id, update_by_id, update_where, apply_if, exists_where, find-update_by_id,
}
use workato_take_home.Store.Lookup.{Image, Image-update_where}
use workato_take_home.Store.Distinct.{Distinct-update_where, find_head}
use workato_take_home.Store.Constraints.{violates_unique_key, active_duplicate}
use workato_take_home.Store.Schema.{Uuid, Time, Order, Task, Db}
use workato_take_home.Store.Query.{order_id_of, task_id_of, find_order, find_task}
use workato_take_home.Worker.Followup.{followup_task}
use workato_take_home.Api.OrderStore.{
  FreshOrder, placed_order, find_by_key, insert_order, create_or_get_order, cancelled_order,
  cancelled_task, open_task_of, cancel_found, cancel_order,
}
use workato_take_home.Api.TaskStore.{
  failed_task_of, reopened, reset_failed, retry_failed_tasks_for_order,
}
use workato_take_home.System.Invariant.Tasks.{
  TaskOk, followup-TaskOk, cancelled-TaskOk, reopened-TaskOk,
}
use workato_take_home.System.Invariant.State.{
  Serves, Inv, SameWork, is_live, image-Inv, image-TaskOk, image-HasWork,
}
use workato_take_home.System.Invariant.Worker.{apply-SameWork}
use workato_take_home.System.Invariant.Followup.{Extends, insert-Extends}

same_work : (now : Time) (t : Task) → SameWork (reopened now t) t
same_work now t = record { id = refl; order = refl; work = refl; target = refl }

-- The reset of the failed tasks of an order keeps the invariant.
module _ (fresh : Uuid → Uuid) (order : Uuid) (now : Time) (db : Db) (h : Inv db) where
  abbrev reset : Task → Task
  reset = apply_if (failed_task_of order) (reopened now)

  reset-TaskOk : (k : ℕ) (t : Task) → find_task k db ≡ some t → TaskOk t → TaskOk (reset t)
  reset-TaskOk k t there ok = elim (Bool-cases (failed_task_of order t)) [
    | inl hit ↦ rw hit (reopened-TaskOk t now ok)
    | inr miss ↦ rw miss ok
  ]

  reset-live :
      (t : Task) (o : Order)
      → find_task t.id db ≡ some t
      → find_order t.order_id db ≡ some o
      → Serves t o
      → is_live (reset t).status ≡ true
  reset-live t o there found s = elim (Bool-cases (failed_task_of order t)) [
    | inl hit ↦ rw hit refl
    | inr miss ↦ rw miss s.live
  ]

  pub retry-Inv : Inv (retry_failed_tasks_for_order fresh order now db).0
  unfolding retry_failed_tasks_for_order
  retry-Inv = elim (Option-cases (find_order order db)) [
    | inl e ↦ rw (e, reset_failed) h
    | inr (o, e) ↦
        elim (Bool-cases
          (violates_unique_key (update_where (failed_task_of order) (reopened now) db.tasks))) [
            | inl bad ↦ rw (e, reset_failed) (rw bad h)
            | inr good ↦
                rw (e, reset_failed)
                  (rw good (
                    image-Inv db _ reset
                      (Image-update_where task_id_of (failed_task_of order) (reopened now) db.tasks
                        (λ t. refl))
                      _ h
                      (Distinct-update_where task_id_of (failed_task_of order) (reopened now)
                        db.tasks (λ t. refl) h.distinct)
                      (apply-SameWork (reopened now) (same_work now) (failed_task_of order))
                      reset-TaskOk reset-live))
          ]
  ]

-- An accepted order comes with its first task.
module _ (fresh : FreshOrder) (now : Time) (o : Order) (db : Db) (named : o.id ≡ fresh.order)
    (begins : o.state ≡ placed) (no_task : find_task fresh.task db ≡ none) (h : Inv db) where
  abbrev first : Task
  first = followup_task fresh.task fresh.order advance_state confirmed now none now

  first-Extends : Extends db.tasks (first ∷ db.tasks)
  first-Extends = insert-Extends db.tasks h.distinct h.task_ok first no_task (
      followup-TaskOk fresh.task fresh.order advance_state confirmed now none now
        (λ p. absurd (cc)))

  first-Serves : Serves first o
  unfolding next_order_state
  first-Serves = record {
    of_order = sym named;
    work = rw begins refl;
    target = rw begins refl;
    live = refl;
  }

  served_first :
      (k : ℕ) (p : Order)
      → find order_id_of k (o ∷ db.orders) ≡ some p
      → is_terminal_order_state p.state ≡ false
      → (t : Task) × (find task_id_of t.id (first ∷ db.tasks) ≡ some t) × Serves t p
  served_first k p there on = elim (Bool-cases (eqb o.id k)) [
    | inl e ↦
        let same : o ≡ p = ground (arith, find-cons order_id_of o k db.orders) in
        (first, find_head task_id_of first db.tasks, subst (Serves first) same first-Serves)
    | inr e ↦
        let old : find_order k db ≡ some p = ground (arith, find-cons order_id_of o k db.orders) in
        let (t, found, s) = h.served k p old on in (t, first-Extends.kept t found, s)
  ]

  insert_order-Inv : Inv (insert_order fresh o now db).0
  unfolding insert_order
  insert_order-Inv =
      elim (Bool-cases
        (exists_where (active_duplicate fresh.order advance_state confirmed) db.tasks)) [
          | inl dup ↦ rw dup h
          | inr free ↦ rw free (record {
            distinct = first-Extends.distinct;
            task_ok = first-Extends.task_ok;
            served = served_first;
          })
        ]

pub intake-Inv :
    (fresh : FreshOrder) (now : Time) (key restaurant : String) (customer : Option String) (db : Db)
    → find_task fresh.task db ≡ none
    → Inv db
    → Inv (create_or_get_order fresh now key restaurant customer db).0
unfolding create_or_get_order
intake-Inv fresh now key restaurant customer db no_task h =
    elim (Option-cases (find_by_key key db.orders)) [
      | inl e ↦
          rw (e, create_or_get_order)
            (insert_order-Inv fresh now (placed_order fresh.order key restaurant customer now) db
              refl refl no_task h)
      | inr (o, e) ↦ rw (e, create_or_get_order) h
    ]

-- A cancellation ends the order, and cancels only tasks of that order.
module _ (event order : Uuid) (now : Time) (db : Db) (h : Inv db) where
  abbrev cancel : Task → Task
  cancel = apply_if (open_task_of order) (cancelled_task now)

  cancel-TaskOk : (k : ℕ) (t : Task) → find_task k db ≡ some t → TaskOk t → TaskOk (cancel t)
  cancel-TaskOk k t there ok = elim (Bool-cases (open_task_of order t)) [
    | inl hit ↦ rw hit (cancelled-TaskOk t now (ground arith) ok)
    | inr miss ↦ rw miss ok
  ]

  cancel-live :
      (o : Order) → o.id ≢ order → (t : Task) → Serves t o → is_live (cancel t).status ≡ true
  cancel-live o ne t s = elim (Bool-cases (open_task_of order t)) [
    | inl hit ↦ absurd (ne (sym s.of_order ∙ (eqb_iff t.order_id order).0 (ground arith)))
    | inr miss ↦ rw miss s.live
  ]

  cancel_served :
      (k : ℕ) (p : Order)
      → find order_id_of k
          (update_by_id order_id_of order (λ _. true) (cancelled_order now) db.orders)
        ≡ some p
      → is_terminal_order_state p.state ≡ false
      → (k ≢ order) × (find_order k db ≡ some p)
  unfolding is_terminal_order_state
  cancel_served k p there on =
      let after =
        find-update_by_id order_id_of order (λ _. true) (cancelled_order now) k db.orders
          (λ o. refl) in
      elim (Bool-cases (eqb order k)) [
        | inl e ↦ absurd (ground (arith, after))
        | inr ne ↦ (ground arith, ground (arith, after))
      ]

  images :
      Image task_id_of cancel db.tasks
        (update_where (open_task_of order) (cancelled_task now) db.tasks)
  images =
      Image-update_where task_id_of (open_task_of order) (cancelled_task now) db.tasks (λ t. refl)

  cancelled_same : (t : Task) → SameWork (cancelled_task now t) t
  cancelled_same t = record { id = refl; order = refl; work = refl; target = refl }

  cancel_found-Inv : (o : Option Order) → Inv (cancel_found event order now o db).0
  unfolding cancel_found
  cancel_found-Inv none = h
  cancel_found-Inv (some o) = elim (Bool-cases (is_terminal_order_state o.state)) [
    | inl end ↦ rw end h
    | inr on ↦ rw on (record {
      distinct =
          Distinct-update_where task_id_of (open_task_of order) (cancelled_task now) db.tasks
            (λ t. refl) h.distinct;
      task_ok = image-TaskOk db _ cancel images h.task_ok cancel-TaskOk db.orders db.events;
      served = λ k p there still.
          let (ne, old) = cancel_served k p there still in
          image-HasWork db _ cancel images p db.orders db.events
            (apply-SameWork (cancelled_task now) cancelled_same (open_task_of order))
            (λ t found s.
              cancel-live p (λ e. ne (sym (find_id order_id_of k db.orders p old) ∙ e)) t s)
            (h.served k p old still);
    })
  ]

  pub cancel-Inv : Inv (cancel_order event order now db).0
  unfolding cancel_order
  cancel-Inv = cancel_found-Inv (find_order order db)
