-- ===== src/System/Invariant/Worker.antt =====
-- The invariant through a claim, and through the effects that put a task back or drop it.
use workato_take_home.Prelude.{
  ℕ, ◌≡◌, refl, String, Bool, true, some, arith, eqb_iff, Bool-cases, Option-cases, inl, inr, ◌≢◌,
  subst, sym, ◌∙◌,
}
use workato_take_home.Common.StateMachine.{OrderState, next_order_state}
use workato_take_home.Store.Table.{update_by_id, apply_if, find_id}
use workato_take_home.Store.Lookup.{addressed, Image-update_by_id, find_at}
use workato_take_home.Store.Distinct.{Distinct-update_by_id}
use workato_take_home.Store.Schema.{Uuid, Time, Order, Task, Db}
use workato_take_home.Store.Query.{task_id_of, find_order, find_task}
use workato_take_home.Worker.Lease.{owned_by, completed_task}
use workato_take_home.Worker.Claim.{candidate, claim_one_task, leased}
use workato_take_home.Worker.Claim.Choice.{candidate-chosen}
use workato_take_home.System.Effect.{PutBack, releases, retries, polls, fails, times_out, on_owned}
use workato_take_home.System.Invariant.Tasks.{
  TaskOk, PutBack-TaskOk, completed-TaskOk, leased-TaskOk,
}
use workato_take_home.System.Invariant.State.{Serves, Inv, SameWork, is_live, image-Inv}

PutBack-SameWork : (t : Task) (f : Task → Task) → PutBack t f → (s : Task) → SameWork (f s) s
PutBack-SameWork t f (releases n e u) s = record {
  id = refl;
  order = refl;
  work = refl;
  target = refl;
}
PutBack-SameWork t f (retries n e u more) s = record {
  id = refl;
  order = refl;
  work = refl;
  target = refl;
}
PutBack-SameWork t f (polls n u) s = record { id = refl; order = refl; work = refl; target = refl }
PutBack-SameWork t f (fails e u over) s = record {
  id = refl;
  order = refl;
  work = refl;
  target = refl;
}
PutBack-SameWork t f (times_out e u) s = record {
  id = refl;
  order = refl;
  work = refl;
  target = refl;
}

PutBack-live : (t : Task) (f : Task → Task) → PutBack t f → (s : Task) → is_live (f s).status ≡ true
PutBack-live t f (releases n e u) s = refl
PutBack-live t f (retries n e u more) s = refl
PutBack-live t f (polls n u) s = refl
PutBack-live t f (fails e u over) s = refl
PutBack-live t f (times_out e u) s = refl

module _ (f : Task → Task) (same : (s : Task) → SameWork (f s) s) where
  -- A conditional update leaves alone what the update does.
  pub apply-SameWork : (guard : Task → Bool) (s : Task) → SameWork (apply_if guard f s) s
  apply-SameWork guard s = elim (Bool-cases (guard s)) [
    | inl hit ↦ rw hit (same s)
    | inr miss ↦ rw miss (record { id = refl; order = refl; work = refl; target = refl })
  ]

-- The row that an update by key reaches is the one that the key finds.
reached_row :
    (db : Db) (guard : Task → Bool) (t s : Task) (k : ℕ)
    → find_task t.id db ≡ some t
    → find_task k db ≡ some s
    → addressed task_id_of t.id guard s ≡ true
    → (s ≡ t) × (guard t ≡ true)
reached_row db guard t s k found there hit =
    let key = find_id task_id_of k db.tasks s there in
    let same : s.id ≡ t.id = (eqb_iff s.id t.id).0 (ground arith) in
    let e : s ≡ t = cc (find_at task_id_of db.tasks t.id k s (sym same ∙ key) there) in
    (e, subst (λ x. guard x ≡ true) e (ground arith))

-- An update of one task that keeps its row in order, and keeps it live if its order needs it.
module _ (db : Db) (t : Task) (guard : Task → Bool) (f : Task → Task) where
  pub update-Inv :
      find_task t.id db ≡ some t
      → ((s : Task) → SameWork (f s) s)
      → (guard t ≡ true → TaskOk t → TaskOk (f t))
      → ((o : Order) → find_order t.order_id db ≡ some o → Serves t o → is_live (f t).status ≡ true)
      → Inv db
      → Inv (record db { tasks = update_by_id task_id_of t.id guard f db.tasks })
  update-Inv found same keeps alive h =
      image-Inv db _ (apply_if (addressed task_id_of t.id guard) f)
        (Image-update_by_id task_id_of t.id guard f db.tasks (λ s. (same s).id)) db.events h
        (Distinct-update_by_id task_id_of t.id guard f db.tasks (λ s. (same s).id) h.distinct)
        (apply-SameWork f same (addressed task_id_of t.id guard)) row_ok row_live
    where
      row_ok :
          (k : ℕ) (s : Task)
          → find_task k db ≡ some s
          → TaskOk s
          → TaskOk (apply_if (addressed task_id_of t.id guard) f s)
      row_ok k s there ok = elim (Bool-cases (addressed task_id_of t.id guard s)) [
        | inr miss ↦ rw miss ok
        | inl hit ↦
            let (e, on) = reached_row db guard t s k found there hit in
            rw hit (subst (λ x. TaskOk (f x)) (sym e) (keeps on (subst TaskOk e ok)))
      ]

      row_live :
          (s : Task) (o : Order)
          → find_task s.id db ≡ some s
          → find_order s.order_id db ≡ some o
          → Serves s o
          → is_live (apply_if (addressed task_id_of t.id guard) f s).status ≡ true
      row_live s o there order serves = elim (Bool-cases (addressed task_id_of t.id guard s)) [
        | inr miss ↦ rw miss serves.live
        | inl hit ↦
            let (e, on) = reached_row db guard t s s.id found there hit in
            rw hit (
              subst (λ x. is_live (f x).status ≡ true) (sym e)
                (alive o (subst (λ x. find_order x.order_id db ≡ some o) e order)
                  (subst (λ x. Serves x o) e serves)))
      ]

module _ (w : String) (db : Db) (t : Task) (found : find_task t.id db ≡ some t) (h : Inv db) where
  pub PutBack-Inv : (f : Task → Task) → PutBack t f → Inv (on_owned w t f db)
  PutBack-Inv f p =
      update-Inv db t (owned_by w) f found (PutBack-SameWork t f p) (PutBack-TaskOk w t f p)
        (λ o order s. PutBack-live t f p t) h

  pub dropped-Inv :
      (o : Order) (target : OrderState) (now : Time)
      → find_order t.order_id db ≡ some o
      → t.target_state ≡ some target
      → next_order_state o.state ≢ some target
      → Inv (on_owned w t (completed_task now) db)
  dropped-Inv o target now order aim ne =
      update-Inv db t (owned_by w) (completed_task now) found
        (λ s. record { id = refl; order = refl; work = refl; target = refl })
        (λ _ ok. completed-TaskOk t now ok) (λ p there s. absurd (ne (unneeded p there s))) h
    where
      unneeded :
          (p : Order)
          → find_order t.order_id db ≡ some p
          → Serves t p
          → next_order_state o.state ≡ some target
      unneeded p there s = cc (s.target)

-- A claim keeps the invariant.
pub claim-Inv :
    (locked : Uuid → Bool) (w : String) (now : Time) (db : Db)
    → Inv db
    → Inv (claim_one_task locked w now db).0
unfolding claim_one_task
claim-Inv locked w now db h = elim (Option-cases (candidate locked now db.tasks)) [
  | inl e ↦ rw (e, claim_one_task) h
  | inr (t, e) ↦
      let (found, free) = candidate-chosen locked now db.tasks t h.distinct e in
      rw (e, claim_one_task)
        (update-Inv db t (λ _. true) (leased w now) found
          (λ s. record { id = refl; order = refl; work = refl; target = refl })
          (λ _ ok. leased-TaskOk w t now (ground arith) ok) (λ o order s. refl) h)
]
