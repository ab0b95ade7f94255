-- ===== src/Dashboard/History.antt =====
-- backend/api/dashboard_store.py: what the detail view of an order shows.
use workato_take_home.Prelude.{
  ℕ, ◌<◌, ◌≤◌, ◌≡◌, ◌⊎◌, inl, inr, refl, Bool, false, Option, none, some, List, [], ◌∷◌, length,
  arith, ◌==◌, ==→≡, ==_refl, nat_eq,
}
use workato_take_home.Store.Schema.{Uuid, Order, Task, Event, Db}
use workato_take_home.Store.Members.{Member}
use workato_take_home.Store.Query.{find_order}
use workato_take_home.Dashboard.Ranked.{Ranked, RowOrder, First, limit_rows-First}
use workato_take_home.Dashboard.Details.{
  OrderDetail, task_older, event_later, detail_of, get_dashboard_order_detail,
}

task_older-RowOrder : RowOrder task_older
unfolding task_older
task_older-RowOrder = record {
  asymmetric = λ t u h. ground (arith, h);
  transitive = λ t u v h k. ground (arith, h, k);
}

event_later-RowOrder : RowOrder event_later
unfolding event_later
event_later-RowOrder = record {
  asymmetric = λ e f h. ground (arith, h);
  transitive = λ e f g h k. ground (arith, h, k);
}

-- Each item goes before those behind it.
abbrev pub InOrder : {R : Type 0} → (R → R → Type 0) → List R → Type 0
InOrder Before [] = Unit
InOrder Before (x ∷ items) = ((y : _) → Member y items → Before x y) × InOrder Before items

-- The task that was created later is newer; at one instant of creation the one that was changed later,
-- and then the one with the greater key.
pub NotOlder : Task → Task → Type 0
NotOlder t u =
    (u.created_at < t.created_at)
    ⊎ (u.created_at ≡ t.created_at)
      × ((u.updated_at < t.updated_at) ⊎ (u.updated_at ≡ t.updated_at) × (u.id ≤ t.id))

-- The event that occurred earlier is earlier; at one instant the one with the smaller key.
pub NotLater : Event → Event → Type 0
NotLater e f = (e.occurred_at < f.occurred_at) ⊎ (e.occurred_at ≡ f.occurred_at) × (e.id ≤ f.id)

-- The first `n` rows of those of an order: as many as there are up to `n`, in order, and no row that
-- is left out goes before one that is not.
pub record FirstOf {R : Type 0} (n : ℕ) (order_of : R → Uuid) (Before : R → R → Type 0)
    (order : Uuid) (rows items : List R) : Type 0 where
  pub bounded : length items ≤ n
  pub ordered : InOrder Before items
  pub own : (x : R) → Member x items → Member x rows × (order_of x ≡ order)
  pub complete :
      (x : R)
      → Member x rows
      → order_of x ≡ order
      → Member x items ⊎ (length items ≡ n) × ((y : R) → Member y items → Before y x)

-- What the detail of an order is.
pub record History (db : Db) (o : Order) (detail : OrderDetail) : Type 0 where
  pub order : detail.order ≡ o
  pub tasks : FirstOf 50 (λ t. t.order_id) NotOlder o.id db.tasks detail.tasks
  pub events : FirstOf 50 (λ e. e.order_id) NotLater o.id db.events detail.events

task_older-NotOlder : (t u : Task) → task_older t u ≡ false → NotOlder t u
unfolding task_older NotOlder
task_older-NotOlder t u h = ground (arith, h)

event_later-NotLater : (e f : Event) → event_later e f ≡ false → NotLater e f
unfolding event_later NotLater
event_later-NotLater e f h = ground (arith, h)

module _ {R : Type 0} (behind : R → R → Bool) (Before : R → R → Type 0)
    (means : (x y : R) → behind x y ≡ false → Before x y) where
  Ranked-InOrder : (items : List R) → Ranked behind items → InOrder Before items
  Ranked-InOrder [] ranked = tt
  Ranked-InOrder (x ∷ items) (ahead, ranked) =
      (λ y m. means x y (ahead y m), Ranked-InOrder items ranked)

  First-FirstOf :
      (n : ℕ) (order_of : R → Uuid) (order : Uuid) (rows items : List R)
      → First n behind (λ x. order_of x == order) rows items
      → FirstOf n order_of Before order rows items
  First-FirstOf n order_of order rows items f = record {
    bounded = f.bounded;
    ordered = Ranked-InOrder items f.ranked;
    own = λ x m. let (there, same) = f.sound x m in (there, ==→≡ (order_of x) order same);
    complete = λ x there same. elim (f.complete x there (rw same (==_refl order))) [
      | inl shown ↦ inl shown
      | inr (full, after) ↦ inr (full, λ y m. means y x (after y m))
    ];
  }

-- The view of the order that a key finds, if it finds one.
abbrev pub Viewed : Db → Option Order → Option OrderDetail → Type 0
Viewed db none view = view ≡ none
Viewed db (some o) view = (d : OrderDetail) × ((view ≡ some d) × History db o d)

detail_of-Viewed : (db : Db) (found : Option Order) → Viewed db found (detail_of db found)
unfolding detail_of
detail_of-Viewed db none = refl
detail_of-Viewed db (some o) = (
  _,
  (
    refl,
    record {
      order = refl;
      tasks =
          First-FirstOf task_older NotOlder task_older-NotOlder 50 (λ t. t.order_id) o.id db.tasks _
            (limit_rows-First 50 task_older task_older-RowOrder (λ t. t.order_id == o.id) db.tasks);
      events =
          First-FirstOf event_later NotLater event_later-NotLater 50 (λ e. e.order_id) o.id
            db.events _
            (limit_rows-First 50 event_later event_later-RowOrder (λ e. e.order_id == o.id)
              db.events);
    },
  ),
)

-- The detail view of a key finds nothing where no order has the key, and else shows the order, with its newest 50 task
-- rows, the newest first, and its earliest 50 events in the order in which they occurred, and none of another order.
pub get_dashboard_order_detail-Viewed :
    (id : Uuid) (db : Db) → Viewed db (find_order id db) (get_dashboard_order_detail id db)
unfolding get_dashboard_order_detail
get_dashboard_order_detail-Viewed id db = detail_of-Viewed db (find_order id db)
