-- ===== src/Dashboard/Listed.antt =====
-- backend/api/dashboard_store.py: which orders the attention list of the dashboard shows, and in which
-- order.
use workato_take_home.Prelude.{
  ℕ, suc, ◌+◌, ◌≤◌, ◌≡◌, refl, ap, sym, ◌∙◌, Bool, true, false, ◌&&◌, ◌||◌, not, Option, List, [],
  ◌∷◌, map, length, arith, inl, inr, ◌⊎◌, Bool-cases, ltb, eqb,
}
use workato_take_home.Common.StateMachine.{OrderState}
use workato_take_home.Store.Table.{select_where}
use workato_take_home.Store.Schema.{Time, Order, Db}
use workato_take_home.Dashboard.Select.{count_where, order_by}
use workato_take_home.Store.Members.{Member, select_where-Member, select_where-keeps}
use workato_take_home.Dashboard.Ranked.{
  Ranked, RowOrder, order_by-Member, order_by-keeps, order_by-Ranked, limit_rows-Member,
  limit_rows-Ranked, length-limit_rows, limit_rows-cut,
}
use workato_take_home.Dashboard.Attention.{
  Seconds, ago, ahead, shorter, Attention, attention_row, needs_attention, attention_rank, longest,
  attention_behind, attention_rows, AttentionOverview, load_attention_order_overview,
}

-- A signed number of seconds as a difference.
past : Seconds → ℕ
past (ago a) = a
past (ahead a) = 0

future : Seconds → ℕ
future (ago a) = 0
future (ahead a) = a

shorter-difference : (a b : Seconds) → shorter a b ≡ ltb (past a + future b) (past b + future a)
unfolding shorter past future
shorter-difference (ago a) (ago b) = ground arith
shorter-difference (ago a) (ahead b) = ground arith
shorter-difference (ahead a) (ago b) = ground arith
shorter-difference (ahead a) (ahead b) = ground arith

-- `attention_behind` on ranks, differences and times.
key_behind : ℕ → ℕ → ℕ → ℕ → ℕ → ℕ → ℕ → ℕ → Bool
key_behind r p f c r' p' f' c' =
    ltb r' r || (eqb r' r && (ltb (p + f') (p' + f) || (not (ltb (p' + f) (p + f')) && ltb c' c)))

key_asymmetric :
    (r p f c r' p' f' c' : ℕ)
    → key_behind r p f c r' p' f' c' ≡ true
    → key_behind r' p' f' c' r p f c ≡ false
unfolding key_behind
key_asymmetric r p f c r' p' f' c' h = ground (arith, h)

key_transitive :
    (r p f c r' p' f' c' r'' p'' f'' c'' : ℕ)
    → key_behind r p f c r' p' f' c' ≡ false
    → key_behind r' p' f' c' r'' p'' f'' c'' ≡ false
    → key_behind r p f c r'' p'' f'' c'' ≡ false
unfolding key_behind
key_transitive r p f c r' p' f' c' r'' p'' f'' c'' h k = ground (arith, h, k)

abbrev behind_by_key : Attention → Attention → Bool
behind_by_key a b =
    key_behind (attention_rank a) (past (longest a)) (future (longest a)) a.order.created_at
      (attention_rank b) (past (longest b)) (future (longest b)) b.order.created_at

by_key : (a b : Attention) → attention_behind a b ≡ behind_by_key a b
unfolding attention_behind key_behind
by_key a b =
    rw (shorter-difference (longest a) (longest b), shorter-difference (longest b) (longest a)) refl

attention_behind-RowOrder : RowOrder attention_behind
attention_behind-RowOrder = record {
  asymmetric = λ a b h.
      by_key b a
      ∙ key_asymmetric (attention_rank a) (past (longest a)) (future (longest a)) a.order.created_at
          (attention_rank b) (past (longest b)) (future (longest b)) b.order.created_at
          (sym (by_key a b) ∙ h);
  transitive = λ a b c h k.
      by_key a c
      ∙ key_transitive (attention_rank a) (past (longest a)) (future (longest a)) a.order.created_at
          (attention_rank b) (past (longest b)) (future (longest b)) b.order.created_at
          (attention_rank c) (past (longest c)) (future (longest c)) c.order.created_at
          (sym (by_key a b) ∙ h) (sym (by_key b c) ∙ k);
}

Member-map :
    {A B : Type 0} (f : A → B) (x : A) (rows : List A) → Member x rows → Member (f x) (map f rows)
Member-map f x [] m = absurd m
Member-map f x (r ∷ rows) (inl e) = inl (ap f e)
Member-map f x (r ∷ rows) (inr m) = inr (Member-map f x rows m)

map-Member :
    {A B : Type 0} (f : A → B) (y : B) (rows : List A)
    → Member y (map f rows)
    → (x : A) × (Member x rows × (y ≡ f x))
map-Member f y [] m = absurd m
map-Member f y (r ∷ rows) (inl e) = (r, (inl refl, e))
map-Member f y (r ∷ rows) (inr m) =
    let (x, (there, e)) = map-Member f y rows m in (x, (inr there, e))

count_all :
    {A B : Type 0} (f : A → B) (guard : A → Bool) (rows : List A)
    → count_where (λ b. true) (map f (select_where guard rows)) ≡ count_where guard rows
unfolding count_where select_where
count_all f guard [] = refl
count_all f guard (r ∷ rows) = elim (Bool-cases (guard r)) [
  | inl fits ↦ rw (fits, select_where) (ap suc (count_all f guard rows))
  | inr out ↦ rw (out, select_where) (count_all f guard rows)
]

-- What the attention list shows of a database.
pub record Shows (now : Time) (sla : ℕ) (thresholds : OrderState → Option ℕ) (db : Db)
    (view : AttentionOverview) : Type 0 where
  pub counted : view.total ≡ count_where (needs_attention now sla thresholds db) db.orders
  pub bounded : length view.items ≤ 50
  pub ranked : Ranked attention_behind view.items
  pub sound :
      (a : Attention)
      → Member a view.items
      → (o : Order) × (Member o db.orders
          × ((needs_attention now sla thresholds db o ≡ true)
              × (a ≡ attention_row now sla thresholds db o)))
  pub complete :
      (o : Order)
      → Member o db.orders
      → needs_attention now sla thresholds db o ≡ true
      → Member (attention_row now sla thresholds db o) view.items
        ⊎ (length view.items ≡ 50)
          × ((a : Attention)
              → Member a view.items
              → attention_behind a (attention_row now sla thresholds db o) ≡ false)

-- The attention list counts all orders that need attention, shows at most 50 rows, each the row of such an order, none
-- before a row that the order of the query puts first; and an order that needs attention is missing only if 50 rows are
-- shown and it goes before none of them.
pub load_attention_order_overview-Shows :
    (now : Time) (sla : ℕ) (thresholds : OrderState → Option ℕ) (db : Db)
    → Shows now sla thresholds db (load_attention_order_overview now sla thresholds db)
unfolding load_attention_order_overview attention_rows
load_attention_order_overview-Shows now sla thresholds db =
    let needs = needs_attention now sla thresholds db in
    let shown = attention_row now sla thresholds db in
    let rows = attention_rows now sla thresholds db in
    let sorted = order_by attention_behind rows in
    let ranked = order_by-Ranked attention_behind attention_behind-RowOrder rows in
    record {
      counted = count_all shown needs db.orders;
      bounded = length-limit_rows attention_behind 50 sorted;
      ranked = limit_rows-Ranked attention_behind 50 sorted ranked;
      sound = λ a m.
          let there =
            order_by-Member attention_behind a rows
              (limit_rows-Member attention_behind a 50 sorted m) in
          let (o, (selected, e)) = map-Member shown a (select_where needs db.orders) there in
          let (stored, h) = select_where-Member o needs db.orders selected in (o, (stored, (h, e)));
      complete = λ o m h. limit_rows-cut attention_behind (shown o) 50 sorted ranked (
          order_by-keeps attention_behind (shown o) rows (
            Member-map shown o (select_where needs db.orders)
              (select_where-keeps o needs db.orders m h)));
    }
