-- ===== src/Dashboard/Ranked.antt =====
-- backend/api/dashboard_store.py: an `order by` with a `limit`, as a choice of the first rows.
use workato_take_home.Prelude.{
  ℕ, zero, suc, ◌≤◌, ◌≡◌, refl, ap, sym, subst, Bool, true, false, List, [], ◌∷◌, length, arith,
  inl, inr, ◌⊎◌, Bool-cases,
}
use workato_take_home.Store.Table.{select_where}
use workato_take_home.Store.Members.{Member, moved, select_where-Member, select_where-keeps}
use workato_take_home.Dashboard.Select.{insert_by, order_by, limit_rows}

module _ {R : Type 0} where
  -- No row goes before one that stands ahead of it.
  abbrev pub Ranked : (R → R → Bool) → List R → Type 0
  Ranked behind [] = Unit
  Ranked behind (r ∷ rows) = ((s : R) → Member s rows → behind r s ≡ false) × Ranked behind rows

  -- The laws of an order by which rows are sorted.
  pub record RowOrder (behind : R → R → Bool) : Type 0 where
    pub asymmetric : (r s : R) → behind r s ≡ true → behind s r ≡ false
    pub transitive : (r s t : R) → behind r s ≡ false → behind s t ≡ false → behind r t ≡ false

  module _ (behind : R → R → Bool) where
    insert_by-Member :
        (x r : R) (rows : List R) → Member x (insert_by behind r rows) → Member x (r ∷ rows)
    unfolding insert_by
    insert_by-Member x r [] m = m
    insert_by-Member x r (s ∷ rows) m = elim (Bool-cases (behind r s)) [
      | inl after ↦
          elim (moved x (insert_by behind r (s ∷ rows)) (s ∷ insert_by behind r rows)
            (rw (after, insert_by) refl) m) [
              | inl e ↦ inr (inl e)
              | inr m' ↦ elim (insert_by-Member x r rows m') [
                | inl e ↦ inl e
                | inr m'' ↦ inr (inr m'')
              ]
            ]
      | inr before ↦
          moved x (insert_by behind r (s ∷ rows)) (r ∷ s ∷ rows) (rw (before, insert_by) refl) m
    ]

    insert_by-keeps :
        (x r : R) (rows : List R) → Member x (r ∷ rows) → Member x (insert_by behind r rows)
    unfolding insert_by
    insert_by-keeps x r [] m = m
    insert_by-keeps x r (s ∷ rows) m = elim (Bool-cases (behind r s)) [
      | inl after ↦
          rw (after, insert_by)
            (elim m [
              | inl e ↦ inr (insert_by-keeps x r rows (inl e))
              | inr (inl e) ↦ inl e
              | inr (inr m') ↦ inr (insert_by-keeps x r rows (inr m'))
            ])
      | inr before ↦ rw (before, insert_by) m
    ]

    pub order_by-Member : (x : R) (rows : List R) → Member x (order_by behind rows) → Member x rows
    unfolding order_by
    order_by-Member x [] m = m
    order_by-Member x (r ∷ rows) m = elim (insert_by-Member x r (order_by behind rows) m) [
      | inl e ↦ inl e
      | inr m' ↦ inr (order_by-Member x rows m')
    ]

    pub order_by-keeps : (x : R) (rows : List R) → Member x rows → Member x (order_by behind rows)
    unfolding order_by
    order_by-keeps x [] m = m
    order_by-keeps x (r ∷ rows) (inl e) = insert_by-keeps x r (order_by behind rows) (inl e)
    order_by-keeps x (r ∷ rows) (inr m) =
        insert_by-keeps x r (order_by behind rows) (inr (order_by-keeps x rows m))

    module _ (laws : RowOrder behind) where
      insert_by-Ranked :
          (r : R) (rows : List R) → Ranked behind rows → Ranked behind (insert_by behind r rows)
      unfolding insert_by
      insert_by-Ranked r [] ranked = (λ s m. absurd m, tt)
      insert_by-Ranked r (s ∷ rows) (ahead, ranked) = elim (Bool-cases (behind r s)) [
        | inl after ↦
            rw (after, insert_by)
              (
                λ x m. elim (insert_by-Member x r rows m) [
                  | inl e ↦ subst (λ y. behind s y ≡ false) (sym e) (laws.asymmetric r s after)
                  | inr m' ↦ ahead x m'
                ],
                insert_by-Ranked r rows ranked,
              )
        | inr before ↦
            rw (before, insert_by)
              (
                λ x m. elim m [
                  | inl e ↦ subst (λ y. behind r y ≡ false) (sym e) before
                  | inr m' ↦ laws.transitive r s x before (ahead x m')
                ],
                (ahead, ranked),
              )
      ]

      pub order_by-Ranked : (rows : List R) → Ranked behind (order_by behind rows)
      unfolding order_by
      order_by-Ranked [] = tt
      order_by-Ranked (r ∷ rows) = insert_by-Ranked r (order_by behind rows) (order_by-Ranked rows)

    pub limit_rows-Member :
        (x : R) (n : ℕ) (rows : List R) → Member x (limit_rows n rows) → Member x rows
    unfolding limit_rows
    limit_rows-Member x zero rows m = absurd m
    limit_rows-Member x (suc n) [] m = m
    limit_rows-Member x (suc n) (r ∷ rows) (inl e) = inl e
    limit_rows-Member x (suc n) (r ∷ rows) (inr m) = inr (limit_rows-Member x n rows m)

    pub limit_rows-Ranked :
        (n : ℕ) (rows : List R) → Ranked behind rows → Ranked behind (limit_rows n rows)
    unfolding limit_rows
    limit_rows-Ranked zero rows ranked = tt
    limit_rows-Ranked (suc n) [] ranked = tt
    limit_rows-Ranked (suc n) (r ∷ rows) (ahead, ranked) =
        (λ x m. ahead x (limit_rows-Member x n rows m), limit_rows-Ranked n rows ranked)

    pub length-limit_rows : (n : ℕ) (rows : List R) → length (limit_rows n rows) ≤ n
    unfolding limit_rows
    length-limit_rows zero rows = omega arith
    length-limit_rows (suc n) [] = omega arith
    length-limit_rows (suc n) (r ∷ rows) = omega (arith, length-limit_rows n rows)

    -- A row that a limit cuts off goes before none of the rows that it keeps, and those are as many as the limit.
    pub limit_rows-cut :
        (x : R) (n : ℕ) (rows : List R)
        → Ranked behind rows
        → Member x rows
        → Member x (limit_rows n rows)
          ⊎ (length (limit_rows n rows) ≡ n)
            × ((y : R) → Member y (limit_rows n rows) → behind y x ≡ false)
    unfolding limit_rows
    limit_rows-cut x zero rows ranked m = inr (refl, λ y m'. absurd m')
    limit_rows-cut x (suc n) [] ranked m = inl m
    limit_rows-cut x (suc n) (r ∷ rows) (ahead, ranked) (inl e) = inl (inl e)
    limit_rows-cut x (suc n) (r ∷ rows) (ahead, ranked) (inr m) =
        elim (limit_rows-cut x n rows ranked m) [
          | inl kept ↦ inl (inr kept)
          | inr (full, after) ↦ inr (
            ap suc full,
            λ y m'. elim m' [
              | inl e ↦ subst (λ z. behind z x ≡ false) (sym e) (ahead x m)
              | inr m'' ↦ after y m''
            ],
          )
        ]

-- The first rows by an order, of those that a condition selects.
pub record First {R : Type 0} (n : ℕ) (behind : R → R → Bool) (guard : R → Bool)
    (rows items : List R) : Type 0 where
  pub bounded : length items ≤ n
  pub ranked : Ranked behind items
  pub sound : (x : R) → Member x items → Member x rows × (guard x ≡ true)
  pub complete :
      (x : R)
      → Member x rows
      → guard x ≡ true
      → Member x items ⊎ (length items ≡ n) × ((y : R) → Member y items → behind y x ≡ false)

pub limit_rows-First :
    {R : Type 0} (n : ℕ) (behind : R → R → Bool) (laws : RowOrder behind) (guard : R → Bool)
    (rows : List R)
    → First n behind guard rows (limit_rows n (order_by behind (select_where guard rows)))
limit_rows-First n behind laws guard rows =
    let chosen = select_where guard rows in
    let sorted = order_by behind chosen in
    let ranked = order_by-Ranked behind laws chosen in
    record {
      bounded = length-limit_rows behind n sorted;
      ranked = limit_rows-Ranked behind n sorted ranked;
      sound = λ x m.
          select_where-Member x guard rows
            (order_by-Member behind x chosen (limit_rows-Member behind x n sorted m));
      complete = λ x m h.
          limit_rows-cut behind x n sorted ranked
            (order_by-keeps behind x chosen (select_where-keeps x guard rows m h));
    }
