-- ===== src/Dashboard/Select.antt =====
-- backend/api/dashboard_store.py: the clauses of its statements. Rows that tie in an `order by` come in
-- the order of the table, the last insertion first.
use workato_take_home.Prelude.{
  ℕ, zero, suc, Bool, Option, none, some, List, [], ◌∷◌, if◌then◌else◌, Comparable, ◌==◌,
}

module _ {ℓ} {R : Type ℓ} where
  -- `count(*) filter (where …)`
  unfoldable pub count_where : (R → Bool) → List R → ℕ
  count_where guard [] = 0
  count_where guard (r ∷ rows) =
      let rest = count_where guard rows in if guard r then suc rest else rest

  -- `order by`, where `behind r s` says that `s` goes before `r`.
  unfoldable pub insert_by : (R → R → Bool) → R → List R → List R
  insert_by behind r [] = r ∷ []
  insert_by behind r (s ∷ rows) =
      let rest = insert_by behind r rows in if behind r s then s ∷ rest else r ∷ s ∷ rows

  unfoldable pub order_by : (R → R → Bool) → List R → List R
  unfolding insert_by
  order_by behind [] = []
  order_by behind (r ∷ rows) = insert_by behind r (order_by behind rows)

  unfoldable pub limit_rows : ℕ → List R → List R
  limit_rows zero rows = []
  limit_rows (suc n) [] = []
  limit_rows (suc n) (r ∷ rows) = r ∷ limit_rows n rows

  -- The first row of an ordered selection, if there is any: `limit 1`.
  abbrev pub first_row : List R → Option R
  first_row [] = none
  first_row (r ∷ rows) = some r

module _ {ℓ} {K : Type ℓ} ⦃c : Comparable K⦄ where
  -- One more row of a group.
  unfoldable pub count_key : K → List (K × ℕ) → List (K × ℕ)
  count_key k [] = (k, 1) ∷ []
  count_key k ((j, n) ∷ groups) =
      let rest = count_key k groups in if j == k then (j, suc n) ∷ groups else (j, n) ∷ rest

  -- `select key, count(*) … group by key`
  unfoldable pub group_counts : List K → List (K × ℕ)
  unfolding count_key
  group_counts [] = []
  group_counts (k ∷ keys) = count_key k (group_counts keys)
