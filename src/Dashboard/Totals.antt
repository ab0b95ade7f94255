-- ===== src/Dashboard/Totals.antt =====
-- backend/api/dashboard_store.py: what the counts of the overview say of the tables.
use workato_take_home.Prelude.{
  ℕ, suc, ◌+◌, ◌≡◌, refl, ◌∙◌, ap, sym, subst, Bool, true, false, List, [], ◌∷◌, map, length, arith,
  inl, inr, Bool-cases, Comparable, ◌==◌, ==→≡, ==_refl, if◌then◌else◌,
}
use workato_take_home.Common.StateMachine.{OrderState, state_eq, order_states}
use workato_take_home.Common.TaskTypes.{TaskStatus, status_eq}
use workato_take_home.Store.Schema.{Db}
use workato_take_home.Dashboard.Select.{count_where, count_key, group_counts}
use workato_take_home.Dashboard.Counts.{
  set_count, set_counts, count_map, sum_counts, count_of, order_counts, task_counts,
  order_task_statuses,
}

no_confusion : true ≡ false → ⊥
no_confusion h = ground arith

module _ {ℓ} {K : Type ℓ} ⦃c : Comparable K⦄ where
  has_key : K → List (K × ℕ) → Bool
  has_key k [] = false
  has_key k ((j, n) ∷ rows) = if j == k then true else has_key k rows

  -- No key stands twice.
  data Unique : List (K × ℕ) → Type ℓ where
    no_rows : Unique []
    row :
        {k : K} {n : ℕ} {rows : List (K × ℕ)}
        → has_key k rows ≡ false
        → Unique rows
        → Unique ((k, n) ∷ rows)

  -- The three equalities between three keys are all true, or one of them at most is.
  same_key : (i j k : K) → (i == k) ≡ true → (i == j) ≡ (k == j)
  same_key i j k h = ap (λ x. x == j) (==→≡ i k h)

  other_key : (i j k : K) → (i == k) ≡ false → (i == j) ≡ true → (k == j) ≡ false
  other_key i j k apart h = elim (Bool-cases (k == j)) [
    | inr no_match ↦ no_match
    | inl also ↦
        let same : k ≡ i = ==→≡ k j also ∙ sym (==→≡ i j h) in
        absurd (no_confusion (sym (==_refl i) ∙ ap (λ x. i == x) (sym same) ∙ apart))
  ]

  count_of-count_key :
      (j k : K) (groups : List (K × ℕ))
      → count_of j (count_key k groups)
        ≡ (if k == j then suc (count_of j groups) else count_of j groups)
  unfolding count_of count_key
  count_of-count_key j k [] = refl
  count_of-count_key j k ((i, n) ∷ groups) = elim (Bool-cases (i == k)) [
    | inl same ↦
        rw (same, count_key)
          (rw (same_key i j k same, count_of)
            (elim (Bool-cases (k == j)) [ inl e ↦ rw e refl | inr e ↦ rw e refl ]))
    | inr apart ↦
        rw (apart, count_key)
          (elim (Bool-cases (i == j)) [
            | inl hit ↦ rw (hit, count_of) (rw (other_key i j k apart hit) refl)
            | inr miss ↦ rw (miss, count_of) (count_of-count_key j k groups)
          ])
  ]

  has_key-count_key :
      (j k : K) (groups : List (K × ℕ))
      → has_key j (count_key k groups) ≡ (if k == j then true else has_key j groups)
  unfolding has_key count_key
  has_key-count_key j k [] = refl
  has_key-count_key j k ((i, n) ∷ groups) = elim (Bool-cases (i == k)) [
    | inl same ↦
        rw (same, count_key)
          (rw (same_key i j k same, has_key)
            (elim (Bool-cases (k == j)) [ inl e ↦ rw e refl | inr e ↦ rw e refl ]))
    | inr apart ↦
        rw (apart, count_key)
          (elim (Bool-cases (i == j)) [
            | inl hit ↦ rw (hit, has_key) (rw (other_key i j k apart hit) refl)
            | inr miss ↦ rw (miss, has_key) (has_key-count_key j k groups)
          ])
  ]

  turned : (j k : K) → (j == k) ≡ false → (k == j) ≡ false
  turned j k apart = elim (Bool-cases (k == j)) [
    | inr no_match ↦ no_match
    | inl same ↦
        absurd (no_confusion (sym (==_refl j) ∙ ap (λ x. j == x) (sym (==→≡ k j same)) ∙ apart))
  ]

  count_key-Unique : (k : K) (groups : List (K × ℕ)) → Unique groups → Unique (count_key k groups)
  unfolding count_key has_key
  count_key-Unique k [] u = row refl u
  count_key-Unique k ((j, n) ∷ groups) (row new u) = elim (Bool-cases (j == k)) [
    | inl same ↦ rw (same, count_key) (row new u)
    | inr apart ↦
        rw (apart, count_key)
          (row (has_key-count_key j k groups ∙ rw (turned j k apart, new) refl)
            (count_key-Unique k groups u))
  ]

  count_of-group_counts :
      (k : K) (keys : List K) → count_of k (group_counts keys) ≡ count_where (λ j. j == k) keys
  unfolding group_counts count_of count_where
  count_of-group_counts k [] = refl
  count_of-group_counts k (j ∷ keys) =
      count_of-count_key k j (group_counts keys) ∙ rw (count_of-group_counts k keys) refl

  count_of-set_count :
      (j k : K) (n : ℕ) (counts : List (K × ℕ))
      → count_of j (set_count k n counts) ≡ (if k == j then n else count_of j counts)
  unfolding count_of set_count
  count_of-set_count j k n [] = refl
  count_of-set_count j k n ((i, m) ∷ counts) = elim (Bool-cases (i == k)) [
    | inl same ↦
        rw (same, set_count)
          (rw (same_key i j k same, count_of)
            (elim (Bool-cases (k == j)) [ inl e ↦ rw e refl | inr e ↦ rw e refl ]))
    | inr apart ↦
        rw (apart, set_count)
          (elim (Bool-cases (i == j)) [
            | inl hit ↦ rw (hit, count_of) (rw (other_key i j k apart hit) refl)
            | inr miss ↦ rw (miss, count_of) (count_of-set_count j k n counts)
          ])
  ]

  sum_counts-set_count :
      (k : K) (n : ℕ) (counts : List (K × ℕ))
      → sum_counts (set_count k n counts) + count_of k counts ≡ sum_counts counts + n
  unfolding sum_counts set_count count_of
  sum_counts-set_count k n [] = omega arith
  sum_counts-set_count k n ((j, m) ∷ counts) = elim (Bool-cases (j == k)) [
    | inl here ↦ rw (here, set_count) (omega arith)
    | inr there ↦ rw (there, set_count) (omega (arith, sum_counts-set_count k n counts))
  ]

  group_counts-Unique : (keys : List K) → Unique (group_counts keys)
  unfolding group_counts
  group_counts-Unique [] = no_rows
  group_counts-Unique (k ∷ keys) = count_key-Unique k (group_counts keys) (group_counts-Unique keys)

  -- Rows whose keys are not counted yet add up.
  sum_counts-set_counts :
      (rows counts : List (K × ℕ))
      → Unique rows
      → ((k : K) → has_key k rows ≡ true → count_of k counts ≡ 0)
      → sum_counts (set_counts rows counts) ≡ sum_counts counts + sum_counts rows
  unfolding sum_counts set_counts has_key
  sum_counts-set_counts [] counts u zeros = omega arith
  sum_counts-set_counts ((k, n) ∷ rows) counts (row new u) zeros =
      let zero_here : count_of k counts ≡ 0 = zeros k (rw (==_refl k) refl) in
      let later : (j : K) → has_key j rows ≡ true → count_of j (set_count k n counts) ≡ 0 = λ j h.
        count_of-set_count j k n counts ∙ (elim (Bool-cases (k == j)) [
          | inl same ↦
              absurd (no_confusion (sym h ∙ ap (λ x. has_key x rows) (sym (==→≡ k j same)) ∙ new))
          | inr apart ↦ rw apart (zeros j (rw apart h))
        ]) in
      omega (
        arith,
        sum_counts-set_counts rows (set_count k n counts) u later,
        sum_counts-set_count k n counts,
        zero_here,
      )

  count_of-set_counts :
      (j : K) (rows counts : List (K × ℕ))
      → Unique rows
      → count_of j (set_counts rows counts)
        ≡ (if has_key j rows then count_of j rows else count_of j counts)
  unfolding count_of set_counts has_key
  count_of-set_counts j [] counts u = refl
  count_of-set_counts j ((k, n) ∷ rows) counts (row new u) =
      count_of-set_counts j rows (set_count k n counts) u
      ∙ rw (count_of-set_count j k n counts) (elim (Bool-cases (k == j)) [
        | inl same ↦
            let none_later : has_key j rows ≡ false =
              subst (λ x. has_key x rows ≡ false) (==→≡ k j same) new in
            rw (same, none_later) refl
        | inr apart ↦ rw apart refl
      ])

  sum_counts-count_key :
      (k : K) (groups : List (K × ℕ)) → sum_counts (count_key k groups) ≡ suc (sum_counts groups)
  unfolding sum_counts count_key
  sum_counts-count_key k [] = refl
  sum_counts-count_key k ((j, n) ∷ groups) = elim (Bool-cases (j == k)) [
    | inl same ↦ rw (same, count_key) (omega arith)
    | inr apart ↦ rw (apart, count_key) (omega (arith, sum_counts-count_key k groups))
  ]

  sum_counts-group_counts : (keys : List K) → sum_counts (group_counts keys) ≡ length keys
  unfolding sum_counts group_counts
  sum_counts-group_counts [] = refl
  sum_counts-group_counts (k ∷ keys) =
      sum_counts-count_key k (group_counts keys) ∙ ap suc (sum_counts-group_counts keys)

  zero_counts : (k : K) (keys : List K) → count_of k (map (λ j. (j, 0)) keys) ≡ 0
  unfolding count_of
  zero_counts k [] = refl
  zero_counts k (j ∷ keys) = elim (Bool-cases (j == k)) [
    | inl same ↦ rw (same, count_of) refl
    | inr apart ↦ rw (apart, count_of) (zero_counts k keys)
  ]

  zero_sum : (keys : List K) → sum_counts (map (λ j. (j, 0)) keys) ≡ 0
  unfolding sum_counts
  zero_sum [] = refl
  zero_sum (j ∷ keys) = omega (arith, zero_sum keys)

  no_key_no_count :
      (k : K) (groups : List (K × ℕ)) → has_key k groups ≡ false → count_of k groups ≡ 0
  unfolding has_key count_of
  no_key_no_count k [] h = refl
  no_key_no_count k ((j, n) ∷ groups) h = elim (Bool-cases (j == k)) [
    | inl same ↦ absurd (ground (arith, h, same))
    | inr apart ↦ rw (apart, count_of) (no_key_no_count k groups (ground (arith, h, apart)))
  ]

  -- A count map of grouped rows, whatever keys are expected.
  Tally : List K → List (K × ℕ) → Type ℓ
  Tally keys counts =
      ((k : K) → count_of k counts ≡ count_where (λ j. j == k) keys)
      × (sum_counts counts ≡ length keys)

  count_map-Tally : (keys expected : List K) → Tally keys (count_map (group_counts keys) expected)
  unfolding Tally count_map
  count_map-Tally keys expected = (
    λ k.
        count_of-set_counts k (group_counts keys) (map (λ j. (j, 0)) expected)
          (group_counts-Unique keys)
        ∙ (elim (Bool-cases (has_key k (group_counts keys))) [
          | inl there ↦ rw there (count_of-group_counts k keys)
          | inr gone ↦ rw gone (
              zero_counts k expected
              ∙ sym (no_key_no_count k (group_counts keys) gone)
              ∙ count_of-group_counts k keys)
        ]),
    omega (
      arith,
      sum_counts-set_counts (group_counts keys) (map (λ j. (j, 0)) expected)
          (group_counts-Unique keys) (λ k h. zero_counts k expected),
      zero_sum expected,
      sum_counts-group_counts keys,
    ),
  )

length-map : {A B : Type 0} (f : A → B) (rows : List A) → length (map f rows) ≡ length rows
length-map f [] = refl
length-map f (r ∷ rows) = ap suc (length-map f rows)

count_where-map :
    {A B : Type 0} (f : A → B) (guard : B → Bool) (rows : List A)
    → count_where guard (map f rows) ≡ count_where (λ r. guard (f r)) rows
unfolding count_where
count_where-map f guard [] = refl
count_where-map f guard (r ∷ rows) = rw (count_where-map f guard rows) refl

-- The counts that the dashboard shows by state and by status, built from grouped rows over a dictionary of zeros, are
-- those of a scan of the tables: each state's count is the number of orders in that state, each status's count the
-- number of task rows with it, and the totals are the numbers of all orders and of all tasks.
pub order_counts-scan :
    (db : Db)
    → (((s : OrderState) → count_of s (order_counts db) ≡ count_where (λ o. o.state == s) db.orders)
        × (sum_counts (order_counts db) ≡ length db.orders))
      × (((s : TaskStatus)
            → count_of s (task_counts db) ≡ count_where (λ t. t.status == s) db.tasks)
          × (sum_counts (task_counts db) ≡ length db.tasks))
unfolding order_counts task_counts Tally
order_counts-scan db =
    let (orders, all_orders) = count_map-Tally (map (λ o. o.state) db.orders) order_states in
    let (tasks, all_tasks) = count_map-Tally (map (λ t. t.status) db.tasks) order_task_statuses in
    (
      (
        λ s. orders s ∙ count_where-map (λ o. o.state) (λ x. x == s) db.orders,
        all_orders ∙ length-map (λ o. o.state) db.orders,
      ),
      (
        λ s. tasks s ∙ count_where-map (λ t. t.status) (λ x. x == s) db.tasks,
        all_tasks ∙ length-map (λ t. t.status) db.tasks,
      ),
    )
