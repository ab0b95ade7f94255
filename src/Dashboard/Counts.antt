-- ===== src/Dashboard/Counts.antt =====
-- backend/api/dashboard_store.py: the counts by state and by status in get_dashboard_overview.
use workato_take_home.Prelude.{ℕ, ◌+◌, List, [], ◌∷◌, map, Comparable, ◌==◌, if◌then◌else◌}
use workato_take_home.Common.StateMachine.{OrderState, state_eq, order_states}
use workato_take_home.Common.TaskTypes.{
  TaskStatus, pending, running, completed, failed, cancelled, status_eq,
}
use workato_take_home.Store.Schema.{Db}
use workato_take_home.Dashboard.Select.{group_counts}

module _ {ℓ} {K : Type ℓ} ⦃c : Comparable K⦄ where
  -- `counts[key] = count`: a key that is new goes to the end.
  unfoldable pub set_count : K → ℕ → List (K × ℕ) → List (K × ℕ)
  set_count k n [] = (k, n) ∷ []
  set_count k n ((j, m) ∷ counts) =
      let rest = set_count k n counts in if j == k then (j, n) ∷ counts else (j, m) ∷ rest

  unfoldable pub set_counts : List (K × ℕ) → List (K × ℕ) → List (K × ℕ)
  unfolding set_count
  set_counts [] counts = counts
  set_counts ((k, n) ∷ rows) counts = set_counts rows (set_count k n counts)

  -- `_count_map`
  unfoldable pub count_map : List (K × ℕ) → List K → List (K × ℕ)
  unfolding set_counts
  count_map rows expected_keys = set_counts rows (map (λ k. (k, 0)) expected_keys)

  -- `sum(counts.values())`
  unfoldable pub sum_counts : List (K × ℕ) → ℕ
  sum_counts [] = 0
  sum_counts ((k, n) ∷ counts) = n + sum_counts counts

  -- `counts[k]`, 0 where there is no key
  unfoldable pub count_of : K → List (K × ℕ) → ℕ
  count_of k [] = 0
  count_of k ((j, n) ∷ counts) = if j == k then n else count_of k counts

-- ORDER_TASK_STATUSES
abbrev pub order_task_statuses : List TaskStatus
order_task_statuses = pending ∷ running ∷ completed ∷ failed ∷ cancelled ∷ []

unfoldable pub order_counts : Db → List (OrderState × ℕ)
unfolding count_map group_counts
order_counts db = count_map (group_counts (map (λ o. o.state) db.orders)) order_states

unfoldable pub task_counts : Db → List (TaskStatus × ℕ)
unfolding count_map group_counts
task_counts db = count_map (group_counts (map (λ t. t.status) db.tasks)) order_task_statuses
