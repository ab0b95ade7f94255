-- ===== src/Store/Table.antt =====
-- A table as the list of its rows, with the statements that address rows by primary key or by a
-- condition. The order of the rows means nothing; the last row inserted stands first.
use workato_take_home.Prelude.{
  ℕ, ◌≡◌, refl, Bool, true, false, Option, none, some, List, [], ◌∷◌, arith, eqb, if◌then◌else◌,
}
use mathlib.Core.Option

module _ {ℓ} {R : Type ℓ} where
  -- `select … where id = k`.
  unfoldable pub find : (R → ℕ) → ℕ → List R → Option R
  find id k [] = none
  find id k (r ∷ rows) = if eqb (id r) k then some r else find id k rows

  -- `update … where id = k and <guard>`: at most one row has the primary key `k`.
  unfoldable pub update_by_id : (R → ℕ) → ℕ → (R → Bool) → (R → R) → List R → List R
  update_by_id id k guard f [] = []
  update_by_id id k guard f (r ∷ rows) =
      let rest = update_by_id id k guard f rows in
      if eqb (id r) k then (if guard r then f r else r) ∷ rows else r ∷ rest

  -- Whether that statement's row count is 1.
  abbrev pub hits : (R → ℕ) → ℕ → (R → Bool) → List R → Bool
  hits id k guard rows = elim (find id k rows) [ none ↦ false | some r ↦ guard r ]

  -- `update … where <guard>`.
  unfoldable pub update_where : (R → Bool) → (R → R) → List R → List R
  update_where guard f [] = []
  update_where guard f (r ∷ rows) = (if guard r then f r else r) ∷ update_where guard f rows

  -- `select … where <guard>`.
  unfoldable pub select_where : (R → Bool) → List R → List R
  select_where guard [] = []
  select_where guard (r ∷ rows) =
      let rest = select_where guard rows in if guard r then r ∷ rest else rest

  -- `exists (select … where <guard>)`.
  unfoldable pub exists_where : (R → Bool) → List R → Bool
  exists_where guard [] = false
  exists_where guard (r ∷ rows) = if guard r then true else exists_where guard rows

  abbrev pub apply_if : (R → Bool) → (R → R) → R → R
  apply_if guard f r = if guard r then f r else r

  pub find-update_by_id :
      (id : R → ℕ) (k : ℕ) (guard : R → Bool) (f : R → R) (j : ℕ) (rows : List R)
      → ((r : R) → id (f r) ≡ id r)
      → find id j (update_by_id id k guard f rows)
        ≡ (if eqb k j then Option.map (apply_if guard f) (find id j rows) else find id j rows)
  unfolding find update_by_id
  find-update_by_id id k guard f j [] keeps = ground arith
  find-update_by_id id k guard f j (r ∷ rows) keeps =
      ground (arith, keeps r, find-update_by_id id k guard f j rows keeps)

  pub find-update_where :
      (id : R → ℕ) (guard : R → Bool) (f : R → R) (j : ℕ) (rows : List R)
      → ((r : R) → id (f r) ≡ id r)
      → find id j (update_where guard f rows) ≡ Option.map (apply_if guard f) (find id j rows)
  unfolding find update_where
  find-update_where id guard f j [] keeps = refl
  find-update_where id guard f j (r ∷ rows) keeps =
      ground (arith, keeps r, find-update_where id guard f j rows keeps)

  pub find-cons :
      (id : R → ℕ) (r : R) (j : ℕ) (rows : List R)
      → find id j (r ∷ rows) ≡ (if eqb (id r) j then some r else find id j rows)
  unfolding find
  find-cons id r j rows = refl

  pub find_id : (id : R → ℕ) (k : ℕ) (rows : List R) (s : R) → find id k rows ≡ some s → id s ≡ k
  unfolding find
  find_id id k [] s h = ground arith
  find_id id k (r ∷ rows) s h = ground (arith, find_id id k rows s)
