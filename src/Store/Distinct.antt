-- ===== src/Store/Distinct.antt =====
-- The primary key is unique: no two rows have one key.
use workato_take_home.Prelude.{
  ℕ, ◌≡◌, Bool, true, none, some, List, [], ◌∷◌, arith, eqb_iff, Bool-cases, inl, inr,
}
use workato_take_home.Store.Table.{
  find, update_by_id, update_where, exists_where, find-update_by_id, find-update_where,
}

module _ {ℓ} {R : Type ℓ} where
  abbrev pub Distinct : (R → ℕ) → List R → Type ℓ
  Distinct id [] = Unit
  Distinct id (r ∷ rows) = (find id (id r) rows ≡ none) × Distinct id rows

  pub Distinct-update_by_id :
      (id : R → ℕ) (j : ℕ) (guard : R → Bool) (f : R → R) (rows : List R)
      → ((r : R) → id (f r) ≡ id r)
      → Distinct id rows
      → Distinct id (update_by_id id j guard f rows)
  unfolding update_by_id
  Distinct-update_by_id id j guard f [] keeps d = d
  Distinct-update_by_id id j guard f (r ∷ rows) keeps d = ground (
    arith,
    keeps r,
    find-update_by_id id j guard f (id r) rows keeps,
    Distinct-update_by_id id j guard f rows keeps,
  )

  pub Distinct-update_where :
      (id : R → ℕ) (guard : R → Bool) (f : R → R) (rows : List R)
      → ((r : R) → id (f r) ≡ id r)
      → Distinct id rows
      → Distinct id (update_where guard f rows)
  unfolding update_where
  Distinct-update_where id guard f [] keeps d = d
  Distinct-update_where id guard f (r ∷ rows) keeps d = ground (
    arith,
    keeps r,
    find-update_where id guard f (id r) rows keeps,
    Distinct-update_where id guard f rows keeps,
  )

  pub find_head : (id : R → ℕ) (r : R) (rows : List R) → find id (id r) (r ∷ rows) ≡ some r
  unfolding find
  find_head id r rows = ground arith

  pub find_below :
      (id : R → ℕ) (r s : R) (rows : List R)
      → find id (id r) rows ≡ none
      → find id (id s) rows ≡ some s
      → find id (id s) (r ∷ rows) ≡ some s
  unfolding find
  find_below id r s rows fresh h = ground (arith, eqb_iff (id r) (id s))

  -- A row that a condition selects is the one that its key finds.
  pub exists_where-find :
      (id : R → ℕ) (guard : R → Bool) (rows : List R)
      → Distinct id rows
      → exists_where guard rows ≡ true
      → (r : R) × (find id (id r) rows ≡ some r) × (guard r ≡ true)
  unfolding exists_where find
  exists_where-find id guard [] d h = absurd (cc)
  exists_where-find id guard (r ∷ rows) d h = elim (Bool-cases (guard r)) [
    | inl hit ↦ (r, ground (arith, eqb_iff (id r) (id r)), hit)
    | inr miss ↦
        let (s, found, hit) = exists_where-find id guard rows d.1 (ground arith) in
        (s, find_below id r s rows d.0 found, hit)
  ]
