-- ===== src/Store/Lookup.antt =====
-- What a lookup by primary key finds after an update: the image of what it found before.
use mathlib.Core.Option
use workato_take_home.Prelude.{
  ℕ, ◌≡◌, refl, Bool, false, ◌&&◌, some, List, [], ◌∷◌, arith, eqb, sym, subst,
}
use workato_take_home.Store.Table.{find, update_by_id, update_where, apply_if}

module _ {ℓ} {R : Type ℓ} where
  -- Each row of `rows'` is the image under `g` of the row of `rows` with its key.
  abbrev pub Image : (R → ℕ) → (R → R) → List R → List R → Type ℓ
  Image id g rows rows' = (k : ℕ) → find id k rows' ≡ Option.map g (find id k rows)

  -- The condition of an update by primary key.
  abbrev pub addressed : (R → ℕ) → ℕ → (R → Bool) → R → Bool
  addressed id j guard r = eqb (id r) j && guard r

  not_addressed :
      (id : R → ℕ) (j : ℕ) (guard : R → Bool) (f : R → R) (k : ℕ) (rows : List R)
      → eqb j k ≡ false
      → Option.map (apply_if (addressed id j guard) f) (find id k rows) ≡ find id k rows
  unfolding find
  not_addressed id j guard f k [] ne = refl
  not_addressed id j guard f k (r ∷ rows) ne = ground (arith, not_addressed id j guard f k rows ne)

  pub Image-update_by_id :
      (id : R → ℕ) (j : ℕ) (guard : R → Bool) (f : R → R) (rows : List R)
      → ((r : R) → id (f r) ≡ id r)
      → Image id (apply_if (addressed id j guard) f) rows (update_by_id id j guard f rows)
  unfolding find update_by_id
  Image-update_by_id id j guard f [] keeps k = refl
  Image-update_by_id id j guard f (r ∷ rows) keeps k = ground (
    arith,
    keeps r,
    not_addressed id j guard f k rows,
    Image-update_by_id id j guard f rows keeps k,
  )

  pub Image-update_where :
      (id : R → ℕ) (guard : R → Bool) (f : R → R) (rows : List R)
      → ((r : R) → id (f r) ≡ id r)
      → Image id (apply_if guard f) rows (update_where guard f rows)
  unfolding find update_where
  Image-update_where id guard f [] keeps k = refl
  Image-update_where id guard f (r ∷ rows) keeps k =
      ground (arith, keeps r, Image-update_where id guard f rows keeps k)

  -- A key that is equal finds the same row.
  pub find_at :
      (id : R → ℕ) (rows : List R) (j k : ℕ) (r : R)
      → j ≡ k
      → find id k rows ≡ some r
      → find id j rows ≡ some r
  find_at id rows j k r e h = subst (λ x. find id x rows ≡ some r) (sym e) h

  -- The two directions in which an image is used.
  pub Image-some :
      (id : R → ℕ) (g : R → R) (rows rows' : List R) (k : ℕ) (r : R)
      → Image id g rows rows'
      → find id k rows ≡ some r
      → find id k rows' ≡ some (g r)
  Image-some id g rows rows' k r image h = ground (arith, image k)

  pub Image-preimage :
      (id : R → ℕ) (g : R → R) (rows rows' : List R) (k : ℕ) (s : R)
      → Image id g rows rows'
      → find id k rows' ≡ some s
      → (r : R) × (find id k rows ≡ some r) × (s ≡ g r)
  Image-preimage id g rows rows' k s image h = ground (arith, image k)
