-- ===== src/Store/Members.antt =====
-- Which rows a list holds, and which of them a condition selects.
use workato_take_home.Prelude.{
  ◌≡◌, refl, sym, subst, Bool, true, List, [], ◌∷◌, inl, inr, ◌⊎◌, Bool-cases,
}
use workato_take_home.Store.Table.{select_where}

module _ {R : Type 0} where
  abbrev pub Member : R → List R → Type 0
  Member x [] = ⊥
  Member x (r ∷ rows) = (x ≡ r) ⊎ Member x rows

  -- The member of a list as one of an equal list.
  pub moved : (x : R) (rows rows' : List R) → rows ≡ rows' → Member x rows → Member x rows'
  moved x rows rows' e m = subst (λ l. Member x l) e m

  pub select_where-Member :
      (x : R) (guard : R → Bool) (rows : List R)
      → Member x (select_where guard rows)
      → Member x rows × (guard x ≡ true)
  unfolding select_where
  select_where-Member x guard [] m = absurd m
  select_where-Member x guard (r ∷ rows) m = elim (Bool-cases (guard r)) [
    | inl fits ↦
        elim (moved x (select_where guard (r ∷ rows)) (r ∷ select_where guard rows)
          (rw (fits, select_where) refl) m) [
            | inl e ↦ (inl e, subst (λ y. guard y ≡ true) (sym e) fits)
            | inr m' ↦ let (there, h) = select_where-Member x guard rows m' in (inr there, h)
          ]
    | inr out ↦
        let (there, h) = select_where-Member x guard rows (
          moved x (select_where guard (r ∷ rows)) (select_where guard rows)
            (rw (out, select_where) refl) m) in
        (inr there, h)
  ]

  pub select_where-keeps :
      (x : R) (guard : R → Bool) (rows : List R)
      → Member x rows
      → guard x ≡ true
      → Member x (select_where guard rows)
  unfolding select_where
  select_where-keeps x guard [] m h = m
  select_where-keeps x guard (r ∷ rows) (inl e) h =
      let fits : guard r ≡ true = subst (λ y. guard y ≡ true) e h in rw (fits, select_where) (inl e)
  select_where-keeps x guard (r ∷ rows) (inr m) h = elim (Bool-cases (guard r)) [
    | inl fits ↦ rw (fits, select_where) (inr (select_where-keeps x guard rows m h))
    | inr out ↦ rw (out, select_where) (select_where-keeps x guard rows m h)
  ]
