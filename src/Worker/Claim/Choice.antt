-- ===== src/Worker/Claim/Choice.antt =====
-- Which task `claim_one_task` chooses: one that may be claimed, and none that may be goes before it.
use workato_take_home.Prelude.{
  ◌≡◌, Bool, true, false, not, ◌&&◌, Option, none, some, List, [], ◌∷◌, arith, Bool-cases,
  Option-cases, inl, inr, eqb, sym, subst,
}
use workato_take_home.Store.Table.{find}
use workato_take_home.Store.Distinct.{Distinct, find_head, find_below}
use workato_take_home.Store.Schema.{Uuid, Time, Task}
use workato_take_home.Store.Query.{task_id_of}
use workato_take_home.Worker.Claim.{claimable, precedes, first_of_two, candidate}

-- A task that this transaction may take: due or abandoned, and not locked by another.
abbrev pub available : (Uuid → Bool) → Time → Task → Bool
available locked now t = claimable now t && not (locked t.id)

precedes_asym : (t u : Task) → precedes t u ≡ true → precedes u t ≡ false
unfolding precedes
precedes_asym t u h = ground arith

-- If `s` is not before `u` and `u` not before `t`, then `s` is not before `t`.
precedes_trans : (s u t : Task) → precedes s u ≡ false → precedes u t ≡ false → precedes s t ≡ false
unfolding precedes
precedes_trans s u t h k = ground arith

precedes_irrefl : (t : Task) → precedes t t ≡ false
unfolding precedes
precedes_irrefl t = ground arith

precedes-first_of_two : (x : Task) (o : Option Task) → precedes x (first_of_two x o) ≡ false
unfolding first_of_two
precedes-first_of_two x none = precedes_irrefl x
precedes-first_of_two x (some u) = elim (Bool-cases (precedes u x)) [
  | inl lt ↦ rw lt (precedes_asym u x lt)
  | inr ge ↦ rw ge (precedes_irrefl x)
]

precedes-first_of_two_rest :
    (s x u : Task) → precedes s u ≡ false → precedes s (first_of_two x (some u)) ≡ false
unfolding first_of_two
precedes-first_of_two_rest s x u h = elim (Bool-cases (precedes u x)) [
  | inl lt ↦ rw lt h
  | inr ge ↦ rw ge (precedes_trans s u x h ge)
]

module _ (locked : Uuid → Bool) (now : Time) where
  chosen_head :
      (x : Task) (xs : List Task) (t : Task)
      → available locked now x ≡ true
      → x ≡ t
      → (find task_id_of t.id (x ∷ xs) ≡ some t) × (available locked now t ≡ true)
  chosen_head x xs t free e =
      subst (λ y. (find task_id_of y.id (x ∷ xs) ≡ some y) × (available locked now y ≡ true)) e
        (find_head task_id_of x xs, free)

  -- An available row of the table leaves the choice with something that it does not precede.
  pub candidate-first :
      (tasks : List Task) (s : Task)
      → find task_id_of s.id tasks ≡ some s
      → available locked now s ≡ true
      → (t : Task) × (candidate locked now tasks ≡ some t) × (precedes s t ≡ false)
  unfolding candidate find
  candidate-first [] s there av = absurd (cc)
  candidate-first (x ∷ xs) s there av = elim (Bool-cases (eqb x.id s.id)) [
    | inl here ↦
        let e : x ≡ s = ground arith in
        let free : available locked now x ≡ true =
          subst (λ y. available locked now y ≡ true) (sym e) av in
        (
          first_of_two x (candidate locked now xs),
          rw free,
          subst (λ y. precedes y (first_of_two x (candidate locked now xs)) ≡ false) e
              (precedes-first_of_two x _),
        )
    | inr below ↦
        let (u, chosen, least) = candidate-first xs s (ground arith) av in
        elim (Bool-cases (available locked now x)) [
          | inl free ↦
              (first_of_two x (some u), rw (free, chosen), precedes-first_of_two_rest s x u least)
          | inr kept ↦ (u, rw kept chosen, least)
        ]
  ]

  pub candidate-chosen :
      (tasks : List Task) (t : Task)
      → Distinct task_id_of tasks
      → candidate locked now tasks ≡ some t
      → (find task_id_of t.id tasks ≡ some t) × (available locked now t ≡ true)
  unfolding candidate
  candidate-chosen [] t d h = absurd (cc)
  candidate-chosen (x ∷ xs) t d h = elim (Bool-cases (available locked now x)) [
    | inr kept ↦
        let (there, free) = candidate-chosen xs t d.1 (ground arith) in
        (find_below task_id_of x t xs d.0 there, free)
    | inl free ↦ elim (Option-cases (candidate locked now xs)) [
      | inl last ↦ chosen_head x xs t free (ground arith)
      | inr (u, chosen) ↦ elim (Bool-cases (precedes u x)) [
        | inr ge ↦ chosen_head x xs t free (ground arith)
        | inl lt ↦
            let (there, free') = candidate-chosen xs t d.1 (ground arith) in
            (find_below task_id_of x t xs d.0 there, free')
      ]
    ]
  ]
