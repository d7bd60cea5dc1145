-- ===== src/Sets/Membership.antt =====
-- The elements of a set after an insertion.
use cpp_autotime.Prelude.{◌≡◌, ◌∙◌, ◌⊎◌, inl, inr, List, [], ◌∷◌, ltb, ◌==◌, ==_iff, Bool-cases}
use cpp_autotime.Enums.{Enum}
use cpp_autotime.Enums.Laws.{Elem, IsDeclared, underlying_inj}
use cpp_autotime.Sets.{insert}

module _ {E : Type 0} ⦃e : Enum E⦄ (d : IsDeclared e) where
  pub Elem-insert : (a val : E) (xs : List E) → Elem a (insert val xs) → (a ≡ val) ⊎ Elem a xs
  unfolding insert
  Elem-insert a val [] m = m
  Elem-insert a val (x ∷ xs) m = elim (Bool-cases (ltb (e.underlying val) (e.underlying x))) [
    | inl l ↦ rw l at m
    | inr l ↦ elim (Bool-cases (e.underlying val == e.underlying x)) [
      | inl q ↦ inr (rw q at (rw l at m))
      | inr q ↦
          let m' : (a ≡ x) ⊎ Elem a (insert val xs) = rw q at (rw l at m) in
          elim m' [
            | inl first ↦ inr (inl first)
            | inr rest ↦ elim (Elem-insert a val xs rest) [
              | inl same ↦ inl same
              | inr old ↦ inr (inr old)
            ]
          ]
    ]
  ]

  pub insert-Elem : (a val : E) (xs : List E) → (a ≡ val) ⊎ Elem a xs → Elem a (insert val xs)
  unfolding insert
  insert-Elem a val [] m = m
  insert-Elem a val (x ∷ xs) m = elim (Bool-cases (ltb (e.underlying val) (e.underlying x))) [
    | inl l ↦ rw l m
    | inr l ↦ rw l (elim (Bool-cases (e.underlying val == e.underlying x)) [
      | inl q ↦ rw q (elim m [
        | inl same ↦ inl (same ∙ underlying_inj d val x ((==_iff _ _).0 q))
        | inr old ↦ old
      ])
      | inr q ↦ rw q (elim m [
        | inl same ↦ inr (insert-Elem a val xs (inl same))
        | inr (inl first) ↦ inl first
        | inr (inr old) ↦ inr (insert-Elem a val xs (inr old))
      ])
    ])
  ]
