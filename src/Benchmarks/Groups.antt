-- ===== src/Benchmarks/Groups.antt =====
-- What `CategoriesOf` gives.
use cpp_autotime.Prelude.{
  ◌≡◌, ◌≢◌, ◌∙◌, refl, subst, sym, ap, ◌↔◌, ◌⊎◌, inl, inr, Option, none, some, List, [], ◌∷◌,
  Option-cases,
}
use cpp_autotime.Enums.Laws.{Elem}
use cpp_autotime.Sets.{insert, lookup}
use cpp_autotime.Sets.Membership.{Elem-insert, insert-Elem}
use cpp_autotime.Benchmarks.Defs.{Benchmark}
use cpp_autotime.Benchmarks.Category.{Category}
use cpp_autotime.Benchmarks.Enum.{benchmark_enum, category_enum}
use cpp_autotime.Benchmarks.Maps.{
  category_benchmark_map, benchmark_category_map, add_category, categories_from, categories_of,
}
use cpp_autotime.Benchmarks.Membership.{categories_with, one_category}
use cpp_autotime.Benchmarks.RoundTrip.{category_IsDeclared}

-- The category is that of one of the benchmarks.
abbrev IsCategoryIn : List (Benchmark × Category) → List Benchmark → Category → Type 0
IsCategoryIn map list c = (b : Benchmark) × Elem b list × (lookup b map ≡ some c)

none_some : (c : Category) → ◌≢◌ {A = Option Category} none (some c)
none_some c h = cc h

some_eq : (a b : Category) → some a ≡ some b → a ≡ b
some_eq a b h = cc h

head_eq : (a b : Category) → (a ∷ []) ≡ (b ∷ []) → a ≡ b
head_eq a b h = cc h

module _ (map : List (Benchmark × Category)) where
  from_nil : (cs : List Category) → categories_from map [] cs ≡ cs
  unfolding categories_from
  from_nil cs = refl

  from_none :
      (b : Benchmark) (list : List Benchmark) (cs : List Category)
      → lookup b map ≡ none
      → categories_from map (b ∷ list) cs ≡ categories_from map list cs
  unfolding categories_from
  from_none b list cs h = ap (λ o. categories_from map list (add_category o cs)) h

  from_some :
      (b : Benchmark) (list : List Benchmark) (cs : List Category) (c : Category)
      → lookup b map ≡ some c
      → categories_from map (b ∷ list) cs ≡ categories_from map list (insert c cs)
  unfolding categories_from
  from_some b list cs c h = ap (λ o. categories_from map list (add_category o cs)) h

  Elem-categories_from :
      (list : List Benchmark) (cs : List Category) (c : Category)
      → Elem c (categories_from map list cs)
      → IsCategoryIn map list c ⊎ Elem c cs
  Elem-categories_from [] cs c m = inr (subst (Elem c) (from_nil cs) m)
  Elem-categories_from (b ∷ list) cs c m = elim (Option-cases (lookup b map)) [
    | inl h ↦ elim (Elem-categories_from list cs c (subst (Elem c) (from_none b list cs h) m)) [
      | inl (b', k, e) ↦ inl (b', inr k, e)
      | inr old ↦ inr old
    ]
    | inr (c', h) ↦
        elim (Elem-categories_from list (insert c' cs) c
          (subst (Elem c) (from_some b list cs c' h) m)) [
            | inl (b', k, e) ↦ inl (b', inr k, e)
            | inr old ↦ elim (Elem-insert category_IsDeclared c c' cs old) [
              | inl same ↦ inl (b, inl refl, h ∙ ap some (sym same))
              | inr older ↦ inr older
            ]
          ]
  ]

  categories_from-Elem :
      (list : List Benchmark) (cs : List Category) (c : Category)
      → IsCategoryIn map list c ⊎ Elem c cs
      → Elem c (categories_from map list cs)
  unfolding categories_from
  categories_from-Elem [] cs c (inl (b, m, e)) = elim m [ ]
  categories_from-Elem [] cs c (inr m) = m
  categories_from-Elem (b ∷ list) cs c m = elim (Option-cases (lookup b map)) [
    | inl h ↦ subst (Elem c) (sym (from_none b list cs h)) (
        categories_from-Elem list cs c (elim m [
          | inl (b', inl same, e) ↦
              absurd (none_some c (sym h ∙ (ap (λ x. lookup x map) (sym same) ∙ e)))
          | inl (b', inr k, e) ↦ inl (b', k, e)
          | inr old ↦ inr old
        ]))
    | inr (c', h) ↦ subst (Elem c) (sym (from_some b list cs c' h)) (
        categories_from-Elem list (insert c' cs) c (elim m [
          | inl (b', inl same, e) ↦ inr (
              insert-Elem category_IsDeclared c c' cs
                (inl (some_eq c c' (sym e ∙ (ap (λ x. lookup x map) same ∙ h)))))
          | inl (b', inr k, e) ↦ inl (b', k, e)
          | inr old ↦ inr (insert-Elem category_IsDeclared c c' cs (inr old))
        ]))
  ]

-- The categories that `CategoriesOf` gives for a list are those whose sets in
-- `CategoryBenchmarkMap` have a benchmark of the list.
pub categories_of_lem :
    (list : List Benchmark) (c : Category)
    → Elem c (categories_of list)
      ↔ ((b : Benchmark) × Elem b list × (categories_with b category_benchmark_map ≡ c ∷ []))
unfolding categories_of
categories_of_lem list c = (to, from)
  where
    to :
        Elem c (categories_of list)
        → (b : Benchmark) × Elem b list × (categories_with b category_benchmark_map ≡ c ∷ [])
    to m = elim (Elem-categories_from benchmark_category_map list [] c m) [
      | inl (b, k, e) ↦
          let (c', one, found) = one_category b in
          (b, k, one ∙ ap (λ x. x ∷ []) (some_eq c' c (sym found ∙ e)))
      | inr none_in ↦ elim none_in [ ]
    ]

    from :
        ((b : Benchmark) × Elem b list × (categories_with b category_benchmark_map ≡ c ∷ []))
        → Elem c (categories_of list)
    from (b, k, e) =
        let (c', one, found) = one_category b in
        categories_from-Elem benchmark_category_map list [] c
          (inl (b, k, found ∙ ap some (head_eq c' c (sym one ∙ e))))
