-- ===== src/Sets/Laws.antt =====
-- Looking up in a map after `result[key] = val`.
use cpp_autotime.Prelude.{◌≡◌, refl, some, List, [], ◌∷◌, ◌==◌, arith, if◌then◌else◌}
use cpp_autotime.Enums.{Enum}
use cpp_autotime.Sets.{lookup, update}

module _ {E : Type 0} ⦃e : Enum E⦄ {V : Type 0} where
  pub lookup-update :
      (k key : E) (val : V) (entries : List (E × V))
      → lookup k (update key val (λ _. val) entries)
        ≡ (if e.underlying k == e.underlying key then some val else lookup k entries)
  unfolding lookup update
  lookup-update k key val [] = refl
  lookup-update k key val ((k', v) ∷ entries) = ground (arith, lookup-update k key val entries)
