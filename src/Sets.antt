-- ===== src/Sets.antt =====
-- What bench/list.cpp uses of `std::set` and `std::map` over enumerations: a set is the list of its
-- elements and a map the list of its entries, in the order of the underlying values.
pub mod Laws
pub mod Membership
use cpp_autotime.Prelude.{
  ℕ, Bool, true, false, Option, none, some, List, [], ◌∷◌, ltb, ◌==◌, if◌then◌else◌,
}
use cpp_autotime.Enums.{Enum}

module _ {E : Type 0} ⦃e : Enum E⦄ where
  -- `insert` of a value
  unfoldable pub insert : E → List E → List E
  insert val [] = val ∷ []
  insert val (x ∷ xs) =
      let rest = insert val xs in
      if ltb (e.underlying val) (e.underlying x)
      then val ∷ x ∷ xs
      else if e.underlying val == e.underlying x
      then x ∷ xs
      else x ∷ rest

  -- `insert` of a range
  unfoldable pub insert_all : List E → List E → List E
  insert_all [] result = result
  insert_all (val ∷ vals) result = insert_all vals (insert val result)

  -- `find` of a map
  unfoldable pub lookup : {V : Type 0} → E → List (E × V) → Option V
  lookup key [] = none
  lookup key ((k, v) ∷ entries) =
      if e.underlying key == e.underlying k then some v else lookup key entries

  -- `result[key] = f( result[key] )`, where the entry is `d` before there is one.
  unfoldable pub update : {V : Type 0} → E → V → (V → V) → List (E × V) → List (E × V)
  update key d f [] = (key, f d) ∷ []
  update key d f ((k, v) ∷ entries) =
      let rest = update key d f entries in
      if ltb (e.underlying key) (e.underlying k)
      then (key, f d) ∷ (k, v) ∷ entries
      else if e.underlying key == e.underlying k
      then (k, f v) ∷ entries
      else (k, v) ∷ rest
