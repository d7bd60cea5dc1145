-- ===== src/Enums.antt =====
-- The templates over enumerations of bench/enum_utils.hpp and bench/enum_impl.hpp. An enumeration
-- is an instance of `Enum`; the compiler's part of one is its underlying values.
pub mod Laws
use Prim.Native.String.{String, ◌++◌ as cat}
use text.Mathlib.Text.{◌==◌}
use cpp_autotime.Prelude.{
  ℕ, zero, suc, ◌+◌, ◌-◌, Bool, true, false, Option, none, some, List, [], ◌∷◌, if◌then◌else◌,
}

-- `cast` is `static_cast` to the enumeration, which has no enumerator at other values; `to_cstr`
-- is the enumeration's `ToCStr`, with `none` for a null pointer.
pub record Enum (E : Type 0) : Type 0 where
  pub underlying : E → ℕ
  pub cast : ℕ → Option E
  pub first : E
  pub last : E
  pub to_cstr : E → Option String

-- A string stream: what was written, and whether its failbit is clear. Writing to a stream that
-- has failed does nothing.
pub record OStream : Type 0 where
  pub text : String
  pub good : Bool

unfoldable pub put : OStream → String → OStream
put os s = if os.good then record os { text = cat os.text s } else os

module _ {E : Type 0} ⦃e : Enum E⦄ where
  open e use {underlying, cast, first, last, to_cstr}

  -- `Next`
  unfoldable pub next : E → Option E
  next val = cast (underlying val + 1)

  -- A value in front of the others; a number that no enumerator has adds none.
  unfoldable pub add_first : Option E → List E → List E
  add_first none rest = rest
  add_first (some val) rest = val ∷ rest

  -- The `n` values from `i` on.
  unfoldable pub range_from : ℕ → ℕ → List E
  unfolding add_first
  range_from zero i = []
  range_from (suc n) i = add_first (cast i) (range_from n (i + 1))

  -- `RangeOf`: from `first` up to and without the one after `last`.
  unfoldable pub range_of : List E
  unfolding range_from
  range_of = range_from (underlying last + 1 - underlying first) (underlying first)

  -- `ToStr`
  unfoldable pub to_str : E → String
  to_str val = elim (to_cstr val) [ none ↦ "" | some c_str ↦ c_str ]

  -- The hash map of `FromString`: `result[ToStr( val )] = val` hides an earlier entry.
  unfoldable pub index_of : List E → List (String × E) → List (String × E)
  unfolding to_str
  index_of [] result = result
  index_of (val ∷ vals) result = index_of vals ((to_str val, val) ∷ result)

  -- `index.find( str )`
  unfoldable pub find : String → List (String × E) → Option E
  find str [] = none
  find str ((name, val) ∷ index) = if name == str then some val else find str index

  -- `FromString`
  unfoldable pub from_string : String → Option E
  unfolding range_of index_of find
  from_string str = find str (index_of range_of [])

  -- `operator<<` of the enumerations.
  unfoldable pub put_enum : OStream → E → OStream
  unfolding put
  put_enum os val = elim (to_cstr val) [
    | none ↦ record os { good = false }
    | some c_str ↦ put os c_str
  ]

  -- The loop of `List`, with `s` as the separator to come.
  unfoldable pub list_from : String → String → OStream → List E → OStream
  unfolding put_enum
  list_from sep s os [] = os
  list_from sep s os (val ∷ vals) = list_from sep sep (put_enum (put os s) val) vals

  -- `operator>>` of the enumerations, given the word that was extracted, if one was: the value
  -- after it, and whether the stream is still good.
  unfoldable pub read : Option String → E → E × Bool
  unfolding from_string
  read none val = (val, false)
  read (some str) val = elim (from_string str) [ some found ↦ (found, true) | none ↦ (val, false) ]

-- `List`
unfoldable pub list : (E : Type 0) ⦃e : Enum E⦄ → String → String
unfolding list_from range_of
list E sep = (list_from sep "" (record { text = ""; good = true }) (range_of {E = E})).text
