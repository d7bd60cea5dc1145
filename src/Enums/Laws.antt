-- ===== src/Enums/Laws.antt =====
-- Facts about the templates, for any enumeration.
use Prim.Native.String.{String}
use text.Mathlib.TextEquality.{eq_iff}
use native.Mathlib.Decide.{dec_lt}
use cpp_autotime.Prelude.{
  ℕ, zero, suc, ◌+◌, ◌≤◌, ◌<◌, ◌≢◌, ◌&&◌, ◌==◌ as nat_eq, Option-cases, ◌≡◌, refl, sym, ap, subst,
  ◌⊎◌, inl, inr, Bool, true, false, Option, none, some, List, [], ◌∷◌, arith,
}
use cpp_autotime.Enums.{Enum, to_str, index_of, find, from_string, add_first, range_from, range_of}

-- `e` is an entry of the list.
abbrev pub Elem : {A : Type 0} → A → List A → Type 0
Elem a [] = ⊥
Elem a (x ∷ xs) = (a ≡ x) ⊎ Elem a xs

module _ {E : Type 0} ⦃e : Enum E⦄ where
  -- Each entry of the index stands under its own name.
  abbrev IsNamed : List (String × E) → Type 0
  IsNamed [] = Unit
  IsNamed ((name, val) ∷ index) = (to_str val ≡ name) × IsNamed index

  index_of-IsNamed :
      (vals : List E) (index : List (String × E)) → IsNamed index → IsNamed (index_of vals index)
  unfolding index_of
  index_of-IsNamed [] index h = h
  index_of-IsNamed (val ∷ vals) index h = index_of-IsNamed vals _ (refl, h)

  find-IsNamed :
      (str : String) (index : List (String × E)) (val : E)
      → IsNamed index
      → find str index ≡ some val
      → to_str val ≡ str
  unfolding find
  find-IsNamed str [] val h e = cc
  find-IsNamed str ((name, v) ∷ index) val (named, h) e =
      ground (arith, eq_iff name str, find-IsNamed str index val h)

  -- What `FromString` finds for a string is a value that `ToStr` turns into that string.
  pub from_string-to_str : (str : String) (val : E) → from_string str ≡ some val → to_str val ≡ str
  unfolding from_string
  from_string-to_str str val h =
      find-IsNamed str (index_of range_of []) val (index_of-IsNamed range_of [] tt) h

  range_from-gap : (n i : ℕ) → e.cast i ≡ none → range_from {E = E} (suc n) i ≡ range_from n (i + 1)
  unfolding range_from
  range_from-gap n i h = ap (λ v. add_first v (range_from n (i + 1))) h

  range_from-at :
      (n i : ℕ) (v : E) → e.cast i ≡ some v → range_from (suc n) i ≡ v ∷ range_from n (i + 1)
  unfolding range_from
  range_from-at n i v h = ap (λ v. add_first v (range_from n (i + 1))) h

  same_cast : (i k : ℕ) (v val : E) → e.cast i ≡ some v → e.cast k ≡ some val → i ≡ k → val ≡ v
  same_cast i k v val at c q = cc

  gap-ne : (i k : ℕ) (val : E) → e.cast i ≡ none → e.cast k ≡ some val → i ≢ k
  gap-ne i k val gap c q = cc

  Elem-range_from :
      (n i k : ℕ) (val : E) → e.cast k ≡ some val → i ≤ k → k < i + n → Elem val (range_from n i)
  Elem-range_from zero i k val c lo hi = absurd (omega arith)
  Elem-range_from (suc n) i k val c lo hi = elim (Option-cases (e.cast i)) [
    | inl gap ↦
        rw (range_from-gap n i gap)
          (Elem-range_from n (i + 1) k val c (omega (arith, gap-ne i k val gap c)) (omega arith))
    | inr (v, at) ↦ rw (range_from-at n i v at) (elim (dec_lt i k) [
      | yes p ↦ inr (Elem-range_from n (i + 1) k val c (omega arith) (omega arith))
      | no p ↦ inl (same_cast i k v val at c (omega arith))
    ])
  ]

-- What an enumeration has by its declaration: each enumerator is the cast of its value, which lies
-- between those of `first` and `last`.
pub record IsDeclared {E : Type 0} (e : Enum E) : Type 0 where
  pub cast-underlying : (val : E) → e.cast (e.underlying val) ≡ some val
  pub from_first : (val : E) → e.underlying e.first ≤ e.underlying val
  pub to_last : (val : E) → e.underlying val ≤ e.underlying e.last

module _ {E : Type 0} ⦃e : Enum E⦄ (d : IsDeclared e) where
  -- The values of an enumerator are its own.
  pub underlying_inj : (a b : E) → e.underlying a ≡ e.underlying b → a ≡ b
  underlying_inj a b h = cc (d.cast-underlying a, d.cast-underlying b)

  -- `RangeOf` has each enumerator.
  pub Elem-range_of : (val : E) → Elem val range_of
  unfolding range_of
  Elem-range_of val =
      Elem-range_from _ (e.underlying e.first) (e.underlying val) val (d.cast-underlying val)
        (d.from_first val) (omega (arith, d.from_first val, d.to_last val))

  abbrev is_value : E → Option E → Bool
  is_value b none = false
  is_value b (some b') = nat_eq (e.underlying b) (e.underlying b')

  is_value-some : (b : E) (o : Option E) → is_value b o ≡ true → o ≡ some b
  is_value-some b none h = cc
  is_value-some b (some b') h = ap some (sym (underlying_inj b b' (grind arith)))

  -- Each of the values is found under its name.
  abbrev pub all_found : List (String × E) → List E → Bool
  all_found index [] = true
  all_found index (b ∷ bs) = is_value b (find (to_str b) index) && all_found index bs

  all_found-Elem :
      (index : List (String × E)) (vals : List E) (val : E)
      → all_found index vals ≡ true
      → Elem val vals
      → find (to_str val) index ≡ some val
  all_found-Elem index [] val h m = elim m [ ]
  all_found-Elem index (b ∷ bs) val h (inl same) =
      subst (λ v. find (to_str v) index ≡ some v) (sym same) (is_value-some b _ (grind arith))
  all_found-Elem index (b ∷ bs) val h (inr m) = all_found-Elem index bs val (grind arith) m

  pub from_string-to_str_lem :
      all_found (index_of (range_of {E = E}) []) range_of ≡ true
      → (val : E) → from_string (to_str val) ≡ some val
  unfolding from_string
  from_string-to_str_lem h val =
      all_found-Elem (index_of range_of []) range_of val h (Elem-range_of val)
