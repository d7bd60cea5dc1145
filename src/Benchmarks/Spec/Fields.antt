-- ===== src/Benchmarks/Spec/Fields.antt =====
-- The fields of a specification, and the code's steps over them.
use Prim.Native.Char.{Char}
use Prim.Native.String.{String, count}
use text.Mathlib.Text.{◌==◌}
use text.Mathlib.TextLemmas.{cons≢nil, length-cons}
use cpp_autotime.Prelude.{
  ◌≤◌, ◌<◌, ◌≡◌, ◌≢◌, ◌∙◌, refl, sym, ap, inl, inr, true, false, none, some, List, [], ◌∷◌,
  Bool-cases, arith, if◌then◌else◌,
}
use cpp_autotime.Benchmarks.Spec.{is_comma, skip_commas, find_comma, until_comma}

-- The parts of a text between its commas.
abbrev pub add_char : Char → List String → List String
add_char c [] = String.◌∷◌ c "" ∷ []
add_char c (field ∷ fields) = String.◌∷◌ c field ∷ fields

abbrev pub fields : String → List String
fields String.[] = "" ∷ []
fields (String.◌∷◌ c s) = let rest = fields s in if is_comma c then "" ∷ rest else add_char c rest

-- Those that are not empty.
abbrev pub nonempty : List String → List String
nonempty [] = []
nonempty (s ∷ ss) = let rest = nonempty ss in if s == "" then rest else s ∷ rest

abbrev pub rest_fields : String → List String
rest_fields String.[] = []
rest_fields (String.◌∷◌ c s) = let rest = rest_fields s in if is_comma c then fields s else rest

pub fields_lem : (s : String) → fields s ≡ until_comma s ∷ rest_fields s
unfolding until_comma
fields_lem String.[] = refl
fields_lem (String.◌∷◌ c s) = elim (Bool-cases (is_comma c)) [
  | inl h ↦ rw h refl
  | inr h ↦ rw h (ap (add_char c) (fields_lem s))
]

pub find_comma-none : (s : String) → find_comma s ≡ none → rest_fields s ≡ []
unfolding find_comma
find_comma-none String.[] h = refl
find_comma-none (String.◌∷◌ c s) h = ground (arith, find_comma-none s)

-- What each operation does at a comma, and at another character.
module _ (c : Char) (s : String) where
  skip-comma : is_comma c ≡ true → skip_commas (String.◌∷◌ c s) ≡ skip_commas s
  unfolding skip_commas
  skip-comma h = rw h refl

  skip-other : is_comma c ≡ false → skip_commas (String.◌∷◌ c s) ≡ String.◌∷◌ c s
  unfolding skip_commas
  skip-other h = rw h refl

  find-comma : is_comma c ≡ true → find_comma (String.◌∷◌ c s) ≡ some (String.◌∷◌ c s)
  unfolding find_comma
  find-comma h = rw h refl

  find-other : is_comma c ≡ false → find_comma (String.◌∷◌ c s) ≡ find_comma s
  unfolding find_comma
  find-other h = rw h refl

  until-other : is_comma c ≡ false → until_comma (String.◌∷◌ c s) ≡ String.◌∷◌ c (until_comma s)
  unfolding until_comma
  until-other h = rw h refl

  nonempty-comma : is_comma c ≡ true → nonempty (fields (String.◌∷◌ c s)) ≡ nonempty (fields s)
  nonempty-comma h = rw h refl

find-same :
    (c : Char) (s r : String)
    → is_comma c ≡ true
    → find_comma (String.◌∷◌ c s) ≡ some r
    → String.◌∷◌ c s ≡ r
find-same c s r k h = cc (find-comma c s k, h)

find-nil : (r : String) → find_comma "" ≢ some r
unfolding find_comma
find-nil r h = cc h

skip-nil : skip_commas "" ≡ ""
unfolding skip_commas
skip-nil = refl

pub find_comma-some :
    (s r : String) → find_comma s ≡ some r → nonempty (fields r) ≡ nonempty (rest_fields s)
find_comma-some String.[] r h = absurd (find-nil r h)
find_comma-some (String.◌∷◌ c s) r h = elim (Bool-cases (is_comma c)) [
  | inl k ↦ rw k (ap (λ t. nonempty (fields t)) (sym (find-same c s r k h)) ∙ nonempty-comma c s k)
  | inr k ↦ rw k (find_comma-some s r (sym (find-other c s k) ∙ h))
]

pub fields-skip_commas : (s : String) → nonempty (fields (skip_commas s)) ≡ nonempty (fields s)
fields-skip_commas String.[] = ap (λ t. nonempty (fields t)) skip-nil
fields-skip_commas (String.◌∷◌ c s) = elim (Bool-cases (is_comma c)) [
  | inl k ↦ cc (skip-comma c s k, nonempty-comma c s k, fields-skip_commas s)
  | inr k ↦ ap (λ t. nonempty (fields t)) (skip-other c s k)
]

pub until-skip_commas : (s : String) → until_comma (skip_commas s) ≡ "" → skip_commas s ≡ ""
until-skip_commas String.[] h = skip-nil
until-skip_commas (String.◌∷◌ c s) h = elim (Bool-cases (is_comma c)) [
  | inl k ↦ skip-comma c s k ∙ until-skip_commas s (ap until_comma (sym (skip-comma c s k)) ∙ h)
  | inr k ↦
      absurd (cons≢nil (sym (until-other c s k) ∙ (ap until_comma (sym (skip-other c s k)) ∙ h)))
]

find_comma-count : (s r : String) → find_comma s ≡ some r → count r ≤ count s
find_comma-count String.[] r h = absurd (find-nil r h)
find_comma-count (String.◌∷◌ c s) r h = elim (Bool-cases (is_comma c)) [
  | inl k ↦ omega (arith, length-cons c s, ap count (find-same c s r k h))
  | inr k ↦ omega (arith, length-cons c s, find_comma-count s r (sym (find-other c s k) ∙ h))
]

pub find-skip_commas-count :
    (s r : String) → find_comma (skip_commas s) ≡ some r → count r < count s
find-skip_commas-count String.[] r h = absurd (find-nil r (ap find_comma (sym skip-nil) ∙ h))
find-skip_commas-count (String.◌∷◌ c s) r h = elim (Bool-cases (is_comma c)) [
  | inl k ↦ omega (
    arith,
    length-cons c s,
    find-skip_commas-count s r (ap find_comma (sym (skip-comma c s k)) ∙ h),
  )
  | inr k ↦ omega (
    arith,
    length-cons c s,
    find_comma-count s r (sym (find-other c s k) ∙ (ap find_comma (sym (skip-other c s k)) ∙ h)),
  )
]
