-- ===== src/Benchmarks/Spec/Loop.antt =====
-- The loop of `ParseSpecification` against the fields of its text.
use Prim.Native.String.{String, count}
use text.Mathlib.Text.{◌==◌}
use text.Mathlib.TextEquality.{eq_iff}
use cpp_autotime.Prelude.{
  ℕ, zero, suc, ◌+◌, ◌<◌, ◌≡◌, ◌≢◌, ◌∙◌, refl, sym, ap, inl, inr, true, false, none, some, List, [],
  ◌∷◌, Bool-cases, Option-cases, arith,
}
use cpp_autotime.Benchmarks.Defs.{Benchmark}
use cpp_autotime.Benchmarks.Spec.{
  Parsed, parsed, invalid_name, skip_commas, find_comma, until_comma, select, parse_from,
  parse_specification,
}
use cpp_autotime.Benchmarks.Spec.Fields.{
  fields, nonempty, rest_fields, fields_lem, find_comma-none, find_comma-some, fields-skip_commas,
  until-skip_commas, find-skip_commas-count,
}

-- Select by each name in turn, up to the first that is none.
abbrev pub select_all : List String → List Benchmark → Parsed
select_all [] result = parsed result
select_all (name ∷ names) result = elim (select name result) [
  | none ↦ invalid_name name
  | some selected ↦ select_all names selected
]

true-ne : true ≢ false
true-ne h = cc h

fields-begin :
    (s : String)
    → (skip_commas s == "") ≡ false
    → nonempty (fields s) ≡ until_comma (skip_commas s) ∷ nonempty (rest_fields (skip_commas s))
fields-begin s h =
    sym (fields-skip_commas s) ∙ (ap nonempty (fields_lem (skip_commas s)) ∙ rw not_empty refl)
  where
    not_empty : (until_comma (skip_commas s) == "") ≡ false
    not_empty = elim (Bool-cases (until_comma (skip_commas s) == "")) [
      | inl e ↦ absurd (
          true-ne
            (sym ((eq_iff (skip_commas s) "").1 (until-skip_commas s ((eq_iff _ "").0 e))) ∙ h))
      | inr e ↦ e
    ]

fields-end : (s : String) → (skip_commas s == "") ≡ true → nonempty (fields s) ≡ []
fields-end s h =
    sym (fields-skip_commas s) ∙ ap (λ t. nonempty (fields t)) ((eq_iff (skip_commas s) "").0 h)

module _ (fuel : ℕ) (rest : String) (result : List Benchmark) where
  parse_end : (skip_commas rest == "") ≡ true → parse_from (suc fuel) rest result ≡ parsed result
  unfolding parse_from
  parse_end h = rw h refl

  parse_invalid :
      (skip_commas rest == "") ≡ false
      → select (until_comma (skip_commas rest)) result ≡ none
      → parse_from (suc fuel) rest result ≡ invalid_name (until_comma (skip_commas rest))
  unfolding parse_from
  parse_invalid h k = rw h (rw k refl)

  parse_last :
      (selected : List Benchmark)
      → (skip_commas rest == "") ≡ false
      → select (until_comma (skip_commas rest)) result ≡ some selected
      → find_comma (skip_commas rest) ≡ none
      → parse_from (suc fuel) rest result ≡ parsed selected
  unfolding parse_from
  parse_last selected h k l = rw h (rw k (rw l refl))

  parse_next :
      (selected : List Benchmark) (ofs : String)
      → (skip_commas rest == "") ≡ false
      → select (until_comma (skip_commas rest)) result ≡ some selected
      → find_comma (skip_commas rest) ≡ some ofs
      → parse_from (suc fuel) rest result ≡ parse_from fuel ofs selected
  unfolding parse_from
  parse_next selected ofs h k l = rw h (rw k (rw l refl))

pub select_all-none :
    (name : String) (names : List String) (result : List Benchmark)
    → select name result ≡ none
    → select_all (name ∷ names) result ≡ invalid_name name
select_all-none name names result k = rw (k, select_all) refl

pub select_all-some :
    (name : String) (names : List String) (result selected : List Benchmark)
    → select name result ≡ some selected
    → select_all (name ∷ names) result ≡ select_all names selected
select_all-some name names result selected k = rw (k, select_all) refl

parse_from_lem :
    (fuel : ℕ) (rest : String) (result : List Benchmark)
    → count rest < fuel
    → parse_from fuel rest result ≡ select_all (nonempty (fields rest)) result
parse_from_lem zero rest result enough = absurd (omega arith)
parse_from_lem (suc fuel) rest result enough = elim (Bool-cases (begin == "")) [
  | inl h ↦ parse_end fuel rest result h ∙ ap (λ ns. select_all ns result) (sym (fields-end rest h))
  | inr h ↦ rw (fields-begin rest h) (elim (Option-cases (select name result)) [
    | inl k ↦ parse_invalid fuel rest result h k ∙ sym (select_all-none name names result k)
    | inr (selected, k) ↦
        select_rest h selected k (λ ofs l.
          parse_from_lem fuel ofs selected (omega (arith, find-skip_commas-count rest ofs l)))
        ∙ sym (select_all-some name names result selected k)
  ])
]
  where
    begin : String
    begin = skip_commas rest

    name : String
    name = until_comma begin

    names : List String
    names = nonempty (rest_fields begin)

    select_rest :
        (begin == "") ≡ false
        → (selected : List Benchmark) → select name result ≡ some selected
        → ((ofs : String)
            → find_comma begin ≡ some ofs
            → parse_from fuel ofs selected ≡ select_all (nonempty (fields ofs)) selected)
        → parse_from (suc fuel) rest result ≡ select_all names selected
    select_rest h selected k further = elim (Option-cases (find_comma begin)) [
      | inl l ↦
          parse_last fuel rest result selected h k l
          ∙ ap (λ ns. select_all (nonempty ns) selected) (sym (find_comma-none begin l))
      | inr (ofs, l) ↦
          parse_next fuel rest result selected ofs h k l
          ∙ (further ofs l ∙ ap (λ ns. select_all ns selected) (find_comma-some begin ofs l))
    ]

-- `ParseSpecification` always comes to an end, and selects by the parts of its text between the
-- commas in turn, leaving out the empty ones, up to the first that is no name.
pub parse_specification_lem :
    (spec : String) → parse_specification spec ≡ select_all (nonempty (fields spec)) []
unfolding parse_specification
parse_specification_lem spec = parse_from_lem (count spec + 1) spec [] (omega arith)
