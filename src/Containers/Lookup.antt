-- ===== src/Containers/Lookup.antt =====
-- What `MakeData` gives, and that `FindTimer` finds each element it looks for.
use mathlib.Core.List.{Perm, foldr}
use mathlib.Core.List.Perm
use mathlib.Core.Option.{bind}
use native.Mathlib.Nat.{mod-lt}
use cpp_autotime.Prelude.{
  ℕ, zero, suc, ◌+◌, ◌%◌, ◌^◌, ◌<◌, ◌≡◌, ◌∙◌, sym, subst, refl, ap, Bool, true, false, ◌||◌, ◌&&◌,
  and-true, Option, some, List, [], ◌∷◌, ◌++◌, map, arith, if◌then◌else◌,
}
use cpp_autotime.Prelude.Int.{ℤ, pos, to_int32-pos}
use cpp_autotime.Prelude.Lists.{length}
use cpp_autotime.Benchmarks.Enum.{get_elem?}
use cpp_autotime.Containers.Recipes.{
  Container, deque_of, list_of, set_of, unordered_set_of, vector_of,
}
use cpp_autotime.Containers.Generic.{
  remainder, shuffled, second, make_data, has_element, insert_element, insert_loop, insert_data,
  find_loop, find_result,
}

-- The elements i, i + 1, ... of `MakeElement`.
abbrev pub elements_from : {A : Type 0} → (ℕ → A) → ℕ → ℕ → List A
elements_from make_element zero i = []
elements_from make_element (suc n) i = make_element i ∷ elements_from make_element n (i + 1)

map-shuffled :
    {A G : Type 0} (random : G → ℕ × G) (make_element : ℕ → A) (n i : ℕ) (g : G)
    → map (second random make_element) (shuffled random make_element n i g)
      ≡ elements_from make_element n i
unfolding shuffled
map-shuffled random make_element zero i g = refl
map-shuffled random make_element (suc n) i g =
    ap (λ xs. make_element i ∷ xs) (map-shuffled random make_element n (i + 1) (random g).1)

-- `MakeData( n )` gives the first n elements of `MakeElement`, in some order, whatever `random`
-- gives; all that it needs of `std::sort` is that it permutes.
pub make_data-Perm :
    {A G : Type 0} (random : G → ℕ × G) (make_element : ℕ → A) (sort : List (ℤ × A) → List (ℤ × A))
    (g : G) (n : ℕ)
    → ((pairs : List (ℤ × A)) → Perm (sort pairs) pairs)
    → Perm (make_data random make_element sort g n) (elements_from make_element n 0)
unfolding make_data
make_data-Perm random make_element sort g n permutes =
    subst (Perm (make_data random make_element sort g n)) (map-shuffled random make_element n 0 g)
      (Perm.map _ (permutes (shuffled random make_element n 0 g)))

module _ {A : Type 0} (eq : A → A → Bool) (eq_refl : (a : A) → eq a a ≡ true) where
  -- Every one of the elements is in the container.
  abbrev pub all_in : List A → List A → Bool
  all_in c [] = true
  all_in c (x ∷ xs) = has_element eq c x && all_in c xs

  has_element-append :
      (c d : List A) (x : A)
      → has_element eq (c ++ d) x ≡ (has_element eq c x || has_element eq d x)
  unfolding has_element
  has_element-append [] d x = refl
  has_element-append (y ∷ c) d x = grind (arith, has_element-append c d x)

  insert-keeps :
      (kind : Container) (c : List A) (v x : A)
      → has_element eq c x ≡ true
      → has_element eq (insert_element eq kind c v) x ≡ true
  unfolding insert_element has_element
  insert-keeps deque_of c v x h = grind (arith, has_element-append c (v ∷ []) x)
  insert-keeps list_of c v x h = grind (arith, has_element-append c (v ∷ []) x)
  insert-keeps vector_of c v x h = grind (arith, has_element-append c (v ∷ []) x)
  insert-keeps set_of c v x h = ground arith
  insert-keeps unordered_set_of c v x h = ground arith

  insert-has :
      (kind : Container) (c : List A) (v : A) → has_element eq (insert_element eq kind c v) v ≡ true
  unfolding insert_element has_element
  insert-has deque_of c v = grind (arith, has_element-append c (v ∷ []) v, eq_refl v)
  insert-has list_of c v = grind (arith, has_element-append c (v ∷ []) v, eq_refl v)
  insert-has vector_of c v = grind (arith, has_element-append c (v ∷ []) v, eq_refl v)
  insert-has set_of c v = ground (arith, eq_refl v)
  insert-has unordered_set_of c v = ground (arith, eq_refl v)

  all_in-insert :
      (kind : Container) (c : List A) (v : A) (xs : List A)
      → all_in c xs ≡ true
      → all_in (insert_element eq kind c v) xs ≡ true
  all_in-insert kind c v [] h = refl
  all_in-insert kind c v (x ∷ xs) h =
      let (first, rest) = and-true _ _ h in
      rw (insert-keeps kind c v x first) (all_in-insert kind c v xs rest)

  all_in-loop :
      (kind : Container) (elements stored result : List A)
      → all_in result stored ≡ true
      → (all_in (insert_loop eq kind elements result) stored ≡ true)
        × (all_in (insert_loop eq kind elements result) elements ≡ true)
  unfolding insert_loop
  all_in-loop kind [] stored result h = (h, refl)
  all_in-loop kind (v ∷ elements) stored result h =
      let (kept, others) =
        all_in-loop kind elements (v ∷ stored) (insert_element eq kind result v)
          (rw (insert-has kind result v) (all_in-insert kind result v stored h)) in
      let (first, rest) =
        and-true (has_element eq (insert_loop eq kind elements (insert_element eq kind result v)) v)
          _ kept in
      (rest, rw first others)

  get-has :
      (c xs : List A) (i : ℕ)
      → i < length xs
      → all_in c xs ≡ true
      → (v : A) × (get_elem? xs i ≡ some v) × (has_element eq c v ≡ true)
  get-has c [] i lt h = absurd (omega arith)
  get-has c (x ∷ xs) zero lt h = (x, refl, (and-true _ _ h).0)
  get-has c (x ∷ xs) (suc i) lt h = get-has c xs i (omega arith) (and-true _ _ h).1

  remainder-pos : (i n : ℕ) → 0 < n → remainder eq i (pos n) ≡ some (i % n)
  unfolding remainder
  remainder-pos i n h = ground arith

  find_loop-counts :
      (c xs : List A) (left i count : ℕ)
      → 0 < length xs
      → all_in c xs ≡ true
      → count + left < 2 ^ 32
      → find_loop eq c xs (pos (length xs)) left i count ≡ some (count + left)
  unfolding find_loop bind
  find_loop-counts c xs zero i count pos_size h lt = ap some (omega arith)
  find_loop-counts c xs (suc left) i count pos_size h lt =
      let (v, at, has) = get-has c xs (i % length xs) (mod-lt i pos_size) h in
      let next : ℕ → Option ℕ = find_loop eq c xs (pos (length xs)) left (i + 1) in
      let step : A → Option ℕ =
        λ value. next (if has_element eq c value then (count + 1) % 2 ^ 32 else count) in
      ap (λ o. bind o (λ k. bind (get_elem? xs k) step)) (remainder-pos i (length xs) pos_size)
      ∙ (ap (λ o. bind o step) at
          ∙ (ap (λ found. next (if found then (count + 1) % 2 ^ 32 else count)) has
              ∙ (ap next (omega arith)
                  ∙ (find_loop-counts c xs left (i + 1) (count + 1) pos_size h (omega arith)
                      ∙ ap some (omega arith)))))

  all_in-foldr : (c xs : List A) → all_in c xs ≡ foldr (λ x all. has_element eq c x && all) true xs
  all_in-foldr c [] = refl
  all_in-foldr c (x ∷ xs) = ap (λ all. has_element eq c x && all) (all_in-foldr c xs)

  length-foldr : (xs : List A) → length xs ≡ foldr (λ x n. suc n) 0 xs
  length-foldr [] = refl
  length-foldr (x ∷ xs) = ap suc (length-foldr xs)

  and_left_comm : (a b c : Bool) → (a && (b && c)) ≡ (b && (a && c))
  and_left_comm true b c = refl
  and_left_comm false true c = refl
  and_left_comm false false c = refl

  all_in-Perm : (c xs ys : List A) → Perm xs ys → all_in c xs ≡ all_in c ys
  all_in-Perm c xs ys p =
      let set : IsSet Bool = hlevel in
      all_in-foldr c xs
      ∙ (Perm.foldr-eq set (λ (x : A) (all : Bool). has_element eq c x && all)
            (λ a b x. and_left_comm (has_element eq c a) (has_element eq c b) x) p true
          ∙ sym (all_in-foldr c ys))

  length-Perm : (xs ys : List A) → Perm xs ys → length xs ≡ length ys
  length-Perm xs ys p =
      let set : IsSet ℕ = hlevel in
      length-foldr xs
      ∙ (Perm.foldr-eq set (λ (x : A) (n : ℕ). suc n) (λ a b x. refl) p 0 ∙ sym (length-foldr ys))

  -- The timer of `MakeFindTimers` for a container of one or more elements, and as few as an `int` can
  -- count, never reads beyond its data nor divides by zero, and finds every element that it looks for:
  -- what it leaves in `CountResult` is the number of iterations, which is an `int`. All that it needs
  -- of `std::sort` is that it permutes.
  pub find_result-counts :
      (kind : Container) (sort : Bool) (sorted : List A → List A) (elements : List A)
      (num_iters : ℕ)
      → ((xs : List A) → Perm (sorted xs) xs)
      → 0 < length elements
      → length elements < 2 ^ 31
      → num_iters < 2 ^ 31
      → find_result eq kind sort sorted elements num_iters ≡ some num_iters
  unfolding find_result insert_data
  find_result-counts kind true sorted elements num_iters permutes some_data small few =
      let c = insert_data eq kind elements in
      let same : length (sorted elements) ≡ length elements = length-Perm _ _ (permutes elements) in
      let found : all_in c (sorted elements) ≡ true =
        all_in-Perm c _ _ (permutes elements) ∙ (all_in-loop kind elements [] [] refl).1 in
      ap (λ n. find_loop eq c (sorted elements) n num_iters 0 0)
        (to_int32-pos (length elements) small ∙ ap pos (sym same))
      ∙ (find_loop-counts c (sorted elements) num_iters 0 0 (omega (arith, same)) found
            (omega arith)
          ∙ ap some (omega arith))
  find_result-counts kind false sorted elements num_iters permutes some_data small few =
      ap (λ n. find_loop eq (insert_data eq kind elements) elements n num_iters 0 0)
        (to_int32-pos (length elements) small)
      ∙ (find_loop-counts (insert_data eq kind elements) elements num_iters 0 0 some_data
            (all_in-loop kind elements [] [] refl).1 (omega arith)
          ∙ ap some (omega arith))
