-- ===== src/Containers/Generic.antt =====
-- The templates of bench/container_benchmarks.cpp and `MakeData` of bench/container_utils.hpp. A
-- container is the list of its elements; the order of those of a set is left open, and no template
-- depends on it. `eq` is the equality of the elements.
use mathlib.Core.Option.{bind}
use cpp_autotime.Prelude.{
  ℕ, zero, suc, ◌==◌, ◌+◌, ◌%◌, ◌^◌, Bool, false, ◌||◌, Option, some, none, List, [], ◌∷◌, ◌++◌,
  map, if◌then◌else◌,
}
use cpp_autotime.Prelude.Int.{ℤ, pos, pos_part, neg_part, to_int32}
use cpp_autotime.Prelude.Lists.{length}
use cpp_autotime.Benchmarks.Enum.{get_elem?}
use cpp_autotime.Containers.Recipes.{
  Container, deque_of, list_of, set_of, unordered_set_of, vector_of,
}

-- The values of `random()` one after the other, from a state of the generator on.
module _ {A G : Type 0} (random : G → ℕ × G) (make_element : ℕ → A) where
  -- The first loop of `MakeData`, at `i` and with the given number of rounds left.
  unfoldable pub shuffled : ℕ → ℕ → G → List (ℤ × A)
  shuffled zero i g = []
  shuffled (suc n) i g =
      let (r, g') = random g in (to_int32 (pos r), make_element i) ∷ shuffled n (i + 1) g'

  abbrev pub second : ℤ × A → A
  second (r, val) = val

  -- `MakeData`, where `sort` is `std::sort` on the pairs and g the generator after `srandom( 1 )`.
  unfoldable pub make_data : (List (ℤ × A) → List (ℤ × A)) → G → ℕ → List A
  unfolding shuffled
  make_data sort g n = map second (sort (shuffled n 0 g))

module _ {A : Type 0} (eq : A → A → Bool) where
  -- `HasElement`
  unfoldable pub has_element : List A → A → Bool
  has_element [] value = false
  has_element (x ∷ xs) value = eq x value || has_element xs value

  -- `InsertElement`
  unfoldable pub insert_element : Container → List A → A → List A
  unfolding has_element
  insert_element deque_of c value = c ++ value ∷ []
  insert_element list_of c value = c ++ value ∷ []
  insert_element vector_of c value = c ++ value ∷ []
  insert_element set_of c value = if has_element c value then c else value ∷ c
  insert_element unordered_set_of c value = if has_element c value then c else value ∷ c

  -- The loop of `Insert`, over the data that are left.
  unfoldable pub insert_loop : Container → List A → List A → List A
  insert_loop kind [] result = result
  insert_loop kind (value ∷ data_left) result =
      insert_loop kind data_left (insert_element kind result value)

  -- `Insert`
  unfoldable pub insert_data : Container → List A → List A
  insert_data kind elements = insert_loop kind elements []

  -- `i % data_size`, for a number i that is not negative; the remainder by zero has no result.
  unfoldable pub remainder : ℕ → ℤ → Option ℕ
  remainder i data_size =
      if pos_part data_size + neg_part data_size == 0
      then none
      else some (i % (pos_part data_size + neg_part data_size))

  -- The loop of `FindTimer` at `i`, with the given number of rounds left: the count, unless it reads
  -- beyond the data or divides by zero.
  unfoldable pub find_loop : List A → List A → ℤ → ℕ → ℕ → ℕ → Option ℕ
  find_loop c elements data_size zero i count = some count
  find_loop c elements data_size (suc left) i count = bind (remainder i data_size) (λ k.
      bind (get_elem? elements k) (λ value.
        find_loop c elements data_size left (i + 1)
          (if has_element c value then (count + 1) % 2 ^ 32 else count)))

  -- `MakeFindTimers` and what its `FindTimer` leaves in `CountResult`. The number of elements is a
  -- `size_t`, and `FindTimer` takes it as an `int`.
  unfoldable pub find_result : Container → Bool → (List A → List A) → List A → ℕ → Option ℕ
  find_result kind sort sorted elements num_iters =
      find_loop (insert_data kind elements) (if sort then sorted elements else elements)
        (to_int32 (pos (length elements))) num_iters 0 0

-- `Count`, where `check` is `CheckElement`.
unfoldable pub count_elements : {A : Type 0} → (A → Bool) → List A → ℕ → ℕ
count_elements check [] count = count
count_elements check (e ∷ c) count = count_elements check c (if check e then count + 1 else count)
