-- ===== src/Files/Reading.antt =====
-- What `Read` comes to, and what it does at the end of a file.
use cpp_autotime.Prelude.{
  ℕ, zero, suc, ◌-◌, ◌≤◌, ◌<◌, ◌≡◌, refl, true, ◌⊎◌, none, some, List, [], ◌++◌, arith, ltb,
}
use cpp_autotime.Prelude.Int.{ℤ}
use cpp_autotime.Prelude.Lists.{length}
use cpp_autotime.Files.Calls.{Result, done, thrown, out_of_bounds, unfinished, Posix}
use cpp_autotime.Files.{read_some, read_from, is_interrupted}

-- What is documented of `read` on a descriptor, where `left` are the bytes from its offset on: it
-- gives the next bytes, as many as are asked for at most, or fails and passes over none. `patience` is
-- an upper bound of the calls to come that give nothing where there is something, and do not fail for
-- good.
pub record IsReading {S : Type 0} (os : Posix S) (fd : ℤ) (left : S → List ℕ) (patience : S → ℕ)
    : Type 0 where
  pub reads :
      (count : ℕ) (s : S) (bytes : List ℕ)
      → (os.read_fd fd count s).0 ≡ some bytes
      → (length bytes ≤ count) × (left s ≡ bytes ++ left (os.read_fd fd count s).1)
  pub fails :
      (count : ℕ) (s : S)
      → (os.read_fd fd count s).0 ≡ none
      → left (os.read_fd fd count s).1 ≡ left s
  pub patient : (count : ℕ) (s : S) → patience (os.read_fd fd count s).1 ≤ patience s
  pub moves :
      (count : ℕ) (s : S)
      → 0 < count
      → 0 < length (left s)
      → ((os.read_fd fd count s).0 ≡ some [])
        ⊎ (((os.read_fd fd count s).0 ≡ none)
            × (is_interrupted os (os.read_fd fd count s).1 ≡ true))
      → patience (os.read_fd fd count s).1 < patience s

module _ {S : Type 0} (os : Posix S) (fd : ℤ) where
  module _ (left : S → List ℕ) (patience : S → ℕ) (laws : IsReading os fd left patience) where
    -- What `ReadSome` comes to.
    abbrev Got : ℕ → S → Result S (List ℕ) → Type 0
    Got count s (done bytes s') =
        (length bytes ≤ count)
        × (left s ≡ bytes ++ left s')
        × (patience s' ≤ patience s)
        × (0 < count → 0 < length (left s) → length bytes ≡ 0 → patience s' < patience s)
    Got count s (thrown what code s') = left s' ≡ left s
    Got count s out_of_bounds = ⊥
    Got count s unfinished = ⊥

    -- What `Read` comes to, from s on: the bytes that are asked for; or the call that threw follows
    -- after a part of them.
    abbrev pub Received : ℕ → S → Result S (List ℕ) → Type 0
    Received count s (done bytes s') = (length bytes ≡ count) × (left s ≡ bytes ++ left s')
    Received count s (thrown what code s') =
        (bytes : List ℕ) × (length bytes ≤ count) × (left s ≡ bytes ++ left s')
    Received count s out_of_bounds = ⊥
    Received count s unfinished = ⊥

  -- At the end of a file, where `read` gives no byte, now and in all that follows, a `Read` of one byte
  -- or more goes on for ever: it neither returns nor throws.
  pub read_at_end :
      (at_end : S → Type 0) (fuel count : ℕ) (s : S)
      → ((n : ℕ) (s' : S)
          → at_end s'
          → ((os.read_fd fd n s').0 ≡ some []) × at_end (os.read_fd fd n s').1)
      → at_end s
      → 0 < count
      → read_from os fuel fd count 0 [] s ≡ unfinished
  unfolding read_from read_some
  read_at_end at_end zero count s ends h some_count = refl
  read_at_end at_end (suc fuel) count s ends h some_count =
      let (nothing, after) = ends (count - 0) s h in
      let more : ltb 0 count ≡ true = ground arith in
      rw (more, nothing)
        (read_at_end at_end fuel count (os.read_fd fd (count - 0) s).1 ends after some_count)
