-- ===== src/Files/Filling.antt =====
-- What `FillFile` comes to.
use cpp_autotime.Prelude.{ℕ, ◌≤◌, ◌≡◌, List}
use cpp_autotime.Prelude.Int.{ℤ}
use cpp_autotime.Prelude.Lists.{length}
use cpp_autotime.Files.Calls.{Result, done, thrown, out_of_bounds, unfinished, Posix}
use cpp_autotime.Files.Transfer.{IsWriting}

module _ {S : Type 0} (os : Posix S) (fd : ℤ) (content : S → List ℕ) (patience : S → ℕ)
    (laws : IsWriting os fd content patience) where
  -- The file has grown by a number of bytes, or by no more than that.
  abbrev pub Filled : ℕ → Result S Unit → Type 0
  Filled total (done u s') = length (content s') ≡ total
  Filled total (thrown what code s') = length (content s') ≤ total
  Filled total out_of_bounds = ⊥
  Filled total unfinished = ⊥
