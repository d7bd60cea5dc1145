-- ===== src/Files/Owners.antt =====
-- Every open descriptor has one owner, and no descriptor is closed twice.
use mathlib.Core.List.{Perm}
use mathlib.Core.List.Perm
use cpp_autotime.Prelude.{ℕ, ◌≤◌, List}
use cpp_autotime.Prelude.Int.{ℤ}
use cpp_autotime.Prelude.Lists.{length}
use cpp_autotime.Files.Calls.{Posix}
use cpp_autotime.Files.Scoped.{ScopedFile}
use cpp_autotime.Files.Steps.{IsPosix}
use cpp_autotime.Files.Owned.{IsOwned}

module _ {S : Type 0} (os : Posix S) (open_fds : S → List ℤ) (laws : IsPosix os open_fds)
    (base : List ℤ) where
  -- Some descriptors are lost, as many as calls of `close` have failed at the most.
  abbrev IsOwnedBut : ℕ → List ScopedFile → S → Type 0
  IsOwnedBut n files s =
      (lost : List ℤ) × (length lost ≤ n) × IsOwned os open_fds laws base lost files s
