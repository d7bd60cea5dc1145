-- ===== src/Files/Steps.antt =====
-- The descriptors that instances of `ScopedFile` own, as a program makes, moves, assigns, closes
-- and destroys them.
use Prim.Native.String.{String}
use mathlib.Core.List.{Perm}
use cpp_autotime.Prelude.{ℕ, suc, ◌≡◌, ◌⊎◌, true, false, List, [], ◌∷◌, if◌then◌else◌}
use cpp_autotime.Prelude.Int.{ℤ, pos, ltb_ℤ, leb_ℤ, eqb_ℤ}
use cpp_autotime.Files.Calls.{done, thrown, Posix}
use cpp_autotime.Files.Scoped.{
  ScopedFile, make_bound, close_scoped, construct, destroy, move, assign_scoped,
}

-- What is documented of the calls, where `open_fds` are the open descriptors in a state: `open` gives
-- a new one; `close` succeeds only for one that is open, and closes it; where it fails, it may have
-- closed it or not; and no other call changes them.
pub record IsPosix {S : Type 0} (os : Posix S) (open_fds : S → List ℤ) : Type 0 where
  pub opens :
      (path : String) (flags mode : ℕ) (s : S)
      → ltb_ℤ (os.open_path path flags mode s).0 (pos 0) ≡ false
      → Perm
          ((os.open_path path flags mode s).0 ∷ open_fds s)
          (open_fds (os.open_path path flags mode s).1)
  pub open_fails :
      (path : String) (flags mode : ℕ) (s : S)
      → ltb_ℤ (os.open_path path flags mode s).0 (pos 0) ≡ true
      → open_fds (os.open_path path flags mode s).1 ≡ open_fds s
  pub closes :
      (fd : ℤ) (s : S)
      → eqb_ℤ (os.close_fd fd s).0 (pos 0) ≡ true
      → Perm (fd ∷ open_fds (os.close_fd fd s).1) (open_fds s)
  pub close_fails :
      (fd : ℤ) (s : S)
      → eqb_ℤ (os.close_fd fd s).0 (pos 0) ≡ false
      → (open_fds (os.close_fd fd s).1 ≡ open_fds s)
        ⊎ Perm (fd ∷ open_fds (os.close_fd fd s).1) (open_fds s)
  pub mkdir_keeps :
      (path : String) (mode : ℕ) (s : S) → open_fds (os.mkdir path mode s).1 ≡ open_fds s
  pub rmdir_keeps : (path : String) (s : S) → open_fds (os.rmdir path s).1 ≡ open_fds s
  pub unlink_keeps : (path : String) (s : S) → open_fds (os.unlink_path path s).1 ≡ open_fds s
  pub exists_keeps : (path : String) (s : S) → open_fds (os.exists_path path s).1 ≡ open_fds s

-- The descriptors of the instances.
abbrev pub owned : List ScopedFile → List ℤ
owned [] = []
owned (f ∷ files) = if leb_ℤ (pos 0) f.fd then f.fd ∷ owned files else owned files

module _ {S : Type 0} (os : Posix S) (open_fds : S → List ℤ) where
  -- A step of a program: on the instances that are alive and the state of the system. A constructor
  -- that throws leaves no instance. `make_bound` binds a descriptor that the program has opened by
  -- whatever call; other calls of the program leave the descriptors alone. `close` and the move
  -- assignment may throw, before they change an instance; the destructor may not, since the program
  -- ends then. Which instances come first is of no account.
  pub data FileStep : List ScopedFile → S → List ScopedFile → S → Type 0 where
    constructed :
        {f : ScopedFile} {files : List ScopedFile} {s s' : S} (name : String) (flags : ℕ)
        → construct os name flags s ≡ done f s'
        → FileStep files s (f ∷ files) s'
    not_constructed :
        {files : List ScopedFile} {s s' : S} (name what : String) (flags code : ℕ)
        → construct os name flags s ≡ thrown what code s'
        → FileStep files s files s'
    bound :
        {files : List ScopedFile} {s s' : S} (fd : ℤ)
        → leb_ℤ (pos 0) fd ≡ true
        → Perm (fd ∷ open_fds s) (open_fds s')
        → FileStep files s (make_bound os fd ∷ files) s'
    worked :
        {files : List ScopedFile} {s s' : S}
        → Perm (open_fds s) (open_fds s')
        → FileStep files s files s'
    moved :
        {files : List ScopedFile} {s : S} (f : ScopedFile)
        → FileStep (f ∷ files) s ((move os f).0 ∷ (move os f).1 ∷ files) s
    assigned :
        {files : List ScopedFile} {s s' : S} (f g f' g' : ScopedFile)
        → assign_scoped os f g s ≡ done (f', g') s'
        → FileStep (f ∷ g ∷ files) s (f' ∷ g' ∷ files) s'
    closed :
        {files : List ScopedFile} {s s' : S} (f f' : ScopedFile)
        → close_scoped os f s ≡ done f' s'
        → FileStep (f ∷ files) s (f' ∷ files) s'
    destroyed :
        {files : List ScopedFile} {s s' : S} (f : ScopedFile)
        → destroy os f s ≡ done tt s'
        → FileStep (f ∷ files) s files s'
    reordered :
        {files files' : List ScopedFile} {s : S} → Perm files files' → FileStep files s files' s

  -- A step that throws because a `close` has failed.
  pub data FailedStep : List ScopedFile → S → S → Type 0 where
    not_closed :
        {files : List ScopedFile} {s s' : S} (f : ScopedFile) (what : String) (code : ℕ)
        → close_scoped os f s ≡ thrown what code s'
        → FailedStep (f ∷ files) s s'
    not_assigned :
        {files : List ScopedFile} {s s' : S} (f g : ScopedFile) (what : String) (code : ℕ)
        → assign_scoped os f g s ≡ thrown what code s'
        → FailedStep (f ∷ g ∷ files) s s'

  -- What a program can reach from a state in which it has no instance, with a number of calls of
  -- `close` that have failed.
  pub data Reach (start : S) : ℕ → List ScopedFile → S → Type 0 where
    begin : Reach start 0 [] start
    onward :
        {n : ℕ} {files files' : List ScopedFile} {s s' : S}
        → Reach start n files s
        → FileStep files s files' s'
        → Reach start n files' s'
    failed :
        {n : ℕ} {files : List ScopedFile} {s s' : S}
        → Reach start n files s
        → FailedStep files s s'
        → Reach start (suc n) files s'
