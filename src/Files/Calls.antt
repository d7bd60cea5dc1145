-- ===== src/Files/Calls.antt =====
-- Calls of the operating system, and computations over its state that return, throw a
-- `std::system_error`, store or take bytes outside of their buffer, or have not come to an end within
-- the fuel of the model.
use Prim.Native.String.{String}
use cpp_autotime.Prelude.{ℕ, Bool, Option, List}
use cpp_autotime.Prelude.Int.{ℤ}

pub data Result (S A : Type 0) : Type 0 where
  done : A → S → Result S A
  thrown : String → ℕ → S → Result S A
  out_of_bounds : Result S A
  unfinished : Result S A

abbrev pub Io : Type 0 → Type 0 → Type 0
Io S A = S → Result S A

abbrev pub pure : {S A : Type 0} → A → Io S A
pure a s = done a s

abbrev pub and_then : {S A B : Type 0} → Result S A → (A → Io S B) → Result S B
and_then (done a s) f = f a s
and_then (thrown what code s) f = thrown what code s
and_then out_of_bounds f = out_of_bounds
and_then unfinished f = unfinished

infixl 5 ◌>>=◌
abbrev pub ◌>>=◌ : {S A B : Type 0} → Io S A → (A → Io S B) → Io S B
◌>>=◌ m f s = and_then (m s) f

-- The calls and the macros of POSIX that the file helpers use, and `boost::filesystem::exists`, over
-- a state S of the system. `read` gives the bytes that it stores, or nothing where it returns -1;
-- `creat` and `directory` are the numbers of the bits of `O_CREAT` and `O_DIRECTORY`.
pub record Posix (S : Type 0) : Type 0 where
  pub errno : S → ℕ
  pub eagain : ℕ
  pub eintr : ℕ
  pub creat : ℕ
  pub directory : ℕ
  pub default_flags : ℕ
  pub mkdir : String → ℕ → S → ℤ × S
  pub rmdir : String → S → ℤ × S
  pub open_path : String → ℕ → ℕ → S → ℤ × S
  pub close_fd : ℤ → S → ℤ × S
  pub unlink_path : String → S → ℤ × S
  pub seek : ℤ → ℤ → ℕ → S → ℤ × S
  pub read_fd : ℤ → ℕ → S → Option (List ℕ) × S
  pub write_fd : ℤ → List ℕ → S → ℤ × S
  pub exists_path : String → S → Bool × S
