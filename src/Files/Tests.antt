-- ===== src/Files/Tests.antt =====
-- A system that takes and gives two bytes at a time, and the witnesses of the theorems on files.
use mathlib.Core.List.{Perm}
use mathlib.Core.List.Perm
use cpp_autotime.Prelude.{
  ℕ, zero, suc, ◌≡◌, refl, if◌then◌else◌, none, ap, ◌∙◌, min, false, Option, some, List, [], ◌∷◌,
  ◌++◌, arith,
}
use cpp_autotime.Prelude.Int.{ℤ, pos, negsuc, eqb_ℤ}
use cpp_autotime.Prelude.Lists.{length, take, drop}
use cpp_autotime.Files.Calls.{Posix, unfinished, ◌>>=◌}
use cpp_autotime.Files.{read_from}
use cpp_autotime.Files.Scoped.{ScopedFile, scoped, close_scoped, destroy, assign_scoped, move}
use cpp_autotime.Files.Moves.{move-destroy, assign-destroy, destroy_both}
use cpp_autotime.Files.Reading.{read_at_end}

-- The next descriptor, those that are open, and the bytes of the only file.
record System : Type 0 where
  next : ℕ
  fds : List ℤ
  text : List ℕ

abbrev system : ℕ → List ℤ → List ℕ → System
system next fds text = record { next = next; fds = fds; text = text }

-- The descriptors without one of them, if it is there.
abbrev put_back : ℤ → Option (List ℤ) → Option (List ℤ)
put_back x none = none
put_back x (some fds) = some (x ∷ fds)

abbrev remove : ℤ → List ℤ → Option (List ℤ)
remove fd [] = none
remove fd (x ∷ fds) = if eqb_ℤ x fd then some fds else put_back x (remove fd fds)

abbrev close_result : Option (List ℤ) → System → ℤ × System
close_result none s = (negsuc 0, s)
close_result (some fds) s = (pos 0, system s.next fds s.text)

abbrev nothing_done : System → ℤ × System
nothing_done s = (pos 0, s)

abbrev tiny : Posix System
tiny = record {
  errno = λ s. 0;
  eagain = 11;
  eintr = 4;
  creat = 6;
  directory = 16;
  default_flags = 66;
  mkdir = λ path mode. nothing_done;
  rmdir = λ path. nothing_done;
  open_path = λ path flags mode s. (pos s.next, system (suc s.next) (pos s.next ∷ s.fds) s.text);
  close_fd = λ fd s. close_result (remove fd s.fds) s;
  unlink_path = λ path. nothing_done;
  seek = λ fd ofs whence. nothing_done;
  read_fd = λ fd count s.
      (some (take (min 2 count) s.text), system s.next s.fds (drop (min 2 count) s.text));
  write_fd = λ fd buf s.
      (pos (min 2 (length buf)), system s.next s.fds (s.text ++ take (min 2 (length buf)) buf));
  exists_path = λ path s. (false, s);
}

abbrev IsRemoved : ℤ → List ℤ → Option (List ℤ) → Type 0
IsRemoved fd fds none = Unit
IsRemoved fd fds (some others) = Perm (fd ∷ others) fds

at_start : System
at_start = system 3 (pos 0 ∷ pos 1 ∷ pos 2 ∷ []) (7 ∷ 8 ∷ 9 ∷ [])

abbrev opened : ScopedFile
opened = scoped 66 "x" (pos 3)

-- The new instance, which owns the descriptor 3.
abbrev holder : ScopedFile
holder = scoped 66 "x" (pos 3)

move-destroy_example :
    (destroy tiny (move tiny opened).1 >>= λ _. destroy tiny (move tiny opened).0)
    ≡ destroy tiny opened
move-destroy_example = move-destroy tiny opened

assign-destroy_example :
    (assign_scoped tiny opened (scoped 66 "y" (pos 4)) >>= destroy_both tiny)
    ≡ (close_scoped tiny opened >>= λ _. destroy tiny (scoped 66 "y" (pos 4)))
assign-destroy_example = assign-destroy tiny opened (scoped 66 "y" (pos 4))

-- The end of the only file is where it has no text left.
abbrev AtEnd : System → Type 0
AtEnd s = s.text ≡ []

take-nil : (n : ℕ) → take {A = ℕ} n [] ≡ []
take-nil zero = refl
take-nil (suc n) = refl

drop-nil : (n : ℕ) → drop {A = ℕ} n [] ≡ []
drop-nil zero = refl
drop-nil (suc n) = refl

stays :
    (n : ℕ) (s : System)
    → AtEnd s
    → ((tiny.read_fd (pos 0) n s).0 ≡ some []) × AtEnd (tiny.read_fd (pos 0) n s).1
stays n s e = (
  ap (λ bytes. some (take (min 2 n) bytes)) e ∙ ap some (take-nil (min 2 n)),
  ap (drop (min 2 n)) e ∙ drop-nil (min 2 n),
)

read_at_end_example : read_from tiny 1000 (pos 0) 1 0 [] (system 3 [] []) ≡ unfinished
read_at_end_example =
    read_at_end tiny (pos 0) AtEnd 1000 1 (system 3 [] []) stays refl (omega arith)
