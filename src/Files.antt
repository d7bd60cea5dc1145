-- ===== src/Files.antt =====
-- bench/file_utils.cpp: the wrappers of system calls, and the loops that read, write and fill.
pub mod Calls
pub mod Scoped
pub mod Steps
pub mod Keeps
pub mod Owned
pub mod Owners
pub mod Moves
pub mod Transfer
pub mod Reading
pub mod Filling
mod Tests
use Prim.Native.String.{String}
use cpp_autotime.Prelude.{
  ℕ, zero, suc, ◌+◌, ◌-◌, ◌%◌, ◌^◌, min, Bool, not, ◌||◌, ◌==◌, Option, none, some, List, [], ◌∷◌,
  ◌++◌, if◌then◌else◌, ltb,
}
use cpp_autotime.Prelude.Int.{ℤ, pos, pos_part, ltb_ℤ, leb_ℤ, eqb_ℤ}
use cpp_autotime.Prelude.Lists.{length, take, drop}
use cpp_autotime.Files.Calls.{Result, done, thrown, unfinished, Io, pure, ◌>>=◌, Posix}

module _ {S : Type 0} (os : Posix S) where
  open os use {
    errno, eagain, eintr, mkdir, rmdir, open_path, close_fd, unlink_path, seek, read_fd, write_fd,
  }

  -- `throw_system_error( errno, what )`
  abbrev pub throw_system_error : {A : Type 0} → String → Io S A
  throw_system_error what s = thrown what (errno s) s

  -- `MakeDir`, with mode 0777.
  unfoldable pub make_dir : String → Io S Unit
  make_dir filename s =
      let (rtn, s') = mkdir filename 511 s in
      if ltb_ℤ rtn (pos 0) then throw_system_error "mkdir()" s' else done tt s'

  -- `RemoveDir`
  unfoldable pub remove_dir : String → Io S Unit
  remove_dir filename s =
      let (rtn, s') = rmdir filename s in
      if ltb_ℤ rtn (pos 0) then throw_system_error "rmdir()" s' else done tt s'

  -- `OpenFile`, with mode 0666.
  unfoldable pub open_file : String → ℕ → Io S ℤ
  open_file filename flags s =
      let (fd, s') = open_path filename flags 438 s in
      if ltb_ℤ fd (pos 0) then throw_system_error "open()" s' else done fd s'

  -- `Close`
  unfoldable pub close : ℤ → Io S Unit
  close fd s =
      let (rtn, s') = close_fd fd s in
      if leb_ℤ (pos 0) fd
      then (if eqb_ℤ rtn (pos 0) then done tt s' else throw_system_error "close()" s')
      else done tt s

  -- `Unlink`
  unfoldable pub unlink : String → Io S Unit
  unlink filename s =
      let (rtn, s') = unlink_path filename s in
      if eqb_ℤ rtn (pos 0) then done tt s' else throw_system_error "unlink()" s'

  -- `LSeek`
  unfoldable pub lseek : ℤ → ℤ → ℕ → Io S ℕ
  lseek fd offset whence s =
      let (ofs, s') = seek fd offset whence s in
      if ltb_ℤ ofs (pos 0) then throw_system_error "lseek()" s' else done (pos_part ofs) s'

  -- A call that failed for the time being.
  abbrev pub is_interrupted : S → Bool
  is_interrupted s = errno s == eagain || errno s == eintr

  -- What `ReadSome` does with the result of `read`.
  abbrev pub read_outcome : Option (List ℕ) → Io S (List ℕ)
  read_outcome none s = if is_interrupted s then done [] s else throw_system_error "read()" s
  read_outcome (some bytes) s = done bytes s

  -- `ReadSome`: the bytes that it stores in the buffer.
  unfoldable pub read_some : ℤ → ℕ → Io S (List ℕ)
  read_some fd count s = let (got, s') = read_fd fd count s in read_outcome got s'

  -- `Read`, at `ofs`, where `bytes` is what the buffer has up to `ofs`.
  unfoldable pub read_from : ℕ → ℤ → ℕ → ℕ → List ℕ → Io S (List ℕ)
  read_from zero fd count ofs bytes = λ s. unfinished
  read_from (suc fuel) fd count ofs bytes =
      let rest : Io S (List ℕ) = (do
        more ← read_some fd (count - ofs)
        read_from fuel fd count ((ofs + length more) % 2 ^ 64) (bytes ++ more)) in
      if ltb ofs count then rest else pure bytes

  -- `WriteSome`
  unfoldable pub write_some : ℤ → List ℕ → Io S ℕ
  write_some fd buf s =
      let (written, s') = write_fd fd buf s in
      if ltb_ℤ written (pos 0)
      then (if is_interrupted s' then done 0 s' else throw_system_error "write()" s')
      else done (pos_part written) s'

  -- `Write`, at `ofs`.
  unfoldable pub write_from : ℕ → ℤ → List ℕ → ℕ → Io S Unit
  write_from zero fd buf ofs = λ s. unfinished
  write_from (suc fuel) fd buf ofs =
      let rest : Io S Unit = (do
        n ← write_some fd (drop ofs buf)
        write_from fuel fd buf ((ofs + n) % 2 ^ 64)) in
      if ltb ofs (length buf) then rest else pure tt

  -- `FillFile`, where `array` is the static array and `remain` what is left to be written.
  unfoldable pub fill_file : ℕ → List ℕ → ℤ → ℕ → Io S Unit
  fill_file zero array fd remain = λ s. unfinished
  fill_file (suc fuel) array fd remain =
      let rest : Io S Unit = (do
        n ← write_some fd (take (min (length array) remain) array)
        fill_file fuel array fd (remain - n)) in
      if ltb 0 remain then rest else pure tt
