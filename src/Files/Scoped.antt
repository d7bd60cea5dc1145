-- ===== src/Files/Scoped.antt =====
-- `ScopedFile` of bench/file_utils.cpp: a file, and its descriptor, that end with their scope.
use Prim.Native.String.{String, []}
use cpp_autotime.Prelude.{ℕ, ◌+◌, ◌-◌, ◌/◌, ◌%◌, ◌^◌, Bool, true, false, ◌&&◌, ◌==◌, if◌then◌else◌}
use cpp_autotime.Prelude.Int.{ℤ, pos, negsuc, leb_ℤ}
use cpp_autotime.Files.Calls.{Result, done, Io, pure, ◌>>=◌, Posix}
use cpp_autotime.Files.{make_dir, remove_dir, open_file, close, unlink}

pub record ScopedFile : Type 0 where
  pub flags : ℕ
  pub filename : String
  pub fd : ℤ

abbrev pub scoped : ℕ → String → ℤ → ScopedFile
scoped flags filename fd = record { flags = flags; filename = filename; fd = fd }

-- `flags & (1 << k)`, as a test.
abbrev pub has_bit : ℕ → ℕ → Bool
has_bit flags k = flags / 2 ^ k % 2 == 1

-- `flags ^ (1 << k)`
abbrev pub flip_bit : ℕ → ℕ → ℕ
flip_bit flags k = if has_bit flags k then flags - 2 ^ k else flags + 2 ^ k

abbrev pub is_empty : String → Bool
is_empty [] = true
is_empty _ = false

-- `clear()` of a string.
abbrev pub cleared : String → String
cleared name = ""

module _ {S : Type 0} (os : Posix S) where
  open os use {creat, directory, default_flags, exists_path}

  -- An instance that is not bound.
  abbrev pub unbound : ScopedFile
  unbound = scoped default_flags "" (negsuc 0)

  -- `ScopedFile::make_bound`
  unfoldable pub make_bound : ℤ → ScopedFile
  make_bound fd = scoped unbound.flags unbound.filename fd

  -- `ScopedFile::close`
  unfoldable pub close_scoped : ScopedFile → Io S ScopedFile
  close_scoped f =
      let closed : ScopedFile = scoped f.flags f.filename (negsuc 0) in
      if leb_ℤ (pos 0) f.fd then (close os f.fd >>= (λ _. pure closed)) else pure closed

  -- The directory that the constructor makes where there is none, and the flags it goes on with.
  unfoldable pub make_missing : String → ℕ → Io S ℕ
  make_missing filename flags s =
      let (found, s') = exists_path filename s in
      let made : Result S ℕ = (make_dir os filename >>= (λ _. pure (flip_bit flags creat))) s' in
      if has_bit flags directory && has_bit flags creat
      then (if found then done (flip_bit flags creat) s' else made)
      else done flags s

  -- The constructor.
  unfoldable pub construct : String → ℕ → Io S ScopedFile
  construct filename flags =
      let opened : Io S ScopedFile = (do
        open_flags ← make_missing filename flags
        fd ← open_file os filename open_flags
        pure (scoped flags filename fd)) in
      if is_empty filename then pure (scoped flags filename (negsuc 0)) else opened

  -- `ScopedFile::make_random`, with what `unique_path` gives.
  unfoldable pub make_random : String → ℕ → Io S ScopedFile
  make_random unique flags = construct unique flags

  -- The destructor's second half, which removes the file.
  unfoldable pub remove_path : ScopedFile → Io S Unit
  remove_path f =
      if is_empty f.filename
      then pure tt
      else if has_bit f.flags directory
      then remove_dir os f.filename
      else unlink os f.filename

  -- The destructor.
  unfoldable pub destroy : ScopedFile → Io S Unit
  destroy f = close_scoped f >>= remove_path

  -- The move constructor: the new instance, and what is left of `orig`.
  unfoldable pub move : ScopedFile → ScopedFile × ScopedFile
  move orig = (scoped orig.flags orig.filename orig.fd, scoped orig.flags "" (negsuc 0))

  -- The move assignment `this = orig`: both instances after it.
  unfoldable pub assign_scoped : ScopedFile → ScopedFile → Io S (ScopedFile × ScopedFile)
  assign_scoped this orig = do
    this' ← close_scoped this
    pure (
      scoped orig.flags orig.filename orig.fd,
      scoped orig.flags (cleared this'.filename) (negsuc 0),
    )
