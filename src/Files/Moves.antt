-- ===== src/Files/Moves.antt =====
-- What the moves of `ScopedFile` leave to be done by the destructors.
use cpp_autotime.Prelude.{ℕ, ◌≡◌, refl, fun_ext}
use cpp_autotime.Prelude.Int.{negsuc}
use cpp_autotime.Files.Calls.{
  Result, done, thrown, out_of_bounds, unfinished, Io, pure, ◌>>=◌, and_then, Posix,
}
use cpp_autotime.Files.Scoped.{
  ScopedFile, scoped, close_scoped, remove_path, destroy, move, assign_scoped,
}

module _ {S : Type 0} (os : Posix S) where
  -- An instance without a file and without a descriptor is destroyed without a call.
  destroy_empty : (flags : ℕ) (s : S) → destroy os (scoped flags "" (negsuc 0)) s ≡ done tt s
  unfolding destroy close_scoped remove_path
  destroy_empty flags s = refl

  -- After a move construction, the destructor of the old instance does nothing and that of the new
  -- one does what that of the old would have done.
  pub move-destroy :
      (f : ScopedFile) → (destroy os (move os f).1 >>= λ _. destroy os (move os f).0) ≡ destroy os f
  unfolding move destroy close_scoped remove_path
  move-destroy f = refl

  -- Both instances are destroyed, the second one first.
  abbrev pub destroy_both : ScopedFile × ScopedFile → Io S Unit
  destroy_both (f, g) = destroy os g >>= λ _. destroy os f

  assign-destroyed :
      (g : ScopedFile) (r : Result S ScopedFile)
      → and_then
          (and_then r (λ this'.
            pure {A = ScopedFile × ScopedFile}
              (scoped g.flags g.filename g.fd, scoped g.flags "" (negsuc 0))))
          destroy_both
        ≡ and_then r (λ _. destroy os g)
  unfolding destroy close_scoped remove_path
  assign-destroyed g (done f' s) = refl
  assign-destroyed g (thrown what code s) = refl
  assign-destroyed g out_of_bounds = refl
  assign-destroyed g unfinished = refl

  -- A move assignment forgets the file that the assigned instance had: to assign and then destroy both
  -- instances comes to closing the descriptor of the one and destroying the other, and the file of the
  -- one is not removed.
  pub assign-destroy :
      (f g : ScopedFile)
      → (assign_scoped os f g >>= destroy_both) ≡ (close_scoped os f >>= λ _. destroy os g)
  unfolding assign_scoped
  assign-destroy f g = fun_ext (λ s. assign-destroyed g (close_scoped os f s))
