-- ===== src/Files/Keeps.antt =====
-- Which of the file helpers leave the open descriptors as they are.
use Prim.Native.String.{String}
use mathlib.Core.List.{Perm}
use cpp_autotime.Prelude.{
  ℕ, ◌≡◌, ◌≢◌, refl, sym, ap, ◌∙◌, Bool, true, false, ◌&&◌, Bool-cases, inl, inr, ◌⊎◌, List, ◌∷◌,
  arith, if◌then◌else◌,
}
use cpp_autotime.Prelude.Int.{ℤ, pos, ltb_ℤ, leb_ℤ, eqb_ℤ}
use cpp_autotime.Files.Calls.{
  Result, done, thrown, out_of_bounds, unfinished, Io, pure, ◌>>=◌, and_then, Posix,
}
use cpp_autotime.Files.{make_dir, remove_dir, open_file, unlink}
use cpp_autotime.Files.Scoped.{ScopedFile, has_bit, is_empty, make_missing, remove_path, flip_bit}
use cpp_autotime.Files.Steps.{IsPosix}

-- The state in which a computation that started in s ended.
abbrev pub state_of : {S A : Type 0} → Result S A → S → S
state_of (done a s') s = s'
state_of (thrown what code s') s = s'
state_of out_of_bounds s = s
state_of unfinished s = s

pub and_then-eq-done :
    {S A B : Type 0} (r : Result S A) (f : A → Io S B) {b : B} {s' : S}
    → and_then r f ≡ done b s'
    → (a : A) × (s1 : S) × (r ≡ done a s1) × (f a s1 ≡ done b s')
and_then-eq-done (done a s1) f e = (a, s1, refl, e)
and_then-eq-done (thrown what code s1) f e = cc
and_then-eq-done out_of_bounds f e = cc
and_then-eq-done unfinished f e = cc

pub and_then-eq-thrown :
    {S A B : Type 0} (r : Result S A) (f : A → Io S B) {what : String} {code : ℕ} {s' : S}
    → and_then r f ≡ thrown what code s'
    → (r ≡ thrown what code s')
      ⊎ ((a : A) × (s1 : S) × (r ≡ done a s1) × (f a s1 ≡ thrown what code s'))
and_then-eq-thrown (done a s1) f e = inr (a, s1, refl, e)
and_then-eq-thrown (thrown what code s1) f e = inl (cc)
and_then-eq-thrown out_of_bounds f e = cc
and_then-eq-thrown unfinished f e = cc

pub done_inj : {S A : Type 0} {a b : A} {s t : S} → done a s ≡ done b t → (b ≡ a) × (t ≡ s)
done_inj h = (cc, cc)

module _ {S : Type 0} (os : Posix S) (open_fds : S → List ℤ) (laws : IsPosix os open_fds) where
  -- The computation leaves the open descriptors as they are.
  abbrev pub Keeps : {A : Type 0} → Io S A → Type 0
  Keeps m = (s : S) → open_fds (state_of (m s) s) ≡ open_fds s

  later :
      {A : Type 0} (r : Result S A) (s s1 : S)
      → open_fds (state_of r s1) ≡ open_fds s1
      → open_fds s1 ≡ open_fds s
      → open_fds (state_of r s) ≡ open_fds s
  later (done b s2) s s1 e1 e2 = e1 ∙ e2
  later (thrown what code s2) s s1 e1 e2 = e1 ∙ e2
  later out_of_bounds s s1 e1 e2 = refl
  later unfinished s s1 e1 e2 = refl

  pub and_then-Keeps :
      {A B : Type 0} (r : Result S A) (s : S) (f : A → Io S B)
      → open_fds (state_of r s) ≡ open_fds s
      → ((a : A) → Keeps (f a))
      → open_fds (state_of (and_then r f) s) ≡ open_fds s
  and_then-Keeps (done a s1) s f e k = later (f a s1) s s1 (k a s1) e
  and_then-Keeps (thrown what code s1) s f e k = e
  and_then-Keeps out_of_bounds s f e k = e
  and_then-Keeps unfinished s f e k = e

  >>=-Keeps :
      {A B : Type 0} (m : Io S A) (f : A → Io S B)
      → Keeps m
      → ((a : A) → Keeps (f a))
      → Keeps (m >>= f)
  >>=-Keeps m f h k s = and_then-Keeps (m s) s f (h s) k

  pub Keeps-done :
      {A : Type 0} (m : Io S A) {a : A} {s s' : S}
      → Keeps m
      → m s ≡ done a s'
      → open_fds s' ≡ open_fds s
  Keeps-done m {a} {s} {s'} h e = sym (ap (λ r. open_fds (state_of r s)) e) ∙ h s

  pub Keeps-thrown :
      {A : Type 0} (m : Io S A) {what : String} {code : ℕ} {s s' : S}
      → Keeps m
      → m s ≡ thrown what code s'
      → open_fds s' ≡ open_fds s
  Keeps-thrown m {what} {code} {s} {s'} h e = sym (ap (λ r. open_fds (state_of r s)) e) ∙ h s

  make_dir-Keeps : (name : String) → Keeps (make_dir os name)
  unfolding make_dir
  make_dir-Keeps name s = elim (Bool-cases (ltb_ℤ (os.mkdir name 511 s).0 (pos 0))) [
    | inl failed ↦ rw failed (laws.mkdir_keeps name 511 s)
    | inr made ↦ rw made (laws.mkdir_keeps name 511 s)
  ]

  remove_dir-Keeps : (name : String) → Keeps (remove_dir os name)
  unfolding remove_dir
  remove_dir-Keeps name s = elim (Bool-cases (ltb_ℤ (os.rmdir name s).0 (pos 0))) [
    | inl failed ↦ rw failed (laws.rmdir_keeps name s)
    | inr made ↦ rw made (laws.rmdir_keeps name s)
  ]

  unlink-Keeps : (name : String) → Keeps (unlink os name)
  unfolding unlink
  unlink-Keeps name s = elim (Bool-cases (eqb_ℤ (os.unlink_path name s).0 (pos 0))) [
    | inl made ↦ rw made (laws.unlink_keeps name s)
    | inr failed ↦ rw failed (laws.unlink_keeps name s)
  ]

  if-Keeps : {A : Type 0} (b : Bool) (m k : Io S A) → Keeps m → Keeps k → Keeps (if b then m else k)
  if-Keeps true m k h h' = h
  if-Keeps false m k h h' = h'

  pub remove_path-Keeps : (f : ScopedFile) → Keeps (remove_path os f)
  unfolding remove_path
  remove_path-Keeps f =
      if-Keeps (is_empty f.filename) _ _ (λ s. refl)
        (if-Keeps (has_bit f.flags os.directory) _ _ (remove_dir-Keeps f.filename)
          (unlink-Keeps f.filename))

  pub make_missing-Keeps : (name : String) (flags : ℕ) → Keeps (make_missing os name flags)
  unfolding make_missing
  make_missing-Keeps name flags s =
      elim (Bool-cases (has_bit flags os.directory && has_bit flags os.creat)) [
        | inr others ↦ rw others refl
        | inl both ↦ rw both (elim (Bool-cases (os.exists_path name s).0) [
          | inl found ↦ rw found (laws.exists_keeps name s)
          | inr missing ↦ rw missing (
              and_then-Keeps (make_dir os name (os.exists_path name s).1) s
                (λ made. pure {A = ℕ} (flip_bit flags os.creat))
                (later (make_dir os name (os.exists_path name s).1) s _ (make_dir-Keeps name _)
                  (laws.exists_keeps name s))
                (λ a s1. refl))
        ])
      ]

  -- `open` has given a new descriptor, or has thrown and left them.
  pub open_file-done :
      (name : String) (flags : ℕ) (fd : ℤ) (s s' : S)
      → open_file os name flags s ≡ done fd s'
      → (leb_ℤ (pos 0) fd ≡ true) × Perm (fd ∷ open_fds s) (open_fds s')
  unfolding open_file
  open_file-done name flags fd s s' e =
      elim (Bool-cases (ltb_ℤ (os.open_path name flags 438 s).0 (pos 0))) [
        | inl failed ↦ absurd (no_throw (rw failed at e))
        | inr opened ↦
            let (same, at) = done_inj (rw opened at e) in
            rw (same, at) (ground arith, laws.opens name flags 438 s opened)
      ]
    where
      no_throw :
          {A : Type 0} {what : String} {code : ℕ} {a : A} {s t : S} → thrown what code s ≢ done a t
      no_throw h = cc

  pub open_file-thrown :
      (name what : String) (flags code : ℕ) (s s' : S)
      → open_file os name flags s ≡ thrown what code s'
      → open_fds s' ≡ open_fds s
  unfolding open_file
  open_file-thrown name what flags code s s' e =
      elim (Bool-cases (ltb_ℤ (os.open_path name flags 438 s).0 (pos 0))) [
        | inl failed ↦
            ap open_fds (same_state (rw failed at e)) ∙ laws.open_fails name flags 438 s failed
        | inr opened ↦ absurd (no_result (rw opened at e))
      ]
    where
      same_state :
          {A : Type 0} {what what' : String} {code code' : ℕ} {s t : S}
          → Path (Result S A) (thrown what code s) (thrown what' code' t)
          → t ≡ s
      same_state h = cc

      no_result :
          {A : Type 0} {what : String} {code : ℕ} {a : A} {s t : S} → done a t ≢ thrown what code s
      no_result h = cc
