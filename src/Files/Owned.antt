-- ===== src/Files/Owned.antt =====
-- What making and closing an instance of `ScopedFile` does to the descriptors that are owned.
use Prim.Native.String.{String}
use mathlib.Core.List.{Perm, filter_map, perm_middle}
use mathlib.Core.List.Perm
use mathlib.Core.Option.{Option-elim}
use cpp_autotime.Prelude.{
  ℕ, ◌≡◌, ◌≢◌, ◌⊎◌, refl, sym, subst, ap, ◌∙◌, Bool-cases, Option, none, some, inl, inr, List, [],
  ◌∷◌, ◌++◌, if◌then◌else◌,
}
use cpp_autotime.Prelude.Int.{ℤ, pos, negsuc, leb_ℤ, eqb_ℤ}
use cpp_autotime.Files.Calls.{Result, done, thrown, pure, ◌>>=◌, Posix}
use cpp_autotime.Files.{open_file, close}
use cpp_autotime.Files.Keeps.{
  and_then-eq-done, and_then-eq-thrown, done_inj, Keeps-done, Keeps-thrown, make_missing-Keeps,
  open_file-done, open_file-thrown,
}
use cpp_autotime.Files.Scoped.{ScopedFile, scoped, is_empty, close_scoped, make_missing, construct}
use cpp_autotime.Files.Steps.{IsPosix, owned}

-- The descriptor of an instance that has one.
abbrev descriptor : ScopedFile → Option ℤ
descriptor f = if leb_ℤ (pos 0) f.fd then some f.fd else none

owned-filter_map : (files : List ScopedFile) → owned files ≡ filter_map descriptor files
unfolding filter_map Option-elim
owned-filter_map [] = refl
owned-filter_map (f ∷ files) = elim (Bool-cases (leb_ℤ (pos 0) f.fd)) [
  | inl held ↦ rw held (ap (λ fds. f.fd ∷ fds) (owned-filter_map files))
  | inr free ↦ rw free (owned-filter_map files)
]

pub owned-Perm :
    (files files' : List ScopedFile) → Perm files files' → Perm (owned files) (owned files')
owned-Perm files files' p =
    subst (λ fds. Perm fds (owned files')) (sym (owned-filter_map files))
      (subst (λ fds. Perm (filter_map descriptor files) fds) (sym (owned-filter_map files'))
        (Perm.filter_map descriptor p))

pub thrown-ne-done :
    {S A : Type 0} {what : String} {code : ℕ} {a : A} {s t : S} → thrown what code s ≢ done a t
thrown-ne-done h = cc

thrown_inj :
    {S A : Type 0} {what what' : String} {code code' : ℕ} {s t : S}
    → Path (Result S A) (thrown what code s) (thrown what' code' t)
    → t ≡ s
thrown_inj h = cc

module _ {S : Type 0} (os : Posix S) (open_fds : S → List ℤ) (laws : IsPosix os open_fds)
    (base : List ℤ) where
  -- The descriptors that the instances own, with the base, which they do not own, are the open ones
  -- and those of a number of failed calls of `close`, each of them once.
  abbrev pub IsOwned : List ℤ → List ScopedFile → S → Type 0
  IsOwned lost files s = Perm (owned files ++ base) (open_fds s ++ lost)

  -- The instance after `ScopedFile::close`.
  abbrev released : ScopedFile → ScopedFile
  released f = scoped f.flags f.filename (negsuc 0)

  -- One descriptor less on both sides.
  one_less :
      (fd : ℤ) (others now before lost : List ℤ)
      → Perm (fd ∷ now) before
      → Perm (fd ∷ others) (before ++ lost)
      → Perm others (now ++ lost)
  one_less fd others now before lost p h =
      Perm.cons_inv (Perm.trans h (Perm.symm (Perm.append_right lost p)))

  -- A descriptor more that is lost.
  one_lost :
      (fd : ℤ) (all now before lost : List ℤ)
      → Perm (fd ∷ now) before
      → Perm all (before ++ lost)
      → Perm all (now ++ fd ∷ lost)
  one_lost fd all now before lost p h =
      Perm.trans h
        (Perm.trans (Perm.symm (Perm.append_right lost p)) (Perm.symm (perm_middle now lost)))

  -- `ScopedFile::close` releases its descriptor, or throws because `close` has failed.
  close_scoped-cases :
      (f : ScopedFile) (files : List ScopedFile) (s : S) (lost : List ℤ)
      → IsOwned lost (f ∷ files) s
      → ((s' : S) × (close_scoped os f s ≡ done (released f) s') × IsOwned lost files s')
        ⊎ ((s' : S) × (close_scoped os f s ≡ thrown "close()" (os.errno s') s')
            × (IsOwned lost (f ∷ files) s' ⊎ IsOwned (f.fd ∷ lost) (f ∷ files) s'))
  unfolding close_scoped close
  close_scoped-cases f files s lost h = elim (Bool-cases (leb_ℤ (pos 0) f.fd)) [
    | inr free ↦ inl (s, rw free refl, rw free at h)
    | inl held ↦ elim (Bool-cases (eqb_ℤ (os.close_fd f.fd s).0 (pos 0))) [
      | inl zero ↦ inl (
        (os.close_fd f.fd s).1,
        rw (held, held, zero) refl,
        one_less f.fd _ _ _ lost (laws.closes f.fd s zero) (rw held at h),
      )
      | inr error ↦ inr (
        (os.close_fd f.fd s).1,
        rw (held, held, error) refl,
        elim (laws.close_fails f.fd s error) [
          | inl same ↦
              inl (subst (λ fds. Perm (owned (f ∷ files) ++ base) (fds ++ lost)) (sym same) h)
          | inr gone ↦ inr (one_lost f.fd _ _ _ lost gone h)
        ],
      )
    ]
  ]

  pub close_done :
      (f f' : ScopedFile) (files : List ScopedFile) (s s' : S) (lost : List ℤ)
      → IsOwned lost (f ∷ files) s
      → close_scoped os f s ≡ done f' s'
      → (f' ≡ released f) × IsOwned lost files s'
  close_done f f' files s s' lost h e = elim (close_scoped-cases f files s lost h) [
    | inl (t, e', rest) ↦ let (same, at) = done_inj (sym e' ∙ e) in (same, rw at rest)
    | inr (t, e', rest) ↦ absurd (thrown-ne-done (sym e' ∙ e))
  ]

  pub close_thrown :
      (f : ScopedFile) (files : List ScopedFile) (s s' : S) (lost : List ℤ) (what : String)
      (code : ℕ)
      → IsOwned lost (f ∷ files) s
      → close_scoped os f s ≡ thrown what code s'
      → IsOwned lost (f ∷ files) s' ⊎ IsOwned (f.fd ∷ lost) (f ∷ files) s'
  close_thrown f files s s' lost what code h e = elim (close_scoped-cases f files s lost h) [
    | inl (t, e', rest) ↦ absurd (thrown-ne-done (sym e ∙ e'))
    | inr (t, e', rest) ↦
        subst (λ u. IsOwned lost (f ∷ files) u ⊎ IsOwned (f.fd ∷ lost) (f ∷ files) u)
          (sym (thrown_inj (sym e' ∙ e))) rest
  ]

  pub construct_done :
      (name : String) (flags : ℕ) (f : ScopedFile) (files : List ScopedFile) (s s' : S)
      (lost : List ℤ)
      → IsOwned lost files s
      → construct os name flags s ≡ done f s'
      → IsOwned lost (f ∷ files) s'
  unfolding construct
  construct_done name flags f files s s' lost h e = elim (Bool-cases (is_empty name)) [
    | inl empty ↦ let (same, at) = done_inj (rw empty at e) in rw (same, at) h
    | inr some_name ↦
        let (open_flags, s1, e1, e2) =
          and_then-eq-done (make_missing os name flags s) _ (rw some_name at e) in
        let (fd, s2, e3, e4) = and_then-eq-done (open_file os name open_flags s1) _ e2 in
        let (same, at) = done_inj e4 in
        let (held, opened) = open_file-done os open_fds laws name open_flags fd s1 s2 e3 in
        let kept =
          Keeps-done os open_fds laws (make_missing os name flags)
            (make_missing-Keeps os open_fds laws name flags) e1 in
        rw (same, at, held)
          (Perm.trans (Perm.cons fd h)
            (Perm.append_right lost (subst (λ fds. Perm (fd ∷ fds) (open_fds s2)) kept opened)))
  ]

  pub construct_thrown :
      (name what : String) (flags code : ℕ) (files : List ScopedFile) (s s' : S) (lost : List ℤ)
      → IsOwned lost files s
      → construct os name flags s ≡ thrown what code s'
      → IsOwned lost files s'
  unfolding construct
  construct_thrown name what flags code files s s' lost h e = elim (Bool-cases (is_empty name)) [
    | inl empty ↦ absurd (no_throw (rw empty at e))
    | inr some_name ↦
        subst (λ fds. Perm (owned files ++ base) (fds ++ lost)) (sym (kept (rw some_name at e))) h
  ]
    where
      no_throw : {A : Type 0} {a : A} {t : S} → done a t ≢ thrown what code s'
      no_throw e = cc

      kept :
          (make_missing os name flags >>= λ open_flags.
          open_file os name open_flags >>= λ fd. pure (scoped flags name fd))
              s
            ≡ thrown what code s'
          → open_fds s' ≡ open_fds s
      kept e = elim (and_then-eq-thrown (make_missing os name flags s) _ e) [
        | inl first ↦
            Keeps-thrown os open_fds laws (make_missing os name flags)
              (make_missing-Keeps os open_fds laws name flags) first
        | inr (open_flags, s1, e1, e2) ↦
            elim (and_then-eq-thrown (open_file os name open_flags s1) _ e2) [
              | inl second ↦
                  open_file-thrown os open_fds laws name what open_flags code s1 s' second
                  ∙ Keeps-done os open_fds laws (make_missing os name flags)
                      (make_missing-Keeps os open_fds laws name flags) e1
              | inr (fd, s2, e3, e4) ↦ absurd (no_throw e4)
            ]
      ]
