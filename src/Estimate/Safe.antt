-- ===== src/Estimate/Safe.antt =====
-- `Estimate` keeps what its timer keeps, and ends where its timer does from there.
use cpp_autotime.Prelude.{
  ℕ, zero, suc, ◌-◌, ◌*◌, ◌^◌, ◌≤◌, ◌<◌, max, ◌≡◌, ◌≢◌, refl, ap, Bool, true, false, Outcome, ok,
  overflow, div_by_zero, spin, ◌>>=◌, arith, if◌then◌else◌,
}
use cpp_autotime.Prelude.Int.{ℤ, pos, pos_part, leb_ℤ, checked, Fits}
use cpp_autotime.Prelude.Powers.{doubled}
use cpp_autotime.Estimate.Defs.{
  Timer, Sample, initial, measure, is_ramping, is_off, next_iters, ramp, refine, estimate_from,
  estimate,
}
use cpp_autotime.Estimate.Refine.{is_off-ne-spin, next_iters-ne-spin}

-- The computation does not run out of fuel, and a result of it has the property.
abbrev pub Holds {ℓ} : {A : Type ℓ} → (A → Type 0) → Outcome A → Type 0
Holds Q (ok a) = Q a
Holds Q overflow = Unit
Holds Q div_by_zero = Unit
Holds Q spin = ⊥

pub >>=-Holds {ℓ κ} :
    {A : Type ℓ} {B : Type κ} (P : A → Type 0) (Q : B → Type 0) (first : Outcome A)
    (next : A → Outcome B)
    → Holds P first
    → ((a : A) → P a → Holds Q (next a))
    → Holds Q (first >>= next)
>>=-Holds P Q (ok a) next h k = k a h
>>=-Holds P Q overflow next h k = tt
>>=-Holds P Q div_by_zero next h k = tt
>>=-Holds P Q spin next h k = h

pub Holds-any {ℓ} : {A : Type ℓ} (o : Outcome A) → o ≢ spin → Holds (λ a. Unit {0}) o
Holds-any (ok a) h = tt
Holds-any overflow h = tt
Holds-any div_by_zero h = tt
Holds-any spin h = absurd (h refl)

pub Holds-ne-spin {ℓ} : {A : Type ℓ} (Q : A → Type 0) (o : Outcome A) → Holds Q o → o ≢ spin
Holds-ne-spin Q (ok a) h e = cc
Holds-ne-spin Q overflow h e = cc
Holds-ne-spin Q div_by_zero h e = cc
Holds-ne-spin Q spin h e = h

pub checked-Holds : (w : ℕ) (z : ℤ) → Holds (λ y. (y ≡ z) × Fits w z) (checked w z)
unfolding checked
checked-Holds w z = ground arith

pub if-Holds {ℓ} :
    {A : Type ℓ} (Q : A → Type 0) (b : Bool) (o o' : Outcome A)
    → Holds Q o
    → Holds Q o'
    → Holds Q (if b then o else o')
if-Holds Q true o o' h h' = h
if-Holds Q false o o' h h' = h'

module _ {S : Type 0} (timer : Timer S) (P : S → Type 0)
    (safe : (n : ℕ) (s : S) → P s → Holds (λ r. P r.1) (timer n s)) where
  measure-Holds :
      (n : ℕ) (s : S) → P s → Holds (λ m. (m.num_iters ≡ n) × P m.state) (measure timer n s)
  unfolding measure
  measure-Holds n s h = >>=-Holds _ _ (timer n s) _ (safe n s h) (λ r p. (refl, p))

  ramp-Holds :
      (target : ℤ) (fuel k : ℕ) (prev : ℤ) (m : Sample S)
      → P m.state
      → 1 ≤ m.num_iters
      → 2 ^ 31 ≤ m.num_iters * 2 ^ k
      → k < fuel
      → Holds (λ r. P r.state) (ramp timer target fuel prev m)
  unfolding ramp
  ramp-Holds target zero k prev m h one big lt = absurd (omega arith)
  ramp-Holds target (suc fuel) k prev m h one big lt =
      if-Holds _ (is_ramping target prev m.durs) _ _
        (>>=-Holds _ _ (checked 31 (pos (2 * m.num_iters))) _ (checked-Holds 31 _) (λ d same.
          >>=-Holds _ _ (measure timer (max (pos_part d) 1) m.state) _ (measure-Holds _ m.state h)
            (λ next kept.
              let twice : next.num_iters ≡ 2 * m.num_iters =
                omega (arith, kept.0, ap pos_part same.0) in
              let less : (1 ≤ k) × (2 ^ 31 ≤ 2 * m.num_iters * 2 ^ (k - 1)) =
                doubled (2 ^ 31) m.num_iters k big (omega (arith, same.1.0)) in
              ramp-Holds target fuel (k - 1) m.durs.real next kept.1 (omega (arith, twice))
                (rw twice less.1) (omega (arith, less.0)))))
        h

  first_ramp-Holds :
      (target : ℤ) (s : S) → P s → Holds (λ r. P r.state) (ramp timer target 33 (pos 0) (initial s))
  unfolding ramp
  first_ramp-Holds target s h =
      if-Holds _ (is_ramping target (pos 0) (initial s).durs) _ _
        (>>=-Holds _ _ (checked 31 (pos 0)) _ (checked-Holds 31 _) (λ d same.
          >>=-Holds _ _ (measure timer (max (pos_part d) 1) s) _ (measure-Holds _ s h) (λ next kept.
            let once : next.num_iters ≡ 1 = omega (arith, kept.0, ap pos_part same.0) in
            ramp-Holds target 32 31 (pos 0) next kept.1 (omega (arith, once))
              (rw once (omega arith)) (omega arith))))
        h

  refine-Holds :
      (target : ℤ) (attempts : ℕ) (m : Sample S)
      → P m.state
      → Holds (λ r. P r.state) (refine timer target attempts m)
  unfolding refine
  refine-Holds target zero m h =
      >>=-Holds _ _ (is_off target m.durs) _ (Holds-any _ (is_off-ne-spin target m.durs))
        (λ off _. h)
  refine-Holds target (suc attempts) m h =
      >>=-Holds _ _ (is_off target m.durs) _ (Holds-any _ (is_off-ne-spin target m.durs)) (λ off _.
        if-Holds _ off _ _
          (>>=-Holds _ _ (next_iters target m) _ (Holds-any _ (next_iters-ne-spin target m))
            (λ next _. if-Holds _ (leb_ℤ next (pos 3)) _ _ h (
              >>=-Holds _ _ (measure timer (pos_part next) m.state) _ (measure-Holds _ m.state h)
                (λ m' kept. refine-Holds target attempts m' kept.1))))
          h)

  -- `Estimate` comes to an end from a state with a property from which its timer does, if the timer
  -- keeps the property, and then has it too.
  pub estimate-Holds : (target : ℤ) (s : S) → P s → Holds (λ r. P r.1) (estimate timer target s)
  unfolding estimate estimate_from
  estimate-Holds target s h =
      >>=-Holds (λ m. P m.state) _
        (ramp timer target 33 (pos 0) (initial s) >>= refine timer target 5) _
        (>>=-Holds _ _ (ramp timer target 33 (pos 0) (initial s)) _ (first_ramp-Holds target s h)
          (λ m p. refine-Holds target 5 m p))
        (λ m p. p)
