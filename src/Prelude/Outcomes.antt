-- ===== src/Prelude/Outcomes.antt =====
-- What a run of C++ code comes to: a result, or one of the ways in which it has none.
use mathlib.Core.Path.{◌≡◌, refl}
use mathlib.Core.Logic.{◌≢◌}

-- `overflow` and `div_by_zero` are undefined behaviour of integers, `spin` is a model loop that
-- ran out of fuel.
pub data Outcome {ℓ} (A : Type ℓ) : Type ℓ where
  ok : A → Outcome A
  overflow div_by_zero spin : Outcome A

pub ok_inj {ℓ} : {A : Type ℓ} {a b : A} → ok a ≡ ok b → b ≡ a
ok_inj h = cc

infixl 5 ◌>>=◌
abbrev pub ◌>>=◌ {ℓ κ} : {A : Type ℓ} {B : Type κ} → Outcome A → (A → Outcome B) → Outcome B
ok a >>= f = f a
overflow >>= f = overflow
div_by_zero >>= f = div_by_zero
spin >>= f = spin

module _ {ℓ κ} {S : Type ℓ} {T : Type κ} where
  -- A bind that has a result has one at each of its two steps.
  pub >>=-eq-ok :
      (first : Outcome S) (next : S → Outcome T) {r : T}
      → (first >>= next) ≡ ok r
      → (s : S) × (first ≡ ok s) × (next s ≡ ok r)
  >>=-eq-ok (ok s) next e = (s, refl, e)
  >>=-eq-ok overflow next e = cc
  >>=-eq-ok div_by_zero next e = cc
  >>=-eq-ok spin next e = cc

  -- A bind runs out of fuel only in one of its two steps.
  pub >>=-ne-spin :
      (first : Outcome S) (next : S → Outcome T)
      → first ≢ spin
      → ((s : S) → first ≡ ok s → next s ≢ spin)
      → (first >>= next) ≢ spin
  >>=-ne-spin (ok s) next h k = k s refl
  >>=-ne-spin overflow next h k = λ e. cc
  >>=-ne-spin div_by_zero next h k = λ e. cc
  >>=-ne-spin spin next h k = λ e. h refl
