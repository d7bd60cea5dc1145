-- ===== src/Prelude/Int.antt =====
-- Signed integers over the native numbers, C++'s truncating division, and the checks that stand
-- for the ranges of `int` and of the 64-bit representation of a chrono duration.
use Prim.Native.Nat.{ℕ, suc, ◌+◌, ◌-◌, ◌*◌, ◌/◌, ◌%◌, ◌^◌, ◌≤◌, ◌<◌}
use mathlib.Core.Path.{◌≡◌, refl}
use mathlib.Core.Logic.{◌≢◌, inl, inr}
use mathlib.Core.Bool.{Bool, ◌&&◌}
use native.Mathlib.Omega.{arith}
use package.cpp_autotime.Prelude.Tests.{ltb, leb, if◌then◌else◌, Bool-cases}
use package.cpp_autotime.Prelude.Outcomes.{Outcome, ok, overflow, div_by_zero, spin, ◌>>=◌}

-- `negsuc n` is -(n + 1).
pub data ℤ : Type 0 where
  pos : ℕ → ℤ
  negsuc : ℕ → ℤ

abbrev pub pos_part : ℤ → ℕ
pos_part (pos n) = n
pos_part (negsuc n) = 0

abbrev pub neg_part : ℤ → ℕ
neg_part (pos n) = 0
neg_part (negsuc n) = suc n

-- a - b, as an integer.
abbrev pub sub_ℕ : ℕ → ℕ → ℤ
sub_ℕ a b = if leb b a then pos (a - b) else negsuc (b - a - 1)

infixl 65 ◌+ℤ◌ ◌-ℤ◌
infixl 70 ◌*ℤ◌ ◌/ℤ◌
infix 50 ◌≤ℤ◌ ◌<ℤ◌
unfoldable pub ◌+ℤ◌ : ℤ → ℤ → ℤ
a +ℤ b = sub_ℕ (pos_part a + pos_part b) (neg_part a + neg_part b)

unfoldable pub ◌-ℤ◌ : ℤ → ℤ → ℤ
a -ℤ b = sub_ℕ (pos_part a + neg_part b) (neg_part a + pos_part b)

unfoldable pub ◌*ℤ◌ : ℤ → ℤ → ℤ
a *ℤ b =
    sub_ℕ (pos_part a * pos_part b + neg_part a * neg_part b)
      (pos_part a * neg_part b + neg_part a * pos_part b)

-- The quotient of two integers, rounded towards zero; the divisor is not zero.
unfoldable pub ◌/ℤ◌ : ℤ → ℤ → ℤ
pos a /ℤ pos b = pos (a / b)
pos a /ℤ negsuc b = sub_ℕ 0 (a / suc b)
negsuc a /ℤ pos b = sub_ℕ 0 (suc a / b)
negsuc a /ℤ negsuc b = pos (suc a / suc b)

abbrev pub ◌≤ℤ◌ : ℤ → ℤ → Type 0
a ≤ℤ b = pos_part a + neg_part b ≤ pos_part b + neg_part a

abbrev pub ◌<ℤ◌ : ℤ → ℤ → Type 0
a <ℤ b = pos_part a + neg_part b < pos_part b + neg_part a

abbrev pub ltb_ℤ : ℤ → ℤ → Bool
ltb_ℤ a b = ltb (pos_part a + neg_part b) (pos_part b + neg_part a)

abbrev pub leb_ℤ : ℤ → ℤ → Bool
leb_ℤ a b = leb (pos_part a + neg_part b) (pos_part b + neg_part a)

abbrev pub eqb_ℤ : ℤ → ℤ → Bool
eqb_ℤ a b = leb_ℤ a b && leb_ℤ b a

pub +ℤ_parts :
    (a b : ℤ)
    → pos_part (a +ℤ b) + neg_part a + neg_part b ≡ neg_part (a +ℤ b) + pos_part a + pos_part b
unfolding ◌+ℤ◌
+ℤ_parts a b = ground arith

pub -ℤ_parts :
    (a b : ℤ)
    → pos_part (a -ℤ b) + neg_part a + pos_part b ≡ neg_part (a -ℤ b) + pos_part a + neg_part b
unfolding ◌-ℤ◌
-ℤ_parts a b = ground arith

pub eq_of_parts : (a b : ℤ) → pos_part a + neg_part b ≡ pos_part b + neg_part a → a ≡ b
eq_of_parts a b h = ground arith

pub ruleset int_laws = (arith, +ℤ_parts, -ℤ_parts, eq_of_parts)

-- On numbers that are not negative the operations are those of ℕ.
pub pos-+ℤ : (a b : ℕ) → pos a +ℤ pos b ≡ pos (a + b)
unfolding ◌+ℤ◌
pos-+ℤ a b = ground arith

pub pos-*ℤ : (a b : ℕ) → pos a *ℤ pos b ≡ pos (a * b)
unfolding ◌*ℤ◌
pos-*ℤ a b = ground arith

pub pos-/ℤ : (a b : ℕ) → pos a /ℤ pos b ≡ pos (a / b)
unfolding ◌/ℤ◌
pos-/ℤ a b = refl

-- The values of a signed integer of `w + 1` bits.
abbrev pub Fits : ℕ → ℤ → Type 0
Fits w z = (pos_part z < 2 ^ w) × (neg_part z ≤ 2 ^ w)

-- A signed result outside of its type's range is undefined behaviour.
unfoldable pub checked : ℕ → ℤ → Outcome ℤ
checked w z = if ltb (pos_part z) (2 ^ w) && leb (neg_part z) (2 ^ w) then ok z else overflow

pub checked-ok : (w : ℕ) (z : ℤ) → Fits w z → checked w z ≡ ok z
unfolding checked
checked-ok w z h = ground arith

pub checked-pos : (w n : ℕ) → n < 2 ^ w → checked w (pos n) ≡ ok (pos n)
unfolding checked
checked-pos w n h = ground arith

pub checked-overflow : (w n : ℕ) → 2 ^ w ≤ n → checked w (pos n) ≡ overflow
unfolding checked
checked-overflow w n h = ground arith

pub checked-eq-ok : (w : ℕ) (z : ℤ) {y : ℤ} → checked w z ≡ ok y → (y ≡ z) × Fits w z
unfolding checked
checked-eq-ok w z h = ground arith

-- A check that is followed by more passes its own argument on.
pub checked->>=-eq-ok {ℓ} :
    {B : Type ℓ} (w : ℕ) (z : ℤ) (f : ℤ → Outcome B) {b : B}
    → (checked w z >>= f) ≡ ok b
    → Fits w z × (f z ≡ ok b)
unfolding checked
checked->>=-eq-ok w z f h = ground arith

pub checked->>=-ne-spin {ℓ} :
    {B : Type ℓ} (w : ℕ) (z : ℤ) (f : ℤ → Outcome B)
    → (Fits w z → f z ≢ spin)
    → (checked w z >>= f) ≢ spin
unfolding checked
checked->>=-ne-spin w z f h =
    elim (Bool-cases (ltb (pos_part z) (2 ^ w) && leb (neg_part z) (2 ^ w))) [
      | inl inside ↦ rw inside (h (ground arith))
      | inr outside ↦ rw outside (λ e. cc)
    ]

-- The conversion of an integer to `int`, modulo 2 ^ 32, as gcc defines it.
unfoldable pub to_int32 : ℤ → ℤ
to_int32 z =
    let low = (pos_part z + (2 ^ 32 - neg_part z % 2 ^ 32)) % 2 ^ 32 in
    if ltb low (2 ^ 31) then pos low else negsuc (2 ^ 32 - low - 1)

-- A number that fits is left as it is.
pub to_int32-pos : (n : ℕ) → n < 2 ^ 31 → to_int32 (pos n) ≡ pos n
unfolding to_int32
to_int32-pos n h = ground arith

-- A 64-bit quotient; the least value over -1 is out of range too.
unfoldable pub quotient64 : ℤ → ℤ → Outcome ℤ
quotient64 a b = if eqb_ℤ b (pos 0) then div_by_zero else checked 63 (a /ℤ b)

pub quotient64-pos : (a b : ℕ) → 0 < b → a < 2 ^ 63 → quotient64 (pos a) (pos b) ≡ ok (pos (a / b))
unfolding quotient64
quotient64-pos a b h k = rw (pos-/ℤ a b) (ground (arith, checked-pos 63 (a / b)))

pub quotient64-zero : (a : ℤ) → quotient64 a (pos 0) ≡ div_by_zero
unfolding quotient64
quotient64-zero a = refl

pub quotient64-ne-spin : (a b : ℤ) → quotient64 a b ≢ spin
unfolding quotient64 checked
quotient64-ne-spin a b h = ground arith

-- The same on negative numbers, which are written `sub_ℕ 0 a`.
pub neg-*ℤ : (a b : ℕ) → sub_ℕ 0 a *ℤ pos b ≡ sub_ℕ 0 (a * b)
unfolding ◌*ℤ◌
neg-*ℤ a b = ground arith

pub neg-+ℤ : (a b : ℕ) → sub_ℕ 0 a +ℤ pos b ≡ sub_ℕ b a
unfolding ◌+ℤ◌
neg-+ℤ a b = ground arith

pub checked-neg : (w n : ℕ) → n < 2 ^ w → checked w (sub_ℕ 0 n) ≡ ok (sub_ℕ 0 n)
unfolding checked
checked-neg w n h = ground arith

pub neg-/ℤ : (a b : ℕ) → 0 < b → sub_ℕ 0 a /ℤ pos b ≡ sub_ℕ 0 (a / b)
unfolding ◌/ℤ◌
neg-/ℤ a b h = ground arith

pub quotient64-neg :
    (a b : ℕ) → 0 < b → a < 2 ^ 63 → quotient64 (sub_ℕ 0 a) (pos b) ≡ ok (sub_ℕ 0 (a / b))
unfolding quotient64
quotient64-neg a b h k = rw (neg-/ℤ a b h) (ground (arith, checked-neg 63 (a / b)))

-- Everything above that computes, for the `unfolding` line of a test.
unfoldable pub int_ops : Unit {0}
unfolding ◌+ℤ◌ ◌-ℤ◌ ◌*ℤ◌ ◌/ℤ◌ checked to_int32 quotient64
int_ops = tt
