-- ===== src/Prelude/Powers.antt =====
-- Doubling up to a power of two.
use Prim.Native.Nat.{ℕ, zero, suc, ◌-◌, ◌*◌, ◌^◌, ◌≤◌, ◌<◌}
use mathlib.Core.Path.{◌≡◌, ap}
use native.Mathlib.Nat.{pow-suc}
use native.Mathlib.Omega.{arith}

-- A doubled number needs one doubling less to reach the bound b.
pub doubled : (b n k : ℕ) → b ≤ n * 2 ^ k → n < b → (1 ≤ k) × (b ≤ 2 * n * 2 ^ (k - 1))
doubled b n zero big fits = absurd (omega arith)
doubled b n (suc k) big fits =
    let one_less : suc k - 1 ≡ k = omega arith in
    (omega arith, rw one_less (omega (arith, ap (λ (t : ℕ). n * t) (pow-suc 2 k))))
