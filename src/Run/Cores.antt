-- ===== src/Run/Cores.antt =====
-- The choice of the cores in bench/main.cpp. `current` is `GetCurrentCoreId` of lib/os.cpp, called on
-- the main thread, and `spawn` what it gives on a thread that the scheduler places; -1 is an error.
use cpp_autotime.Prelude.{
  ℕ, zero, suc, ◌≡◌, ◌≢◌, refl, sym, ap, ◌∙◌, ◌⊎◌, inl, inr, Bool, true, false, ◌||◌, Bool-cases,
  ◌≤◌, arith, if◌then◌else◌,
}
use cpp_autotime.Prelude.Int.{ℤ, negsuc, eqb_ℤ}

eqb-eq : (a b : ℤ) → eqb_ℤ a b ≡ true → a ≡ b
eqb-eq a b h = ground arith

eqb-same : (a : ℤ) → eqb_ℤ a a ≡ true
eqb-same a = ground arith

or-true : (a b : Bool) → (a || b) ≡ true → (a ≡ true) ⊎ (b ≡ true)
or-true true b h = inl refl
or-true false b h = inr h

or-false : (a b : Bool) → (a || b) ≡ false → (a ≡ false) × (b ≡ false)
or-false true b h = absurd (grind arith)
or-false false b h = (refl, h)

eqb-ne : (a b : ℤ) → eqb_ℤ a b ≡ false → a ≢ b
eqb-ne a b h e = true-ne (sym (eqb-same b) ∙ (ap (λ x. eqb_ℤ x b) (sym e) ∙ h))
  where
    true-ne : true ≢ false
    true-ne h = cc h

module _ {S : Type 0} (spawn : S → ℤ × S) where
  -- The loop of `AutoselectSecondaryCoreId` with the given number of attempts left: the core, and
  -- whether the warning is written.
  unfoldable pub attempt : ℕ → ℤ → S → (ℤ × Bool) × S
  attempt zero core0 s = ((core0, true), s)
  attempt (suc left) core0 s =
      let (c, s') = spawn s in
      let again = attempt left core0 s' in
      if eqb_ℤ c core0 || eqb_ℤ c (negsuc 0) then again else ((c, false), s')

  -- `AutoselectSecondaryCoreId`
  unfoldable pub autoselect_secondary_core_id : ℤ → S → (ℤ × Bool) × S
  unfolding attempt
  autoselect_secondary_core_id core0 s = attempt 3 core0 s

  -- The first two statements of `SetupCores`: both cores, and whether the warning is written.
  unfoldable pub choose_cores : (S → ℤ × S) → ℤ → ℤ → S → (ℤ × ℤ × Bool) × S
  unfolding autoselect_secondary_core_id
  choose_cores current core0 core1 s =
      let (c0, s0) = (if eqb_ℤ core0 (negsuc 0) then current s else (core0, s)) in
      let ((c1, warned), s1) =
        (if eqb_ℤ core1 (negsuc 0)
          then autoselect_secondary_core_id c0 s0
          else ((core1, false), s0)) in
      ((c0, c1, warned), s1)

  -- The states in which the threads of the loop start.
  abbrev pub after : ℕ → S → S
  after zero s = s
  after (suc n) s = after n (spawn s).1

  -- What the loop gives: the core that one of its threads saw, which is neither the core of the main
  -- thread nor an error; or else the core of the main thread, with the warning, and each of its
  -- threads saw that one or an error.
  abbrev pub IsChoice : ℕ → ℤ → S → ℤ × Bool → Type 0
  IsChoice n core0 s (core1, warned) =
      ((warned ≡ false)
        × (core1 ≢ core0)
        × (core1 ≢ negsuc 0)
        × (k : ℕ) × (suc k ≤ n)
        × (core1 ≡ (spawn (after k s)).0))
      ⊎ ((warned ≡ true)
          × (core1 ≡ core0)
          × ((k : ℕ)
              → suc k ≤ n
              → ((spawn (after k s)).0 ≡ core0) ⊎ ((spawn (after k s)).0 ≡ negsuc 0)))

  IsMissed : ℤ → S → Type 0
  IsMissed core0 s = ((spawn s).0 ≡ core0) ⊎ ((spawn s).0 ≡ negsuc 0)

  extend :
      (n : ℕ) (core0 : ℤ) (s : S) (p : ℤ × Bool)
      → IsMissed core0 s
      → IsChoice n core0 (spawn s).1 p
      → IsChoice (suc n) core0 s p
  unfolding IsMissed
  extend n core0 s p missed (inl (quiet, other, known, k, le, e)) =
      inl (quiet, other, known, suc k, omega arith, e)
  extend n core0 s p missed (inr (warned, same, all)) = inr (warned, same, each)
    where
      each : (k : ℕ) → suc k ≤ suc n → IsMissed core0 (after k s)
      each zero le = missed
      each (suc k) le = all k (omega arith)

  attempt_lem : (n : ℕ) (core0 : ℤ) (s : S) → IsChoice n core0 s (attempt n core0 s).0
  unfolding attempt IsMissed
  attempt_lem zero core0 s = inr (refl, refl, λ k h. absurd (omega arith))
  attempt_lem (suc n) core0 s =
      elim (Bool-cases (eqb_ℤ (spawn s).0 core0 || eqb_ℤ (spawn s).0 (negsuc 0))) [
        | inl again ↦ rw again (
            extend n core0 s (attempt n core0 (spawn s).1).0 (missed again)
              (attempt_lem n core0 (spawn s).1))
        | inr found ↦
            let (other, known) = or-false _ _ found in
            rw found
              (inl (refl, eqb-ne _ core0 other, eqb-ne _ (negsuc 0) known, 0, omega arith, refl))
      ]
    where
      missed :
          (eqb_ℤ (spawn s).0 core0 || eqb_ℤ (spawn s).0 (negsuc 0)) ≡ true
          → ((spawn s).0 ≡ core0) ⊎ ((spawn s).0 ≡ negsuc 0)
      missed again = elim (or-true _ _ again) [
        | inl e ↦ inl (eqb-eq _ core0 e)
        | inr e ↦ inr (eqb-eq _ (negsuc 0) e)
      ]

  -- The threads that the loop has started when it ends in a given state, and no more than n of them.
  abbrev pub Started : ℕ → S → S → ℤ × Bool → Type 0
  Started n s s' (core1, warned) = (k : ℕ) × (k ≤ n) × (s' ≡ after k s) × ((warned ≡ true) → k ≡ n)

  one_more : (n : ℕ) (s s' : S) (p : ℤ × Bool) → Started n (spawn s).1 s' p → Started (suc n) s s' p
  one_more n s s' (core1, warned) (k, le, at, all) = (suc k, omega arith, at, λ w. ap suc (all w))

  attempt-Started :
      (n : ℕ) (core0 : ℤ) (s : S) → Started n s (attempt n core0 s).1 (attempt n core0 s).0
  unfolding attempt
  attempt-Started zero core0 s = (0, omega arith, refl, λ w. refl)
  attempt-Started (suc n) core0 s =
      elim (Bool-cases (eqb_ℤ (spawn s).0 core0 || eqb_ℤ (spawn s).0 (negsuc 0))) [
        | inl again ↦ rw again (
            one_more n s (attempt n core0 (spawn s).1).1 (attempt n core0 (spawn s).1).0
              (attempt-Started n core0 (spawn s).1))
        | inr found ↦ rw found (1, omega arith, refl, λ w. cc)
      ]

  -- `AutoselectSecondaryCoreId` starts one thread after another, at most three, and all three before it
  -- warns. It gives the core that one of them saw, other than the core of the main thread and not -1; or
  -- else the core of the main thread, with the warning, and each of the three saw that core or -1.
  pub autoselect_lem :
      (core0 : ℤ) (s : S)
      → IsChoice 3 core0 s (autoselect_secondary_core_id core0 s).0
        × Started 3 s
            (autoselect_secondary_core_id core0 s).1
            (autoselect_secondary_core_id core0 s).0
  unfolding autoselect_secondary_core_id
  autoselect_lem core0 s = (attempt_lem 3 core0 s, attempt-Started 3 core0 s)
