-- ===== src/Affinity/Tests.antt =====
-- Four cores, the third of which is offline, and the witness of the theorem on the affinity.
use cpp_autotime.Prelude.{◌≡◌, ◌≢◌, refl, ◌⊎◌, Bool, true, false, Option, none, some, arith}
use cpp_autotime.Prelude.Int.{ℤ, pos, negsuc, eqb_ℤ}
use cpp_autotime.Affinity.{
  Scheduler, set_core_affinity, pin, pin_current, pin_given, get_current_core_id,
}
use cpp_autotime.Affinity.Pinned.{IsScheduler, IsTarget, IsUnusable, Chooses, set_core_affinity_lem}

abbrev set_unless : Bool → ℤ → Option ℤ → ℤ × Option ℤ
set_unless true core s = (negsuc 0, s)
set_unless false core s = (pos 0, some core)

-- The state is the affinity of the thread.
abbrev four : Scheduler (Option ℤ)
four = record {
  num_cpus = pos 4;
  get_cpu = λ s. (pos 1, s);
  set_affinity = λ core s. set_unless (eqb_ℤ core (pos 2)) core s;
  yield = λ s. (pos 0, s);
}

third_offline :
    (core : ℤ) (s : Option ℤ) (b : Bool)
    → (set_unless b core s).0 ≡ pos 0
    → (set_unless b core s).1 ≡ some core
third_offline core s true h = absurd (grind arith)
third_offline core s false h = refl

third_unset :
    (core : ℤ) (s : Option ℤ) (b : Bool)
    → (set_unless b core s).0 ≢ pos 0
    → (set_unless b core s).1 ≡ s
third_unset core s true h = refl
third_unset core s false h = absurd (h refl)

four-IsScheduler : IsScheduler four (λ s. s)
four-IsScheduler = record {
  exists = λ s. omega arith;
  get_keeps = λ s. refl;
  yield_keeps = λ s. refl;
  sets = λ core s zero. third_offline core s (eqb_ℤ core (pos 2)) zero;
  sets_nothing = λ core s error. third_unset core s (eqb_ℤ core (pos 2)) error;
}

set_core_affinity_example :
    (((set_core_affinity four (pos 3) none).0 ≡ negsuc 0)
      × ((set_core_affinity four (pos 3) none).1 ≡ none)
      × IsUnusable four (λ s. s) four-IsScheduler (pos 3) none)
    ⊎ (IsTarget four (λ s. s) four-IsScheduler none (set_core_affinity four (pos 3) none)
        × Chooses four
            (λ s. s)
            four-IsScheduler
            (pos 3)
            none
            (set_core_affinity four (pos 3) none).0)
set_core_affinity_example = set_core_affinity_lem four (λ s. s) four-IsScheduler (pos 3) none

third_core : set_core_affinity four (pos 3) none ≡ (pos 3, some (pos 3))
unfolding set_core_affinity pin pin_current pin_given get_current_core_id
third_core = refl
