-- ===== src/Affinity/Pinned.antt =====
-- Where `SetCoreAffinity` leaves the thread.
use cpp_autotime.Prelude.{
  ◌≡◌, ◌≢◌, refl, sym, ap, ◌∙◌, Bool, true, false, not, Bool-cases, inl, inr, ◌⊎◌, arith, Option,
  some,
}
use cpp_autotime.Prelude.Int.{ℤ, pos, negsuc, ltb_ℤ, leb_ℤ, eqb_ℤ, ◌≤ℤ◌, ◌<ℤ◌}
use cpp_autotime.Affinity.{
  Scheduler, get_current_core_id, pin, pin_current, pin_given, set_core_affinity,
}

-- What is documented of the calls, where `affinity` is the one core that the thread may run on, if it is
-- one: `sched_getcpu` gives a core that there is, or a negative number, and does not move the thread,
-- nor does `sched_yield`; `sched_setaffinity` gives 0 and sets the core, or fails and sets nothing.
pub record IsScheduler {S : Type 0} (sched : Scheduler S) (affinity : S → Option ℤ) : Type 0 where
  pub exists : (s : S) → (sched.get_cpu s).0 <ℤ sched.num_cpus
  pub get_keeps : (s : S) → affinity (sched.get_cpu s).1 ≡ affinity s
  pub yield_keeps : (s : S) → affinity (sched.yield s).1 ≡ affinity s
  pub sets :
      (core : ℤ) (s : S)
      → (sched.set_affinity core s).0 ≡ pos 0
      → affinity (sched.set_affinity core s).1 ≡ some core
  pub sets_nothing :
      (core : ℤ) (s : S)
      → (sched.set_affinity core s).0 ≢ pos 0
      → affinity (sched.set_affinity core s).1 ≡ affinity s

module _ {S : Type 0} (sched : Scheduler S) (affinity : S → Option ℤ)
    (laws : IsScheduler sched affinity) where
  -- The core that is returned is one that there is, and `sched_setaffinity` to it has given 0 and the
  -- thread may run on it only, or has failed and left the thread where it was allowed to run in s.
  abbrev pub IsTarget : S → ℤ × S → Type 0
  IsTarget s (core, s') =
      (pos 0 ≤ℤ core)
      × (core <ℤ sched.num_cpus)
      × ((((sched.set_affinity core (sched.get_cpu s).1).0 ≡ pos 0) × (affinity s' ≡ some core))
          ⊎ (((sched.set_affinity core (sched.get_cpu s).1).0 ≢ pos 0)
              × (affinity s' ≡ affinity s)))

  pin-affinity :
      (core : ℤ) (need_switch : Bool) (s : S)
      → affinity (pin sched core need_switch s).1 ≡ affinity (sched.set_affinity core s).1
  unfolding pin get_current_core_id
  pin-affinity core true s = laws.get_keeps _ ∙ laws.yield_keeps _
  pin-affinity core false s = refl

  pin-core : (core : ℤ) (need_switch : Bool) (s : S) → (pin sched core need_switch s).0 ≡ core
  unfolding pin
  pin-core core need_switch s = refl

  eqb-eq : (z : ℤ) → eqb_ℤ z (pos 0) ≡ true → z ≡ pos 0
  eqb-eq z h = ground arith

  eqb-ne : (z : ℤ) → eqb_ℤ z (pos 0) ≡ false → z ≢ pos 0
  eqb-ne z h e = cc_false (sym (ap (λ x. eqb_ℤ x (pos 0)) e) ∙ h)
    where
      cc_false : true ≢ false
      cc_false k = cc k

  pin-IsTarget :
      (core : ℤ) (need_switch : Bool) (s : S)
      → pos 0 ≤ℤ core
      → core <ℤ sched.num_cpus
      → IsTarget s (pin sched core need_switch (sched.get_cpu s).1)
  unfolding pin
  pin-IsTarget core need_switch s low high =
      let s1 = (sched.get_cpu s).1 in
      let at = pin-affinity core need_switch s1 in
      (
        low,
        high,
        elim (Bool-cases (eqb_ℤ (sched.set_affinity core s1).0 (pos 0))) [
          | inl done ↦ let zero = eqb-eq _ done in inl (zero, at ∙ laws.sets core s1 zero)
          | inr failed ↦
              let error = eqb-ne _ failed in
              inr (error, at ∙ (laws.sets_nothing core s1 error ∙ laws.get_keeps s))
        ],
      )

  -- `core` is no core, or it stands for the current one and that is not known.
  abbrev pub IsUnusable : ℤ → S → Type 0
  IsUnusable core s =
      (sched.num_cpus ≤ℤ core)
      ⊎ ((core <ℤ pos 0) × ((sched.num_cpus ≤ℤ pos 0) ⊎ ((sched.get_cpu s).0 <ℤ pos 0)))

  -- `chosen` is the core that `core` stands for.
  abbrev pub Chooses : ℤ → S → ℤ → Type 0
  Chooses core s chosen =
      ((pos 0 ≤ℤ core) × (chosen ≡ core)) ⊎ ((core <ℤ pos 0) × (chosen ≡ (sched.get_cpu s).0))

  no_core : (core cpus : ℤ) → leb_ℤ cpus (pos 0) ≡ true → (cpus ≤ℤ core) ⊎ (core <ℤ pos 0)
  no_core core cpus h = elim (Bool-cases (ltb_ℤ core (pos 0))) [
    | inl negative ↦ inr (ground arith)
    | inr others ↦ inl (ground arith)
  ]

  -- `SetCoreAffinity` has the result -1, and leaves the thread where it was allowed to run before, for
  -- a core beyond those that there are, and where it is to choose the current core and cannot find it.
  -- Otherwise its result is the core that was asked for, or the current core where it was to choose,
  -- which is a core that there is: the thread may run on it only, if `sched_setaffinity` succeeds, and
  -- where it was allowed to run before if that fails, though the result is the same.
  pub set_core_affinity_lem :
      (core : ℤ) (s : S)
      → (((set_core_affinity sched core s).0 ≡ negsuc 0)
          × (affinity (set_core_affinity sched core s).1 ≡ affinity s)
          × IsUnusable core s)
        ⊎ (IsTarget s (set_core_affinity sched core s)
            × Chooses core s (set_core_affinity sched core s).0)
  unfolding set_core_affinity pin_current pin_given pin get_current_core_id
  set_core_affinity_lem core s = elim (Bool-cases (leb_ℤ sched.num_cpus (pos 0))) [
    | inl no_cpus ↦ rw no_cpus (
        inl (
          refl,
          refl,
          elim (no_core core sched.num_cpus no_cpus) [
            | inl beyond ↦ inl beyond
            | inr negative ↦ inr (negative, inl (ground arith))
          ],
        ))
    | inr cpus ↦ elim (Bool-cases (leb_ℤ sched.num_cpus core)) [
      | inl beyond ↦ rw (cpus, beyond) (inl (refl, refl, inl (ground arith)))
      | inr within ↦ elim (Bool-cases (ltb_ℤ core (pos 0))) [
        | inr given ↦
            rw (cpus, within, given)
              (inr (
                pin-IsTarget core (not (eqb_ℤ (sched.get_cpu s).0 core)) s (ground arith)
                    (ground arith),
                inl (ground arith, refl),
              ))
        | inl choose ↦ elim (Bool-cases (ltb_ℤ (sched.get_cpu s).0 (pos 0))) [
          | inl unknown ↦
              rw (cpus, within, choose, unknown)
                (inl (refl, laws.get_keeps s, inr (ground arith, inr (ground arith))))
          | inr known ↦
              rw (cpus, within, choose, known)
                (inr (
                  pin-IsTarget (sched.get_cpu s).0 false s (ground arith) (laws.exists s),
                  inr (ground arith, refl),
                ))
        ]
      ]
    ]
  ]
