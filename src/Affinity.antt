-- ===== src/Affinity.antt =====
-- `GetCurrentCoreId` and `SetCoreAffinity` of lib/os.cpp, over the calls of the scheduler.
pub mod Pinned
mod Tests
use cpp_autotime.Prelude.{ℕ, Bool, true, false, not, if◌then◌else◌}
use cpp_autotime.Prelude.Int.{ℤ, pos, negsuc, ltb_ℤ, leb_ℤ, eqb_ℤ}

-- `num_cpus` is what `get_nprocs_conf` gives, `set_affinity` `sched_setaffinity` of the current thread
-- with a set of one core.
pub record Scheduler (S : Type 0) : Type 0 where
  pub num_cpus : ℤ
  pub get_cpu : S → ℤ × S
  pub set_affinity : ℤ → S → ℤ × S
  pub yield : S → ℤ × S

module _ {S : Type 0} (sched : Scheduler S) where
  open sched use {num_cpus, get_cpu, set_affinity, yield}

  -- `GetCurrentCoreId`
  unfoldable pub get_current_core_id : S → ℤ × S
  get_current_core_id s = get_cpu s

  -- `SetCoreAffinity` from the allocation of the set on. A failed call is only logged.
  unfoldable pub pin : ℤ → Bool → S → ℤ × S
  pin core_id need_switch s =
      let (_, s1) = set_affinity core_id s in
      let (_, s2) = yield s1 in
      let (_, s3) = get_current_core_id s2 in (core_id, if need_switch then s3 else s1)

  -- What `SetCoreAffinity` does with the current core, where it is to choose that one.
  unfoldable pub pin_current : ℤ × S → ℤ × S
  pin_current (core_id, s) = if ltb_ℤ core_id (pos 0) then (negsuc 0, s) else pin core_id false s

  -- The same, where it is to choose `core_id`.
  unfoldable pub pin_given : ℤ → ℤ × S → ℤ × S
  pin_given core_id (current, s) = pin core_id (not (eqb_ℤ current core_id)) s

  -- `SetCoreAffinity`
  unfoldable pub set_core_affinity : ℤ → S → ℤ × S
  set_core_affinity core_id s =
      if leb_ℤ num_cpus (pos 0)
      then (negsuc 0, s)
      else if leb_ℤ num_cpus core_id
      then (negsuc 0, s)
      else if ltb_ℤ core_id (pos 0)
      then pin_current (get_current_core_id s)
      else pin_given core_id (get_current_core_id s)
