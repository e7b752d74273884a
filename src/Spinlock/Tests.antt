-- ===== src/Spinlock/Tests.antt =====
-- CPU 3 takes the lock, and CPU 5 tries to.
use the_os_reborn.Common.{ℕ, ◌≡◌, ◌≢◌, refl, true, false, ◌↔◌, arith}
use the_os_reborn.Spinlock.{
  trying, trying_once, holding, System, goto, disable, spinlock_init, test_and_set, after_lock,
  call_lock, call_try_lock, set, start, Reachable, begin, later,
}
use the_os_reborn.Spinlock.Exclusion.{mutual_exclusion}

abbrev called : System
called = goto 3 trying (disable 3 start)

abbrev taken : System
taken = goto 3 (after_lock (test_and_set called).1) (test_and_set called).0

abbrev tries : System
tries = goto 5 trying_once (disable 5 taken)

tries-Reachable : Reachable tries
unfolding disable test_and_set after_lock spinlock_init
tries-Reachable =
    later (later (later begin (call_lock 3 (omega arith) refl)) (set 3 refl))
      (call_try_lock 5 (omega arith) refl)

mutual_exclusion_example :
    ((i j : ℕ) → tries.pc i ≡ holding → tries.pc j ≡ holding → i ≡ j)
    × ((i : ℕ) → tries.pc i ≡ holding → tries.preempt i ≡ 1)
    × ((tries.locked ≡ false) ↔ ((i : ℕ) → tries.pc i ≢ holding))
mutual_exclusion_example = mutual_exclusion tries tries-Reachable

three_holds : (tries.pc 3 ≡ holding) × (tries.locked ≡ true)
unfolding disable test_and_set after_lock spinlock_init
three_holds = (refl, refl)
