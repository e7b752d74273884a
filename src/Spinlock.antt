-- ===== src/Spinlock.antt =====
-- The spinlocks of Kernel/Debug/Spinlock.c, one lock and any number of CPUs, with the preemption
-- counters of Kernel/Task/Task.c. Each atomic operation on the lock is a step of its own; interrupts
-- and the reschedule that task_preempt_enable may ask for are left out.
pub mod Exclusion
mod Tests
use the_os_reborn.Task.Runqueue.{max_cpus}
use the_os_reborn.Common.{
  ℕ, zero, suc, ◌+◌, ◌-◌, ◌*◌, ◌/◌, ◌%◌, ◌^◌, ◌≤◌, ◌<◌, ◌≡◌, ◌≢◌, refl, sym, ap, ◌∙◌, subst, Bool,
  true, false, not, ◌&&◌, ◌||◌, List, [], ◌∷◌, ◌++◌, Option, none, some, ◌==◌, ltb, leb,
  if◌then◌else◌, update, length, get_or, take, drop, replicate, All, Bool-cases, Option-cases,
  ==_ne, ==_self, ==_iff, ltb→lt, lt→ltb, leb→le, ◌↔◌, ◌⊎◌, inl, inr, arith,
}

-- Where a CPU is: not in the code; before the test_and_set of spin_lock, in its inner loop, or before
-- the test_and_set of spin_try_lock; with the lock; before task_preempt_enable.
pub data Pc : Type 0 where
  idle : Pc
  trying : Pc
  spinning : Pc
  trying_once : Pc
  holding : Pc
  leaving : Pc

-- the word `locked`, which is 0 or 1, and of each CPU its place and preempt_count
pub record System : Type 0 where
  pub locked : Bool
  pub pc : ℕ → Pc
  pub preempt : ℕ → ℕ

abbrev pub goto : ℕ → Pc → System → System
goto i p s = record s { pc = update s.pc i p }

-- task_preempt_disable and task_preempt_enable on CPU `i`
pub disable : ℕ → System → System
disable i s = record s { preempt = update s.preempt i ((s.preempt i + 1) % 2 ^ 32) }

pub enable : ℕ → System → System
enable i s =
    if s.preempt i == 0 then s else record s { preempt = update s.preempt i (s.preempt i - 1) }

-- spinlock_init
pub spinlock_init : System → System
spinlock_init s = record s { locked = false }

-- __atomic_test_and_set: the value before, and the state behind it
pub test_and_set : System → System × Bool
test_and_set s = (record s { locked = true }, s.locked)

-- the next place of a CPU that did the test_and_set of spin_lock, or of spin_try_lock
pub after_lock : Bool → Pc
after_lock taken = if taken then spinning else holding

pub after_try_lock : Bool → Pc
after_try_lock taken = if taken then leaving else holding

-- one atomic operation of one CPU; there are TASK_MAX_CPUS at most
pub data Step (s : System) : System → Type 0 where
  call_lock : (i : ℕ) → i < max_cpus → s.pc i ≡ idle → Step s (goto i trying (disable i s))
  call_try_lock : (i : ℕ) → i < max_cpus → s.pc i ≡ idle → Step s (goto i trying_once (disable i s))
  set :
      (i : ℕ) → s.pc i ≡ trying → Step s (goto i (after_lock (test_and_set s).1) (test_and_set s).0)
  set_once :
      (i : ℕ)
      → s.pc i ≡ trying_once
      → Step s (goto i (after_try_lock (test_and_set s).1) (test_and_set s).0)
  read : (i : ℕ) → s.pc i ≡ spinning → Step s (goto i (if s.locked then spinning else trying) s)
  unlock : (i : ℕ) → s.pc i ≡ holding → Step s (goto i leaving (record s { locked = false }))
  leave : (i : ℕ) → s.pc i ≡ leaving → Step s (goto i idle (enable i s))

abbrev pub start : System
start = spinlock_init (record { locked = true; pc = (λ i. idle); preempt = (λ i. 0) })

pub data Reachable : System → Type 0 where
  begin : Reachable start
  later : {s t : System} → Reachable s → Step s t → Reachable t
