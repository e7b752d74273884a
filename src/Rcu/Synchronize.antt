-- ===== src/Rcu/Synchronize.antt =====
-- RCU_synchronize and RCU_get_stats of Kernel/Task/RCU.c.
use the_os_reborn.Common.{
  ℕ, zero, suc, ◌+◌, ◌-◌, ◌^◌, Bool, true, false, not, List, [], ◌++◌, ltb, leb, ◌==◌,
  if◌then◌else◌,
}
use the_os_reborn.Rcu.{
  Machine, Node, Rcu, cpu_slots, u64, lock, unlock, start_gp_locked, note_quiescent_state,
  preempt_count_cpu,
}

abbrev pub sync_timeout_ticks : ℕ
sync_timeout_ticks = 100000

-- What the machine does while RCU_synchronize spins: the value of ISR_get_timer_ticks in each round,
-- and the operations of the other CPUs before it.
pub record Spinning : Type 0 where
  pub start_ticks : ℕ
  pub ticks : ℕ → ℕ
  pub others : ℕ → Rcu → Rcu

-- The loop from round `i` on, with the callbacks that this CPU runs. The fuel bounds the rounds; the
-- code's loop has none but the timer.
pub sync_loop : ℕ → Spinning → Machine → ℕ → ℕ → ℕ → Rcu → Rcu × List Node × Bool
sync_loop zero w m cur target i s = (s, [], false)
sync_loop (suc fuel) w m cur target i s =
    let s1 : Rcu = w.others i s in
    let (s2, ran) = note_quiescent_state m cur s1 in
    let (s3, more, done) = sync_loop fuel w m cur target (i + 1) s2 in
    if leb target s1.gp_seq
    then (s1, [], true)
    else if ltb sync_timeout_ticks (u64 (w.ticks i + 2 ^ 64 - w.start_ticks))
    then (s2, ran, false)
    else (s3, ran ++ more, done)

pub synchronize : ℕ → Spinning → Machine → ℕ → Rcu → Rcu × List Node × Bool
synchronize fuel w m cur s =
    let (s1, target) = start_gp_locked m (lock cur s) in
    if not s.ready
    then (s, [], false)
    else if target == 0
    then (unlock cur s1, [], true)
    else sync_loop fuel w m cur target 0 (unlock cur s1)

-- `rcu_stats_t`
pub record Stats : Type 0 where
  pub stat_gp_seq : ℕ
  pub stat_gp_target : ℕ
  pub callbacks_pending : ℕ
  pub local_read_depth : ℕ
  pub local_preempt_count : ℕ

-- read under the lock, which has preemption off on this CPU
pub get_stats : ℕ → Rcu → Stats
get_stats cur s =
    let locked : Rcu = lock cur s in
    let c : ℕ = (if leb cpu_slots cur then 0 else cur) in
    record {
      stat_gp_seq = locked.gp_seq;
      stat_gp_target = locked.gp_target;
      callbacks_pending = locked.cb_pending;
      local_read_depth = (locked.cpu c).read_depth;
      local_preempt_count = preempt_count_cpu locked c;
    }
