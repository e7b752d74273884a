-- ===== src/Rcu/Early.antt =====
-- A callback that is registered while a grace period is open joins that period (the first test of
-- rcu_start_gp_locked), which may have been reported for by a CPU that reads now.
use the_os_reborn.Common.{ℕ, ◌<◌, ◌≡◌, ◌≢◌, refl, sym, ap, ◌∙◌, true, [], ◌∷◌, ◌++◌, arith}
use the_os_reborn.Rcu.{
  Rcu, Node, CpuState, Machine, cpu_slots, can_report_qs, lock, unlock, preempt_disable,
  preempt_enable, enqueue_locked, call,
}
use the_os_reborn.Rcu.Inv.{IsValid, HasRoom, preempt_disable-Frame}
use the_os_reborn.Rcu.Note.{lock-IsValid, unlock-IsValid}
use the_os_reborn.Rcu.Steps.{enqueue_locked-IsValid, HasRoom-transport}
use the_os_reborn.Rcu.GracePeriod.{enqueue_locked_busy, registered_busy}
use the_os_reborn.Rcu.Readers.{call_accepted}
use the_os_reborn.Rcu.Progress.{OthersSeen, last_report_closes}

preempt_disable-count :
    (cur : ℕ) (s : Rcu)
    → cur < cpu_slots
    → s.preempt_count cur ≡ 0
    → (preempt_disable cur s).preempt_count cur ≡ 1
unfolding preempt_disable
preempt_disable-count cur s small z = ground arith

preempt_enable-count :
    (cur : ℕ) (s : Rcu)
    → cur < cpu_slots
    → s.preempt_count cur ≡ 1
    → (preempt_enable cur s).preempt_count cur ≡ 0
unfolding preempt_enable
preempt_enable-count cur s small z = ground arith

relock :
    (m : Machine) (cur fn context : ℕ) (s : Rcu)
    → s.gp_target ≢ 0
    → cur < cpu_slots
    → s.preempt_count cur ≡ 0
    → (unlock cur (enqueue_locked m fn context (lock cur s))).preempt_count cur ≡ 0
relock m cur fn context s h small z =
    let f = preempt_disable-Frame cur s in
    let e = enqueue_locked_busy m fn context (lock cur s) (λ e. h (sym f.gp_target ∙ e)) in
    preempt_enable-count cur (enqueue_locked m fn context (lock cur s)) small
      (ap (λ (k : ℕ → ℕ). k cur) e.3 ∙ preempt_disable-count cur s small z)

can_report_qs_intro :
    (s : Rcu) (cur : ℕ)
    → cur < cpu_slots
    → (s.cpu cur).read_depth ≡ 0
    → s.preempt_count cur ≡ 0
    → can_report_qs s cur ≡ true
unfolding can_report_qs
can_report_qs_intro s cur small d p = ground arith

-- A callback that joins an open grace period does not wait for the readers of its own time: if the
-- state is valid with room in its counters, RCU is ready, a grace period is open, CPU `cur` exists,
-- neither reads nor has preemption off, and every other CPU that counts has reported, then RCU_call
-- on `cur` of a function that is not NULL, with a kmalloc that gives it the node, accepts the callback
-- and runs it before it returns, behind those that wait. No condition is on the read depths of the
-- other CPUs, which stay as they are.
pub call_runs_under_readers :
    (m : Machine) (cur fn context : ℕ) (s : Rcu)
    → IsValid s
    → HasRoom s
    → s.ready ≡ true
    → fn ≢ 0
    → s.gp_target ≢ 0
    → cur < cpu_slots
    → (s.cpu cur).read_depth ≡ 0
    → s.preempt_count cur ≡ 0
    → OthersSeen m cur s
    → let node : Node = record { fn = fn; context = context; target_gp = s.gp_target } in
      let (accepted, ran, t) = call m cur true fn context s in
      (accepted ≡ true)
      × (ran ≡ s.callbacks ++ (node ∷ []))
      × ((c : ℕ) → (t.cpu c).read_depth ≡ (s.cpu c).read_depth)
call_runs_under_readers m cur fn context s v room ready nz open_gp small depth off others =
    let t : Rcu = unlock cur (enqueue_locked m fn context (lock cur s)) in
    let (gp, queue, slots, ready_t) = registered_busy m cur fn context s open_gp in
    let w =
      (enqueue_locked-IsValid m fn context (lock cur s) (lock-IsValid cur s v)
        (HasRoom-transport (preempt_disable-Frame cur s) room)).0 in
    let q =
      can_report_qs_intro t cur small (ap (λ (k : ℕ → CpuState). (k cur).read_depth) slots ∙ depth)
        (relock m cur fn context s open_gp small off) in
    let done =
      last_report_closes m cur t (unlock-IsValid cur _ w) (ready_t ∙ ready) small q
        (λ z. open_gp (sym gp ∙ z))
        (λ c lt on ne.
          omega (arith, gp, ap (λ (k : ℕ → CpuState). (k c).seen_gp) slots, others c lt on ne)) in
    rw (call_accepted m cur fn context s ready nz)
      (refl, done.0 ∙ queue, λ c. done.5 c ∙ ap (λ (k : ℕ → CpuState). (k c).read_depth) slots)
