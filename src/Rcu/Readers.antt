-- ===== src/Rcu/Readers.antt =====
-- The guarantee of RCU for a callback that starts its grace period.
use the_os_reborn.Common.{
  ℕ, ◌+◌, ◌<◌, ◌^◌, ◌≡◌, ◌≢◌, refl, sym, ap, ◌∙◌, subst, ◌≤◌, true, List, [], ◌∷◌, ◌++◌, length,
  arith, Bool,
}
use the_os_reborn.Rcu.{
  Rcu, Node, CpuState, Machine, cpu_online, online_cpu_limit, lock, unlock, note_quiescent_state,
  enqueue_locked, call, Event, run,
}
use the_os_reborn.Rcu.Inv.{
  IsValid, HasRoom, preempt_disable-Frame, preempt_enable-Frame, preempt_disable-cpu,
  preempt_enable-cpu, start_gp_idle, opened, mark_cpus-Frame,
}
use the_os_reborn.Rcu.Note.{lock-IsValid, unlock-IsValid, note_quiescent_state-IsValid}
use the_os_reborn.Rcu.Steps.{enqueue_locked-IsValid, HasRoom-transport}
use the_os_reborn.Rcu.GracePeriod.{
  IsReading, Holds, ReadsAlong, mark_cpus-reading, Holds-transport, note_quiescent_state-held,
  run-held,
}

-- With no grace period open, the callback opens the next one, and a CPU that reads has not
-- reported for it.
enqueue_locked_idle :
    (m : Machine) (fn context c : ℕ) (s : Rcu)
    → s.gp_target ≡ 0
    → s.gp_seq + 1 < 2 ^ 64
    → IsReading c s
    → let t = enqueue_locked m fn context s in
      let node : Node = record { fn = fn; context = context; target_gp = s.gp_seq + 1 } in
      (t.gp_target ≡ s.gp_seq + 1)
      × (t.callbacks ≡ s.callbacks ++ (node ∷ []))
      × (t.cpu c ≡ s.cpu c)
unfolding enqueue_locked
enqueue_locked_idle m fn context c s h r rd =
    let f = mark_cpus-Frame m (s.gp_seq + 1) (online_cpu_limit m) 0 (opened s (s.gp_seq + 1)) in
    let k =
      mark_cpus-reading m (s.gp_seq + 1) (online_cpu_limit m) 0 c (opened s (s.gp_seq + 1)) rd in
    rw (start_gp_idle m s h r, enqueue_locked) (f.gp_target, rw f.callbacks refl, k)

pub call_accepted :
    (m : Machine) (cur fn context : ℕ) (s : Rcu)
    → s.ready ≡ true
    → fn ≢ 0
    → let t = unlock cur (enqueue_locked m fn context (lock cur s)) in
      call m cur true fn context s
      ≡ (true, (note_quiescent_state m cur t).1, (note_quiescent_state m cur t).0)
unfolding call
call_accepted m cur fn context s r h = ground arith

-- the state in which RCU_call leaves its lock, when no grace period was open before
registered_idle :
    (m : Machine) (cur fn context c : ℕ) (s : Rcu)
    → IsValid s
    → HasRoom s
    → s.gp_target ≡ 0
    → IsReading c s
    → let t = unlock cur (enqueue_locked m fn context (lock cur s)) in
      let node : Node = record { fn = fn; context = context; target_gp = s.gp_seq + 1 } in
      IsValid t
      × (t.gp_seq ≡ s.gp_seq)
      × (t.gp_target ≡ s.gp_seq + 1)
      × (t.callbacks ≡ node ∷ [])
      × (t.cpu c ≡ s.cpu c)
registered_idle m cur fn context c s v r h rd =
    let f = preempt_disable-Frame cur s in
    let fc = ap (λ (k : ℕ → CpuState). k c) (preempt_disable-cpu cur s) in
    let l : Rcu = lock cur s in
    let u : Rcu = enqueue_locked m fn context l in
    let k = preempt_enable-Frame cur u in
    let kc = ap (λ (g : ℕ → CpuState). g c) (preempt_enable-cpu cur u) in
    let rl : HasRoom l = HasRoom-transport f r in
    let (w, nz, seq, len) = enqueue_locked-IsValid m fn context l (lock-IsValid cur s v) rl in
    let (a, b, d) =
      enqueue_locked_idle m fn context c l (f.gp_target ∙ h) rl.more_gps
        (λ z. rd (ap (λ (g : CpuState). g.read_depth) (sym fc) ∙ z)) in
    (
      unlock-IsValid cur u w,
      k.gp_seq ∙ seq ∙ f.gp_seq,
      k.gp_target ∙ a ∙ rw f.gp_seq refl,
      k.callbacks ∙ b ∙ rw (f.gp_seq, f.callbacks, v.idle_empty h) refl,
      kc ∙ d ∙ fc,
    )

seen-le_of_idle : (c : ℕ) (s : Rcu) → IsValid s → s.gp_target ≡ 0 → (s.cpu c).seen_gp ≤ s.gp_seq
seen-le_of_idle c s v h = ground (arith, v.seen_past c)

-- A callback registered while no grace period is open waits for every reader: if the state is valid,
-- RCU is ready, no grace period is open, the 64-bit counters have room for the run, and an online CPU
-- `c` is inside a read section, then RCU_call of a function that is not NULL, with a kmalloc that gives
-- it the node, accepts it and runs nothing, and neither does any interleaving of operations of the
-- CPUs during which `c` stays inside the section. The callback is at the head of the queue in the end.
pub call_waits_for_readers :
    (m : Machine) (cur fn context c : ℕ) (s : Rcu) (es : List Event)
    → IsValid s
    → s.gp_seq + length es + 3 < 2 ^ 64
    → s.ready ≡ true
    → s.gp_target ≡ 0
    → fn ≢ 0
    → c < online_cpu_limit m
    → cpu_online m c ≡ true
    → IsReading c s
    → ReadsAlong m c es (call m cur true fn context s).2
    → let node : Node = record { fn = fn; context = context; target_gp = s.gp_seq + 1 } in
      let (accepted, first, t) = call m cur true fn context s in
      (accepted ≡ true)
      × (first ≡ [])
      × ((run m es t).1 ≡ [])
      × (added : List Node) × ((run m es t).0.callbacks ≡ node ∷ added)
call_waits_for_readers m cur fn context c s es v room ready idle nz counted on rd along =
    let room_s : HasRoom s = omega (arith, ap length (v.idle_empty idle)) in
    let t : Rcu = unlock cur (enqueue_locked m fn context (lock cur s)) in
    let (w, seq, gp, queue, slot) = registered_idle m cur fn context c s v room_s idle rd in
    let e = call_accepted m cur fn context s ready nz in
    let along_t = subst (λ (x : Bool × List Node × Rcu). ReadsAlong m c es x.2) e along in
    let rd_t : IsReading c t = λ z. rd (ap (λ (g : CpuState). g.read_depth) (sym slot) ∙ z) in
    let holds_t : Holds m c t = record {
      counted = counted;
      is_online = on;
      unseen = omega (arith, gp, ap (λ (g : CpuState). g.seen_gp) slot, seen-le_of_idle c s v idle);
    } in
    let (none_first, kept) = note_quiescent_state-held m cur c t w holds_t rd_t in
    let (gp', queue', slot', ready') = kept in
    let t' : Rcu = (note_quiescent_state m cur t).0 in
    let w' = note_quiescent_state-IsValid m cur t w in
    let seq' = w'.one_gp (λ z. absurd (omega arith)) in
    let (none_later, added, later) =
      run-held m es c t' w' (omega arith) (omega (arith, ap length (queue' ∙ queue)))
        (Holds-transport m c gp' (ap (λ (g : CpuState). g.seen_gp) slot') holds_t) along_t in
    rw e (
      refl,
      none_first,
      none_later,
      added,
      later ∙ ap (λ (k : List Node). k ++ added) (queue' ∙ queue),
    )
