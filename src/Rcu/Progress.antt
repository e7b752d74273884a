-- ===== src/Rcu/Progress.antt =====
-- A grace period closes with the last report, and hands out every waiting callback.
use the_os_reborn.Common.{
  ℕ, zero, suc, ◌+◌, ◌≤◌, ◌<◌, ◌≡◌, ◌≢◌, refl, sym, ap, ◌∙◌, true, [], arith,
}
use the_os_reborn.Rcu.{
  Rcu, CpuState, Machine, cpu_slots, cpu_online, online_cpu_limit, can_report_qs, all_seen,
  try_complete_gp_locked, report, note_locked, lock, unlock, note_quiescent_state,
}
use the_os_reborn.Rcu.Inv.{
  IsValid, closed, detach_ready_all, report-IsValid, preempt_disable-Frame, preempt_enable-Frame,
  preempt_disable-cpu, preempt_enable-cpu,
}
use the_os_reborn.Rcu.Note.{lock-IsValid, reported-Frame}

pub all_seen_intro :
    (m : Machine) (s : Rcu) (t r i : ℕ)
    → ((c : ℕ) → c < i + r → cpu_online m c ≡ true → t ≤ (s.cpu c).seen_gp)
    → all_seen m s t r i ≡ true
unfolding all_seen
all_seen_intro m s t zero i h = refl
all_seen_intro m s t (suc r) i h =
    ground (arith, h i (omega arith), all_seen_intro m s t r (i + 1) (λ c lt. h c (omega arith)))

try_complete_done :
    (m : Machine) (s : Rcu)
    → s.gp_target ≢ 0
    → all_seen m s s.gp_target (online_cpu_limit m) 0 ≡ true
    → try_complete_gp_locked m s ≡ (record s { gp_seq = s.gp_target; gp_target = 0 }, s.gp_target)
unfolding try_complete_gp_locked
try_complete_done m s h a = ground arith

note_locked_done :
    (m : Machine) (cur : ℕ) (s : Rcu)
    → IsValid s
    → let t = report cur s in
      t.gp_target ≢ 0
      → all_seen m t t.gp_target (online_cpu_limit m) 0 ≡ true
      → note_locked m cur s ≡ (closed t, t.callbacks)
unfolding note_locked
note_locked_done m cur s v h a =
    rw (try_complete_done m (report cur s) h a)
      (detach_ready_all (report cur s) (report-IsValid cur s v) h)

note_quiescent_state_reports :
    (m : Machine) (cur : ℕ) (s : Rcu)
    → s.ready ≡ true
    → cur < cpu_slots
    → can_report_qs s cur ≡ true
    → let r = note_locked m cur (lock cur s) in note_quiescent_state m cur s ≡ (unlock cur r.0, r.1)
unfolding note_quiescent_state
note_quiescent_state_reports m cur s ready small q = ground arith

-- the other CPUs that count have reported for the open grace period
abbrev pub OthersSeen : Machine → ℕ → Rcu → Type 0
OthersSeen m cur s =
    (c : ℕ)
    → c < online_cpu_limit m
    → cpu_online m c ≡ true
    → c ≢ cur
    → s.gp_target ≤ (s.cpu c).seen_gp

report-seen :
    (cur c : ℕ) (s : Rcu)
    → (c ≢ cur → s.gp_target ≤ (s.cpu c).seen_gp)
    → s.gp_target ≤ ((report cur s).cpu c).seen_gp
unfolding report
report-seen cur c s h = ground arith

report-depth : (cur c : ℕ) (s : Rcu) → ((report cur s).cpu c).read_depth ≡ (s.cpu c).read_depth
unfolding report
report-depth cur c s = ground arith

abbrev depth_at : ℕ → (ℕ → CpuState) → ℕ
depth_at c k = (k c).read_depth

abbrev seen_at : ℕ → (ℕ → CpuState) → ℕ
seen_at c k = (k c).seen_gp

-- The report of the last CPU closes the open grace period: if the state is valid, RCU is ready, CPU
-- `cur` exists and may report, and every other CPU that counts has reported, then
-- RCU_note_quiescent_state on `cur` runs all the waiting callbacks, in the order of their
-- registration, and leaves no callback, a count of 0, no open grace period and the next sequence
-- number. The read depths of all CPUs stay as they are.
pub last_report_closes :
    (m : Machine) (cur : ℕ) (s : Rcu)
    → IsValid s
    → s.ready ≡ true
    → cur < cpu_slots
    → can_report_qs s cur ≡ true
    → s.gp_target ≢ 0
    → OthersSeen m cur s
    → let (t, ran) = note_quiescent_state m cur s in
      (ran ≡ s.callbacks)
      × (t.callbacks ≡ [])
      × (t.cb_pending ≡ 0)
      × (t.gp_target ≡ 0)
      × (t.gp_seq ≡ s.gp_seq + 1)
      × ((c : ℕ) → (t.cpu c).read_depth ≡ (s.cpu c).read_depth)
last_report_closes m cur s v ready small q nz others =
    let l : Rcu = lock cur s in
    let f = reported-Frame cur s in
    let fl = preempt_disable-Frame cur s in
    let lc = preempt_disable-cpu cur s in
    let t : Rcu = report cur l in
    let seen = all_seen_intro m t t.gp_target (online_cpu_limit m) 0 (λ c lt on. omega (
      arith,
      f.gp_target,
      fl.gp_target,
      report-seen cur c l
          (λ ne. omega (arith, fl.gp_target, ap (seen_at c) lc, others c (omega arith) on ne)),
    )) in
    let done =
      note_locked_done m cur l (lock-IsValid cur s v) (λ z. nz (sym f.gp_target ∙ z)) seen in
    let k = preempt_enable-Frame cur (closed t) in
    let kc = preempt_enable-cpu cur (closed t) in
    rw (note_quiescent_state_reports m cur s ready small q, done)
      (
        f.callbacks,
        k.callbacks,
        k.cb_pending,
        k.gp_target,
        k.gp_seq ∙ f.gp_target ∙ v.one_gp nz,
        λ c. ap (depth_at c) kc ∙ report-depth cur c l ∙ ap (depth_at c) lc,
      )
