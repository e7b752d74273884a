-- ===== src/Rcu/Inv.antt =====
-- What holds of the RCU state between two operations: at most one grace period is open, every
-- waiting callback waits for it, and no CPU has reported for a later one.
use the_os_reborn.Common.{
  ℕ, zero, suc, ◌+◌, ◌≤◌, ◌<◌, ◌^◌, ◌≡◌, ◌≢◌, refl, true, List, [], ◌∷◌, ◌==◌, if◌then◌else◌,
  length, ==_ne, inl, inr, ◌⊎◌, All, arith,
}
use native.Mathlib.Decide.{ℕ_discrete}
use the_os_reborn.Rcu.{
  Rcu, Node, Machine, online_cpu_limit, mark_cpu, mark_cpus, start_gp_locked, all_seen,
  try_complete_gp_locked, detach_loop, detach_ready_callbacks_locked, report, note_locked,
  preempt_disable, preempt_enable,
}

-- the grace period that a CPU may have reported for
abbrev pub current_gp : Rcu → ℕ
current_gp s = if s.gp_target == 0 then s.gp_seq else s.gp_target

abbrev pub Targets : ℕ → List Node → Type 0
Targets g ns = All (λ n. n.target_gp ≡ g) ns

pub record IsValid (s : Rcu) : Type 0 where
  pub one_gp : s.gp_target ≢ 0 → s.gp_target ≡ s.gp_seq + 1
  pub idle_empty : s.gp_target ≡ 0 → s.callbacks ≡ []
  pub same_target : Targets s.gp_target s.callbacks
  pub pending : s.cb_pending ≡ length s.callbacks
  pub seen_past : (c : ℕ) → (s.cpu c).seen_gp ≤ current_gp s

-- the two 64-bit counters are not used up
pub record HasRoom (s : Rcu) : Type 0 where
  pub more_gps : s.gp_seq + 1 < 2 ^ 64
  pub more_callbacks : length s.callbacks + 1 < 2 ^ 64

-- all but the CPUs' slots and the preemption counters are the same
pub record Frame (s t : Rcu) : Type 0 where
  pub gp_seq : t.gp_seq ≡ s.gp_seq
  pub gp_target : t.gp_target ≡ s.gp_target
  pub callbacks : t.callbacks ≡ s.callbacks
  pub cb_pending : t.cb_pending ≡ s.cb_pending
  pub ready : t.ready ≡ s.ready

pub Frame-self : (s : Rcu) → Frame s s
Frame-self s = record {
  gp_seq = refl;
  gp_target = refl;
  callbacks = refl;
  cb_pending = refl;
  ready = refl;
}

pub Frame-trans : {s t u : Rcu} → Frame s t → Frame t u → Frame s u
Frame-trans p q = ground arith

pub preempt_disable-Frame : (cur : ℕ) (s : Rcu) → Frame s (preempt_disable cur s)
unfolding preempt_disable
preempt_disable-Frame cur s = ground arith

pub preempt_enable-Frame : (cur : ℕ) (s : Rcu) → Frame s (preempt_enable cur s)
unfolding preempt_enable
preempt_enable-Frame cur s = ground arith

pub preempt_disable-cpu : (cur : ℕ) (s : Rcu) → (preempt_disable cur s).cpu ≡ s.cpu
unfolding preempt_disable
preempt_disable-cpu cur s = ground arith

pub preempt_enable-cpu : (cur : ℕ) (s : Rcu) → (preempt_enable cur s).cpu ≡ s.cpu
unfolding preempt_enable
preempt_enable-cpu cur s = ground arith

pub mark_cpu-Frame : (m : Machine) (t c : ℕ) (s : Rcu) → Frame s (mark_cpu m t c s)
unfolding mark_cpu
mark_cpu-Frame m t c s = ground arith

pub mark_cpus-Frame : (m : Machine) (t r c : ℕ) (s : Rcu) → Frame s (mark_cpus m t r c s)
unfolding mark_cpus
mark_cpus-Frame m t zero c s = ground arith
mark_cpus-Frame m t (suc r) c s =
    Frame-trans (mark_cpu-Frame m t c s) (mark_cpus-Frame m t r (c + 1) (mark_cpu m t c s))

mark_cpu-seen :
    (m : Machine) (t c : ℕ) (s : Rcu) (i : ℕ)
    → (s.cpu i).seen_gp ≤ t
    → ((mark_cpu m t c s).cpu i).seen_gp ≤ t
unfolding mark_cpu
mark_cpu-seen m t c s i h = ground arith

mark_cpus-seen :
    (m : Machine) (t r c : ℕ) (s : Rcu) (i : ℕ)
    → (s.cpu i).seen_gp ≤ t
    → ((mark_cpus m t r c s).cpu i).seen_gp ≤ t
unfolding mark_cpus
mark_cpus-seen m t zero c s i h = h
mark_cpus-seen m t (suc r) c s i h =
    mark_cpus-seen m t r (c + 1) (mark_cpu m t c s) i (mark_cpu-seen m t c s i h)

-- A state that agrees on the frame and on the reports is as valid.
pub IsValid-transport :
    {s t : Rcu} → Frame s t → ((c : ℕ) → (t.cpu c).seen_gp ≤ current_gp s) → IsValid s → IsValid t
IsValid-transport {s} {t} f seen v = record {
  one_gp = λ h. ground arith;
  idle_empty = λ h. ground arith;
  same_target = rw (f.gp_target, f.callbacks) v.same_target;
  pending = ground arith;
  seen_past = λ c. ground (arith, seen c);
}

-- Once the grace period that all the nodes wait for is over, none is left.
pub detach_loop-all :
    (g k : ℕ) (ns : List Node) (pending : ℕ)
    → Targets g ns
    → g ≤ k
    → pending ≡ length ns
    → detach_loop k ns pending ≡ (ns, [], 0)
unfolding detach_loop
detach_loop-all g k [] pending h le e = ground arith
detach_loop-all g k (n ∷ ns) pending h le e =
    ground (arith, detach_loop-all g k ns (length ns) h.1 le refl)

pub start_gp_busy :
    (m : Machine) (s : Rcu) → s.gp_target ≢ 0 → start_gp_locked m s ≡ (s, s.gp_target)
unfolding start_gp_locked
start_gp_busy m s h = ground arith

-- the state that a new grace period starts in, before the idle CPUs are marked
abbrev pub opened : Rcu → ℕ → Rcu
opened s target = record s { gp_target = target }

pub start_gp_idle :
    (m : Machine) (s : Rcu)
    → s.gp_target ≡ 0
    → s.gp_seq + 1 < 2 ^ 64
    → start_gp_locked m s
      ≡ (mark_cpus m (s.gp_seq + 1) (online_cpu_limit m) 0 (opened s (s.gp_seq + 1)), s.gp_seq + 1)
unfolding start_gp_locked
start_gp_idle m s h r = ground arith

abbrev pub Started : Rcu → Rcu → ℕ → Type 0
Started s s' target =
    IsValid s'
    × (target ≡ s.gp_seq + 1)
    × (s'.gp_target ≡ target)
    × (s'.gp_seq ≡ s.gp_seq)
    × (s'.callbacks ≡ s.callbacks)
    × (s'.ready ≡ s.ready)

opened-IsValid : (s : Rcu) → IsValid s → s.gp_target ≡ 0 → IsValid (opened s (s.gp_seq + 1))
opened-IsValid s v h = record {
  one_gp = λ _. refl;
  idle_empty = λ e. ground arith;
  same_target = rw (v.idle_empty h) tt;
  pending = v.pending;
  seen_past = λ c. ground (arith, v.seen_past c);
}

-- What rcu_start_gp_locked returns is the target of the one open grace period.
pub start_gp_locked_lem :
    (m : Machine) (s : Rcu)
    → IsValid s
    → HasRoom s
    → Started s (start_gp_locked m s).0 (start_gp_locked m s).1
start_gp_locked_lem m s v r = elim (ℕ_discrete s.gp_target 0) [
  | yes idle ↦
      let f = mark_cpus-Frame m (s.gp_seq + 1) (online_cpu_limit m) 0 (opened s (s.gp_seq + 1)) in
      rw (start_gp_idle m s idle r.more_gps) (
        IsValid-transport f
            (λ c. ground (
              arith,
              v.seen_past c,
              mark_cpus-seen m (s.gp_seq + 1) (online_cpu_limit m) 0 (opened s (s.gp_seq + 1)) c,
            ))
            (opened-IsValid s v idle),
        refl,
        f.gp_target,
        f.gp_seq,
        f.callbacks,
        f.ready,
      )
  | no busy ↦ rw (start_gp_busy m s busy) (v, v.one_gp busy, refl, refl, refl, refl)
]

-- One round of the loop that completes the open grace period.
pub try_complete_cases :
    (m : Machine) (s : Rcu)
    → (try_complete_gp_locked m s ≡ (s, 0))
      ⊎ ((s.gp_target ≢ 0)
          × (all_seen m s s.gp_target (online_cpu_limit m) 0 ≡ true)
          × (try_complete_gp_locked m s
              ≡ (record s { gp_seq = s.gp_target; gp_target = 0 }, s.gp_target)))
unfolding try_complete_gp_locked
try_complete_cases m s = ground arith

pub report-Frame : (cur : ℕ) (s : Rcu) → Frame s (report cur s)
unfolding report
report-Frame cur s = ground arith

pub report-IsValid : (cur : ℕ) (s : Rcu) → IsValid s → IsValid (report cur s)
unfolding report
report-IsValid cur s v =
    IsValid-transport (report-Frame cur s) (λ c. ground (arith, v.seen_past c)) v

-- the state after a grace period that lets every waiting callback run
abbrev pub closed : Rcu → Rcu
closed s = record s { gp_seq = s.gp_target; gp_target = 0; callbacks = []; cb_pending = 0 }

pub closed-IsValid : (s : Rcu) → IsValid s → s.gp_target ≢ 0 → IsValid (closed s)
closed-IsValid s v h = record {
  one_gp = λ e. absurd (e refl);
  idle_empty = λ _. refl;
  same_target = tt;
  pending = refl;
  seen_past = λ c. ground (arith, v.seen_past c);
}

pub detach_ready_all :
    (s : Rcu)
    → IsValid s
    → s.gp_target ≢ 0
    → detach_ready_callbacks_locked s.gp_target (record s { gp_seq = s.gp_target; gp_target = 0 })
      ≡ (closed s, s.callbacks)
unfolding detach_ready_callbacks_locked
detach_ready_all s v h = rw (
  ==_ne s.gp_target 0 h,
  detach_loop-all s.gp_target s.gp_target s.callbacks s.cb_pending v.same_target (omega arith)
      v.pending,
)

-- Under the lock a report either changes nothing else, or closes the grace period that every
-- online CPU has reported for, and then hands out all the callbacks, oldest first.
pub note_locked_cases :
    (m : Machine) (cur : ℕ) (s : Rcu)
    → IsValid s
    → let t = report cur s in
      (note_locked m cur s ≡ (t, []))
      ⊎ ((t.gp_target ≢ 0)
          × (all_seen m t t.gp_target (online_cpu_limit m) 0 ≡ true)
          × (note_locked m cur s ≡ (closed t, t.callbacks)))
unfolding note_locked
note_locked_cases m cur s v = elim (try_complete_cases m (report cur s)) [
  | inl e ↦ inl (rw e (unfold detach_ready_callbacks_locked in refl))
  | inr (h, a, e) ↦ inr (h, a, rw e (detach_ready_all (report cur s) (report-IsValid cur s v) h))
]
