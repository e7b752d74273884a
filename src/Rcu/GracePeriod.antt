-- ===== src/Rcu/GracePeriod.antt =====
-- A read section that is open when a grace period starts holds back the callbacks of that period.
use mathlib.Core.List.{append-nil, append_assoc}
use native.Mathlib.Decide.{ℕ_discrete}
use the_os_reborn.Common.{
  ℕ, zero, suc, ◌+◌, ◌≤◌, ◌<◌, ◌^◌, ◌≡◌, ◌≢◌, refl, sym, ap, ◌∙◌, subst, Bool, true, false, List,
  [], ◌∷◌, ◌++◌, length, inl, inr, arith,
}
use the_os_reborn.Rcu.{
  Rcu, Node, CpuState, Machine, cpu_online, online_cpu_limit, can_report_qs, mark_cpu, mark_cpus,
  all_seen, lock, unlock, report, note_quiescent_state, preempt_disable, enqueue_locked, call,
  Event, enter, leave, disable, enable, quiesce, register, step, run,
}
use the_os_reborn.Rcu.Inv.{
  IsValid, HasRoom, Frame, Frame-self, preempt_disable-Frame, preempt_enable-Frame,
  preempt_disable-cpu, preempt_enable-cpu, start_gp_busy,
}
use the_os_reborn.Rcu.Note.{
  lock-IsValid, unlock-IsValid, note_quiescent_state_cases, reported-Frame, read_lock-Frame,
  read_unlock-Frame, read_lock-seen, read_unlock-seen,
}
use the_os_reborn.Rcu.Steps.{step-IsValid, call_cases, enqueue_locked-IsValid, HasRoom-transport}

-- CPU `c` is inside a read section.
abbrev pub IsReading : ℕ → Rcu → Type 0
IsReading c s = (s.cpu c).read_depth ≢ 0

-- A grace period is open, and CPU `c`, which counts, has not reported for it.
pub record Holds (m : Machine) (c : ℕ) (s : Rcu) : Type 0 where
  pub counted : c < online_cpu_limit m
  pub is_online : cpu_online m c ≡ true
  pub unseen : (s.cpu c).seen_gp < s.gp_target

pub IsReading-can_report_qs : (c : ℕ) (s : Rcu) → IsReading c s → can_report_qs s c ≡ false
unfolding can_report_qs
IsReading-can_report_qs c s h = ground arith

mark_cpu-reading :
    (m : Machine) (t i c : ℕ) (s : Rcu) → IsReading c s → ((mark_cpu m t i s).cpu c) ≡ s.cpu c
unfolding mark_cpu
mark_cpu-reading m t i c s h = ground (arith, IsReading-can_report_qs c s h)

-- Starting a grace period does not report for a CPU that reads.
pub mark_cpus-reading :
    (m : Machine) (t r i c : ℕ) (s : Rcu) → IsReading c s → ((mark_cpus m t r i s).cpu c) ≡ s.cpu c
unfolding mark_cpus
mark_cpus-reading m t zero i c s h = refl
mark_cpus-reading m t (suc r) i c s h =
    let e = mark_cpu-reading m t i c s h in
    mark_cpus-reading m t r (i + 1) c (mark_cpu m t i s)
      (λ z. h (ap (λ k. k.read_depth) (sym e) ∙ z))
    ∙ e

all_seen-suc :
    (m : Machine) (s : Rcu) (t r i : ℕ)
    → all_seen m s t (suc r) i ≡ true
    → (all_seen m s t r (i + 1) ≡ true) × (cpu_online m i ≡ true → t ≤ (s.cpu i).seen_gp)
unfolding all_seen
all_seen-suc m s t r i h = ground arith

-- If the loop over the CPUs finds that all have reported, then each that counts has.
pub all_seen-seen :
    (m : Machine) (s : Rcu) (t r i c : ℕ)
    → all_seen m s t r i ≡ true
    → i ≤ c
    → c < i + r
    → cpu_online m c ≡ true
    → t ≤ (s.cpu c).seen_gp
all_seen-seen m s t zero i c h lo hi on = absurd (omega arith)
all_seen-seen m s t (suc r) i c h lo hi on =
    let (rest, here) = all_seen-suc m s t r i h in
    elim (ℕ_discrete i c) [
      | yes e ↦ subst (λ k. t ≤ (s.cpu k).seen_gp) e (here (rw e on))
      | no ne ↦ all_seen-seen m s t r (i + 1) c rest (omega arith) (omega arith) on
    ]

report-other : (cur c : ℕ) (s : Rcu) → cur ≢ c → (report cur s).cpu c ≡ s.cpu c
unfolding report
report-other cur c s h = ground arith

-- While CPU `c` reads and has not reported, a report by any CPU runs nothing and closes nothing.
abbrev pub Kept : ℕ → Rcu → Rcu → Type 0
Kept c s t =
    (t.gp_target ≡ s.gp_target)
    × (t.callbacks ≡ s.callbacks)
    × (t.cpu c ≡ s.cpu c)
    × (t.ready ≡ s.ready)

reported-Kept : (cur c : ℕ) (s : Rcu) → cur ≢ c → Kept c s (report cur (lock cur s))
reported-Kept cur c s h =
    let f = reported-Frame cur s in
    (
      f.gp_target,
      f.callbacks,
      report-other cur c (lock cur s) h
          ∙ ap (λ (k : ℕ → CpuState). k c) (preempt_disable-cpu cur s),
      f.ready,
    )

reporter-ne : (cur c : ℕ) (s : Rcu) → can_report_qs s cur ≡ true → IsReading c s → cur ≢ c
reporter-ne cur c s q h z =
    let no_report = IsReading-can_report_qs cur s (λ d. h (rw (← z) d)) in cc

pub note_quiescent_state-held :
    (m : Machine) (cur c : ℕ) (s : Rcu)
    → IsValid s
    → Holds m c s
    → IsReading c s
    → ((note_quiescent_state m cur s).1 ≡ []) × Kept c s (note_quiescent_state m cur s).0
note_quiescent_state-held m cur c s v h rd = elim (note_quiescent_state_cases m cur s v) [
  | inl e ↦ rw e (refl, (refl, refl, refl, refl))
  | inr (_, q, inl e) ↦
      let t : Rcu = report cur (lock cur s) in
      let k = preempt_enable-Frame cur t in
      let (a, b, d, r) = reported-Kept cur c s (reporter-ne cur c s q rd) in
      rw e (
        refl,
        (
          k.gp_target ∙ a,
          k.callbacks ∙ b,
          ap (λ (f : ℕ → CpuState). f c) (preempt_enable-cpu cur t) ∙ d,
          k.ready ∙ r,
        ),
      )
  | inr (_, q, inr (nz, all, e)) ↦
      let t : Rcu = report cur (lock cur s) in
      let (a, b, d, r) = reported-Kept cur c s (reporter-ne cur c s q rd) in
      let past =
        all_seen-seen m t t.gp_target (online_cpu_limit m) 0 c all (omega arith)
          (omega (arith, h.counted)) h.is_online in
      absurd (omega (arith, past, a, ap (λ (k : CpuState). k.seen_gp) d, h.unseen))
]

-- RCU_call during an open grace period joins it.
pub enqueue_locked_busy :
    (m : Machine) (fn context : ℕ) (s : Rcu)
    → s.gp_target ≢ 0
    → let t = enqueue_locked m fn context s in
      let node : Node = record { fn = fn; context = context; target_gp = s.gp_target } in
      (t.gp_target ≡ s.gp_target)
      × (t.callbacks ≡ s.callbacks ++ (node ∷ []))
      × (t.cpu ≡ s.cpu)
      × (t.preempt_count ≡ s.preempt_count)
      × (t.ready ≡ s.ready)
unfolding enqueue_locked
enqueue_locked_busy m fn context s h = let e = start_gp_busy m s h in ground (arith, e)

-- What one operation leaves of a held grace period.
pub record Extends (c : ℕ) (s t : Rcu) : Type 0 where
  pub same_gp : t.gp_target ≡ s.gp_target
  pub same_seen : (t.cpu c).seen_gp ≡ (s.cpu c).seen_gp
  pub added : List Node
  pub more : t.callbacks ≡ s.callbacks ++ added

Frame-Extends :
    (c : ℕ) {s t : Rcu} → Frame s t → (t.cpu c).seen_gp ≡ (s.cpu c).seen_gp → Extends c s t
Frame-Extends c {s} f e = record {
  same_gp = f.gp_target;
  same_seen = e;
  added = [];
  more = f.callbacks ∙ sym (append-nil s.callbacks);
}

pub Holds-transport :
    (m : Machine) (c : ℕ) {s t : Rcu}
    → t.gp_target ≡ s.gp_target
    → (t.cpu c).seen_gp ≡ (s.cpu c).seen_gp
    → Holds m c s
    → Holds m c t
Holds-transport m c a b h = record {
  counted = h.counted;
  is_online = h.is_online;
  unseen = rw (a, b) h.unseen;
}

-- the registration under the lock, up to the unlock
pub registered_busy :
    (m : Machine) (cur fn context : ℕ) (s : Rcu)
    → s.gp_target ≢ 0
    → let t = unlock cur (enqueue_locked m fn context (lock cur s)) in
      let node : Node = record { fn = fn; context = context; target_gp = s.gp_target } in
      (t.gp_target ≡ s.gp_target)
      × (t.callbacks ≡ s.callbacks ++ (node ∷ []))
      × (t.cpu ≡ s.cpu)
      × (t.ready ≡ s.ready)
registered_busy m cur fn context s h =
    let f = preempt_disable-Frame cur s in
    let fc = preempt_disable-cpu cur s in
    let (a, b, d, p, r) =
      enqueue_locked_busy m fn context (preempt_disable cur s) (λ z. h (sym f.gp_target ∙ z)) in
    let u : Rcu = enqueue_locked m fn context (preempt_disable cur s) in
    let k = preempt_enable-Frame cur u in
    (
      k.gp_target ∙ a ∙ f.gp_target,
      k.callbacks ∙ b ∙ rw (f.callbacks, f.gp_target),
      preempt_enable-cpu cur u ∙ d ∙ fc,
      k.ready ∙ r ∙ f.ready,
    )

call-held :
    (m : Machine) (cur : ℕ) (allocated : Bool) (fn context c : ℕ) (s : Rcu)
    → IsValid s
    → HasRoom s
    → Holds m c s
    → IsReading c s
    → ((call m cur allocated fn context s).1 ≡ [])
      × Extends c s (call m cur allocated fn context s).2
call-held m cur allocated fn context c s v r h rd = elim (call_cases m cur allocated fn context s) [
  | inl e ↦ rw e (refl, Frame-Extends c (Frame-self s) refl)
  | inr (_, e) ↦
      let t : Rcu = unlock cur (enqueue_locked m fn context (lock cur s)) in
      let (a, b, d, _) = registered_busy m cur fn context s (λ z. omega (arith, h.unseen)) in
      let dc = ap (λ (k : ℕ → CpuState). k c) d in
      let w =
        enqueue_locked-IsValid m fn context (lock cur s) (lock-IsValid cur s v)
          (HasRoom-transport (preempt_disable-Frame cur s) r) in
      let (none_run, kept) =
        note_quiescent_state-held m cur c t (unlock-IsValid cur _ w.0)
          (Holds-transport m c a (ap (λ (k : CpuState). k.seen_gp) dc) h)
          (λ z. rd (ap (λ (k : CpuState). k.read_depth) (sym dc) ∙ z)) in
      let (a', b', d', r') = kept in
      rw e (
        none_run,
        record {
          same_gp = a' ∙ a;
          same_seen = ap (λ (k : CpuState). k.seen_gp) (d' ∙ dc);
          added = record { fn = fn; context = context; target_gp = s.gp_target } ∷ [];
          more = b' ∙ b;
        },
      )
]

-- One operation of any CPU while `c` reads: no callback runs, and the queue only grows.
step-held :
    (m : Machine) (e : Event) (c : ℕ) (s : Rcu)
    → IsValid s
    → HasRoom s
    → Holds m c s
    → IsReading c s
    → ((step m e s).1 ≡ []) × Extends c s (step m e s).0
unfolding step
step-held m (enter cur) c s v r h rd =
    (refl, Frame-Extends c (read_lock-Frame cur s) (read_lock-seen cur c s))
step-held m (leave cur) c s v r h rd =
    (refl, Frame-Extends c (read_unlock-Frame cur s) (read_unlock-seen cur c s))
step-held m (disable cur) c s v r h rd = (
  refl,
  Frame-Extends c (preempt_disable-Frame cur s)
      (ap (λ (k : ℕ → CpuState). (k c).seen_gp) (preempt_disable-cpu cur s)),
)
step-held m (enable cur) c s v r h rd = (
  refl,
  Frame-Extends c (preempt_enable-Frame cur s)
      (ap (λ (k : ℕ → CpuState). (k c).seen_gp) (preempt_enable-cpu cur s)),
)
step-held m (quiesce cur) c s v r h rd =
    let (none_run, kept) = note_quiescent_state-held m cur c s v h rd in
    let (a, b, d, ready) = kept in
    (
      none_run,
      record {
        same_gp = a;
        same_seen = ap (λ (k : CpuState). k.seen_gp) d;
        added = [];
        more = b ∙ sym (append-nil s.callbacks);
      },
    )
step-held m (register cur allocated fn context) c s v r h rd =
    call-held m cur allocated fn context c s v r h rd

-- CPU `c` reads in every state of a run
abbrev pub ReadsAlong : Machine → ℕ → List Event → Rcu → Type 0
ReadsAlong m c [] s = IsReading c s
ReadsAlong m c (e ∷ es) s = IsReading c s × ReadsAlong m c es (step m e s).0

-- Any interleaving while `c` reads runs no callback at all.
pub run-held :
    (m : Machine) (es : List Event) (c : ℕ) (s : Rcu)
    → IsValid s
    → s.gp_seq + length es + 1 < 2 ^ 64
    → length s.callbacks + length es + 1 < 2 ^ 64
    → Holds m c s
    → ReadsAlong m c es s
    → ((run m es s).1 ≡ [])
      × (added : List Node) × ((run m es s).0.callbacks ≡ s.callbacks ++ added)
unfolding run
run-held m [] c s v p q h rd = (refl, [], sym (append-nil s.callbacks))
run-held m (e ∷ es) c s v p q h rd =
    let r : HasRoom s = omega arith in
    let (w, g) = step-IsValid m e s v r in
    let (none_run, x) = step-held m e c s v r h rd.0 in
    let (none_later, more, later) =
      run-held m es c (step m e s).0 w (omega (arith, g.gps)) (omega (arith, g.waiting))
        (Holds-transport m c x.same_gp x.same_seen h) rd.1 in
    (
      rw (none_run, none_later),
      x.added ++ more,
      later ∙ ap (λ (k : List Node). k ++ more) x.more ∙ append_assoc s.callbacks x.added more,
    )
