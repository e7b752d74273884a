-- ===== src/Rcu/Steps.antt =====
-- Every operation keeps the RCU state valid, and so does any interleaving of them.
use the_os_reborn.Common.{
  ℕ, ◌+◌, ◌≤◌, ◌<◌, ◌^◌, ◌≡◌, ◌≢◌, refl, sym, ap, Bool, true, false, List, [], ◌∷◌, ◌++◌, length,
  inl, inr, ◌⊎◌, length-append, All-append, arith,
}
use the_os_reborn.Rcu.{
  Rcu, Node, Machine, cpu_slots, start_gp_locked, lock, unlock, report, note_quiescent_state,
  enqueue_locked, call, Event, enter, leave, disable, enable, quiesce, register, step, run, init,
}
use the_os_reborn.Rcu.Inv.{
  IsValid, HasRoom, Frame, IsValid-transport, Targets, preempt_disable-Frame, preempt_enable-Frame,
  report-IsValid, closed, start_gp_locked_lem,
}
use the_os_reborn.Rcu.Note.{
  lock-IsValid, unlock-IsValid, note_quiescent_state_cases, note_quiescent_state-IsValid,
  reported-Frame, read_lock-Frame, read_unlock-Frame, read_lock-seen, read_unlock-seen,
}

append_target :
    (g : ℕ) (ns : List Node) (n : Node)
    → Targets g ns
    → n.target_gp ≡ g
    → Targets g (ns ++ (n ∷ []))
append_target g ns n h e = All-append (λ k. k.target_gp ≡ g) ns (n ∷ []) h (e, tt)

-- RCU_call under its lock: the callback joins the one open grace period.
pub enqueue_locked-IsValid :
    (m : Machine) (fn context : ℕ) (s : Rcu)
    → IsValid s
    → HasRoom s
    → let t = enqueue_locked m fn context s in
      IsValid t
      × (t.gp_target ≢ 0)
      × (t.gp_seq ≡ s.gp_seq)
      × (length t.callbacks ≡ length s.callbacks + 1)
unfolding enqueue_locked
enqueue_locked-IsValid m fn context s v r =
    let (w, e, g, q, cs, rd) = start_gp_locked_lem m s v r in
    let t : Rcu = (start_gp_locked m s).0 in
    (
      record {
        one_gp = w.one_gp;
        idle_empty = λ z. absurd (omega arith);
        same_target = append_target t.gp_target t.callbacks _ w.same_target (sym g);
        pending =
            omega (arith, w.pending, ap length cs, length-append {0} t.callbacks, r.more_callbacks);
        seen_past = w.seen_past;
      },
      omega arith,
      q,
      omega (arith, ap length cs, length-append {0} t.callbacks),
    )

-- how far one operation can advance the two 64-bit counters
pub record Grown (s t : Rcu) : Type 0 where
  pub gps : t.gp_seq ≤ s.gp_seq + 1
  pub waiting : length t.callbacks ≤ length s.callbacks + 1

note_quiescent_state-Grown :
    (m : Machine) (cur : ℕ) (s : Rcu)
    → IsValid s
    → let t = (note_quiescent_state m cur s).0 in
      (t.gp_seq ≤ s.gp_seq + 1) × (length t.callbacks ≤ length s.callbacks)
note_quiescent_state-Grown m cur s v = elim (note_quiescent_state_cases m cur s v) [
  | inl e ↦ rw e (omega arith)
  | inr (_, _, inl e) ↦
      let f = reported-Frame cur s in
      let k = preempt_enable-Frame cur (report cur (lock cur s)) in
      rw e (rw (k.gp_seq, k.callbacks, f.gp_seq, f.callbacks) (omega arith))
  | inr (_, _, inr (h, a, e)) ↦
      let t : Rcu = report cur (lock cur s) in
      let f = reported-Frame cur s in
      let k = preempt_enable-Frame cur (closed t) in
      rw e (
        rw (k.gp_seq, k.callbacks)
          (omega (arith, f.gp_seq, (report-IsValid cur _ (lock-IsValid cur s v)).one_gp h)))
]

-- RCU_call is refused, or registers the callback and then reports.
pub call_cases :
    (m : Machine) (cur : ℕ) (allocated : Bool) (fn context : ℕ) (s : Rcu)
    → (call m cur allocated fn context s ≡ (false, [], s))
      ⊎ (let t = unlock cur (enqueue_locked m fn context (lock cur s)) in
          (s.ready ≡ true)
          × (call m cur allocated fn context s
              ≡ (true, (note_quiescent_state m cur t).1, (note_quiescent_state m cur t).0)))
unfolding call
call_cases m cur allocated fn context s = ground arith

pub HasRoom-transport : {s t : Rcu} → Frame s t → HasRoom s → HasRoom t
HasRoom-transport f r = record {
  more_gps = rw f.gp_seq r.more_gps;
  more_callbacks = rw f.callbacks r.more_callbacks;
}

call-IsValid :
    (m : Machine) (cur : ℕ) (allocated : Bool) (fn context : ℕ) (s : Rcu)
    → IsValid s
    → HasRoom s
    → let t = (call m cur allocated fn context s).2 in IsValid t × Grown s t
call-IsValid m cur allocated fn context s v r = elim (call_cases m cur allocated fn context s) [
  | inl e ↦ rw e (v, omega arith)
  | inr (_, e) ↦
      let f = preempt_disable-Frame cur s in
      let u : Rcu = enqueue_locked m fn context (lock cur s) in
      let q =
        enqueue_locked-IsValid m fn context (lock cur s) (lock-IsValid cur s v)
          (HasRoom-transport f r) in
      let k = preempt_enable-Frame cur u in
      let w = unlock-IsValid cur u q.0 in
      let g = note_quiescent_state-Grown m cur (unlock cur u) w in
      rw e (
        note_quiescent_state-IsValid m cur (unlock cur u) w,
        omega (arith, f.gp_seq, k.gp_seq, ap length f.callbacks, ap length k.callbacks),
      )
]

Frame-Grown : {s t : Rcu} → Frame s t → Grown s t
Frame-Grown f = omega (arith, f.gp_seq, ap length f.callbacks)

-- Every operation keeps the state valid, and advances each 64-bit counter by at most one.
pub step-IsValid :
    (m : Machine) (e : Event) (s : Rcu)
    → IsValid s
    → HasRoom s
    → IsValid (step m e s).0 × Grown s (step m e s).0
unfolding step
step-IsValid m (enter cur) s v r =
    let f = read_lock-Frame cur s in
    (IsValid-transport f (λ c. rw (read_lock-seen cur c s) (v.seen_past c)) v, Frame-Grown f)
step-IsValid m (leave cur) s v r =
    let f = read_unlock-Frame cur s in
    (IsValid-transport f (λ c. rw (read_unlock-seen cur c s) (v.seen_past c)) v, Frame-Grown f)
step-IsValid m (disable cur) s v r =
    (lock-IsValid cur s v, Frame-Grown (preempt_disable-Frame cur s))
step-IsValid m (enable cur) s v r =
    (unlock-IsValid cur s v, Frame-Grown (preempt_enable-Frame cur s))
step-IsValid m (quiesce cur) s v r =
    (note_quiescent_state-IsValid m cur s v, omega (arith, note_quiescent_state-Grown m cur s v))
step-IsValid m (register cur allocated fn context) s v r =
    call-IsValid m cur allocated fn context s v r

run-IsValid :
    (m : Machine) (es : List Event) (s : Rcu)
    → IsValid s
    → s.gp_seq + length es + 1 < 2 ^ 64
    → length s.callbacks + length es + 1 < 2 ^ 64
    → IsValid (run m es s).0
unfolding run
run-IsValid m [] s v h k = v
run-IsValid m (e ∷ es) s v h k =
    let (w, g) = step-IsValid m e s v (omega arith) in
    run-IsValid m es (step m e s).0 w (omega (arith, g.gps)) (omega (arith, g.waiting))

init-IsValid : (s : Rcu) → ((c : ℕ) → cpu_slots ≤ c → (s.cpu c).seen_gp ≡ 0) → IsValid (init s)
unfolding init
init-IsValid s h = record {
  one_gp = λ e. absurd (e refl);
  idle_empty = λ _. refl;
  same_target = tt;
  pending = refl;
  seen_past = λ c. ground (arith, h c);
}

-- After RCU_init and any interleaving of fewer than 2 ^ 64 - 1 operations of the CPUs, at most one
-- grace period is open, every waiting callback waits for it and is counted by `cb_pending`, and no
-- CPU has reported for a later grace period. (The slots beyond the array do not exist: they are 0.)
pub init-run-IsValid :
    (m : Machine) (es : List Event) (s : Rcu)
    → ((c : ℕ) → cpu_slots ≤ c → (s.cpu c).seen_gp ≡ 0)
    → length es + 1 < 2 ^ 64
    → IsValid (run m es (init s)).0
unfolding init
init-run-IsValid m es s h k =
    run-IsValid m es (init s) (init-IsValid s h) (omega arith) (omega arith)
