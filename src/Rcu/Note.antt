-- ===== src/Rcu/Note.antt =====
-- A CPU's report of a quiescent state, and the two ends of a read section, on a valid state.
use the_os_reborn.Common.{ℕ, ◌≡◌, ◌≢◌, refl, true, List, [], inl, inr, ◌⊎◌, arith}
use the_os_reborn.Rcu.{
  Rcu, Node, Machine, online_cpu_limit, can_report_qs, all_seen, lock, unlock, report, note_locked,
  note_quiescent_state, preempt_disable, preempt_enable, read_lock, read_unlock,
}
use the_os_reborn.Rcu.Inv.{
  IsValid, Frame, Frame-trans, IsValid-transport, preempt_disable-Frame, preempt_enable-Frame,
  preempt_disable-cpu, preempt_enable-cpu, report-Frame, report-IsValid, closed, closed-IsValid,
  note_locked_cases,
}

-- the two ways in which a report that gets as far as the lock can end
abbrev pub Reported : Machine → ℕ → Rcu → Rcu × List Node → Type 0
Reported m cur s r =
    let t = report cur (lock cur s) in
    (r ≡ (unlock cur t, []))
    ⊎ ((t.gp_target ≢ 0)
        × (all_seen m t t.gp_target (online_cpu_limit m) 0 ≡ true)
        × (r ≡ (unlock cur (closed t), t.callbacks)))

pub lock-IsValid : (cur : ℕ) (s : Rcu) → IsValid s → IsValid (lock cur s)
lock-IsValid cur s v =
    IsValid-transport (preempt_disable-Frame cur s)
      (λ c. rw (preempt_disable-cpu cur s) (v.seen_past c)) v

pub unlock-IsValid : (cur : ℕ) (s : Rcu) → IsValid s → IsValid (unlock cur s)
unlock-IsValid cur s v =
    IsValid-transport (preempt_enable-Frame cur s)
      (λ c. rw (preempt_enable-cpu cur s) (v.seen_past c)) v

note_quiescent_state_split :
    (m : Machine) (cur : ℕ) (s : Rcu)
    → (note_quiescent_state m cur s ≡ (s, []))
      ⊎ ((s.ready ≡ true)
          × (can_report_qs s cur ≡ true)
          × (note_quiescent_state m cur s ≡ (
            unlock cur (note_locked m cur (lock cur s)).0,
            (note_locked m cur (lock cur s)).1,
          )))
unfolding note_quiescent_state
note_quiescent_state_split m cur s = ground arith

-- RCU_note_quiescent_state does nothing, or reports.
pub note_quiescent_state_cases :
    (m : Machine) (cur : ℕ) (s : Rcu)
    → IsValid s
    → (note_quiescent_state m cur s ≡ (s, []))
      ⊎ ((s.ready ≡ true)
          × (can_report_qs s cur ≡ true)
          × Reported m cur s (note_quiescent_state m cur s))
note_quiescent_state_cases m cur s v = elim (note_quiescent_state_split m cur s) [
  | inl e ↦ inl e
  | inr (r, c, e) ↦ inr (
    r,
    c,
    elim (note_locked_cases m cur (lock cur s) (lock-IsValid cur s v)) [
      | inl f ↦ inl (rw (e, f) refl)
      | inr (h, a, f) ↦ inr (h, a, rw (e, f) refl)
    ],
  )
]

pub note_quiescent_state-IsValid :
    (m : Machine) (cur : ℕ) (s : Rcu) → IsValid s → IsValid (note_quiescent_state m cur s).0
note_quiescent_state-IsValid m cur s v = elim (note_quiescent_state_cases m cur s v) [
  | inl e ↦ rw e v
  | inr (_, _, inl e) ↦ rw e (unlock-IsValid cur _ (report-IsValid cur _ (lock-IsValid cur s v)))
  | inr (_, _, inr (h, a, e)) ↦
      rw e (unlock-IsValid cur _ (closed-IsValid _ (report-IsValid cur _ (lock-IsValid cur s v)) h))
]

pub read_lock-Frame : (cur : ℕ) (s : Rcu) → Frame s (read_lock cur s)
unfolding read_lock preempt_disable
read_lock-Frame cur s = ground arith

pub read_unlock-Frame : (cur : ℕ) (s : Rcu) → Frame s (read_unlock cur s)
unfolding read_unlock preempt_enable
read_unlock-Frame cur s = ground arith

pub read_lock-seen : (cur c : ℕ) (s : Rcu) → ((read_lock cur s).cpu c).seen_gp ≡ (s.cpu c).seen_gp
unfolding read_lock preempt_disable
read_lock-seen cur c s = ground arith

pub read_unlock-seen :
    (cur c : ℕ) (s : Rcu) → ((read_unlock cur s).cpu c).seen_gp ≡ (s.cpu c).seen_gp
unfolding read_unlock preempt_enable
read_unlock-seen cur c s = ground arith

pub reported-Frame : (cur : ℕ) (s : Rcu) → Frame s (report cur (lock cur s))
reported-Frame cur s =
    Frame-trans (preempt_disable-Frame cur s) (report-Frame cur (preempt_disable cur s))
