-- ===== src/Task/WaitQueue/Wake.antt =====
-- Waking the waiters of a queue.
use the_os_reborn.Common.{
  ℕ, suc, ◌≡◌, ◌≢◌, refl, sym, ◌∙◌, subst, Bool, true, false, List, [], ◌∷◌, ◌==◌, update, length,
  All, Bool-cases, ==_ne, ==_self, inl, inr,
}
use the_os_reborn.Task.WaitQueue.{
  Waiter, WaitQueue, waiter_signal, wake_loop, wait_queue_wake_all_internal,
}
use the_os_reborn.Task.WaitQueue.Chain.{IsChain, IsNot, AreDifferent, IsQueue}

-- a waiter that was woken and is in no queue
pub record IsWoken (v : Waiter) : Type 0 where
  pub signaled : v.signaled ≡ true
  pub not_queued : v.queued ≡ false
  pub alone : v.next ≡ 0

abbrev pub loose : ℕ → WaitQueue → WaitQueue
loose w s = record s { at = update s.at w (record (s.at w) { next = 0; queued = false }) }

-- nothing but the waiter `w` is changed
pub record IsWake (w : ℕ) (s t : WaitQueue) : Type 0 where
  pub head : t.head ≡ s.head
  pub tail : t.tail ≡ s.tail
  pub waiters : t.waiters ≡ s.waiters
  pub woken : IsWoken (t.at w)
  pub others : (x : ℕ) → x ≢ w → t.at x ≡ s.at x

pub signal-IsWake :
    (cpu w : ℕ) (kick : Bool) (s : WaitQueue)
    → w ≢ 0
    → IsWake w s (waiter_signal cpu w kick (loose w s)).0
unfolding waiter_signal
signal-IsWake cpu w kick s nz =
    let not_null : (w == 0) ≡ false = ==_ne w 0 nz in
    let here : (w == w) ≡ true = ==_self w in
    elim (Bool-cases (s.at w).signaled) [
      | inl before ↦
          rw (not_null, here, before)
            (record {
              head = refl;
              tail = refl;
              waiters = refl;
              woken = rw here (record { signaled = refl; not_queued = refl; alone = refl });
              others = λ x ne. rw (==_ne w x (λ e. ne (sym e))) refl;
            })
      | inr first ↦
          rw (not_null, here, first)
            (record {
              head = refl;
              tail = refl;
              waiters = refl;
              woken = rw here (record { signaled = refl; not_queued = refl; alone = refl });
              others = λ x ne. rw (==_ne w x (λ e. ne (sym e))) refl;
            })
    ]

pub IsChain-ext :
    (m m' : ℕ → Waiter) (a w : ℕ) (ws : List ℕ)
    → ((x : ℕ) → x ≢ w → m' x ≡ m x)
    → IsNot w ws
    → IsChain m a ws
    → IsChain m' a ws
IsChain-ext m m' a w [] same out c = c
IsChain-ext m m' a w (x ∷ ws) same (ne, out) (e, nz, rest) = (
  e,
  nz,
  subst (λ v. IsChain m' v.next ws) (sym (same x (λ q. ne (sym q))))
      (IsChain-ext m m' (m x).next w ws same out rest),
)

-- every waiter of `ws` was woken between `s` and `t`, and no other one was touched
pub record IsAwake (s t : WaitQueue) (ws : List ℕ) : Type 0 where
  pub head : t.head ≡ s.head
  pub tail : t.tail ≡ s.tail
  pub waiters : t.waiters ≡ s.waiters
  pub all_woken : All (λ w. IsWoken (t.at w)) ws
  pub others : (x : ℕ) → IsNot x ws → t.at x ≡ s.at x

-- the loop of task_wait_queue_wake_all_internal
wake_loop-IsAwake :
    (cpu a : ℕ) (kick : Bool) (ws : List ℕ) (s : WaitQueue)
    → IsChain s.at a ws
    → AreDifferent ws
    → IsAwake s (wake_loop (length ws) cpu kick a s).0 ws
unfolding wake_loop
wake_loop-IsAwake cpu a kick [] s c d = record {
  head = refl;
  tail = refl;
  waiters = refl;
  all_woken = tt;
  others = λ x n. refl;
}
wake_loop-IsAwake cpu a kick (w ∷ ws) s (e, nz, rest) (out, d) =
    let not_null : (w == 0) ≡ false = ==_ne w 0 nz in
    let t : WaitQueue = (waiter_signal cpu w kick (loose w s)).0 in
    let wake = signal-IsWake cpu w kick s nz in
    let more =
      wake_loop-IsAwake cpu (s.at w).next kick ws t
        (IsChain-ext s.at t.at (s.at w).next w ws wake.others out rest) d in
    subst (λ x. IsAwake s (wake_loop (suc (length ws)) cpu kick x s).0 (w ∷ ws)) (sym e)
      (rw not_null (record {
        head = more.head ∙ wake.head;
        tail = more.tail ∙ wake.tail;
        waiters = more.waiters ∙ wake.waiters;
        all_woken = (subst IsWoken (sym (more.others w out)) wake.woken, more.all_woken);
        others = λ x n. more.others x n.1 ∙ wake.others x n.0;
      }))

-- task_wait_queue_wake_all empties the queue and wakes every waiter that was in it, each of which is
-- then signaled, marked as not queued, and without a successor; it touches no other waiter.
pub broadcast-IsAwake :
    (cpu : ℕ) (kick : Bool) (s : WaitQueue) (ws : List ℕ)
    → IsQueue s ws
    → IsQueue (wait_queue_wake_all_internal cpu kick s).0 []
      × All (λ w. IsWoken ((wait_queue_wake_all_internal cpu kick s).0.at w)) ws
      × ((x : ℕ) → IsNot x ws → (wait_queue_wake_all_internal cpu kick s).0.at x ≡ s.at x)
unfolding wait_queue_wake_all_internal
broadcast-IsAwake cpu kick s ws v =
    let detached : WaitQueue = record s { head = 0; tail = 0; waiters = 0 } in
    let awake =
      subst (λ n. IsAwake detached (wake_loop n cpu kick s.head detached).0 ws) (sym v.counted)
        (wake_loop-IsAwake cpu s.head kick ws detached v.chain v.different) in
    (
      record { chain = awake.head; different = tt; tail_is = awake.tail; counted = awake.waiters },
      awake.all_woken,
      awake.others,
    )
