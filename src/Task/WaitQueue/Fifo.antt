-- ===== src/Task/WaitQueue/Fifo.antt =====
-- The operations on a wait queue as operations on a list.
use the_os_reborn.Common.{
  ℕ, ◌+◌, ◌^◌, ◌<◌, ◌≡◌, ◌≢◌, refl, sym, ◌∙◌, subst, true, false, List, [], ◌∷◌, ◌++◌, Option, none,
  ◌==◌, if◌then◌else◌, length, take, drop, All, ==_ne, ==_iff,
}
use the_os_reborn.Task.WaitQueue.{
  WaitQueue, one_less, waiter_signal, wait_queue_enqueue_locked, wait_queue_cancel_locked,
  take_first, wait_queue_wake_one, wait_queue_wake_all_internal,
}
use the_os_reborn.Task.WaitQueue.Chain.{
  IsChain, IsNot, IsQueue, enqueue_locked-IsQueue, take_first-IsQueue,
}
use the_os_reborn.Task.WaitQueue.Cancel.{remove, cancel_locked-IsQueue}
use the_os_reborn.Task.WaitQueue.Wake.{
  IsWoken, IsWake, loose, signal-IsWake, IsChain-ext, broadcast-IsAwake,
}

-- what take_first leaves, but for the waiter itself
abbrev shortened : WaitQueue → WaitQueue
shortened s = record {
  head = (s.at s.head).next;
  tail = (if (s.at s.head).next == 0 then 0 else s.tail);
  waiters = one_less s.waiters;
  at = s.at;
}

take_first_some : (s : WaitQueue) → s.head ≢ 0 → take_first s ≡ (loose s.head (shortened s), s.head)
unfolding take_first
take_first_some s nz = let some_head : (s.head == 0) ≡ false = ==_ne _ _ nz in rw some_head refl

IsWake-IsQueue :
    (w : ℕ) (s t : WaitQueue) (ws : List ℕ)
    → IsNot w ws
    → IsQueue (loose w s) ws
    → IsWake w s t
    → IsQueue t ws
IsWake-IsQueue w s t ws out v wake =
    let same : (x : ℕ) → x ≢ w → t.at x ≡ (loose w s).at x =
      λ x ne. wake.others x ne ∙ rw (==_ne w x (λ e. ne (sym e))) refl in
    record {
      chain =
          subst (λ a. IsChain t.at a ws) (sym wake.head)
            (IsChain-ext (loose w s).at t.at s.head w ws same out v.chain);
      different = v.different;
      tail_is = wake.tail ∙ v.tail_is;
      counted = wake.waiters ∙ v.counted;
    }

-- what task_wait_queue_wake_one does to a queue of the waiters `ws`
abbrev pub IsWokenOne : WaitQueue → List ℕ → Type 0
IsWokenOne t [] = IsQueue t []
IsWokenOne t (w ∷ ws) = IsQueue t ws × IsWoken (t.at w)

signals_first :
    (cpu : ℕ) (s : WaitQueue)
    → s.head ≢ 0
    → wait_queue_wake_one cpu s ≡ waiter_signal cpu s.head true (loose s.head (shortened s))
unfolding wait_queue_wake_one
signals_first cpu s nz = rw (take_first_some s nz) refl

wake_empty : (cpu : ℕ) (s : WaitQueue) → s.head ≡ 0 → wait_queue_wake_one cpu s ≡ (s, none)
unfolding wait_queue_wake_one take_first waiter_signal
wake_empty cpu s e = let empty : (s.head == 0) ≡ true = (==_iff s.head 0).1 e in rw empty refl

pub wake_one-IsWokenOne :
    (cpu : ℕ) (s : WaitQueue) (ws : List ℕ)
    → IsQueue s ws
    → IsWokenOne (wait_queue_wake_one cpu s).0 ws
wake_one-IsWokenOne cpu s [] v =
    subst (λ (x : WaitQueue × Option ℕ). IsQueue x.0 []) (sym (wake_empty cpu s v.chain)) v
wake_one-IsWokenOne cpu s (w ∷ ws) v =
    let (e, nz, rest) = v.chain in
    let some_head : s.head ≢ 0 = λ q. nz (sym e ∙ q) in
    let left =
      subst (λ (x : WaitQueue × ℕ). IsQueue x.0 ws) (take_first_some s some_head)
        (take_first-IsQueue s w ws v).1 in
    let t : WaitQueue = (waiter_signal cpu s.head true (loose s.head (shortened s))).0 in
    let wake = signal-IsWake cpu s.head true (shortened s) some_head in
    let out = subst (λ x. IsNot x ws) (sym e) v.different.0 in
    subst (λ (x : WaitQueue × Option ℕ). IsWokenOne x.0 (w ∷ ws))
      (sym (signals_first cpu s some_head))
      (
        IsWake-IsQueue s.head (shortened s) t ws out left wake,
        subst (λ x. IsWoken (t.at x)) e wake.woken,
      )

-- the operations, those on a waiter with its address
pub data Op : Type 0 where
  enqueue : ℕ → Op
  cancel : ℕ → Op
  wake_one : Op
  wake_all : Op

pub step : ℕ → Op → WaitQueue → WaitQueue
step cpu (enqueue a) s = wait_queue_enqueue_locked a s
step cpu (cancel a) s = (wait_queue_cancel_locked a s).0
step cpu wake_one s = (wait_queue_wake_one cpu s).0
step cpu wake_all s = (wait_queue_wake_all_internal cpu true s).0

-- the same on the list of the waiters
pub list_step : Op → List ℕ → List ℕ
list_step (enqueue a) ws = ws ++ (a ∷ [])
list_step (cancel a) ws = remove a ws
list_step wake_one ws = drop 1 ws
list_step wake_all ws = []

-- a waiter is not NULL, and enqueued only while it is not in the queue
abbrev pub IsAllowed : Op → List ℕ → Type 0
IsAllowed (enqueue a) ws = (a ≢ 0) × IsNot a ws × (length ws + 1 < 2 ^ 32)
IsAllowed (cancel a) ws = a ≢ 0
IsAllowed wake_one ws = Unit
IsAllowed wake_all ws = Unit

-- the waiters that an operation is to wake
abbrev pub to_wake : Op → List ℕ → List ℕ
to_wake wake_one ws = take 1 ws
to_wake wake_all ws = ws
to_wake (enqueue a) ws = []
to_wake (cancel a) ws = []

-- Every operation on a wait queue does to the linked waiters what it should do to a list: a waiter is
-- enqueued at the end, task_wait_queue_cancel takes it out, wake_one takes the first waiter and
-- wake_all every one, and these are then signaled and out of the queue. A waiter is not NULL, is
-- enqueued only while it is not in the queue, and there are less than 2 ^ 32 of them.
pub step-IsQueue :
    (cpu : ℕ) (op : Op) (s : WaitQueue) (ws : List ℕ)
    → IsAllowed op ws
    → IsQueue s ws
    → IsQueue (step cpu op s) (list_step op ws)
      × All (λ w. IsWoken ((step cpu op s).at w)) (to_wake op ws)
unfolding step list_step
step-IsQueue cpu (enqueue a) s ws (nz, out, room) v =
    (enqueue_locked-IsQueue a s ws nz out room v, tt)
step-IsQueue cpu (cancel a) s ws nz v = ((cancel_locked-IsQueue a s ws nz v).1, tt)
step-IsQueue cpu wake_one s [] ok v = (wake_one-IsWokenOne cpu s [] v, tt)
step-IsQueue cpu wake_one s (w ∷ ws) ok v =
    let (q, woken) = wake_one-IsWokenOne cpu s (w ∷ ws) v in (q, (woken, tt))
step-IsQueue cpu wake_all s ws ok v =
    let (q, woken, others) = broadcast-IsAwake cpu true s ws v in (q, woken)
