-- ===== src/Task/WaitQueue.antt =====
-- The wait queues of Kernel/Task/Task.c. A task_waiter_t lives in the memory of its caller, at an
-- address that is not 0; a queue has the addresses of its first and last waiters. The lock serialises.
-- The CPU that runs is a parameter, and a kick of another CPU is a result.
pub mod Chain
pub mod Cancel
pub mod Wake
pub mod Fifo
mod Tests
use the_os_reborn.Common.{
  ℕ, zero, suc, ◌+◌, ◌-◌, ◌*◌, ◌/◌, ◌%◌, ◌^◌, ◌≤◌, ◌<◌, ◌≡◌, ◌≢◌, refl, sym, ap, ◌∙◌, subst, Bool,
  true, false, not, ◌&&◌, ◌||◌, List, [], ◌∷◌, ◌++◌, Option, none, some, ◌==◌, ltb, leb,
  if◌then◌else◌, update, length, get_or, set, take, drop, replicate, All, Bool-cases, Option-cases,
  ==_ne, ==_self, ==_iff, ltb→lt, lt→ltb, leb→le, ◌↔◌, ◌⊎◌, inl, inr, arith,
}
use the_os_reborn.Task.Runqueue.{max_cpus}

pub record Waiter : Type 0 where
  pub next : ℕ
  pub cpu_index : ℕ
  pub queued : Bool
  pub signaled : Bool

-- `task_wait_queue_t` and the waiters in memory
pub record WaitQueue : Type 0 where
  pub head : ℕ
  pub tail : ℕ
  pub waiters : ℕ
  pub at : ℕ → Waiter

pub wait_queue_init : WaitQueue → WaitQueue
wait_queue_init s = record s { head = 0; tail = 0; waiters = 0 }

pub waiter_init : ℕ → ℕ → WaitQueue → WaitQueue
waiter_init current_cpu waiter s = if waiter == 0 then s else record s {
  at =
      update s.at waiter
        (record { next = 0; cpu_index = current_cpu; queued = false; signaled = false });
}

-- the CPU that is kicked
pub waiter_signal : ℕ → ℕ → Bool → WaitQueue → WaitQueue × Option ℕ
waiter_signal current_cpu waiter kick_remote s =
    let cpu : ℕ = (s.at waiter).cpu_index in
    let t : WaitQueue = record s {
      at = update s.at waiter (record (s.at waiter) { signaled = true });
    } in
    if waiter == 0 || (s.at waiter).signaled
    then (s, none)
    else (t, if kick_remote && ltb cpu max_cpus && not (cpu == current_cpu) then some cpu else none)

pub wait_queue_enqueue_locked : ℕ → WaitQueue → WaitQueue
wait_queue_enqueue_locked waiter s =
    let at : ℕ → Waiter = update s.at waiter (record (s.at waiter) { next = 0; queued = true }) in
    if waiter == 0
    then s
    else if s.tail == 0
    then record { head = waiter; tail = waiter; waiters = (s.waiters + 1) % 2 ^ 32; at = at }
    else record {
      head = s.head;
      tail = waiter;
      waiters = (s.waiters + 1) % 2 ^ 32;
      at = update at s.tail (record (at s.tail) { next = waiter });
    }

-- the count is lowered if it is not 0
abbrev pub one_less : ℕ → ℕ
one_less waiters = waiters - 1

-- `waiter` is taken out behind `prev`, which is 0 at the head
pub unlink : ℕ → ℕ → WaitQueue → WaitQueue
unlink prev waiter s =
    let next : ℕ = (s.at waiter).next in
    let linked : ℕ → Waiter =
      (if prev == 0 then s.at else update s.at prev (record (s.at prev) { next = next })) in
    record {
      head = (if prev == 0 then next else s.head);
      tail = (if s.tail == waiter then prev else s.tail);
      waiters = one_less s.waiters;
      at = update linked waiter (record (linked waiter) { next = 0; queued = false });
    }

-- The walk along the queue; the count of waiters and one more rounds are enough.
pub cancel_loop : ℕ → ℕ → ℕ → ℕ → WaitQueue → WaitQueue × Bool
cancel_loop zero prev cur waiter s = (s, false)
cancel_loop (suc n) prev cur waiter s =
    let rest = cancel_loop n cur (s.at cur).next waiter s in
    if cur == 0 then (s, false) else if cur == waiter then (unlink prev cur s, true) else rest

pub wait_queue_cancel_locked : ℕ → WaitQueue → WaitQueue × Bool
wait_queue_cancel_locked waiter s =
    if waiter == 0 then (s, false) else cancel_loop (suc s.waiters) 0 s.head waiter s

-- what task_wait_queue_wake_one does under the lock, and the waiter it took
pub take_first : WaitQueue → WaitQueue × ℕ
take_first s =
    let next : ℕ = (s.at s.head).next in
    if s.head == 0 then (s, 0) else (
      record {
        head = next;
        tail = (if next == 0 then 0 else s.tail);
        waiters = one_less s.waiters;
        at = update s.at s.head (record (s.at s.head) { next = 0; queued = false });
      },
      s.head,
    )

pub wait_queue_wake_one : ℕ → WaitQueue → WaitQueue × Option ℕ
wait_queue_wake_one current_cpu s =
    let (t, waiter) = take_first s in waiter_signal current_cpu waiter true t

-- The loop behind the lock, with the CPUs that it kicks; a round for each waiter.
pub wake_loop : ℕ → ℕ → Bool → ℕ → WaitQueue → WaitQueue × List (Option ℕ)
wake_loop zero current_cpu kick_remote waiter s = (s, [])
wake_loop (suc n) current_cpu kick_remote waiter s =
    let next : ℕ = (s.at waiter).next in
    let cleared : WaitQueue = record s {
      at = update s.at waiter (record (s.at waiter) { next = 0; queued = false });
    } in
    let (t, kick) = waiter_signal current_cpu waiter kick_remote cleared in
    let (u, kicks) = wake_loop n current_cpu kick_remote next t in
    if waiter == 0 then (s, []) else (u, kick ∷ kicks)

pub wait_queue_wake_all_internal : ℕ → Bool → WaitQueue → WaitQueue × List (Option ℕ)
wait_queue_wake_all_internal current_cpu kick_remote s =
    wake_loop s.waiters current_cpu kick_remote s.head
      (record s { head = 0; tail = 0; waiters = 0 })
