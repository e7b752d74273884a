-- ===== src/Task/WaitQueue/Tests.antt =====
-- Two waiters, at the addresses 100 and 200.
use the_os_reborn.Common.{ℕ, ◌≡◌, refl, true, false, [], ◌∷◌, ◌==◌, if◌then◌else◌, All, arith}
use the_os_reborn.Task.WaitQueue.{
  Waiter, WaitQueue, wait_queue_init, waiter_init, wait_queue_enqueue_locked,
}
use the_os_reborn.Task.WaitQueue.Chain.{IsQueue}
use the_os_reborn.Task.WaitQueue.Wake.{IsWoken}
use the_os_reborn.Task.WaitQueue.Fifo.{wake_one, step, list_step, to_wake, step-IsQueue}

abbrev waiter : ℕ → ℕ → Waiter
waiter next cpu = record { next = next; cpu_index = cpu; queued = true; signaled = false }

abbrev two : WaitQueue
two = record {
  head = 100;
  tail = 200;
  waiters = 2;
  at = (λ a. if a == 100 then waiter 200 1 else waiter 0 2);
}

two-IsQueue : IsQueue two (100 ∷ 200 ∷ [])
two-IsQueue = record {
  chain = (refl, λ e. absurd (omega (arith, e)), (refl, λ e. absurd (omega (arith, e)), refl));
  different = ((λ e. absurd (omega (arith, e)), tt), (tt, tt));
  tail_is = refl;
  counted = refl;
}

step-IsQueue_example :
    IsQueue (step 0 wake_one two) (list_step wake_one (100 ∷ 200 ∷ []))
    × All (λ w. IsWoken ((step 0 wake_one two).at w)) (to_wake wake_one (100 ∷ 200 ∷ []))
step-IsQueue_example = step-IsQueue 0 wake_one two (100 ∷ 200 ∷ []) tt two-IsQueue

-- an empty queue is made, and two waiters come
abbrev blank : WaitQueue
blank = record { head = 1; tail = 1; waiters = 1; at = (λ a. waiter 1 1) }

both_came :
    let s = wait_queue_enqueue_locked 200 (
      wait_queue_enqueue_locked 100
        (waiter_init 2 200 (waiter_init 1 100 (wait_queue_init blank)))) in
    (s.head ≡ 100) × ((s.at 100).next ≡ 200) × (s.tail ≡ 200) × (s.waiters ≡ 2)
unfolding wait_queue_enqueue_locked waiter_init wait_queue_init
both_came = (refl, refl, refl, refl)
