-- ===== src/Task/Runqueue/Tests.antt =====
-- Runs of the queues: a short one, a full one, and the depths of four CPUs.
use mathlib.Core.List.{Perm}
use the_os_reborn.Common.{
  ◌≢◌, ℕ, ◌+◌, ◌%◌, ◌≤◌, ◌<◌, ◌≡◌, refl, Bool, true, false, not, ◌&&◌, [], ◌∷◌, ◌++◌, ◌==◌, ltb,
  if◌then◌else◌, length, All, ==_ne, ◌⊎◌, arith,
}
use the_os_reborn.Task.Runqueue.{
  cpu_any, WorkItem, Runqueue, Runqueues, enqueue_item, pop_locked, steal_loop, find_stealable,
  remove_at, compact,
}
use the_os_reborn.Task.Runqueue.Ring.{item_at, contents, IsRing, IsTaken, pop_locked-IsTaken}
use the_os_reborn.Task.Runqueue.Enqueue.{enqueue_item-contents}
use the_os_reborn.Task.Runqueue.Steal.{is_any}
use the_os_reborn.Task.Runqueue.Batch.{steal_many, steal_loop-steal_many, steal_loop-Perm}
use the_os_reborn.Task.Runqueue.Full.{steal_from_full}
use the_os_reborn.Task.Runqueue.Balance.{pick_push_target, Stays, Goes, pick_push_target_lem}

abbrev bound : ℕ → WorkItem
bound fn = record { fn = fn; arg = 0; affinity_cpu = 1 }

abbrev free : ℕ → WorkItem
free fn = record { fn = fn; arg = 0; affinity_cpu = cpu_any }

-- three items over the end of the ring, of which the second is bound to a CPU
abbrev three : Runqueue
three = record {
  items = (λ i. if i == 0 then bound 20 else if i == 1 then free 30 else free 10);
  head = 255;
  tail = 2;
  count = 3;
}

three-IsRing : IsRing three
three-IsRing = record { head_below = omega arith; tail_at = refl; no_more = omega arith }

-- CPU 3 has the three items, the others have none
abbrev only_three : Runqueues
only_three c =
    if c == 3 then three else record { items = (λ i. bound 0); head = 0; tail = 0; count = 0 }

enqueue_item-contents_example :
    let (t, queued, kicked) = enqueue_item 3 (free 40) true only_three in
    IsRing (t 3)
    × (queued ≡ true)
    × (contents (t 3) ≡ contents three ++ (if queued then free 40 ∷ [] else []))
    × (kicked ≡ (queued && true))
    × ((c : ℕ) → c ≢ 3 → t c ≡ only_three c)
enqueue_item-contents_example = enqueue_item-contents 3 (free 40) true only_three three-IsRing

pop_locked-IsTaken_example :
    IsRing (pop_locked three).0 × IsTaken three (pop_locked three).0 (pop_locked three).1
pop_locked-IsTaken_example = pop_locked-IsTaken three three-IsRing

steal_loop-steal_many_example :
    IsRing (steal_loop 2 three).0
    × (contents (steal_loop 2 three).0 ≡ (steal_many 2 (contents three)).0)
    × ((steal_loop 2 three).1 ≡ (steal_many 2 (contents three)).1)
steal_loop-steal_many_example = steal_loop-steal_many 2 three three-IsRing (omega arith)

steal_loop-Perm_example :
    Perm (contents three) ((steal_loop 2 three).1 ++ contents (steal_loop 2 three).0)
    × All (λ y. is_any y ≡ true) (steal_loop 2 three).1
    × (length (steal_loop 2 three).1 ≤ 2)
steal_loop-Perm_example = steal_loop-Perm 2 three three-IsRing (omega arith)

-- the newest item first, and the bound one stays
two_stolen : (steal_loop 2 three).1 ≡ free 30 ∷ free 10 ∷ []
unfolding steal_loop find_stealable remove_at compact
two_stolen = refl

-- 256 items of which only the oldest, at slot 7, may run anywhere
abbrev full : Runqueue
full = record {
  items = (λ i. if i == 7 then free 100 else bound i);
  head = 7;
  tail = 7;
  count = 256;
}

full-IsRing : IsRing full
full-IsRing = record { head_below = omega arith; tail_at = refl; no_more = omega arith }

full_bound : (i : ℕ) → 0 < i → i < 256 → is_any (item_at full i) ≡ false
full_bound i above below =
    let other : ((7 + i) % 256 == 7) ≡ false = ==_ne _ _ (λ e. omega (arith, e, above, below)) in
    rw other refl

steal_from_full_example :
    ((steal_loop 1 full).1 ≡ free 100 ∷ [])
    × (contents full ≡ contents (steal_loop 1 full).0 ++ (bound 6 ∷ []))
steal_from_full_example = steal_from_full full full-IsRing refl refl full_bound

-- CPU 0 has twelve items, the CPUs 1, 2 and 3 have 5, 3 and 4; CPU 2 is off
abbrev four_depths : ℕ → ℕ
four_depths cpu = if cpu == 0 then 12 else if cpu == 1 then 5 else if cpu == 2 then 3 else 4

abbrev three_online : ℕ → Bool
three_online cpu = ltb cpu 4 && not (cpu == 2)

pick_push_target_lem_example :
    Stays three_online four_depths 4 true 0 (pick_push_target three_online four_depths 4 true 0)
    ⊎ Goes three_online four_depths 4 true 0 (pick_push_target three_online four_depths 4 true 0)
pick_push_target_lem_example =
    pick_push_target_lem three_online four_depths 4 0 true (omega arith) refl
