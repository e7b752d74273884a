-- ===== src/Task/Runqueue.antt =====
-- The run queues of Kernel/Task/Task.c: the rings of work items of the CPUs, and work stealing. A
-- function pointer is a number, 0 for NULL. The numbers stay far below 2 ^ 32. What an inter-processor
-- interrupt does elsewhere is left out; whether one is asked for is a result.
pub mod Ring
pub mod Enqueue
pub mod Steal
pub mod Batch
pub mod Full
pub mod Balance
mod Tests
use the_os_reborn.Common.{
  ℕ, zero, suc, ◌+◌, ◌-◌, ◌*◌, ◌/◌, ◌%◌, ◌^◌, ◌≤◌, ◌<◌, ◌≡◌, ◌≢◌, refl, sym, ap, ◌∙◌, subst, Bool,
  true, false, not, ◌&&◌, ◌||◌, List, [], ◌∷◌, ◌++◌, Option, none, some, ◌==◌, ltb, leb,
  if◌then◌else◌, update, length, get_or, set, take, drop, replicate, All, Bool-cases, Option-cases,
  ==_ne, ==_self, ==_iff, ltb→lt, lt→ltb, leb→le, ◌↔◌, ◌⊎◌, inl, inr, arith,
}

abbrev pub max_cpus : ℕ
max_cpus = 256

-- TASK_RUNQUEUE_CAPACITY
abbrev pub capacity : ℕ
capacity = 256

-- TASK_WORK_CPU_ANY
abbrev pub cpu_any : ℕ
cpu_any = 0xffffffff

pub record WorkItem : Type 0 where
  pub fn : ℕ
  pub arg : ℕ
  pub affinity_cpu : ℕ

pub record Runqueue : Type 0 where
  pub items : ℕ → WorkItem
  pub head : ℕ
  pub tail : ℕ
  pub count : ℕ

-- the queue of each CPU
abbrev pub Runqueues : Type 0
Runqueues = ℕ → Runqueue

-- what task_runqueue_enqueue_item does under the lock, and whether it stored the item
pub enqueue_locked : WorkItem → Runqueue → Runqueue × Bool
enqueue_locked item rq =
    if ltb rq.count capacity
    then (
      record {
        items = update rq.items rq.tail item;
        head = rq.head;
        tail = (rq.tail + 1) % capacity;
        count = rq.count + 1;
      },
      true,
    )
    else (rq, false)

-- also whether the CPU is kicked
pub enqueue_item : ℕ → WorkItem → Bool → Runqueues → Runqueues × Bool × Bool
enqueue_item cpu_index item kick_cpu s =
    let (rq, queued) = enqueue_locked item (s cpu_index) in
    if item.fn == 0 || leb max_cpus cpu_index
    then (s, false, false)
    else (update s cpu_index rq, queued, queued && kick_cpu)

pub push_cpu : ℕ → ℕ → ℕ → ℕ → Runqueues → Runqueues × Bool × Bool
push_cpu cpu_index fn arg affinity_cpu s =
    if fn == 0 || leb max_cpus cpu_index
    then (s, false, false)
    else enqueue_item cpu_index (record { fn = fn; arg = arg; affinity_cpu = affinity_cpu }) true s

-- the slot before
abbrev pub before : ℕ → ℕ
before slot = (slot + capacity - 1) % capacity

abbrev pub after : ℕ → ℕ
after slot = (slot + 1) % capacity

-- the search for an item that may run anywhere, for `n` more slots, the next being `slot`
pub find_stealable : ℕ → ℕ → (ℕ → WorkItem) → Option ℕ
find_stealable zero slot items = none
find_stealable (suc n) slot items =
    let rest = find_stealable n (before slot) items in
    if (items slot).affinity_cpu == cpu_any then some slot else rest

-- The loop that closes the gap at `cursor`. A round comes one slot closer to the tail, so `capacity`
-- rounds are enough.
pub compact : ℕ → ℕ → ℕ → (ℕ → WorkItem) → ℕ → WorkItem
compact zero cursor tail items = items
compact (suc n) cursor tail items =
    let rest = compact n (after cursor) tail (update items cursor (items (after cursor))) in
    if cursor == tail then items else if after cursor == tail then items else rest

-- the item at `slot` is taken out
pub remove_at : ℕ → Runqueue → Runqueue
remove_at slot rq = record {
  items = compact capacity slot rq.tail rq.items;
  head = rq.head;
  tail = before rq.tail;
  count = rq.count - 1;
}

-- the outer loop of task_runqueue_steal_batch_from_cpu, for `n` more items, and what it stole
pub steal_loop : ℕ → Runqueue → Runqueue × List WorkItem
steal_loop zero rq = (rq, [])
steal_loop (suc n) rq = elim (find_stealable rq.count (before rq.tail) rq.items) [
  | none ↦ (rq, [])
  | some slot ↦
      let (left, stolen) = steal_loop n (remove_at slot rq) in (left, rq.items slot ∷ stolen)
]

pub steal_batch_from_cpu : ℕ → ℕ → Runqueues → Runqueues × List WorkItem
steal_batch_from_cpu victim_cpu max_items s =
    let (rq, stolen) = steal_loop max_items (s victim_cpu) in
    if leb max_cpus victim_cpu || max_items == 0 then (s, []) else (update s victim_cpu rq, stolen)

-- the function and the argument of the oldest item
pub pop_locked : Runqueue → Runqueue × Option (ℕ × ℕ)
pop_locked rq = if rq.count == 0 then (rq, none) else (
  record rq { head = (rq.head + 1) % capacity; count = rq.count - 1 },
  some ((rq.items rq.head).fn, (rq.items rq.head).arg),
)

pub pop_cpu : ℕ → Runqueues → Runqueues × Option (ℕ × ℕ)
pop_cpu cpu_index s =
    let (rq, out) = pop_locked (s cpu_index) in
    if leb max_cpus cpu_index then (s, none) else (update s cpu_index rq, out)
