-- ===== src/Task/Runqueue/Enqueue.antt =====
-- task_runqueue_enqueue_item appends to the ring of one CPU.
use the_os_reborn.Common.{
  Bool, not, ◌&&◌, ◌||◌, leb, ◌≢◌, append_nil, ℕ, suc, ◌+◌, ◌%◌, ◌<◌, ◌≡◌, refl, sym, ap, ◌∙◌, true,
  false, [], ◌∷◌, ◌++◌, ◌==◌, ltb, if◌then◌else◌, update, Bool-cases, ==_ne, ==_self, ltb→lt, inl,
  inr, arith,
}
use the_os_reborn.Task.Runqueue.{
  max_cpus, capacity, WorkItem, Runqueue, Runqueues, enqueue_locked, enqueue_item,
}
use the_os_reborn.Task.Runqueue.Ring.{
  listing, listing-ext, listing-suc, slot_eq, item_at, contents, IsRing,
}

enqueue_full :
    (item : WorkItem) (rq : Runqueue) → rq.count ≡ capacity → enqueue_locked item rq ≡ (rq, false)
unfolding enqueue_locked
enqueue_full item rq e =
    let full : ltb rq.count capacity ≡ false = ground (arith, e) in rw full refl

abbrev appended : WorkItem → Runqueue → Runqueue
appended item rq = record {
  items = update rq.items rq.tail item;
  head = rq.head;
  tail = (rq.tail + 1) % capacity;
  count = rq.count + 1;
}

enqueue_room :
    (item : WorkItem) (rq : Runqueue)
    → rq.count < capacity
    → enqueue_locked item rq ≡ (appended item rq, true)
unfolding enqueue_locked
enqueue_room item rq lt =
    let room : ltb rq.count capacity ≡ true = ground (arith, lt) in rw room refl

appended-IsRing :
    (item : WorkItem) (rq : Runqueue) → rq.count < capacity → IsRing rq → IsRing (appended item rq)
appended-IsRing item rq lt v = record {
  head_below = v.head_below;
  tail_at = omega (arith, v.tail_at);
  no_more = omega (arith, lt);
}

other_slot :
    (item : WorkItem) (rq : Runqueue) (i : ℕ)
    → rq.count < capacity
    → i < rq.count
    → IsRing rq
    → item_at (appended item rq) i ≡ item_at rq i
other_slot item rq i lt below v =
    let other : (rq.tail == (rq.head + i) % capacity) ≡ false =
      ==_ne _ _
        (λ e. omega (arith, slot_eq rq.head rq.count i lt (omega arith) (sym v.tail_at ∙ e))) in
    rw other refl

appended-contents :
    (item : WorkItem) (rq : Runqueue)
    → rq.count < capacity
    → IsRing rq
    → contents (appended item rq) ≡ contents rq ++ (item ∷ [])
appended-contents item rq lt v =
    let last : item_at (appended item rq) rq.count ≡ item =
      rw (sym v.tail_at, ==_self rq.tail) refl in
    let one_more : rq.count + 1 ≡ suc rq.count = omega arith in
    ap (λ n. listing n (item_at (appended item rq))) one_more
    ∙ listing-suc rq.count (item_at (appended item rq))
    ∙ ap (λ x. listing rq.count (item_at (appended item rq)) ++ (x ∷ [])) last
    ∙ ap (λ x. x ++ (item ∷ []))
        (listing-ext rq.count (item_at (appended item rq)) (item_at rq)
          (λ i below. other_slot item rq i lt below v))

enqueue_locked-contents :
    (item : WorkItem) (rq : Runqueue)
    → IsRing rq
    → IsRing (enqueue_locked item rq).0
      × ((enqueue_locked item rq).1 ≡ ltb rq.count capacity)
      × (contents (enqueue_locked item rq).0
          ≡ contents rq ++ (if (enqueue_locked item rq).1 then item ∷ [] else []))
enqueue_locked-contents item rq v = elim (Bool-cases (ltb rq.count capacity)) [
  | inl room ↦
      let lt = ltb→lt _ _ room in
      rw (enqueue_room item rq lt, room)
        (appended-IsRing item rq lt v, refl, appended-contents item rq lt v)
  | inr full ↦
      rw (enqueue_full item rq (ground (arith, full, v.no_more)), full)
        (v, refl, sym (append_nil (contents rq)))
]

enqueue_refused :
    (cpu_index : ℕ) (item : WorkItem) (kick_cpu : Bool) (s : Runqueues)
    → (item.fn == 0 || leb max_cpus cpu_index) ≡ true
    → enqueue_item cpu_index item kick_cpu s ≡ (s, false, false)
unfolding enqueue_item
enqueue_refused cpu_index item kick_cpu s h = rw h refl

enqueue_taken :
    (cpu_index : ℕ) (item : WorkItem) (kick_cpu : Bool) (s : Runqueues)
    → (item.fn == 0 || leb max_cpus cpu_index) ≡ false
    → enqueue_item cpu_index item kick_cpu s ≡ (
      update s cpu_index (enqueue_locked item (s cpu_index)).0,
      (enqueue_locked item (s cpu_index)).1,
      (enqueue_locked item (s cpu_index)).1 && kick_cpu,
    )
unfolding enqueue_item
enqueue_taken cpu_index item kick_cpu s h = rw h refl

-- task_runqueue_enqueue_item, on a CPU number whose queue is a ring that is well formed, keeps it so,
-- and changes no other queue. It takes the item if the function is not NULL, the CPU number is below
-- the number of the queues and the queue has less than TASK_RUNQUEUE_CAPACITY items; then the item is
-- the last of the queue, and the CPU is kicked if that is asked for. Otherwise the queue has the items
-- that it had, and no CPU is kicked.
pub enqueue_item-contents :
    (cpu_index : ℕ) (item : WorkItem) (kick_cpu : Bool) (s : Runqueues)
    → IsRing (s cpu_index)
    → let (t, queued, kicked) = enqueue_item cpu_index item kick_cpu s in
      IsRing (t cpu_index)
      × (queued
          ≡ (not (item.fn == 0) && ltb cpu_index max_cpus && ltb (s cpu_index).count capacity))
      × (contents (t cpu_index) ≡ contents (s cpu_index) ++ (if queued then item ∷ [] else []))
      × (kicked ≡ (queued && kick_cpu))
      × ((c : ℕ) → c ≢ cpu_index → t c ≡ s c)
enqueue_item-contents cpu_index item kick_cpu s v =
    elim (Bool-cases (item.fn == 0 || leb max_cpus cpu_index)) [
      | inl bad ↦
          let no : (not (item.fn == 0)
                && ltb cpu_index max_cpus
                && ltb (s cpu_index).count capacity)
              ≡ false =
            ground (arith, bad) in
          rw (enqueue_refused cpu_index item kick_cpu s bad)
            (v, sym no, sym (append_nil (contents (s cpu_index))), refl, λ c ne. refl)
      | inr good ↦
          let (ring, queued, added) = enqueue_locked-contents item (s cpu_index) v in
          let yes : (not (item.fn == 0)
                && ltb cpu_index max_cpus
                && ltb (s cpu_index).count capacity)
              ≡ ltb (s cpu_index).count capacity =
            ground (arith, good) in
          rw (enqueue_taken cpu_index item kick_cpu s good, ==_self cpu_index)
            (
              ring,
              queued ∙ sym yes,
              added,
              refl,
              λ c ne. rw (==_ne cpu_index c (λ e. ne (sym e))) refl,
            )
    ]
