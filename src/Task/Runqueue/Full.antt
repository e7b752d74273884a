-- ===== src/Task/Runqueue/Full.antt =====
-- Work stealing from a full queue.
use the_os_reborn.Common.{
  ℕ, zero, suc, ◌+◌, ◌-◌, ◌%◌, ◌<◌, ◌≡◌, refl, sym, ap, ◌∙◌, true, false, [], ◌∷◌, ◌++◌, some, ◌==◌,
  ==_iff, arith,
}
use the_os_reborn.Task.Runqueue.{capacity, WorkItem, Runqueue, compact, remove_at, steal_loop}
use the_os_reborn.Task.Runqueue.Ring.{listing, listing-suc, listing-ext, item_at, contents, IsRing}
use the_os_reborn.Task.Runqueue.Steal.{is_any, last_any, slot_of}
use the_os_reborn.Task.Runqueue.Batch.{found, steal_loop-some}

-- the item of every index but the oldest is bound to a CPU
abbrev pub IsBoundBehindOldest : Runqueue → Type 0
IsBoundBehindOldest rq = (i : ℕ) → 0 < i → i < rq.count → is_any (item_at rq i) ≡ false

last_any_oldest :
    (n : ℕ) (f : ℕ → WorkItem)
    → is_any (f 0) ≡ true
    → ((i : ℕ) → 0 < i → i < suc n → is_any (f i) ≡ false)
    → last_any (suc n) f ≡ some 0
unfolding last_any
last_any_oldest zero f any bound = rw any refl
last_any_oldest (suc n) f any bound =
    rw (bound (suc n) (omega arith) (omega arith))
      (last_any_oldest n f any (λ i pos_i lt. bound i pos_i (omega (arith, lt))))

compact_at_tail :
    (n cursor tail : ℕ) (items : ℕ → WorkItem)
    → cursor ≡ tail
    → compact (suc n) cursor tail items ≡ items
unfolding compact
compact_at_tail n cursor tail items same =
    let stop : (cursor == tail) ≡ true = (==_iff cursor tail).1 same in rw (stop, compact) refl

remove_at_tail :
    (slot : ℕ) (rq : Runqueue)
    → slot ≡ rq.tail
    → contents (remove_at slot rq) ≡ listing (rq.count - 1) (item_at rq)
unfolding remove_at
remove_at_tail slot rq e =
    listing-ext (rq.count - 1) (item_at (remove_at slot rq)) (item_at rq) (λ i lt.
      ap (λ (items : ℕ → WorkItem). items ((rq.head + i) % capacity))
        (compact_at_tail 255 slot rq.tail rq.items e))

-- Stealing one item from a full queue of which only the oldest may run anywhere takes that item but
-- leaves it in the queue, and drops the newest one: the loop that closes the gap does not begin, as
-- the slot of the oldest item is the tail.
pub steal_from_full :
    (rq : Runqueue)
    → IsRing rq
    → rq.count ≡ capacity
    → is_any (item_at rq 0) ≡ true
    → IsBoundBehindOldest rq
    → ((steal_loop 1 rq).1 ≡ item_at rq 0 ∷ [])
      × (contents rq ≡ contents (steal_loop 1 rq).0 ++ (item_at rq (capacity - 1) ∷ []))
unfolding steal_loop
steal_from_full rq v full any bound =
    let n : ℕ = rq.count - 1 in
    let one_more : rq.count ≡ suc n = omega (arith, full) in
    let oldest : last_any rq.count (item_at rq) ≡ some 0 =
      ap (λ m. last_any m (item_at rq)) one_more
      ∙ last_any_oldest n (item_at rq) any
          (λ i pos_i lt. bound i pos_i (omega (arith, one_more, lt))) in
    let slot : ℕ = (rq.head + 0) % capacity in
    let at_tail : slot ≡ rq.tail = omega (arith, v.tail_at, full) in
    let kept : contents (remove_at slot rq) ≡ listing n (item_at rq) =
      remove_at_tail slot rq at_tail in
    let last : n ≡ capacity - 1 = omega (arith, full) in
    rw (steal_loop-some 0 slot rq (found rq v ∙ ap (slot_of rq.head) oldest)) (
      refl,
      ap (λ m. listing m (item_at rq)) one_more
          ∙ listing-suc n (item_at rq)
          ∙ ap (λ xs. xs ++ (item_at rq n ∷ [])) (sym kept)
          ∙ ap (λ i. contents (remove_at slot rq) ++ (item_at rq i ∷ [])) last,
    )
