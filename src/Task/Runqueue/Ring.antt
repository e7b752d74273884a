-- ===== src/Task/Runqueue/Ring.antt =====
-- A run queue as the list of its items, the oldest first.
use the_os_reborn.Common.{
  ℕ, zero, suc, ◌+◌, ◌-◌, ◌%◌, ◌≤◌, ◌<◌, ◌≡◌, refl, ap, ◌∙◌, List, [], ◌∷◌, ◌++◌, Option, none,
  some, ◌==◌, Bool-cases, ==_iff, inl, inr, arith,
}
use the_os_reborn.Task.Runqueue.{capacity, WorkItem, Runqueue, pop_locked}

-- the first `n` values of `f`
unfoldable pub listing : ℕ → (ℕ → WorkItem) → List WorkItem
listing zero f = []
listing (suc n) f = f 0 ∷ listing n (λ i. f (suc i))

abbrev pub item_at : Runqueue → ℕ → WorkItem
item_at rq i = rq.items ((rq.head + i) % capacity)

abbrev pub contents : Runqueue → List WorkItem
contents rq = listing rq.count (item_at rq)

pub record IsRing (rq : Runqueue) : Type 0 where
  pub head_below : rq.head < capacity
  pub tail_at : rq.tail ≡ (rq.head + rq.count) % capacity
  pub no_more : rq.count ≤ capacity

pub listing_zero : (f : ℕ → WorkItem) → listing 0 f ≡ []
unfolding listing
listing_zero f = refl

pub listing-ext :
    (n : ℕ) (f g : ℕ → WorkItem) → ((i : ℕ) → i < n → f i ≡ g i) → listing n f ≡ listing n g
unfolding listing
listing-ext zero f g h = refl
listing-ext (suc n) f g h =
    let first = h 0 (omega arith) in
    let rest =
      listing-ext n (λ i. f (suc i)) (λ i. g (suc i)) (λ i lt. h (suc i) (omega (arith, lt))) in
    rw (first, rest) refl

pub listing-suc : (n : ℕ) (f : ℕ → WorkItem) → listing (suc n) f ≡ listing n f ++ (f n ∷ [])
unfolding listing
listing-suc zero f = refl
listing-suc (suc n) f = ap (λ x. f 0 ∷ x) (listing-suc n (λ i. f (suc i)))

-- slots of one ring are the same only for the same index
pub slot_eq :
    (h i j : ℕ) → i < capacity → j < capacity → (h + i) % capacity ≡ (h + j) % capacity → i ≡ j
slot_eq h i j a b e = omega arith

popped : Runqueue → Runqueue
popped rq = record rq { head = (rq.head + 1) % capacity; count = rq.count - 1 }

popped-IsRing : (rq : Runqueue) → 0 < rq.count → IsRing rq → IsRing (popped rq)
unfolding popped
popped-IsRing rq some_item v = record {
  head_below = omega arith;
  tail_at = omega (arith, v.tail_at, some_item);
  no_more = omega (arith, v.no_more);
}

popped-contents :
    (rq : Runqueue)
    → 0 < rq.count
    → IsRing rq
    → contents rq ≡ rq.items rq.head ∷ contents (popped rq)
unfolding popped listing
popped-contents rq some_item v =
    let n : ℕ = rq.count - 1 in
    let one_less : rq.count ≡ suc n = omega (arith, some_item) in
    let first : (rq.head + 0) % capacity ≡ rq.head = omega (arith, v.head_below) in
    ap (λ m. listing m (item_at rq)) one_less
    ∙ ap (λ i. rq.items i ∷ listing n (λ j. item_at rq (suc j))) first
    ∙ ap (λ xs. rq.items rq.head ∷ xs)
        (listing-ext n (λ j. item_at rq (suc j)) (item_at (popped rq))
          (λ j lt.
            let same : (rq.head + suc j) % capacity ≡ ((rq.head + 1) % capacity + j) % capacity =
              omega arith in
            ap rq.items same))

-- what was taken from `rq`, with `left` left
abbrev pub IsTaken : Runqueue → Runqueue → Option (ℕ × ℕ) → Type 0
IsTaken rq left none = (contents rq ≡ []) × (contents left ≡ [])
IsTaken rq left (some (fn, arg)) =
    (cpu : ℕ) × (contents rq ≡ record { fn = fn; arg = arg; affinity_cpu = cpu } ∷ contents left)

-- task_runqueue_pop_cpu, on a ring that is well formed, keeps it so; it takes the oldest item, or
-- nothing if the queue is empty.
pub pop_locked-IsTaken :
    (rq : Runqueue)
    → IsRing rq
    → IsRing (pop_locked rq).0 × IsTaken rq (pop_locked rq).0 (pop_locked rq).1
unfolding pop_locked popped
pop_locked-IsTaken rq v = elim (Bool-cases (rq.count == 0)) [
  | inl empty ↦
      let gone : contents rq ≡ [] =
        ap (λ n. listing n (item_at rq)) ((==_iff rq.count 0).0 empty)
        ∙ listing_zero (item_at rq) in
      rw empty (v, (gone, gone))
  | inr more ↦
      let some_item : 0 < rq.count = ground (arith, more) in
      rw more (
        popped-IsRing rq some_item v,
        ((rq.items rq.head).affinity_cpu, popped-contents rq some_item v),
      )
]
