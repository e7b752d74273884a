-- ===== src/Task/Runqueue/Batch.antt =====
-- A batch of stolen items is what a list gives from its end.
use mathlib.Core.List.{Perm}
use mathlib.Core.List.Perm
use the_os_reborn.Common.{
  ℕ, zero, suc, ◌+◌, ◌-◌, ◌%◌, ◌≤◌, ◌<◌, ◌≡◌, refl, sym, ap, ◌∙◌, subst, true, List, [], ◌∷◌, ◌++◌,
  none, some, length, All, Bool-cases, Option-cases, inl, inr, arith,
}
use the_os_reborn.Task.Runqueue.{
  capacity, WorkItem, Runqueue, before, find_stealable, remove_at, steal_loop,
}
use the_os_reborn.Task.Runqueue.Ring.{listing, listing-ext, item_at, contents, IsRing}
use the_os_reborn.Task.Runqueue.Steal.{
  is_any, Stolen, steal_last, last_any, without, slot_of, as_stolen, find_stealable-last_any,
  compact-without, last_any_below, steal_last-listing,
}

-- `n` times the newest item that may run anywhere: the list left, and what was taken
pub steal_many : ℕ → List WorkItem → List WorkItem × List WorkItem
steal_many zero xs = (xs, [])
steal_many (suc n) xs = elim (steal_last xs) [
  | none ↦ (xs, [])
  | some (y, ys) ↦ let (left, stolen) = steal_many n ys in (left, y ∷ stolen)
]

remove_at-IsRing :
    (slot : ℕ) (rq : Runqueue) → 0 < rq.count → IsRing rq → IsRing (remove_at slot rq)
unfolding remove_at
remove_at-IsRing slot rq some_item v = record {
  head_below = v.head_below;
  tail_at = omega (arith, v.tail_at, some_item);
  no_more = omega (arith, v.no_more);
}

remove_at_count : (slot : ℕ) (rq : Runqueue) → (remove_at slot rq).count ≡ rq.count - 1
unfolding remove_at
remove_at_count slot rq = refl

remove_at-contents :
    (j : ℕ) (rq : Runqueue)
    → IsRing rq
    → rq.count < capacity
    → j < rq.count
    → contents (remove_at ((rq.head + j) % capacity) rq)
      ≡ listing (rq.count - 1) (without j (item_at rq))
unfolding remove_at
remove_at-contents j rq v few lt =
    listing-ext (rq.count - 1) (item_at (remove_at ((rq.head + j) % capacity) rq))
      (without j (item_at rq))
      (λ i below.
        rw v.tail_at (
          compact-without capacity rq.head rq.count j i rq.items lt few (omega (arith, few)) below))

pub found :
    (rq : Runqueue)
    → IsRing rq
    → find_stealable rq.count (before rq.tail) rq.items
      ≡ slot_of rq.head (last_any rq.count (item_at rq))
found rq v = rw v.tail_at (find_stealable-last_any rq.count rq.head rq.items)

steal_loop-none :
    (n : ℕ) (rq : Runqueue)
    → find_stealable rq.count (before rq.tail) rq.items ≡ none
    → steal_loop (suc n) rq ≡ (rq, [])
unfolding steal_loop
steal_loop-none n rq h = rw (h, steal_loop) refl

pub steal_loop-some :
    (n slot : ℕ) (rq : Runqueue)
    → find_stealable rq.count (before rq.tail) rq.items ≡ some slot
    → steal_loop (suc n) rq
      ≡ ((steal_loop n (remove_at slot rq)).0, rq.items slot ∷ (steal_loop n (remove_at slot rq)).1)
unfolding steal_loop
steal_loop-some n slot rq h = rw (h, steal_loop) refl

steal_many-none :
    (n : ℕ) (xs : List WorkItem) → steal_last xs ≡ none → steal_many (suc n) xs ≡ (xs, [])
unfolding steal_many
steal_many-none n xs h = rw (h, steal_many) refl

steal_many-some :
    (n : ℕ) (xs ys : List WorkItem) (y : WorkItem)
    → steal_last xs ≡ some (y, ys)
    → steal_many (suc n) xs ≡ ((steal_many n ys).0, y ∷ (steal_many n ys).1)
unfolding steal_many
steal_many-some n xs ys y h = rw (h, steal_many) refl

-- task_runqueue_steal_batch_from_cpu, on a well-formed ring that is not full, keeps it well formed and
-- steals, up to the number that is asked for, the newest item that has TASK_WORK_CPU_ANY, then the
-- newest that is left, and so on; the other items stay in their order.
pub steal_loop-steal_many :
    (n : ℕ) (rq : Runqueue)
    → IsRing rq
    → rq.count < capacity
    → IsRing (steal_loop n rq).0
      × (contents (steal_loop n rq).0 ≡ (steal_many n (contents rq)).0)
      × ((steal_loop n rq).1 ≡ (steal_many n (contents rq)).1)
unfolding steal_loop steal_many
steal_loop-steal_many zero rq v few = (v, refl, refl)
steal_loop-steal_many (suc n) rq v few =
    let spec = steal_last-listing rq.count (item_at rq) in
    elim (Option-cases (last_any rq.count (item_at rq))) [
      | inl e ↦
          rw
            (
              steal_loop-none n rq (found rq v ∙ ap (slot_of rq.head) e),
              steal_many-none n (contents rq) (spec ∙ ap (as_stolen rq.count (item_at rq)) e),
            )
            (v, refl, refl)
      | inr (j, e) ↦
          let (lt, any) = last_any_below rq.count (item_at rq) j e in
          let rest : Runqueue = remove_at ((rq.head + j) % capacity) rq in
          let fewer = remove_at_count ((rq.head + j) % capacity) rq in
          let (w, same_left, same_out) =
            steal_loop-steal_many n rest (remove_at-IsRing _ rq (omega (arith, lt)) v)
              (omega (arith, fewer, few)) in
          let c = remove_at-contents j rq v few lt in
          rw
            (
              steal_loop-some n _ rq (found rq v ∙ ap (slot_of rq.head) e),
              steal_many-some n (contents rq) (contents rest) (item_at rq j) (
                  spec
                  ∙ ap (as_stolen rq.count (item_at rq)) e
                  ∙ ap (λ xs. some (item_at rq j, xs)) (sym c)),
            )
            (w, same_left, ap (λ xs. item_at rq j ∷ xs) same_out)
    ]

abbrev IsSplit : List WorkItem → Stolen → Type 0
IsSplit xs none = Unit
IsSplit xs (some (y, ys)) = Perm xs (y ∷ ys) × (is_any y ≡ true)

steal_last-Perm :
    (xs ys : List WorkItem) (y : WorkItem)
    → steal_last xs ≡ some (y, ys)
    → Perm xs (y ∷ ys) × (is_any y ≡ true)
unfolding steal_last
steal_last-Perm [] ys y e = cc
steal_last-Perm (x ∷ xs) ys y e = elim (Option-cases (steal_last xs)) [
  | inl none_behind ↦ elim (Bool-cases (is_any x)) [
    | inl here ↦
        let g = rw (none_behind, here) at e in
        subst (λ s. IsSplit (x ∷ xs) s) g (Perm.refl (x ∷ xs), here)
    | inr nowhere ↦ let g = rw (none_behind, nowhere) at e in cc
  ]
  | inr ((z, zs), some_behind) ↦
      let (p, a) = steal_last-Perm xs zs z some_behind in
      let g = rw some_behind at e in
      subst (λ s. IsSplit (x ∷ xs) s) g (Perm.trans (Perm.cons x p) (Perm.swap z x zs), a)
]

-- what a batch takes and what it leaves are together the items that were there
pub steal_many-Perm :
    (n : ℕ) (xs : List WorkItem)
    → Perm xs ((steal_many n xs).1 ++ (steal_many n xs).0)
      × All (λ y. is_any y ≡ true) (steal_many n xs).1
      × (length (steal_many n xs).1 ≤ n)
unfolding steal_many
steal_many-Perm zero xs = (Perm.refl xs, tt, omega arith)
steal_many-Perm (suc n) xs = elim (Option-cases (steal_last xs)) [
  | inl e ↦ rw (steal_many-none n xs e) (Perm.refl xs, tt, omega arith)
  | inr ((y, ys), e) ↦
      let (p, a) = steal_last-Perm xs ys y e in
      let (q, all_any, short) = steal_many-Perm n ys in
      rw (steal_many-some n xs ys y e)
        (Perm.trans p (Perm.cons y q), (a, all_any), omega (arith, short))
]

-- Stealing from a well-formed ring that is not full loses no item and copies none: what is stolen and
-- what is left are together what was there. At most the number asked for is stolen, and only items
-- that may run anywhere.
pub steal_loop-Perm :
    (n : ℕ) (rq : Runqueue)
    → IsRing rq
    → rq.count < capacity
    → Perm (contents rq) ((steal_loop n rq).1 ++ contents (steal_loop n rq).0)
      × All (λ y. is_any y ≡ true) (steal_loop n rq).1
      × (length (steal_loop n rq).1 ≤ n)
steal_loop-Perm n rq v few =
    let (w, left, out) = steal_loop-steal_many n rq v few in
    rw (left, out) (steal_many-Perm n (contents rq))
