-- ===== src/Task/Runqueue/Steal.antt =====
-- task_runqueue_steal_batch_from_cpu on the list of the items.
use native.Mathlib.Decide.{ℕ_discrete}
use the_os_reborn.Common.{
  ℕ, zero, suc, ◌+◌, ◌-◌, ◌%◌, ◌≤◌, ◌<◌, ◌≡◌, ◌≢◌, refl, sym, ap, ◌∙◌, Bool, true, false, List, [],
  ◌∷◌, Option, none, some, ◌==◌, ltb, if◌then◌else◌, update, Bool-cases, ==_ne, ==_self, inl, inr,
  arith,
}
use the_os_reborn.Task.Runqueue.{
  capacity, cpu_any, WorkItem, before, after, find_stealable, compact,
}
use the_os_reborn.Task.Runqueue.Ring.{listing, listing-ext, slot_eq}

abbrev pub is_any : WorkItem → Bool
is_any item = item.affinity_cpu == cpu_any

-- what is taken from a list, and the list that is left
abbrev pub Stolen : Type 0
Stolen = Option (WorkItem × List WorkItem)

abbrev pub behind : WorkItem → List WorkItem → Stolen → Stolen
behind x xs none = if is_any x then some (x, xs) else none
behind x xs (some (y, ys)) = some (y, x ∷ ys)

-- the newest item that may run anywhere
unfoldable pub steal_last : List WorkItem → Stolen
steal_last [] = none
steal_last (x ∷ xs) = behind x xs (steal_last xs)

-- the index of the newest of the first `n` items that may run anywhere
unfoldable pub last_any : ℕ → (ℕ → WorkItem) → Option ℕ
last_any zero f = none
last_any (suc n) f = let rest = last_any n f in if is_any (f n) then some n else rest

-- the items without that of index `j`
abbrev pub without : ℕ → (ℕ → WorkItem) → ℕ → WorkItem
without j f i = if ltb i j then f i else f (suc i)

-- what the search finds, as a slot
abbrev pub slot_of : ℕ → Option ℕ → Option ℕ
slot_of head none = none
slot_of head (some j) = some ((head + j) % capacity)

pub find_stealable-last_any :
    (n head : ℕ) (items : ℕ → WorkItem)
    → find_stealable n (before ((head + n) % capacity)) items
      ≡ slot_of head (last_any n (λ i. items ((head + i) % capacity)))
unfolding find_stealable last_any
find_stealable-last_any zero head items = refl
find_stealable-last_any (suc n) head items =
    let here : before ((head + suc n) % capacity) ≡ (head + n) % capacity = omega arith in
    let ih = find_stealable-last_any n head items in
    rw (here, ih)
      (elim (Bool-cases (is_any (items ((head + n) % capacity)))) [
        | inl a ↦ rw a refl
        | inr b ↦ rw b refl
      ])

other_slots :
    (head j k : ℕ)
    → j < capacity
    → k < capacity
    → j ≢ k
    → ((head + j) % capacity == (head + k) % capacity) ≡ false
other_slots head j k a b ne = ==_ne _ _ (λ e. ne (slot_eq head j k a b e))

-- one round: index `j` gets the item behind it
abbrev moved_down : ℕ → ℕ → (ℕ → WorkItem) → ℕ → WorkItem
moved_down head j items = update items ((head + j) % capacity) (items ((head + suc j) % capacity))

moved_down-without :
    (head j i : ℕ) (items : ℕ → WorkItem)
    → suc j < capacity
    → suc i < capacity
    → without (suc j) (λ k. moved_down head j items ((head + k) % capacity)) i
      ≡ without j (λ k. items ((head + k) % capacity)) i
moved_down-without head j i items a b = elim (ℕ_discrete j i) [
  | yes same ↦
      let at_i : ((head + j) % capacity == (head + i) % capacity) ≡ true =
        ap (λ k. (head + j) % capacity == (head + k) % capacity) (sym same)
        ∙ ==_self ((head + j) % capacity) in
      let lt1 : ltb i (suc j) ≡ true = ground (arith, same) in
      let lt2 : ltb i j ≡ false = ground (arith, same) in
      rw (lt1, lt2, at_i) (ap (λ k. items ((head + suc k) % capacity)) same)
  | no differ ↦ elim (Bool-cases (ltb i j)) [
    | inl under ↦
        let lt1 : ltb i (suc j) ≡ true = ground (arith, under) in
        rw (lt1, under, other_slots head j i (omega arith) (omega arith) differ) refl
    | inr over ↦
        let lt1 : ltb i (suc j) ≡ false = ground (arith, over, differ) in
        rw (lt1, over, other_slots head j (suc i) (omega arith) b (λ e. ground (arith, over, e)))
          refl
  ]
]

-- the gap at index `j` is closed
pub compact-without :
    (n head count j i : ℕ) (items : ℕ → WorkItem)
    → j < count
    → count < capacity
    → count ≤ j + n
    → i < count - 1
    → compact n ((head + j) % capacity) ((head + count) % capacity) items ((head + i) % capacity)
      ≡ without j (λ k. items ((head + k) % capacity)) i
unfolding compact
compact-without zero head count j i items lt few enough below = absurd (omega arith)
compact-without (suc n) head count j i items lt few enough below =
    let here : ((head + j) % capacity == (head + count) % capacity) ≡ false =
      other_slots head j count (omega (arith, lt, few)) few (λ e. omega (arith, e, lt)) in
    let next : after ((head + j) % capacity) ≡ (head + suc j) % capacity = omega arith in
    elim (ℕ_discrete (suc j) count) [
      | yes last ↦
          let at_tail : ((head + suc j) % capacity == (head + count) % capacity) ≡ true =
            ap (λ k. (head + suc j) % capacity == (head + k) % capacity) (sym last)
            ∙ ==_self ((head + suc j) % capacity) in
          let under : ltb i j ≡ true = ground (arith, last, below) in
          rw (here, next, at_tail, under) refl
      | no more ↦
          let not_tail = other_slots head (suc j) count (omega (arith, lt, few)) few more in
          rw (here, next, not_tail)
            (compact-without n head count (suc j) i (moved_down head j items)
                (omega (arith, lt, more)) few (omega (arith, enough)) below
              ∙ moved_down-without head j i items (omega (arith, lt, few))
                  (omega (arith, below, few)))
    ]

abbrev pub as_stolen : ℕ → (ℕ → WorkItem) → Option ℕ → Stolen
as_stolen n f none = none
as_stolen n f (some j) = some (f j, listing (n - 1) (without j f))

abbrev in_front : WorkItem → Option ℕ → Option ℕ
in_front x none = if is_any x then some 0 else none
in_front x (some j) = some (suc j)

last_any-in_front :
    (n : ℕ) (f : ℕ → WorkItem) → last_any (suc n) f ≡ in_front (f 0) (last_any n (λ i. f (suc i)))
unfolding last_any
last_any-in_front zero f = refl
last_any-in_front (suc n) f = elim (Bool-cases (is_any (f (suc n)))) [
  | inl newest ↦ rw newest refl
  | inr passed ↦ rw passed (last_any-in_front n f)
]

abbrev or_zero : Option ℕ → ℕ
or_zero none = 0
or_zero (some j) = j

pub last_any_below :
    (n : ℕ) (f : ℕ → WorkItem) (j : ℕ) → last_any n f ≡ some j → (j < n) × (is_any (f j) ≡ true)
unfolding last_any
last_any_below zero f j e = cc
last_any_below (suc n) f j e = elim (Bool-cases (is_any (f n))) [
  | inl newest ↦
      let same : n ≡ j = ap (λ o. or_zero o) (rw newest at e) in
      (omega (arith, same), ap (λ k. is_any (f k)) (sym same) ∙ newest)
  | inr passed ↦ let (lt, a) = last_any_below n f j (rw passed at e) in (omega (arith, lt), a)
]

behind-as_stolen :
    (n : ℕ) (f : ℕ → WorkItem) (o : Option ℕ)
    → ((j : ℕ) → o ≡ some j → j < n)
    → behind (f 0) (listing n (λ i. f (suc i))) (as_stolen n (λ i. f (suc i)) o)
      ≡ as_stolen (suc n) f (in_front (f 0) o)
unfolding listing
behind-as_stolen n f none h = elim (Bool-cases (is_any (f 0))) [
  | inl a ↦
      let same =
        listing-ext n (λ i. f (suc i)) (without 0 f)
          (λ i lt. let none_below : ltb i 0 ≡ false = ground arith in rw none_below refl) in
      let all_but_one : n ≡ suc n - 1 = omega arith in
      rw a (ap (λ xs. some (f 0, xs)) (same ∙ ap (λ m. listing m (without 0 f)) all_but_one))
  | inr b ↦ rw b refl
]
behind-as_stolen zero f (some j) h = absurd (omega (arith, h j refl))
behind-as_stolen (suc m) f (some j) h =
    let all_but_one : suc m - 1 ≡ m = omega arith in
    let one_more : suc m ≡ suc (suc m) - 1 = omega arith in
    let first : f 0 ≡ without (suc j) f 0 =
      let above : ltb 0 (suc j) ≡ true = ground arith in rw above refl in
    ap (λ k. some (f (suc j), f 0 ∷ listing k (without j (λ i. f (suc i))))) all_but_one
    ∙ ap (λ xs. some (f (suc j), f 0 ∷ xs))
        (listing-ext m (without j (λ i. f (suc i))) (λ i. without (suc j) f (suc i))
          (λ i lt. let same : ltb (suc i) (suc j) ≡ ltb i j = ground arith in rw same refl))
    ∙ ap (λ x. some (f (suc j), x ∷ listing m (λ i. without (suc j) f (suc i)))) first
    ∙ ap (λ k. some (f (suc j), listing k (without (suc j) f))) one_more

pub steal_last-listing :
    (n : ℕ) (f : ℕ → WorkItem) → steal_last (listing n f) ≡ as_stolen n f (last_any n f)
unfolding steal_last listing last_any
steal_last-listing zero f = refl
steal_last-listing (suc n) f =
    let ih = steal_last-listing n (λ i. f (suc i)) in
    rw ih (
      behind-as_stolen n f (last_any n (λ i. f (suc i)))
        (λ j e. (last_any_below n (λ i. f (suc i)) j e).0)
      ∙ ap (λ o. as_stolen (suc n) f o) (sym (last_any-in_front n f)))
