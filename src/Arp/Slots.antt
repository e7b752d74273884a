-- ===== src/Arp/Slots.antt =====
-- The slot that ARP_upsert_locked writes: the address's own, else a free one, else the dynamic entry
-- that was updated longest ago.
use the_os_reborn.Common.{
  ℕ, suc, ◌+◌, ◌≤◌, ◌<◌, ◌≡◌, sym, ◌∙◌, true, false, List, [], ◌∷◌, Option, none, some, get_or,
  length, All, inl, inr, ◌⊎◌, Option-cases, arith,
}
use the_os_reborn.Arp.{
  Entry, Arp, uint64_max, zero_entry, find_unused, find_oldest, find_replace_slot_locked,
}

-- no dynamic entry was updated before `t`
abbrev pub NoneBefore : ℕ → List Entry → Type 0
NoneBefore t es = All (λ e. e.permanent ≡ false → t ≤ e.updated_ticks) es

NoneBefore-mono : (t u : ℕ) (es : List Entry) → t ≤ u → NoneBefore u es → NoneBefore t es
NoneBefore-mono t u [] h n = tt
NoneBefore-mono t u (e ∷ es) h n = (λ p. omega (arith, n.0 p), NoneBefore-mono t u es h n.1)

-- every entry is in use
abbrev pub IsFull : List Entry → Type 0
IsFull es = All (λ e. e.used ≡ true) es

find_unused-cons :
    (e : Entry) (es : List Entry) (i : ℕ)
    → ((e.used ≡ false) × (find_unused (e ∷ es) i ≡ some i))
      ⊎ ((e.used ≡ true) × (find_unused (e ∷ es) i ≡ find_unused es (i + 1)))
unfolding find_unused
find_unused-cons e es i = ground arith

pub find_unused-some :
    (es : List Entry) (i k : ℕ)
    → find_unused es i ≡ some k
    → (j : ℕ) × (k ≡ i + j) × (j < length es) × ((get_or es j zero_entry).used ≡ false)
unfolding find_unused
find_unused-some [] i k h = cc
find_unused-some (e ∷ es) i k h = elim (find_unused-cons e es i) [
  | inl (u, f) ↦ let e : k ≡ i = ground arith in (0, omega arith, omega arith, u)
  | inr (_, f) ↦
      let (j, k', lt, u) = find_unused-some es (i + 1) k (sym f ∙ h) in
      (suc j, omega arith, omega arith, u)
]

pub find_unused-none : (es : List Entry) (i : ℕ) → find_unused es i ≡ none → IsFull es
unfolding find_unused
find_unused-none [] i h = tt
find_unused-none (e ∷ es) i h = (ground arith, find_unused-none es (i + 1) (ground arith))

-- entry `j` is dynamic, and no dynamic entry is older
pub record IsOldest (es : List Entry) (j : ℕ) : Type 0 where
  pub inside : j < length es
  pub dynamic : (get_or es j zero_entry).permanent ≡ false
  pub oldest : NoneBefore (get_or es j zero_entry).updated_ticks es

abbrev Chosen : List Entry → ℕ → Option ℕ → ℕ → ℕ → Type 0
Chosen es i slot ticks k =
    ((slot ≡ some k) × NoneBefore (suc ticks) es)
    ⊎ ((j : ℕ) × (k ≡ i + j) × ((get_or es j zero_entry).updated_ticks ≤ ticks) × IsOldest es j)

find_oldest-cons :
    (e : Entry) (es : List Entry) (i : ℕ) (slot : Option ℕ) (ticks : ℕ)
    → ((e.permanent ≡ false)
        × (e.updated_ticks ≤ ticks)
        × (find_oldest (e ∷ es) i slot ticks ≡ find_oldest es (i + 1) (some i) e.updated_ticks))
      ⊎ ((e.permanent ≡ false → suc ticks ≤ e.updated_ticks)
          × (find_oldest (e ∷ es) i slot ticks ≡ find_oldest es (i + 1) slot ticks))
unfolding find_oldest
find_oldest-cons e es i slot ticks = ground arith

find_oldest-some :
    (es : List Entry) (i : ℕ) (slot : Option ℕ) (ticks k : ℕ)
    → find_oldest es i slot ticks ≡ some k
    → Chosen es i slot ticks k
unfolding find_oldest
find_oldest-some [] i slot ticks k h = inl (h, tt)
find_oldest-some (e ∷ es) i slot ticks k h = elim (find_oldest-cons e es i slot ticks) [
  | inl (p, le, f) ↦ elim (find_oldest-some es (i + 1) (some i) e.updated_ticks k (sym f ∙ h)) [
    | inl (s, n) ↦
        let q : k ≡ i = ground arith in
        inr (
          0,
          omega arith,
          le,
          record {
            inside = omega arith;
            dynamic = p;
            oldest = (λ _. omega arith, NoneBefore-mono _ _ es (omega arith) n);
          },
        )
    | inr (j, q, lt, o) ↦ inr (
      suc j,
      omega arith,
      omega arith,
      record {
        inside = omega (arith, o.inside);
        dynamic = o.dynamic;
        oldest = (λ _. lt, o.oldest);
      },
    )
  ]
  | inr (p, f) ↦ elim (find_oldest-some es (i + 1) slot ticks k (sym f ∙ h)) [
    | inl (s, n) ↦ inl (s, (p, n))
    | inr (j, q, lt, o) ↦ inr (
      suc j,
      omega arith,
      lt,
      record {
        inside = omega (arith, o.inside);
        dynamic = o.dynamic;
        oldest = (λ d. omega (arith, p d), o.oldest);
      },
    )
  ]
]

find_replace_full :
    (s : Arp)
    → find_unused s.entries 0 ≡ none
    → find_replace_slot_locked s ≡ find_oldest s.entries 0 none uint64_max
unfolding find_replace_slot_locked
find_replace_full s h = ground arith

find_replace_free :
    (s : Arp) (i : ℕ) → find_unused s.entries 0 ≡ some i → find_replace_slot_locked s ≡ some i
unfolding find_replace_slot_locked
find_replace_free s i h = ground arith

-- The replacement slot is free, or the table is full and the slot holds the oldest dynamic entry.
pub find_replace_slot_locked-some :
    (s : Arp) (k : ℕ)
    → find_replace_slot_locked s ≡ some k
    → (k < length s.entries)
      × (((get_or s.entries k zero_entry).used ≡ false) ⊎ (IsFull s.entries × IsOldest s.entries k))
find_replace_slot_locked-some s k h = elim (Option-cases (find_unused s.entries 0)) [
  | inl full ↦
      elim (find_oldest-some s.entries 0 none uint64_max k (sym (find_replace_full s full) ∙ h)) [
        | inl (e, _) ↦ cc
        | inr (j, e, _, o) ↦
            let q : k ≡ j = omega arith in
            rw q (o.inside, inr (find_unused-none s.entries 0 full, o))
      ]
  | inr (i, free) ↦
      let (j, e, lt, u) = find_unused-some s.entries 0 i free in
      let same = find_replace_free s i free in let q : k ≡ j = ground arith in rw q (lt, inl u)
]

find_oldest-none :
    (es : List Entry) (i : ℕ) (slot : Option ℕ) (ticks : ℕ)
    → find_oldest es i slot ticks ≡ none
    → (slot ≡ none) × NoneBefore (suc ticks) es
unfolding find_oldest
find_oldest-none [] i slot ticks h = (h, tt)
find_oldest-none (e ∷ es) i slot ticks h = elim (find_oldest-cons e es i slot ticks) [
  | inl (_, _, f) ↦
      let (bad, _) = find_oldest-none es (i + 1) (some i) e.updated_ticks (sym f ∙ h) in cc
  | inr (p, f) ↦ let (z, n) = find_oldest-none es (i + 1) slot ticks (sym f ∙ h) in (z, (p, n))
]

-- There is no slot only if the table is full, and no dynamic entry has a tick that a uint64 holds.
pub find_replace_slot_locked-none :
    (s : Arp)
    → find_replace_slot_locked s ≡ none
    → IsFull s.entries × NoneBefore (suc uint64_max) s.entries
find_replace_slot_locked-none s h = elim (Option-cases (find_unused s.entries 0)) [
  | inl full ↦ (
    find_unused-none s.entries 0 full,
    (find_oldest-none s.entries 0 none uint64_max (sym (find_replace_full s full) ∙ h)).1,
  )
  | inr (i, free) ↦ let same = find_replace_free s i free in cc
]
