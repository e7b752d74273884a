-- ===== src/Pmm/Alloc.antt =====
-- The loop of PMM_alloc_page on one region.
pub mod Handed
use the_os_reborn.Common.{
  ℕ, zero, suc, ◌+◌, ◌-◌, ◌*◌, ◌/◌, ◌%◌, ◌^◌, ◌≤◌, ◌<◌, ◌≡◌, ◌≢◌, refl, sym, ap, ◌∙◌, subst, Bool,
  true, false, not, ◌&&◌, ◌||◌, List, [], ◌∷◌, ◌++◌, Option, none, some, ◌==◌, ltb, leb,
  if◌then◌else◌, update, length, get_or, set, take, drop, replicate, All, Bool-cases, Option-cases,
  ==_ne, ==_self, ==_iff, ltb→lt, lt→ltb, leb→le, ◌↔◌, ◌⊎◌, inl, inr, arith,
}
use the_os_reborn.Pmm.{
  page_size, low_memory_end, u32, Region, Pmm, bit_at, write_bit, mmap_unset, pages_of, page_at,
  get_index_of_free_page, is_guarded, Found, page, nothing, out_of_fuel, alloc_in_region,
  alloc_loop, alloc_page,
}
use the_os_reborn.Pmm.Search.{IsFirst, Finds, free_page-Finds}

abbrev pub bit_of : Pmm → Region → ℕ → Bool
bit_of s r k = bit_at s.bits r.addr_mmap_start k

-- how many of the first `n` pages are free
pub count : (ℕ → Bool) → ℕ → ℕ
count f zero = 0
count f (suc n) = count f n + (if f n then 1 else 0)

-- nothing but bits was changed, and none was set
pub record Consumes (s t : Pmm) : Type 0 where
  pub regions : t.regions ≡ s.regions
  pub kernel_start : t.kernel_phys_start ≡ s.kernel_phys_start
  pub kernel_end : t.kernel_phys_end ≡ s.kernel_phys_end
  pub cleared : (a b : ℕ) → t.bits a b ≡ true → s.bits a b ≡ true

pub Consumes-refl : (s : Pmm) → Consumes s s
Consumes-refl s = record {
  regions = refl;
  kernel_start = refl;
  kernel_end = refl;
  cleared = λ a b h. h;
}

pub Consumes-trans : (s t u : Pmm) → Consumes s t → Consumes t u → Consumes s u
Consumes-trans s t u f g = record {
  regions = g.regions ∙ f.regions;
  kernel_start = g.kernel_start ∙ f.kernel_start;
  kernel_end = g.kernel_end ∙ f.kernel_end;
  cleared = λ a b h. f.cleared a b (g.cleared a b h);
}

abbrev taken : Pmm → Region → ℕ → Pmm
taken s r k = record s { bits = mmap_unset r.addr_mmap_start k s.bits }

unset-Consumes : (s : Pmm) (r : Region) (k : ℕ) → Consumes s (taken s r k)
unfolding mmap_unset
unset-Consumes s r k = record {
  regions = refl;
  kernel_start = refl;
  kernel_end = refl;
  cleared = λ a b h. ground (arith, h);
}

unset-bit :
    (s : Pmm) (r : Region) (k j : ℕ)
    → k < 2 ^ 31
    → bit_of (taken s r k) r j ≡ (if k == j then false else bit_of s r j)
unfolding mmap_unset
unset-bit s r k j small =
    let positive : ltb k (2 ^ 31) ≡ true = lt→ltb _ _ small in rw positive (ground arith)

count-unset_below :
    (s : Pmm) (r : Region) (k n : ℕ)
    → k < 2 ^ 31
    → n ≤ k
    → count (bit_of (taken s r k) r) n ≡ count (bit_of s r) n
unfolding count
count-unset_below s r k zero small le = refl
count-unset_below s r k (suc n) small le =
    let other : (k == n) ≡ false = ground arith in
    let same : bit_of (taken s r k) r n ≡ bit_of s r n = unset-bit s r k n small ∙ rw other refl in
    rw same (omega (arith, count-unset_below s r k n small (omega arith)))

-- a set bit fewer
count-unset :
    (s : Pmm) (r : Region) (k n : ℕ)
    → k < 2 ^ 31
    → k < n
    → bit_of s r k ≡ true
    → suc (count (bit_of (taken s r k) r) n) ≡ count (bit_of s r) n
unfolding count
count-unset s r k zero small lt h = absurd (omega arith)
count-unset s r k (suc n) small lt h = elim (Bool-cases (k == n)) [
  | inl last ↦
      let at_n : bit_of s r n ≡ true = ap (λ x. bit_of s r x) (sym ((==_iff k n).0 last)) ∙ h in
      let gone : bit_of (taken s r k) r n ≡ false = unset-bit s r k n small ∙ rw last refl in
      rw (at_n, gone)
        (omega (arith, count-unset_below s r k n small (omega (arith, (==_iff k n).0 last))))
  | inr earlier ↦
      let same : bit_of (taken s r k) r n ≡ bit_of s r n =
        unset-bit s r k n small ∙ rw earlier refl in
      let ih = count-unset s r k n small (ground (arith, earlier)) h in rw same (omega (arith, ih))
]

pub count-le : (f : ℕ → Bool) (n : ℕ) → count f n ≤ n
unfolding count
count-le f zero = omega arith
count-le f (suc n) = elim (Bool-cases (f n)) [
  | inl a ↦ rw a (omega (arith, count-le f n))
  | inr b ↦ rw b (omega (arith, count-le f n))
]

-- above the first megabyte and outside the kernel
abbrev pub IsOutside : Pmm → ℕ → Type 0
IsOutside s p = (low_memory_end ≤ p) × ((p < s.kernel_phys_start) ⊎ (s.kernel_phys_end ≤ p))

unguarded-IsOutside : (s : Pmm) (p : ℕ) → is_guarded s p ≡ false → IsOutside s p
unguarded-IsOutside s p h = elim (Bool-cases (leb s.kernel_phys_start p)) [
  | inl above ↦ (ground (arith, h), inr (ground (arith, h, above)))
  | inr below ↦ (ground (arith, h), inl (ground (arith, below)))
]

-- what the allocator found in region `r`, going from `s` to `t`
abbrev pub IsFound : Pmm → Pmm → Region → Found → Type 0
IsFound s t r (page p) =
    (k : ℕ) × (k < pages_of r)
    × (p ≡ page_at r k)
    × (bit_of s r k ≡ true)
    × (bit_of t r k ≡ false)
    × IsOutside s p
IsFound s t r nothing = (k : ℕ) → k < pages_of r → bit_of t r k ≡ false
IsFound s t r out_of_fuel = ⊥

IsOutside-earlier : (s t : Pmm) (p : ℕ) → Consumes s t → IsOutside t p → IsOutside s p
IsOutside-earlier s t p c (high, inl before) = (high, inl (omega (arith, before, c.kernel_start)))
IsOutside-earlier s t p c (high, inr behind) = (high, inr (omega (arith, behind, c.kernel_end)))

pub IsFound-earlier :
    (s t u : Pmm) (r : Region) (f : Found) → Consumes s t → IsFound t u r f → IsFound s u r f
IsFound-earlier s t u r (page p) c (k, lt, e, is_set, gone, free) =
    (k, lt, e, c.cleared _ _ is_set, gone, IsOutside-earlier s t p c free)
IsFound-earlier s t u r nothing c h = h
IsFound-earlier s t u r out_of_fuel c h = h

-- with more rounds than free pages the loop on a region ends by itself
pub alloc_in_region-IsFound :
    (fuel : ℕ) (r : Region) (s : Pmm)
    → pages_of r ≤ 2 ^ 31
    → count (bit_of s r) (pages_of r) < fuel
    → Consumes s (alloc_in_region fuel r s).0
      × IsFound s (alloc_in_region fuel r s).0 r (alloc_in_region fuel r s).1
unfolding alloc_in_region
alloc_in_region-IsFound zero r s small lt = absurd (omega arith)
alloc_in_region-IsFound (suc fuel) r s small lt =
    let search = free_page-Finds s.bits r (omega (arith, small)) in
    elim (Option-cases (get_index_of_free_page s.bits r)) [
      | inl e ↦
          let none_left = subst (Finds (bit_of s r) 0 (pages_of r)) e search in
          rw (e, alloc_in_region) (Consumes-refl s, λ k lt_k. none_left k (omega arith) lt_k)
      | inr (k, e) ↦
          let first = subst (Finds (bit_of s r) 0 (pages_of r)) e search in
          let t : Pmm = taken s r k in
          let few : k < 2 ^ 31 = omega (arith, first.below, small) in
          let step = unset-Consumes s r k in
          elim (Bool-cases (is_guarded s (page_at r k))) [
            | inr free ↦
                rw (e, alloc_in_region)
                  (rw free (
                    step,
                    (
                      k,
                      first.below,
                      refl,
                      first.is_set,
                      unset-bit s r k k few ∙ rw (==_self k) refl,
                      unguarded-IsOutside s (page_at r k) free,
                    ),
                  ))
            | inl guarded ↦
                let fewer = count-unset s r k (pages_of r) few first.below first.is_set in
                let (c, f) = alloc_in_region-IsFound fuel r t small (omega (arith, fewer, lt)) in
                rw (e, alloc_in_region)
                  (rw guarded (
                    Consumes-trans s t (alloc_in_region fuel r t).0 step c,
                    IsFound-earlier s t (alloc_in_region fuel r t).0 r (alloc_in_region fuel r t).1
                        step f,
                  ))
          ]
    ]
