-- ===== src/Pmm/Setup/Pages.antt =====
-- The pages of a region that PMM_init_region adds.
use the_os_reborn.Common.{
  ℕ, suc, ◌+◌, ◌-◌, ◌*◌, ◌/◌, ◌^◌, ◌≤◌, ◌<◌, ◌≡◌, refl, sym, ap, ◌∙◌, subst, true, false, not, ◌&&◌,
  [], ◌∷◌, ◌++◌, Option, none, some, ltb, leb, if◌then◌else◌, length, Bool-cases, Option-cases, ◌⊎◌,
  inl, inr, arith,
}
use the_os_reborn.Pmm.{page_size, low_memory_end, max_regions, u64, Region, Pmm, bit_at, page_at}
use the_os_reborn.Pmm.Setup.{Scan, bounds_of, scan_start, scan_region, add_region, init_region}
use the_os_reborn.Pmm.Setup.Safe.{page, IsScan}
use the_os_reborn.Pmm.Setup.Loop.{scan-IsScan, scan_ends, bounds_of-IsWide}

scan_start-IsScan :
    (region_start region_end : ℕ) (s : Pmm)
    → IsScan
        (bounds_of region_start region_end s)
        (not s.kmem_initialized)
        (scan_start region_start s)
scan_start-IsScan region_start region_end s = record {
  index = 0;
  at_index = omega arith;
  heap_passed = omega arith;
  heap_placed = λ f k. let clash = ap not k in absurd (ground (arith, f, k));
  marked = λ start e. cc;
}

-- What holds of a page of region `r` that is marked as free in `t`, which came from `s`.
pub record IsUsable (s t : Pmm) (r : Region) (p : ℕ) : Type 0 where
  pub not_low : low_memory_end ≤ p
  pub not_kernel : (leb s.kernel_phys_start p && ltb p s.kernel_phys_end) ≡ false
  pub behind_bitmap : r.addr_mmap_start + (r.len / page_size + 63) / 64 * 8 ≤ p
  pub behind_heap : s.kmem_initialized ≡ false → t.heap.0 + t.heap.1 ≤ p
  pub inside : p + page_size ≤ r.addr_end

pub record IsAdded (s t : Pmm) (r : Region) : Type 0 where
  pub regions_are : t.regions ≡ s.regions ++ (r ∷ [])
  pub usable :
      (k : ℕ)
      → k < r.len / page_size
      → bit_at t.bits r.addr_mmap_start k ≡ true
      → IsUsable s t r (page_at r k)

abbrev new_region : ℕ → ℕ → ℕ → Region
new_region a z start = record { addr_start = a; addr_end = z; addr_mmap_start = start; len = z - a }

abbrev with_scan : Scan → Pmm → Pmm
with_scan c s = record s { kmem_initialized = c.kmem_initialized; heap = c.heap; bits = c.bits }

abbrev or_else : Pmm → Option Pmm → Pmm
or_else s none = s
or_else s (some t) = t

add_region_cases :
    (a z : ℕ) (c : Scan) (s t : Pmm)
    → add_region a z c s ≡ some t
    → (t ≡ with_scan c s)
      ⊎ ((start : ℕ) × (c.mmap_start ≡ some start)
          × (c.kmem_initialized ≡ true)
          × (t ≡ record (with_scan c s) { regions = s.regions ++ (new_region a z start ∷ []) }))
unfolding add_region
add_region_cases a z c s t e = elim (Option-cases c.mmap_start) [
  | inl none_placed ↦
      let g = rw (none_placed, add_region) at e in inl (sym (ap (λ o. or_else s o) g))
  | inr (start, at_start) ↦ elim (Bool-cases c.kmem_initialized) [
    | inr no_heap ↦ let g = rw (at_start, no_heap, add_region) at e in cc
    | inl heap ↦ elim (Bool-cases (leb max_regions (length s.regions))) [
      | inl full ↦ let g = rw (at_start, heap, full, add_region) at e in cc
      | inr room ↦
          let g = rw (at_start, heap, room, add_region) at e in
          inr (
            start,
            at_start,
            heap,
            sym (ap (λ o. or_else s o) g)
                ∙ ap
                    (λ k. record s {
                      kmem_initialized = k;
                      heap = c.heap;
                      bits = c.bits;
                      regions = s.regions ++ (new_region a z start ∷ []);
                    })
                    (sym heap),
          )
    ]
  ]
]

add_region-IsUsable :
    (a z : ℕ) (s : Pmm) (c : Scan) (start k : ℕ)
    → low_memory_end ≤ a
    → a < z
    → z - a < 2 ^ 43
    → z ≤ 2 ^ 63
    → IsScan (bounds_of a z s) (not s.kmem_initialized) c
    → c.mmap_start ≡ some start
    → c.kmem_initialized ≡ true
    → k < (z - a) / page_size
    → bit_at c.bits start k ≡ true
    → IsUsable s
        (record (with_scan c s) { regions = s.regions ++ (new_region a z start ∷ []) })
        (new_region a z start)
        (page_at (new_region a z start) k)
add_region-IsUsable a z s c start k low lt small far v at_start heap lt_k set_k =
    let (w, some_page) = bounds_of-IsWide a z s small far in
    let f = (v.marked start at_start).free k lt_k set_k in
    let r : Region = new_region a z start in
    let at_page : page (bounds_of a z s) k ≡ page_at r k = omega (arith, lt_k, lt, far) in
    subst (IsUsable s (record (with_scan c s) { regions = s.regions ++ (r ∷ []) }) r) at_page
      (record {
        not_low = omega (arith, low);
        not_kernel = f.not_kernel;
        behind_bitmap = omega (arith, f.behind_bitmap, w.wide);
        behind_heap = λ fresh. omega (arith, f.behind_heap, v.heap_placed (ap not fresh) heap);
        inside = omega (arith, lt_k, lt);
      })

add_region-IsAdded :
    (a z : ℕ) (s t : Pmm)
    → low_memory_end ≤ a
    → a < z
    → z - a < 2 ^ 43
    → z ≤ 2 ^ 63
    → add_region a z (scan_region a z s) s ≡ some t
    → (t.regions ≡ s.regions) ⊎ ((r : Region) × IsAdded s t r)
unfolding scan_region
add_region-IsAdded a z s t low lt small far e =
    let (w, some_page) = bounds_of-IsWide a z s small far in
    let c : Scan = scan_region a z s in
    let v =
      scan-IsScan (suc ((z - a) / page_size)) (bounds_of a z s) (scan_start a s)
        (not s.kmem_initialized) w (scan_start-IsScan a z s) in
    elim (add_region_cases a z c s t e) [
      | inl same ↦ inl (ap (λ (x : Pmm). x.regions) same)
      | inr (start, at_start, heap, same) ↦ inr (
        new_region a z start,
        subst (λ x. IsAdded s x (new_region a z start)) (sym same)
            (record {
              regions_are = refl;
              usable = λ k lt_k set_k.
                  add_region-IsUsable a z s c start k low lt small far v at_start heap lt_k set_k;
            }),
      )
    ]

-- The loop of PMM_init_region ends on a region of less than 2 ^ 43 bytes that does not reach above the
-- address 2 ^ 63: with one round more than the region has pages, `i` is behind the region.
pub scan_region_ends :
    (region_start region_end : ℕ) (s : Pmm)
    → region_end - region_start < 2 ^ 43
    → region_end ≤ 2 ^ 63
    → region_end ≤ (scan_region region_start region_end s).i
unfolding scan_region
scan_region_ends a z s small far =
    scan_ends (suc ((z - a) / page_size)) (bounds_of a z s) (scan_start a s)
      (bounds_of-IsWide a z s small far).1 (bounds_of-IsWide a z s small far).0 (omega arith)

-- PMM_init_region on a region of less than 2 ^ 43 bytes that does not reach above the address 2 ^ 63,
-- if it does not panic, leaves the list of regions alone or adds one region to it. Every page of that
-- region that it marks as free lies inside the region, above the first megabyte, outside the kernel,
-- behind the region's bitmap, and, if the call made the kernel's heap, behind the heap.
pub init_region-IsAdded :
    (addr len : ℕ) (s t : Pmm)
    → len < 2 ^ 43
    → addr + len ≤ 2 ^ 63
    → init_region addr len s ≡ some t
    → (t.regions ≡ s.regions) ⊎ ((r : Region) × IsAdded s t r)
unfolding init_region
init_region-IsAdded addr len s t small far e =
    let z : ℕ = u64 (addr + len) in
    let a : ℕ = (if ltb addr low_memory_end then low_memory_end else addr) in
    let same : some s ≡ some t → (t.regions ≡ s.regions) ⊎ ((r : Region) × IsAdded s t r) =
      λ g. inl (ap (λ (x : Pmm). x.regions) (sym (ap (λ o. or_else s o) g))) in
    elim (Bool-cases (leb z low_memory_end)) [
      | inl low ↦ same (rw (low, init_region) at e)
      | inr high ↦ elim (Bool-cases (leb z a)) [
        | inl empty ↦ same (rw (high, empty, init_region) at e)
        | inr real ↦
            add_region-IsAdded a z s t (ground arith) (ground (arith, real)) (ground arith)
              (omega (arith, far)) (rw (high, real, init_region) at e)
      ]
    ]
