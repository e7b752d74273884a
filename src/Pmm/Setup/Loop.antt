-- ===== src/Pmm/Setup/Loop.antt =====
-- The loop of PMM_init_region: what holds of the pages it has marked, and how far it comes.
use the_os_reborn.Common.{
  ℕ, zero, suc, ◌+◌, ◌-◌, ◌*◌, ◌/◌, ◌^◌, ◌≤◌, ◌<◌, ◌≡◌, refl, Bool, not, ◌&&◌, ◌==◌, ltb, leb,
  Bool-cases, Option-cases, ltb→lt, inl, inr, arith,
}
use the_os_reborn.Pmm.{page_size, u64, Pmm}
use the_os_reborn.Pmm.Setup.{
  Scan, Bounds, heap_size_at, place_bitmap, mark_page, scan_step, scan, bounds_of,
}
use the_os_reborn.Kmem.{header_size}
use the_os_reborn.Pmm.Setup.Safe.{
  heap_size_at_small, IsScan, IsWide, next_page, mark_page-IsScan, place_bitmap-IsScan,
}

scan_step-IsScan :
    (b : Bounds) (c : Scan) (fresh : Bool)
    → IsWide b
    → c.i < b.addr_end
    → IsScan b fresh c
    → IsScan b fresh (scan_step b c)
unfolding scan_step
scan_step-IsScan b c fresh w lt v =
    elim (Bool-cases (leb b.kernel_start c.i && ltb c.i b.kernel_end)) [
      | inl kernel ↦ rw kernel (next_page b c fresh (omega (arith, lt, w.low)) v)
      | inr not_kernel ↦ elim (Option-cases c.mmap_start) [
        | inl e ↦ rw (not_kernel, e) (place_bitmap-IsScan b c fresh w lt e v)
        | inr (start, e) ↦ rw (not_kernel, e) (mark_page-IsScan b start c fresh w lt not_kernel e v)
      ]
    ]

pub scan-IsScan :
    (fuel : ℕ) (b : Bounds) (c : Scan) (fresh : Bool)
    → IsWide b
    → IsScan b fresh c
    → IsScan b fresh (scan fuel b c)
unfolding scan
scan-IsScan zero b c fresh w v = v
scan-IsScan (suc fuel) b c fresh w v = elim (Bool-cases (ltb c.i b.addr_end)) [
  | inr over ↦ rw over v
  | inl more ↦ rw more (
      scan-IsScan fuel b (scan_step b c) fresh w (scan_step-IsScan b c fresh w (ltb→lt _ _ more) v))
]

mark_page_advances :
    (b : Bounds) (start : ℕ) (c : Scan) → (mark_page b start c).i ≡ u64 (c.i + page_size)
unfolding mark_page
mark_page_advances b start c = ground arith

place_bitmap_advances :
    (b : Bounds) (c : Scan)
    → 0 < b.mmap_num_pages
    → IsWide b
    → c.i < b.addr_end
    → c.i + page_size ≤ (place_bitmap b c).i
unfolding place_bitmap
place_bitmap_advances b c some_page w lt =
    let i : ℕ = u64 (c.i + b.mmap_num_pages * page_size) in
    let at_i : i ≡ c.i + b.mmap_num_pages * page_size = omega (arith, lt, w.low, w.short) in
    let small = heap_size_at_small b i in
    elim (Bool-cases (not c.kmem_initialized && ltb (header_size + 8) (heap_size_at b i))) [
      | inl heap_too ↦ rw heap_too (omega (arith, at_i, small, lt, w.low, w.short, some_page))
      | inr no_heap ↦ rw no_heap (omega (arith, at_i, some_page))
    ]

scan_step_advances :
    (b : Bounds) (c : Scan)
    → 0 < b.mmap_num_pages
    → IsWide b
    → c.i < b.addr_end
    → c.i + page_size ≤ (scan_step b c).i
unfolding scan_step
scan_step_advances b c some_page w lt =
    elim (Bool-cases (leb b.kernel_start c.i && ltb c.i b.kernel_end)) [
      | inl kernel ↦ rw kernel (omega (arith, lt, w.low))
      | inr not_kernel ↦ elim (Option-cases c.mmap_start) [
        | inl e ↦ rw (not_kernel, e) (place_bitmap_advances b c some_page w lt)
        | inr (start, e) ↦
            rw (not_kernel, e) (omega (arith, mark_page_advances b start c, lt, w.low))
      ]
    ]

-- with a round for every page that is left, the loop ends behind the region
pub scan_ends :
    (fuel : ℕ) (b : Bounds) (c : Scan)
    → 0 < b.mmap_num_pages
    → IsWide b
    → b.addr_end ≤ c.i + fuel * page_size
    → b.addr_end ≤ (scan fuel b c).i
unfolding scan
scan_ends zero b c some_page w enough = omega arith
scan_ends (suc fuel) b c some_page w enough = elim (Bool-cases (ltb c.i b.addr_end)) [
  | inr over ↦ rw over (ground (arith, over))
  | inl more ↦ rw more (
      scan_ends fuel b (scan_step b c) some_page w
        (omega (arith, scan_step_advances b c some_page w (ltb→lt _ _ more), enough)))
]

pub bounds_of-IsWide :
    (region_start region_end : ℕ) (s : Pmm)
    → region_end - region_start < 2 ^ 43
    → region_end ≤ 2 ^ 63
    → IsWide (bounds_of region_start region_end s)
      × (0 < (bounds_of region_start region_end s).mmap_num_pages)
bounds_of-IsWide region_start region_end s small low =
    let n : ℕ = (region_end - region_start) / page_size in
    let bytes : ℕ = (n + 63) / 64 * 8 in
    let m : ℕ = (bytes + (page_size - 1)) / page_size in
    elim (Bool-cases (m == 0)) [
      | inl z ↦ rw z (
        record {
          wide = ground (arith, z);
          few = omega arith;
          low = low;
          short = omega arith;
          pages = refl;
        },
        omega arith,
      )
      | inr nz ↦ rw nz (
        record {
          wide = omega arith;
          few = omega arith;
          low = low;
          short = omega (arith, small);
          pages = refl;
        },
        ground (arith, nz),
      )
    ]
