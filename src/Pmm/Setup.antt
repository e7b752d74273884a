-- ===== src/Pmm/Setup.antt =====
-- PMM_init_region and PMM_promote_boot_entries_to_allocatable of Kernel/Memory/PMM.c. A panic is
-- `none`.
pub mod Safe
mod Loop
pub mod Pages
mod Tests
use the_os_reborn.Common.{
  ℕ, zero, suc, ◌+◌, ◌-◌, ◌*◌, ◌/◌, ◌%◌, ◌^◌, ◌≤◌, ◌<◌, ◌≡◌, ◌≢◌, refl, sym, ap, ◌∙◌, subst, Bool,
  true, false, not, ◌&&◌, ◌||◌, List, [], ◌∷◌, ◌++◌, Option, none, some, ◌==◌, ltb, leb,
  if◌then◌else◌, update, length, get_or, set, take, drop, replicate, All, Bool-cases, Option-cases,
  ==_ne, ==_self, ==_iff, ltb→lt, lt→ltb, leb→le, ◌↔◌, ◌⊎◌, inl, inr, arith,
}
use the_os_reborn.Kmem.{header_size}
use the_os_reborn.Pmm.{
  page_size, low_memory_end, max_regions, kmem_heap_size, u32, u64, Region, BootEntry, Pmm,
  page_down, mmap_set, clear,
}

-- What the loop of PMM_init_region has in its variables, and what it changes. `mmap_start` is `none`
-- for the code's (uintptr_t) -1; `reserved` is the part that this call gave to the heap.
pub record Scan : Type 0 where
  pub i : ℕ
  pub mmap_start : Option ℕ
  pub reserved : ℕ × ℕ
  pub kmem_initialized : Bool
  pub heap : ℕ × ℕ
  pub bits : ℕ → ℕ → Bool

-- what stays the same in the loop
pub record Bounds : Type 0 where
  pub addr_start : ℕ
  pub addr_end : ℕ
  pub num_pages : ℕ
  pub mmap_num_pages : ℕ
  pub kernel_start : ℕ
  pub kernel_end : ℕ

-- the size that the heap gets when it begins at `i`
abbrev pub heap_size_at : Bounds → ℕ → ℕ
heap_size_at b i =
    let size : ℕ = page_down (if ltb i b.addr_end then b.addr_end - i else 0) in
    if ltb kmem_heap_size size then kmem_heap_size else size

-- The bitmap, and the heap if there is none, are placed at `c.i`; `i` is then where the next round
-- begins.
pub place_bitmap : Bounds → Scan → Scan
place_bitmap b c =
    let i : ℕ = u64 (c.i + b.mmap_num_pages * page_size) in
    let size : ℕ = heap_size_at b i in
    let placed : Scan = record c {
      i = i;
      mmap_start = some c.i;
      bits = clear c.i (b.mmap_num_pages * page_size) c.bits;
    } in
    if not c.kmem_initialized && ltb (header_size + 8) size
    then record placed {
      i = u64 (i + size);
      reserved = (i, u64 (i + size));
      kmem_initialized = true;
      heap = (i, size);
    }
    else placed

-- the page at `c.i` is marked as free, if it is one that counts
pub mark_page : Bounds → ℕ → Scan → Scan
mark_page b start c =
    let bit : ℕ = u32 (u64 (c.i + 2 ^ 64 - b.addr_start) / page_size) in
    let next : Scan = record c { i = u64 (c.i + page_size) } in
    if not (c.reserved.0 == 0) && leb c.reserved.0 c.i && ltb c.i c.reserved.1
    then next
    else if ltb bit b.num_pages
    then record next { bits = mmap_set start bit c.bits }
    else next

-- one round of the loop
pub scan_step : Bounds → Scan → Scan
scan_step b c =
    if leb b.kernel_start c.i && ltb c.i b.kernel_end
    then record c { i = u64 (c.i + page_size) }
    else elim c.mmap_start [ none ↦ place_bitmap b c | some start ↦ mark_page b start c ]

-- A round passes a page at least, unless `i` wraps behind the last page of the address space, where the
-- loop of the code may go on for ever.
pub scan : ℕ → Bounds → Scan → Scan
scan zero b c = c
scan (suc fuel) b c =
    let rest = scan fuel b (scan_step b c) in if ltb c.i b.addr_end then rest else c

abbrev pub bounds_of : ℕ → ℕ → Pmm → Bounds
bounds_of region_start region_end s =
    let num_pages : ℕ = (region_end - region_start) / page_size in
    let bitmap_bytes : ℕ = (num_pages + 63) / 64 * 8 in
    let mmap_num_pages : ℕ = (bitmap_bytes + (page_size - 1)) / page_size in
    record {
      addr_start = region_start;
      addr_end = region_end;
      num_pages = num_pages;
      mmap_num_pages = (if mmap_num_pages == 0 then 1 else mmap_num_pages);
      kernel_start = s.kernel_phys_start;
      kernel_end = s.kernel_phys_end;
    }

abbrev pub scan_start : ℕ → Pmm → Scan
scan_start region_start s = record {
  i = region_start;
  mmap_start = none;
  reserved = (0, 0);
  kmem_initialized = s.kmem_initialized;
  heap = s.heap;
  bits = s.bits;
}

-- the loop on a region, from its start to its end
pub scan_region : ℕ → ℕ → Pmm → Scan
scan_region region_start region_end s =
    scan (suc ((region_end - region_start) / page_size)) (bounds_of region_start region_end s)
      (scan_start region_start s)

-- the end of PMM_init_region
pub add_region : ℕ → ℕ → Scan → Pmm → Option Pmm
add_region region_start region_end c s =
    let t : Pmm = record s {
      kmem_initialized = c.kmem_initialized;
      heap = c.heap;
      bits = c.bits;
    } in
    elim c.mmap_start [
      | none ↦ some t
      | some start ↦
          if not c.kmem_initialized
          then none
          else if leb max_regions (length s.regions)
          then none
          else some (record t {
            regions =
                s.regions
                ++ (record {
                  addr_start = region_start;
                  addr_end = region_end;
                  addr_mmap_start = start;
                  len = region_end - region_start;
                }
                    ∷ []);
          })
    ]

pub init_region : ℕ → ℕ → Pmm → Option Pmm
init_region addr len s =
    let region_end : ℕ = u64 (addr + len) in
    let region_start : ℕ = (if ltb addr low_memory_end then low_memory_end else addr) in
    if leb region_end low_memory_end
    then some s
    else if leb region_end region_start
    then some s
    else add_region region_start region_end (scan_region region_start region_end s) s

-- PMM_promote_boot_entries_to_allocatable: the two counters, with the entries passed in `done`
pub promote_loop :
    ℕ → List BootEntry → List BootEntry → ℕ → ℕ → Pmm → Option (Pmm × List BootEntry × ℕ × ℕ)
promote_loop type [] done regions pages s = some (s, done, regions, pages)
promote_loop type (e ∷ es) done regions pages s = elim (not (e.type == type) || e.allocatable) [
  | true ↦ promote_loop type es (done ++ (e ∷ [])) regions pages s
  | false ↦ elim (init_region e.addr_start (e.addr_end - e.addr_start) s) [
    | none ↦ none
    | some t ↦ elim (leb (length t.regions) (length s.regions)) [
      | true ↦ promote_loop type es (done ++ (e ∷ [])) regions pages t
      | false ↦
          promote_loop type es (done ++ (record e { allocatable = true } ∷ [])) (u64 (regions + 1))
            (u64 (pages + last_pages t.regions)) t
    ]
  ]
]
  where
    last_pages : List Region → ℕ
    last_pages [] = 0
    last_pages (r ∷ []) = r.len / page_size
    last_pages (r ∷ q ∷ rs) = last_pages (q ∷ rs)

pub promote_boot_entries_to_allocatable : ℕ → Pmm → Option (Pmm × Bool × ℕ × ℕ)
promote_boot_entries_to_allocatable type s = elim (promote_loop type s.boot_entries [] 0 0 s) [
  | none ↦ none
  | some (t, entries, regions, pages) ↦
      some (record t { boot_entries = entries }, not (regions == 0), regions, pages)
]
