-- ===== src/Pmm/Setup/Tests.antt =====
-- PMM_init_region on a region of sixteen pages.
use the_os_reborn.Common.{◌≤◌, ◌≡◌, refl, true, false, [], Option, none, some, ◌⊎◌, arith}
use the_os_reborn.Pmm.{Region, Pmm, bit_at, mmap_set}
use the_os_reborn.Pmm.Setup.{
  scan, scan_step, scan_region, place_bitmap, mark_page, add_region, init_region,
}
use the_os_reborn.Pmm.Setup.Pages.{IsAdded, scan_region_ends, init_region-IsAdded}

-- nothing is set up
abbrev bare : Pmm
bare = record {
  regions = [];
  boot_entries = [];
  kernel_phys_start = 0x201000;
  kernel_phys_end = 0x202000;
  kernel_virt_start = 0;
  kernel_virt_end = 0;
  kmem_initialized = false;
  bits = (λ a b. true);
  heap = (0, 0);
}

scan_region_ends_example : 0x210000 ≤ (scan_region 0x200000 0x210000 bare).i
scan_region_ends_example = scan_region_ends 0x200000 0x210000 bare (omega arith) (omega arith)

-- with the kernel's heap made before
abbrev with_heap : Pmm
with_heap = record bare { kmem_initialized = true; heap = (0x8000000, 0x1000000) }

abbrev state_of : Option Pmm → Pmm
state_of none = bare
state_of (some t) = t

abbrev added : Pmm
added = state_of (init_region 0x200000 0x10000 with_heap)

is_added : init_region 0x200000 0x10000 with_heap ≡ some added
unfolding init_region scan_region scan scan_step place_bitmap mark_page mmap_set add_region
is_added = refl

-- the page behind the bitmap is the kernel's, the next one is free
first_pages :
    (bit_at added.bits 0x200000 0 ≡ false)
    × (bit_at added.bits 0x200000 1 ≡ false)
    × (bit_at added.bits 0x200000 2 ≡ true)
unfolding init_region scan_region scan scan_step place_bitmap mark_page mmap_set add_region
first_pages = (refl, refl, refl)

init_region-IsAdded_example :
    (added.regions ≡ with_heap.regions) ⊎ ((r : Region) × IsAdded with_heap added r)
init_region-IsAdded_example =
    init_region-IsAdded 0x200000 0x10000 with_heap added (omega arith) (omega arith) is_added

-- without a heap, the heap is laid over the kernel's page
heap_over_kernel : (state_of (init_region 0x200000 0x10000 bare)).heap ≡ (0x201000, 0xf000)
unfolding init_region scan_region scan scan_step place_bitmap mark_page mmap_set add_region
heap_over_kernel = refl
