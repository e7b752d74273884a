-- ===== src/Pmm.antt =====
-- The physical memory manager: Kernel/Memory/PMM.c and Includes/Memory/PMM.h. Addresses are physical,
-- as the direct map P2V is linear. A bitmap is its bits in memory: `bits a b` is bit `b` of the 64-bit
-- word at address `a`. What kmem_init is given is kept as `heap`; what it writes lies in the heap.
pub mod Search
pub mod Alloc
pub mod Setup
mod Tests
use the_os_reborn.Common.{
  ℕ, zero, suc, ◌+◌, ◌-◌, ◌*◌, ◌/◌, ◌%◌, ◌^◌, ◌≤◌, ◌<◌, ◌≡◌, ◌≢◌, refl, sym, ap, ◌∙◌, subst, Bool,
  true, false, not, ◌&&◌, ◌||◌, List, [], ◌∷◌, ◌++◌, Option, none, some, ◌==◌, ltb, leb,
  if◌then◌else◌, update, length, get_or, set, take, drop, replicate, All, Bool-cases, Option-cases,
  ==_ne, ==_self, ==_iff, ltb→lt, lt→ltb, leb→le, ◌↔◌, ◌⊎◌, inl, inr, arith,
}
use the_os_reborn.Kmem.{header_size}

abbrev pub page_size : ℕ
page_size = 4096

abbrev pub low_memory_end : ℕ
low_memory_end = 0x100000

abbrev pub max_regions : ℕ
max_regions = 64

abbrev pub max_boot_entries : ℕ
max_boot_entries = 256

-- KMEM_HEAP_SIZE
abbrev pub kmem_heap_size : ℕ
kmem_heap_size = 16 * 1024 * 1024

abbrev pub u32 : ℕ → ℕ
u32 n = n % 2 ^ 32

abbrev pub u64 : ℕ → ℕ
u64 n = n % 2 ^ 64

-- `PMM_region_t`; `len` is the difference of the two ends
pub record Region : Type 0 where
  pub addr_start : ℕ
  pub addr_end : ℕ
  pub addr_mmap_start : ℕ
  pub len : ℕ

-- `PMM_boot_entry_t`, with the two bits of `flags`
pub record BootEntry : Type 0 where
  pub addr_start : ℕ
  pub addr_end : ℕ
  pub type : ℕ
  pub allocatable : Bool
  pub hhdm_map : Bool

-- `PMM_runtime_state_t`, the words of the bitmaps, and the start and size of the kernel's heap
pub record Pmm : Type 0 where
  pub regions : List Region
  pub boot_entries : List BootEntry
  pub kernel_phys_start : ℕ
  pub kernel_phys_end : ℕ
  pub kernel_virt_start : ℕ
  pub kernel_virt_end : ℕ
  pub kmem_initialized : Bool
  pub bits : ℕ → ℕ → Bool
  pub heap : ℕ × ℕ

pub init : ℕ → ℕ → ℕ → ℕ → Pmm → Pmm
init phys_start phys_end virt_start virt_end s = record s {
  kernel_phys_start = phys_start;
  kernel_phys_end = phys_end;
  kernel_virt_start = virt_start;
  kernel_virt_end = virt_end;
}

pub boot_entries_reset : Pmm → Pmm
boot_entries_reset s = record s { boot_entries = [] }

-- `a & ~(PHYS_PAGE_SIZE - 1)`
abbrev pub page_down : ℕ → ℕ
page_down a = a / page_size * page_size

pub boot_entry_add : ℕ → ℕ → ℕ → Bool → Bool → Pmm → Pmm × Bool
boot_entry_add addr len type allocatable hhdm s =
    let end : ℕ = u64 (addr + len) in
    let aligned_start : ℕ = page_down addr in
    let aligned_end : ℕ = page_down (u64 (end + (page_size - 1))) in
    if len == 0
    then (s, false)
    else if leb max_boot_entries (length s.boot_entries)
    then (s, false)
    else if ltb end addr
    then (s, false)
    else if leb aligned_end aligned_start
    then (s, false)
    else (
      record s {
        boot_entries =
            s.boot_entries
            ++ (record {
              addr_start = aligned_start;
              addr_end = aligned_end;
              type = type;
              allocatable = allocatable;
              hhdm_map = hhdm;
            }
                ∷ []);
      },
      true,
    )

-- the word of the bitmap at `start` that has bit `bit`
abbrev pub word_of : ℕ → ℕ → ℕ
word_of start bit = start + 8 * (bit / 64)

abbrev pub bit_at : (ℕ → ℕ → Bool) → ℕ → ℕ → Bool
bit_at bits start bit = bits (word_of start bit) (bit % 64)

-- The word and the bit in it that a parameter `int bit` names; `bit` has its 32 bits. A negative one
-- names a word in front of the bitmap, and the shift takes the last six bits of the remainder, as the
-- processor does.
abbrev pub int_word : ℕ → ℕ → ℕ
int_word start bit =
    if ltb bit (2 ^ 31) then word_of start bit else u64 (start + 2 ^ 64 - 8 * ((2 ^ 32 - bit) / 64))

abbrev pub int_shift : ℕ → ℕ
int_shift bit = if ltb bit (2 ^ 31) then bit % 64 else (64 - (2 ^ 32 - bit) % 64) % 64

abbrev pub write_bit : (ℕ → ℕ → Bool) → ℕ → ℕ → Bool → ℕ → ℕ → Bool
write_bit bits start bit value =
    update bits (int_word start bit) (update (bits (int_word start bit)) (int_shift bit) value)

pub mmap_set : ℕ → ℕ → (ℕ → ℕ → Bool) → ℕ → ℕ → Bool
mmap_set start bit bits = write_bit bits start bit true

pub mmap_unset : ℕ → ℕ → (ℕ → ℕ → Bool) → ℕ → ℕ → Bool
mmap_unset start bit bits = write_bit bits start bit false

-- memset of `size` bytes from `start` on to 0
abbrev pub clear : ℕ → ℕ → (ℕ → ℕ → Bool) → ℕ → ℕ → Bool
clear start size bits a b = if leb start a && ltb a (start + size) then false else bits a b

-- the inner loop of PMM_get_index_of_free_page, for `n` more bits of a word, the next being `bit`;
-- `base` is the index of the word's first page
pub find_bit : ℕ → ℕ → ℕ → ℕ → (ℕ → Bool) → Option ℕ
find_bit zero bit base num_pages word = none
find_bit (suc n) bit base num_pages word =
    let rest = find_bit n (bit + 1) base num_pages word in
    if not (word bit) then rest else if ltb (base + bit) num_pages then some (base + bit) else rest

-- a 64-bit word is 0
abbrev pub is_zero_from : ℕ → ℕ → (ℕ → Bool) → Bool
is_zero_from zero bit word = true
is_zero_from (suc n) bit word = not (word bit) && is_zero_from n (bit + 1) word

-- the outer loop, for `n` more words, the next being word `k`
pub find_word : ℕ → ℕ → ℕ → ℕ → (ℕ → ℕ → Bool) → Option ℕ
find_word zero k num_pages start bits = none
find_word (suc n) k num_pages start bits =
    let rest = find_word n (k + 1) num_pages start bits in
    let word : ℕ → Bool = bits (start + 8 * k) in
    if is_zero_from 64 0 word
    then rest
    else elim (find_bit 64 0 (k * 64) num_pages word) [ none ↦ rest | some page ↦ some page ]

abbrev pub pages_of : Region → ℕ
pages_of r = u32 (r.len / page_size)

-- `none` is the code's -1
pub get_index_of_free_page : (ℕ → ℕ → Bool) → Region → Option ℕ
get_index_of_free_page bits r =
    find_word (u32 (pages_of r + 63) / 64) 0 (pages_of r) r.addr_mmap_start bits

-- what the loop on one region ends with
pub data Found : Type 0 where
  page : ℕ → Found
  nothing : Found
  out_of_fuel : Found

abbrev pub page_at : Region → ℕ → ℕ
page_at r index = u64 (r.addr_start + index * page_size)

-- the hard guard of PMM_alloc_page
abbrev pub is_guarded : Pmm → ℕ → Bool
is_guarded s p = ltb p low_memory_end || (leb s.kernel_phys_start p && ltb p s.kernel_phys_end)

-- `while (TRUE)` in PMM_alloc_page. On a region of at most 2 ^ 31 pages each round clears a bit, so one
-- round more than there are pages is enough.
pub alloc_in_region : ℕ → Region → Pmm → Pmm × Found
alloc_in_region zero r s = (s, out_of_fuel)
alloc_in_region (suc fuel) r s = elim (get_index_of_free_page s.bits r) [
  | none ↦ (s, nothing)
  | some index ↦
      let t : Pmm = record s { bits = mmap_unset r.addr_mmap_start index s.bits } in
      let rest = alloc_in_region fuel r t in
      if is_guarded s (page_at r index) then rest else (t, page (page_at r index))
]

pub alloc_loop : List Region → Pmm → Pmm × Found
alloc_loop [] s = (s, nothing)
alloc_loop (r ∷ rs) s =
    let (t, found) = alloc_in_region (suc (pages_of r)) r s in
    let rest = alloc_loop rs t in
    elim found [ page p ↦ (t, page p) | nothing ↦ rest | out_of_fuel ↦ (t, out_of_fuel) ]

-- PMM_alloc_page; `nothing` is NULL
pub alloc_page : Pmm → Pmm × Found
alloc_page s = alloc_loop s.regions s

pub dealloc_page : ℕ → Pmm → Pmm
dealloc_page ptr s = s
