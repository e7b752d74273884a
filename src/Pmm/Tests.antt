-- ===== src/Pmm/Tests.antt =====
-- Runs of the physical memory manager's allocation on a region of four pages.
use mathlib.Core.List.Memᴰ
use the_os_reborn.Common.{
  ap, ◌+◌, ℕ, ◌≡◌, refl, sym, ◌∙◌, Bool, true, ◌&&◌, [], ◌∷◌, ◌==◌, ltb, inl, arith,
}
use the_os_reborn.Pmm.{
  Region, Pmm, bit_at, mmap_unset, find_bit, find_word, get_index_of_free_page, alloc_in_region,
  alloc_loop, alloc_page, page,
}
use the_os_reborn.Pmm.Search.{Finds, get_index_of_free_page-Finds}
use the_os_reborn.Pmm.Alloc.Handed.{AreApart, Run, done, next, AreDistinct, alloc_page-AreDistinct}

abbrev four : Region
four = record {
  addr_start = 0x200000;
  addr_end = 0x204000;
  addr_mmap_start = 0x200000;
  len = 0x4000;
}

-- the pages 1, 2 and 3 are marked as free
abbrev four_bits : ℕ → ℕ → Bool
four_bits a b = a == 0x200000 && ltb 0 b && ltb b 4

-- page 1 of the region belongs to the kernel
abbrev machine : Pmm
machine = record {
  regions = four ∷ [];
  boot_entries = [];
  kernel_phys_start = 0x201000;
  kernel_phys_end = 0x202000;
  kernel_virt_start = 0;
  kernel_virt_end = 0;
  kmem_initialized = true;
  bits = four_bits;
  heap = (0x8000000, 0x1000000);
}

get_index_of_free_page-Finds_example :
    Finds (λ j. bit_at four_bits 0x200000 j) 0 4 (get_index_of_free_page four_bits four)
get_index_of_free_page-Finds_example = get_index_of_free_page-Finds four_bits four (omega arith)

abbrev once : Pmm
once = (alloc_page machine).0

abbrev twice : Pmm
twice = (alloc_page once).0

four_alone : AreApart (four ∷ [])
four_alone = (
  λ r m. omega (arith, ap (λ (x : Region). x.addr_start + x.len) (Memᴰ.eq_of_singleton m)),
  λ r q m n. inl (Memᴰ.eq_of_singleton m ∙ sym (Memᴰ.eq_of_singleton n)),
)

first_alloc : alloc_page machine ≡ (once, page 0x202000)
unfolding alloc_page alloc_loop alloc_in_region get_index_of_free_page find_word find_bit mmap_unset
first_alloc = refl

second_alloc : alloc_page once ≡ (twice, page 0x203000)
unfolding alloc_page alloc_loop alloc_in_region get_index_of_free_page find_word find_bit mmap_unset
second_alloc = refl

-- the kernel's page is passed over
abbrev two_allocs : Run machine twice (0x202000 ∷ 0x203000 ∷ [])
two_allocs = next first_alloc (next second_alloc done)

alloc_page-AreDistinct_example : AreDistinct (0x202000 ∷ 0x203000 ∷ [])
alloc_page-AreDistinct_example =
    alloc_page-AreDistinct machine twice (0x202000 ∷ 0x203000 ∷ []) (omega arith, tt) four_alone
      two_allocs
