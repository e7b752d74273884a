-- ===== src/Kmem/Tests.antt =====
-- Runs of the kernel heap on a kilobyte at the address 4096.
use the_os_reborn.Common.{
  ◌⊎◌, ◌≤◌, ◌<◌, ℕ, ◌+◌, ◌-◌, ◌≡◌, ◌≢◌, refl, sym, ◌∙◌, List, [], ◌∷◌, ◌⊎◌, none, some, arith,
}
use the_os_reborn.Kmem.{
  header_size, used, available, Kmem, align, init, kmalloc, kmalloc_nolock, kfree, malloc_loop,
  split, relink,
}
use the_os_reborn.Kmem.Chain.{Block}
use the_os_reborn.Kmem.Malloc.{first_fit}
use the_os_reborn.Kmem.Search.{IsHeap, kmalloc_nolock-first_fit}
use the_os_reborn.Kmem.Free.{freed}
use the_os_reborn.Kmem.Refine.{kfree-freed}
use the_os_reborn.Kmem.Init.{init-IsHeap}
use the_os_reborn.Kmem.Wrap.{kmalloc_wraps}
use the_os_reborn.Kmem.RoundTrip.{IsFirstFit, kmalloc-kfree}

abbrev blank : Kmem
blank = record {
  heap_start = 0;
  heap_size = 0;
  header = λ i. record { state = used; size = 0; prev_malloc_header = 0 };
}

abbrev fresh : Kmem
fresh = init 4096 1020 blank

abbrev one_block : List Block
one_block = record { state = available; size = 1000 } ∷ []

fresh-IsHeap : IsHeap fresh one_block
unfolding init align
fresh-IsHeap = record {
  placed = λ e. absurd (omega (arith, e));
  last = 4096;
  chain = (refl, (refl, refl));
}

-- 97 bytes take 104 and leave a free block behind another header
abbrev carved : Kmem
carved = (kmalloc 97 fresh).0

kmalloc_payload : (kmalloc 97 fresh).1 ≡ 4120
unfolding kmalloc kmalloc_nolock malloc_loop init align split relink
kmalloc_payload = refl

payload_is_not_null : (kmalloc 97 fresh).1 ≢ 0
payload_is_not_null z = absurd (omega (arith, sym kmalloc_payload ∙ z))

kmalloc_too_large : (kmalloc 1001 fresh).1 ≡ 0
unfolding kmalloc kmalloc_nolock malloc_loop init align split relink
kmalloc_too_large = refl

abbrev full_block : List Block
full_block = record { state = used; size = 1000 } ∷ []

abbrev full : Kmem
full = record fresh { header = λ i. record { state = used; size = 1000; prev_malloc_header = 0 } }

full-IsHeap : IsHeap full full_block
unfolding init align
full-IsHeap = record {
  placed = λ e. absurd (omega (arith, e));
  last = 4096;
  chain = (refl, (refl, refl));
}

kmalloc_nolock-first_fit_example :
    ((first_fit (align 97) fresh.heap_start one_block ≡ none)
      × ((kmalloc_nolock 97 fresh).0 ≡ fresh)
      × ((kmalloc_nolock 97 fresh).1 ≡ 0))
    ⊎ ((cs : List Block) × (first_fit (align 97) fresh.heap_start one_block
          ≡ some (cs, (kmalloc_nolock 97 fresh).1))
        × IsHeap (kmalloc_nolock 97 fresh).0 cs
        × ((kmalloc_nolock 97 fresh).0.heap_start ≡ fresh.heap_start)
        × ((kmalloc_nolock 97 fresh).0.heap_size ≡ fresh.heap_size))
kmalloc_nolock-first_fit_example = kmalloc_nolock-first_fit 97 fresh one_block fresh-IsHeap

kfree-freed_example : IsHeap (kfree 4120 full) (freed [] (record { state = used; size = 1000 }) [])
unfolding init align
kfree-freed_example = kfree-freed full [] (record { state = used; size = 1000 }) [] full-IsHeap refl

kmalloc-kfree_example :
    (cs : List Block) × IsHeap (kmalloc 97 fresh).0 cs
    × IsFirstFit (align 97) fresh.heap_start one_block cs (kmalloc 97 fresh).1
    × IsHeap (kfree (kmalloc 97 fresh).1 (kmalloc 97 fresh).0) one_block
kmalloc-kfree_example = kmalloc-kfree 97 fresh one_block fresh-IsHeap (tt, tt) payload_is_not_null

init-IsHeap_example :
    IsHeap
      (init 4096 1020 blank)
      (record { state = available; size = align 1020 - header_size } ∷ [])
unfolding align
init-IsHeap_example = init-IsHeap 4096 1020 blank (λ e. absurd (omega (arith, e))) (omega arith)

abbrev huge : ℕ
huge = 0xffffffffffffffff

kmalloc_wraps_example :
    ((kmalloc huge fresh).1 ≡ fresh.heap_start + header_size)
    × (((header_size < 1000)
          × IsHeap
              (kmalloc huge fresh).0
              (record { state = used; size = 0 } ∷ record { state = available; size = 976 } ∷ []))
        ⊎ ((1000 ≤ header_size)
            × IsHeap (kmalloc huge fresh).0 (record { state = used; size = 1000 } ∷ [])))
unfolding init align
kmalloc_wraps_example =
    kmalloc_wraps huge fresh (record { state = available; size = 1000 }) [] (omega arith)
      (omega arith) fresh-IsHeap refl (omega arith)
