-- ===== src/Kmem/Init.antt =====
-- kmem_init makes a heap.
use the_os_reborn.Common.{ℕ, ◌-◌, ◌<◌, ◌≡◌, ◌≢◌, refl, false, [], ◌∷◌, ==_self, leb, arith}
use the_os_reborn.Kmem.{available, Kmem, header_size, align, init}
use the_os_reborn.Kmem.Search.{IsHeap}

-- kmem_init at a place other than NULL, with a size of more than a header when it is aligned, makes a
-- heap of one free block that takes all of it.
pub init-IsHeap :
    (start size : ℕ) (s : Kmem)
    → start ≢ 0
    → header_size < align size
    → IsHeap
        (init start size s)
        (record { state = available; size = align size - header_size } ∷ [])
unfolding init
init-IsHeap start size s nz large =
    let big : leb (align size) header_size ≡ false = ground arith in
    rw (big, init)
      (record {
        placed = nz;
        last = start;
        chain = (rw (==_self start) refl, (omega (arith, large), refl));
      })
