-- ===== src/Kmem/Wrap.antt =====
-- Requests so large that kmem_align wraps around.
use the_os_reborn.Common.{
  ◌⊎◌, Bool-cases, ltb→lt, ltb, lt→ltb, subst, ℕ, ◌+◌, ◌-◌, ◌^◌, ◌≤◌, ◌<◌, ◌≡◌, ◌≢◌, refl, sym, ap,
  ◌∙◌, true, false, List, ◌∷◌, ==_ne, leb, inl, inr, arith,
}
use the_os_reborn.Kmem.{used, available, Kmem, header_size, align, kmalloc, kmalloc_nolock}
use the_os_reborn.Kmem.Chain.{Block}
use the_os_reborn.Kmem.Malloc.{block_fits, carve, first_fit}
use the_os_reborn.Kmem.Search.{IsHeap, kmalloc_nolock-first_fit, first_fit-taken}

align_wraps : (size : ℕ) → 2 ^ 64 - 7 ≤ size → size < 2 ^ 64 → align size ≡ 0
unfolding align
align_wraps size lo hi = omega arith

enter_heap :
    (size : ℕ) (s : Kmem)
    → size ≢ 0
    → s.heap_start ≢ 0
    → header_size < s.heap_size
    → kmalloc size s ≡ kmalloc_nolock size s
unfolding kmalloc
enter_heap size s nz start large =
    let big : leb s.heap_size header_size ≡ false = ground arith in
    rw (==_ne size 0 nz, ==_ne s.heap_start 0 start, big) refl

carve_larger :
    (b : Block) (bs : List Block)
    → header_size < b.size
    → carve b 0 bs
      ≡ record { state = used; size = 0 }
        ∷ record { state = available; size = b.size - header_size }
        ∷ bs
carve_larger b bs lt =
    let larger : ltb header_size (b.size - 0) ≡ true = lt→ltb _ _ (omega (arith, lt)) in
    rw larger (
      ap (λ n. record { state = used; size = 0 } ∷ record { state = available; size = n } ∷ bs)
        (omega arith))

carve_smaller :
    (b : Block) (bs : List Block)
    → b.size ≤ header_size
    → carve b 0 bs ≡ record { state = used; size = b.size } ∷ bs
carve_smaller b bs le =
    let smaller : ltb header_size (b.size - 0) ≡ false = ground (arith, le) in rw smaller refl

-- kmalloc of 2 ^ 64 - 7 to 2 ^ 64 - 1 bytes succeeds on a heap larger than a header whose first block
-- is free: the aligned size wraps to 0, and the payload returned is that of the first block. It then
-- has no bytes at all if the block was larger than a header, a free block having the rest behind a
-- second header; otherwise it is the whole block.
pub kmalloc_wraps :
    (size : ℕ) (s : Kmem) (b : Block) (bs : List Block)
    → 2 ^ 64 - 7 ≤ size
    → size < 2 ^ 64
    → IsHeap s (b ∷ bs)
    → b.state ≡ available
    → header_size < s.heap_size
    → ((kmalloc size s).1 ≡ s.heap_start + header_size)
      × (((header_size < b.size)
            × IsHeap (kmalloc size s).0 (
                record { state = used; size = 0 }
                ∷ record { state = available; size = b.size - header_size }
                ∷ bs))
          ⊎ ((b.size ≤ header_size)
              × IsHeap (kmalloc size s).0 (record { state = used; size = b.size } ∷ bs)))
kmalloc_wraps size s b bs lo hi h free large =
    let zero_size = align_wraps size lo hi in
    let fit : block_fits b 0 ≡ true = ground (arith, free) in
    let taken = first_fit-taken 0 s.heap_start b bs fit in
    let all = enter_heap size s (λ e. absurd (omega (arith, e, lo))) h.placed large in
    elim (kmalloc_nolock-first_fit size s (b ∷ bs) h) [
      | inl (none_fits, _, _) ↦
          let z = sym (ap (λ n. first_fit n s.heap_start (b ∷ bs)) zero_size ∙ taken) ∙ none_fits in
          cc
      | inr (cs, found, heap, _, _) ↦
          let z = sym (ap (λ n. first_fit n s.heap_start (b ∷ bs)) zero_size ∙ taken) ∙ found in
          let ptr : s.heap_start + header_size ≡ (kmalloc_nolock size s).1 = ground arith in
          let list : carve b 0 bs ≡ cs = ground arith in
          rw all (
            sym ptr,
            elim (Bool-cases (ltb header_size b.size)) [
              | inl larger ↦
                  let lt = ltb→lt _ _ larger in
                  inl (
                    lt,
                    subst (IsHeap (kmalloc_nolock size s).0) (sym list ∙ carve_larger b bs lt) heap,
                  )
              | inr smaller ↦
                  let le : b.size ≤ header_size = ground (arith, smaller) in
                  inr (
                    le,
                    subst (IsHeap (kmalloc_nolock size s).0) (sym list ∙ carve_smaller b bs le)
                        heap,
                  )
            ],
          )
    ]
