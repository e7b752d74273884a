-- ===== src/Kmem/Search.antt =====
-- The loop of kmalloc is the first-fit search over the blocks.
use mathlib.Core.Path.{ap₂}
use the_os_reborn.Common.{
  ℕ, zero, suc, ◌+◌, ◌-◌, ◌<◌, ◌≡◌, ◌≢◌, refl, sym, ap, ◌∙◌, subst, true, false, List, [], ◌∷◌, ltb,
  length, inl, inr, ◌⊎◌, Bool-cases, Option-cases, Option, none, some, arith,
}
use the_os_reborn.Kmem.{
  used, Header, Kmem, header_size, heap_end, header_is_valid, next_header, set_state, fits, split,
  malloc_loop, kmalloc_nolock, align,
}
use the_os_reborn.Kmem.Chain.{Block, header_of, behind, Seg, Seg-le, Seg-length, Seg-move}
use the_os_reborn.Kmem.Malloc.{block_fits, carve, first_fit, Leaves, take_whole, take_split}

loop_invalid :
    (f : ℕ) (s : Kmem) (a size : ℕ)
    → header_is_valid s a ≡ false
    → malloc_loop (suc f) s a size ≡ (s, 0)
unfolding malloc_loop
loop_invalid f s a size h = ground arith

loop_fits :
    (f : ℕ) (s : Kmem) (a size : ℕ)
    → header_is_valid s a ≡ true
    → fits (s.header a) size ≡ true
    → malloc_loop (suc f) s a size ≡ (set_state (split s a size) a used, a + header_size)
unfolding malloc_loop
loop_fits f s a size h k = rw (h, k) refl

loop_on :
    (f : ℕ) (s : Kmem) (a size : ℕ)
    → header_is_valid s a ≡ true
    → fits (s.header a) size ≡ false
    → malloc_loop (suc (suc f)) s a size ≡ malloc_loop (suc f) s (next_header s a) size
loop_on f s a size h k = elim (Bool-cases (header_is_valid s (next_header s a))) [
  | inl more ↦ unfold malloc_loop in rw (h, k, more) refl
  | inr last ↦
      rw (loop_invalid f s (next_header s a) size last) (unfold malloc_loop in rw (h, k, last) refl)
]

-- what the search gives from `a` on: NULL and no change, or the payload with the blocks carved
abbrev pub Searched : ℕ → ℕ → Kmem → Option (List Block × ℕ) → Kmem × ℕ → Type 0
Searched a p s none r = r ≡ (s, 0)
Searched a p s (some (cs, ptr)) r = (r.1 ≡ ptr) × Leaves a p cs s r.0

take_block :
    (s : Kmem) (a p size : ℕ) (b : Block) (bs : List Block) (q : ℕ)
    → s.header a ≡ header_of b p
    → Seg s.header (behind a b) a bs (heap_end s) q
    → Leaves a p (carve b size bs) s (set_state (split s a size) a used)
take_block s a p size b bs q e g = elim (Bool-cases (ltb header_size (b.size - size))) [
  | inl large ↦ take_split s a p size b bs q e g large
  | inr small ↦ take_whole s a p size b bs q e g small
]

-- a search behind block `b` that leaves `b` alone
pass_block :
    (s t : Kmem) (a p : ℕ) (b : Block) (cs : List Block)
    → s.header a ≡ header_of b p
    → Leaves (behind a b) a cs s t
    → Leaves a p (b ∷ cs) s t
pass_block s t a p b cs e (q, g, (x, y, same)) =
    (q, (same a (omega arith) ∙ e, g), (x, y, λ i lt. same i (omega arith)))

pub first_fit-taken :
    (size a : ℕ) (b : Block) (bs : List Block)
    → block_fits b size ≡ true
    → first_fit size a (b ∷ bs) ≡ some (carve b size bs, a + header_size)
unfolding first_fit
first_fit-taken size a b bs h = rw h refl

pub first_fit-none :
    (size a : ℕ) (b : Block) (bs : List Block)
    → block_fits b size ≡ false
    → first_fit size (behind a b) bs ≡ none
    → first_fit size a (b ∷ bs) ≡ none
unfolding first_fit
first_fit-none size a b bs h e = rw (h, e) refl

pub first_fit-some :
    (size a : ℕ) (b : Block) (bs cs : List Block) (ptr : ℕ)
    → block_fits b size ≡ false
    → first_fit size (behind a b) bs ≡ some (cs, ptr)
    → first_fit size a (b ∷ bs) ≡ some (b ∷ cs, ptr)
unfolding first_fit
first_fit-some size a b bs cs ptr h e = rw (h, e) refl

-- With more fuel than blocks the loop of kmalloc_nolock searches the blocks first-fit.
pub malloc_loop-first_fit :
    (fuel : ℕ) (s : Kmem) (a p size : ℕ) (bs : List Block) (q : ℕ)
    → Seg s.header a p bs (heap_end s) q
    → length bs < fuel
    → Searched a p s (first_fit size a bs) (malloc_loop fuel s a size)
malloc_loop-first_fit zero s a p size bs q g lt = absurd (omega arith)
malloc_loop-first_fit (suc f) s a p size [] q g lt =
    unfold first_fit in loop_invalid f s a size (ground arith)
malloc_loop-first_fit (suc zero) s a p size (b ∷ bs) q g lt = absurd (omega arith)
malloc_loop-first_fit (suc (suc f)) s a p size (b ∷ bs) q (e, g) lt =
    let le = Seg-le s.header (behind a b) a bs (heap_end s) q g in
    let ok : header_is_valid s a ≡ true = ground arith in
    let next : next_header s a ≡ behind a b = ap (λ (h : Header). a + header_size + h.size) e in
    let rest = malloc_loop-first_fit (suc f) s (behind a b) a size bs q g (omega arith) in
    elim (Bool-cases (block_fits b size)) [
      | inl yes_b ↦
          let fit : fits (s.header a) size ≡ true = rw e yes_b in
          rw (first_fit-taken size a b bs yes_b, loop_fits (suc f) s a size ok fit)
            (refl, take_block s a p size b bs q e g)
      | inr no_b ↦
          let unfit : fits (s.header a) size ≡ false = rw e no_b in
          let skip = loop_on f s a size ok unfit ∙ ap (λ n. malloc_loop (suc f) s n size) next in
          elim (Option-cases (first_fit size (behind a b) bs)) [
            | inl none_left ↦
                rw (first_fit-none size a b bs no_b none_left, skip) (rw none_left at rest)
            | inr ((cs, ptr), found) ↦
                let (at_ptr, leaves) =
                  subst (λ o. Searched (behind a b) a s o (malloc_loop (suc f) s (behind a b) size))
                    found rest in
                rw (first_fit-some size a b bs cs ptr no_b found) (
                  subst (Searched a p s (some (b ∷ cs, ptr))) (sym skip)
                    (at_ptr, pass_block s _ a p b cs e leaves))
          ]
    ]

-- The heap holds the blocks `bs`, from its start to its end.
pub record IsHeap (s : Kmem) (bs : List Block) : Type 0 where
  pub placed : s.heap_start ≢ 0
  pub last : ℕ
  pub chain : Seg s.header s.heap_start 0 bs (heap_end s) last

-- kmalloc_nolock is first fit over the blocks of the heap, with the aligned size: it returns NULL
-- and changes nothing if no block fits; else it returns the payload of the first block that fits,
-- and the heap holds the blocks with that one carved, from its start to its end as before.
pub kmalloc_nolock-first_fit :
    (size : ℕ) (s : Kmem) (bs : List Block)
    → IsHeap s bs
    → let (t, ptr) = kmalloc_nolock size s in
      ((first_fit (align size) s.heap_start bs ≡ none) × (t ≡ s) × (ptr ≡ 0))
      ⊎ ((cs : List Block) × (first_fit (align size) s.heap_start bs ≡ some (cs, ptr))
          × IsHeap t cs
          × (t.heap_start ≡ s.heap_start)
          × (t.heap_size ≡ s.heap_size))
unfolding kmalloc_nolock
kmalloc_nolock-first_fit size s bs h =
    let n = align size in
    let few = Seg-length s.header s.heap_start 0 bs (heap_end s) h.last h.chain in
    let r =
      malloc_loop-first_fit (suc s.heap_size) s s.heap_start 0 n bs h.last h.chain (omega arith) in
    elim (Option-cases (first_fit n s.heap_start bs)) [
      | inl none_fits ↦
          let e : malloc_loop (suc s.heap_size) s s.heap_start n ≡ (s, 0) = rw none_fits at r in
          inl (none_fits, ap (λ (x : Kmem × ℕ). x.0) e, ap (λ (x : Kmem × ℕ). x.1) e)
      | inr ((cs, ptr), found) ↦
          let (at_ptr, leaves) =
            subst
              (λ o. Searched s.heap_start 0 s o (malloc_loop (suc s.heap_size) s s.heap_start n))
              found r in
          let (q, g, same) = leaves in
          let (x, y, below) = same in
          let t : Kmem = (malloc_loop (suc s.heap_size) s s.heap_start n).0 in
          inr (
            cs,
            found ∙ ap (λ k. some (cs, k)) (sym at_ptr),
            record {
              placed = λ z. h.placed (sym x ∙ z);
              last = q;
              chain = Seg-move t.header 0 cs q _ _ _ _ (sym x) (ap₂ ◌+◌ (sym x) (sym y)) g;
            },
            x,
            y,
          )
    ]
