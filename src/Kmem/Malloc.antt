-- ===== src/Kmem/Malloc.antt =====
-- kmalloc takes the first free block that is large enough, and splits it.
use the_os_reborn.Common.{
  ℕ, ◌+◌, ◌-◌, ◌<◌, ◌≡◌, ◌≢◌, refl, ap, ◌∙◌, subst, Bool, true, false, ◌&&◌, List, [], ◌∷◌, ==_ne,
  ==_self, leb, ltb, ltb→lt, if◌then◌else◌, Option, none, some, arith,
}
use the_os_reborn.Kmem.{
  used, available, Header, Kmem, header_size, heap_end, next_header, write, set_size, set_state,
  relink, is_available, split,
}
use the_os_reborn.Kmem.Chain.{
  Block, header_of, behind, Seg, Seg-frame, relink-other, relink_bounds, relink-Seg,
}

-- The specification: the block that is taken, and what stands in its place.
abbrev pub carve : Block → ℕ → List Block → List Block
carve b size bs =
    if ltb header_size (b.size - size)
    then record { state = used; size = size }
      ∷ record { state = available; size = b.size - size - header_size }
      ∷ bs
    else record { state = used; size = b.size } ∷ bs

abbrev pub block_fits : Block → ℕ → Bool
block_fits b size = is_available b.state && leb size b.size

-- First fit over the blocks from `a` on: the blocks afterwards, and the address of the payload.
unfoldable pub first_fit : ℕ → ℕ → List Block → Option (List Block × ℕ)
first_fit size a [] = none
first_fit size a (b ∷ bs) =
    let rest = first_fit size (behind a b) bs in
    if block_fits b size
    then some (carve b size bs, a + header_size)
    else elim rest [ none ↦ none | some (cs, ptr) ↦ some (b ∷ cs, ptr) ]

-- the state that a search from `a` on may leave: the same heap, and nothing below `a` changed
abbrev pub SameBelow : ℕ → Kmem → Kmem → Type 0
SameBelow a s t =
    (t.heap_start ≡ s.heap_start)
    × (t.heap_size ≡ s.heap_size)
    × ((x : ℕ) → x < a → t.header x ≡ s.header x)

split_whole :
    (s : Kmem) (a size : ℕ)
    → ltb header_size ((s.header a).size - size) ≡ false
    → split s a size ≡ s
unfolding split
split_whole s a size h = ground arith

abbrev bottom_of : ℕ → ℕ → ℕ
bottom_of a size = a + header_size + size

abbrev bottom_block : ℕ → ℕ → Block
bottom_block whole size = record { state = available; size = whole - size - header_size }

abbrev with_bottom : Kmem → ℕ → ℕ → ℕ → Kmem
with_bottom s a size whole = write s (bottom_of a size) (header_of (bottom_block whole size) a)

split_twice :
    (s : Kmem) (a size : ℕ)
    → ltb header_size ((s.header a).size - size) ≡ true
    → let s1 = with_bottom s a size (s.header a).size in
      split s a size
      ≡ set_size (relink s1 (next_header s1 (bottom_of a size)) (bottom_of a size)) a size
unfolding split
split_twice s a size h = ground arith

mark_other :
    (s : Kmem) (a size x : ℕ) → a ≢ x → (set_state (set_size s a size) a used).header x ≡ s.header x
mark_other s a size x ne = rw (==_ne a x ne) refl

mark_self :
    (s : Kmem) (a size : ℕ)
    → (set_state (set_size s a size) a used).header a
      ≡ header_of (record { state = used; size = size }) (s.header a).prev_malloc_header
mark_self s a size = rw (==_self a) refl

state_other : (s : Kmem) (a x : ℕ) → a ≢ x → (set_state s a used).header x ≡ s.header x
state_other s a x ne = rw (==_ne a x ne) refl

state_self :
    (s : Kmem) (a : ℕ) → (set_state s a used).header a ≡ record (s.header a) { state = used }
state_self s a = rw (==_self a) refl

-- what a search leaves: the blocks `cs` from `a` on
abbrev pub Leaves : ℕ → ℕ → List Block → Kmem → Kmem → Type 0
Leaves a p cs s t = (q : ℕ) × Seg t.header a p cs (heap_end s) q × SameBelow a s t

pub take_whole :
    (s : Kmem) (a p size : ℕ) (b : Block) (bs : List Block) (q : ℕ)
    → s.header a ≡ header_of b p
    → Seg s.header (behind a b) a bs (heap_end s) q
    → ltb header_size (b.size - size) ≡ false
    → Leaves a p (carve b size bs) s (set_state (split s a size) a used)
take_whole s a p size b bs q e g small =
    let size_a : (s.header a).size ≡ b.size = ap (λ (h : Header). h.size) e in
    let same = split_whole s a size (rw size_a small) in
    rw (same, small)
      (
        q,
        (
          state_self s a ∙ ap (λ (h : Header). record h { state = used }) e,
          Seg-frame s.header (set_state s a used).header (behind a b) a bs (heap_end s) q
              (λ x lo hi. state_other s a x (omega arith)) g,
        ),
        (refl, refl, λ x lt. state_other s a x (omega arith)),
      )

write_self : (s : Kmem) (a : ℕ) (h : Header) → (write s a h).header a ≡ h
write_self s a h = rw (==_self a) refl

write_other : (s : Kmem) (a x : ℕ) (h : Header) → a ≢ x → (write s a h).header x ≡ s.header x
write_other s a x h ne = rw (==_ne a x ne) refl

bottom_next :
    (s : Kmem) (a size : ℕ) (b : Block)
    → header_size < b.size - size
    → next_header (with_bottom s a size b.size) (bottom_of a size) ≡ behind a b
bottom_next s a size b room =
    ap (λ (h : Header). bottom_of a size + header_size + h.size)
      (write_self s (bottom_of a size) (header_of (bottom_block b.size size) a))
    ∙ omega arith

split_large :
    (s : Kmem) (a p size : ℕ) (b : Block)
    → s.header a ≡ header_of b p
    → ltb header_size (b.size - size) ≡ true
    → split s a size
      ≡ set_size (relink (with_bottom s a size b.size) (behind a b) (bottom_of a size)) a size
split_large s a p size b e large =
    let size_a : (s.header a).size ≡ b.size = ap (λ (h : Header). h.size) e in
    split_twice s a size (rw size_a large)
    ∙ ap
        (λ n.
          set_size
            (relink (with_bottom s a size n)
              (next_header (with_bottom s a size n) (bottom_of a size)) (bottom_of a size))
            a size)
        size_a
    ∙ ap (λ n. set_size (relink (with_bottom s a size b.size) n (bottom_of a size)) a size)
        (bottom_next s a size b (ltb→lt _ _ large))

pub take_split :
    (s : Kmem) (a p size : ℕ) (b : Block) (bs : List Block) (q : ℕ)
    → s.header a ≡ header_of b p
    → Seg s.header (behind a b) a bs (heap_end s) q
    → ltb header_size (b.size - size) ≡ true
    → Leaves a p (carve b size bs) s (set_state (split s a size) a used)
take_split s a p size b bs q e g large =
    let room = ltb→lt _ _ large in
    let bottom : ℕ = bottom_of a size in
    let s1 : Kmem = with_bottom s a size b.size in
    let s2 : Kmem = relink s1 (behind a b) bottom in
    let bounds = relink_bounds s1 (behind a b) bottom in
    let t : Kmem = set_state (set_size s2 a size) a used in
    let at_s2 = λ (x : ℕ) (n : behind a b ≢ x) (m : bottom ≢ x).
      relink-other s1 (behind a b) bottom x n ∙ write_other s bottom x _ m in
    let g1 =
      Seg-frame s.header s1.header (behind a b) a bs (heap_end s) q
        (λ x lo hi. write_other s bottom x _ (omega arith)) g in
    let (q', g2) = relink-Seg s1 (behind a b) a bottom bs q g1 in
    let g3 =
      Seg-frame s2.header t.header (behind a b) bottom bs (heap_end s) q'
        (λ x lo hi. mark_other s2 a size x (omega arith)) g2 in
    let first =
      mark_self s2 a size
      ∙ ap (λ (h : Header). header_of (record { state = used; size = size }) h.prev_malloc_header)
          (at_s2 a (omega arith) (omega arith) ∙ e) in
    let second =
      mark_other s2 a size bottom (omega arith)
      ∙ relink-other s1 (behind a b) bottom bottom (omega arith)
      ∙ write_self s bottom (header_of (bottom_block b.size size) a) in
    let rest_at : behind a b ≡ behind bottom (bottom_block b.size size) = omega arith in
    rw (split_large s a p size b e large, large)
      (
        q',
        (first, (second, subst (λ n. Seg t.header n bottom bs (heap_end s) q') rest_at g3)),
        (
          bounds.0,
          bounds.1,
          λ x lt. mark_other s2 a size x (omega arith) ∙ at_s2 x (omega arith) (omega arith),
        ),
      )
