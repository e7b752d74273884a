-- ===== src/Kmem/RoundTrip.antt =====
-- What kmalloc returns, and that kfree undoes it.
use mathlib.Core.List.{append_assoc}
use the_os_reborn.Common.{
  ℕ, ◌+◌, ◌-◌, ◌≤◌, ◌≡◌, ◌≢◌, refl, sym, ap, ◌∙◌, subst, true, false, ◌&&◌, List, [], ◌∷◌, ◌++◌,
  ltb, ltb→lt, inl, inr, ◌⊎◌, Bool-cases, Option-cases, none, some, All, arith,
}
use the_os_reborn.Kmem.{
  used, available, Kmem, header_size, is_available, align, kmalloc, kmalloc_nolock, kfree,
}
use the_os_reborn.Kmem.Chain.{Block, behind}
use the_os_reborn.Kmem.Malloc.{block_fits, carve, first_fit}
use the_os_reborn.Kmem.Search.{
  IsHeap, kmalloc_nolock-first_fit, first_fit-taken, first_fit-none, first_fit-some,
}
use the_os_reborn.Kmem.Free.{swallow, join_last, freed, available_of}
use the_os_reborn.Kmem.Refine.{address, kfree-freed}

-- no two free blocks stand side by side
abbrev pub Apart : Block → List Block → Type 0
Apart b [] = Unit
Apart b (c ∷ cs) = (is_available b.state && is_available c.state) ≡ false

abbrev pub Coalesced : List Block → Type 0
Coalesced [] = Unit
Coalesced (b ∷ bs) = Apart b bs × Coalesced bs

-- no block is free and large enough
abbrev pub NoneFits : ℕ → List Block → Type 0
NoneFits size bs = All (λ b. block_fits b size ≡ false) bs

-- the first block that fits stands between `before` and `after`
pub record IsFirstFit (size a : ℕ) (bs cs : List Block) (ptr : ℕ) : Type 0 where
  pub before : List Block
  pub block : Block
  pub after : List Block
  pub found : bs ≡ before ++ (block ∷ after)
  pub free : is_available block.state ≡ true
  pub enough : size ≤ block.size
  pub earlier : NoneFits size before
  pub result : cs ≡ before ++ carve block size after
  pub payload : ptr ≡ address a before + header_size

pub first_fit_lem :
    (size a : ℕ) (bs cs : List Block) (ptr : ℕ)
    → first_fit size a bs ≡ some (cs, ptr)
    → IsFirstFit size a bs cs ptr
first_fit_lem size a [] cs ptr h = unfold first_fit in cc
first_fit_lem size a (b ∷ bs) cs ptr h = elim (Bool-cases (block_fits b size)) [
  | inl good ↦
      let e = sym (first_fit-taken size a b bs good) ∙ h in
      record {
        before = [];
        block = b;
        after = bs;
        found = refl;
        free = ground arith;
        enough = ground arith;
        earlier = tt;
        result = ground arith;
        payload = ground arith;
      }
  | inr bad ↦ elim (Option-cases (first_fit size (behind a b) bs)) [
    | inl e ↦ let no_fit = sym (first_fit-none size a b bs bad e) ∙ h in cc
    | inr ((ds, p), e) ↦
        let q = sym (first_fit-some size a b bs ds p bad e) ∙ h in
        let f = first_fit_lem size (behind a b) bs ds p e in
        let ds_eq : cs ≡ b ∷ ds = ground arith in
        let p_eq : ptr ≡ p = ground arith in
        record {
          before = b ∷ f.before;
          block = f.block;
          after = f.after;
          found = ap (λ (k : List Block). b ∷ k) f.found;
          free = f.free;
          enough = f.enough;
          earlier = (bad, f.earlier);
          result = ds_eq ∙ ap (λ (k : List Block). b ∷ k) f.result;
          payload = p_eq ∙ f.payload;
        }
  ]
]

pub first_fit_fails : (size a : ℕ) (bs : List Block) → first_fit size a bs ≡ none → NoneFits size bs
first_fit_fails size a [] h = tt
first_fit_fails size a (b ∷ bs) h = elim (Bool-cases (block_fits b size)) [
  | inl good ↦ let taken = sym (first_fit-taken size a b bs good) ∙ h in cc
  | inr bad ↦ elim (Option-cases (first_fit size (behind a b) bs)) [
    | inl e ↦ (bad, first_fit_fails size (behind a b) bs e)
    | inr ((ds, p), e) ↦ let taken = sym (first_fit-some size a b bs ds p bad e) ∙ h in cc
  ]
]

Coalesced-drop : (before : List Block) (bs : List Block) → Coalesced (before ++ bs) → Coalesced bs
Coalesced-drop [] bs h = h
Coalesced-drop (c ∷ cs) bs h = Coalesced-drop cs bs h.1

join_last_apart :
    (before : List Block) (b : Block) (after : List Block)
    → Coalesced (before ++ (b ∷ after))
    → is_available b.state ≡ true
    → join_last before b ≡ before ++ (b ∷ [])
unfolding join_last
join_last_apart [] b after h free = refl
join_last_apart (c ∷ []) b after h free = ground (arith, h.0)
join_last_apart (c ∷ d ∷ cs) b after h free =
    ap (λ (k : List Block). c ∷ k) (join_last_apart (d ∷ cs) b after h.1 free)

swallow_apart :
    (b c : Block) (after : List Block)
    → Coalesced (b ∷ after)
    → is_available b.state ≡ true
    → swallow c after ≡ (c, after)
unfolding swallow
swallow_apart b c [] h free = refl
swallow_apart b c (d ∷ ds) h free = ground (arith, h.0)

swallow_free :
    (u v : Block) (after : List Block)
    → is_available v.state ≡ true
    → swallow u (v ∷ after) ≡ (record u { size = u.size + (v.size + header_size) }, after)
unfolding swallow
swallow_free u v after h = rw (h, swallow) refl

whole_again :
    (before : List Block) (b : Block) (after : List Block) (u : Block) (rest : List Block)
    → Coalesced (before ++ (b ∷ after))
    → is_available b.state ≡ true
    → swallow u rest ≡ (record { state = used; size = b.size }, after)
    → freed before u rest ≡ before ++ (b ∷ after)
unfolding freed
whole_again before b after u rest co free e =
    let b_is : b ≡ record { state = available; size = b.size } =
      ap (λ m. record { state = m; size = b.size }) (available_of b.state free) in
    rw e (
      rw (← b_is) (
        ap (λ (k : List Block). k ++ after) (join_last_apart before b after co free)
        ∙ append_assoc before (b ∷ []) after))

-- freeing the payload of a carved block gives the block back
freed-carve :
    (before : List Block) (b : Block) (after : List Block) (size : ℕ)
    → Coalesced (before ++ (b ∷ after))
    → is_available b.state ≡ true
    → (u : Block) × (rest : List Block) × (carve b size after ≡ u ∷ rest)
      × (u.state ≡ used)
      × (freed before u rest ≡ before ++ (b ∷ after))
freed-carve before b after size co free = elim (Bool-cases (ltb header_size (b.size - size))) [
  | inl large ↦
      let room = ltb→lt _ _ large in
      let u : Block = record { state = used; size = size } in
      let v : Block = record { state = available; size = b.size - size - header_size } in
      (
        u,
        v ∷ after,
        rw large refl,
        refl,
        whole_again before b after u (v ∷ after) co free (
            swallow_free u v after refl
            ∙ ap (λ n. (record { state = used; size = n }, after)) (omega arith)),
      )
  | inr small ↦
      let u : Block = record { state = used; size = b.size } in
      (
        u,
        after,
        rw small refl,
        refl,
        whole_again before b after u after co free
            (swallow_apart b u after (Coalesced-drop before (b ∷ after) co) free),
      )
]

kmalloc_cases :
    (size : ℕ) (s : Kmem) → (kmalloc size s ≡ (s, 0)) ⊎ (kmalloc size s ≡ kmalloc_nolock size s)
unfolding kmalloc
kmalloc_cases size s = ground arith

-- A successful kmalloc on a heap of blocks of which no two free ones stand side by side: it was given
-- the payload of the first free block with room for the aligned size, the heap then holds the blocks
-- with that one carved, and kfree of that payload brings back the very blocks from before.
pub kmalloc-kfree :
    (size : ℕ) (s : Kmem) (bs : List Block)
    → IsHeap s bs
    → Coalesced bs
    → (kmalloc size s).1 ≢ 0
    → (cs : List Block) × IsHeap (kmalloc size s).0 cs
      × IsFirstFit (align size) s.heap_start bs cs (kmalloc size s).1
      × IsHeap (kfree (kmalloc size s).1 (kmalloc size s).0) bs
kmalloc-kfree size s bs h co nz = elim (kmalloc_cases size s) [
  | inl e ↦ absurd (nz (ap (λ (x : Kmem × ℕ). x.1) e))
  | inr e ↦ elim (kmalloc_nolock-first_fit size s bs h) [
    | inl (_, _, z) ↦ absurd (nz (ap (λ (x : Kmem × ℕ). x.1) e ∙ z))
    | inr (cs, found, heap, start, _) ↦
        let f = first_fit_lem (align size) s.heap_start bs cs (kmalloc_nolock size s).1 found in
        let co' = subst Coalesced f.found co in
        let (u, rest, carved, u_used, back) =
          freed-carve f.before f.block f.after (align size) co' f.free in
        let cs_is : cs ≡ f.before ++ (u ∷ rest) =
          f.result ∙ ap (λ (k : List Block). f.before ++ k) carved in
        let heap' = subst (IsHeap (kmalloc_nolock size s).0) cs_is heap in
        let done = kfree-freed (kmalloc_nolock size s).0 f.before u rest heap' u_used in
        let ptr_is : address (kmalloc_nolock size s).0.heap_start f.before + header_size
            ≡ (kmalloc_nolock size s).1 =
          ap (λ n. address n f.before + header_size) start ∙ sym f.payload in
        rw e (
          cs,
          heap,
          f,
          subst (λ n. IsHeap (kfree n (kmalloc_nolock size s).0) bs) ptr_is
              (subst (IsHeap _) (back ∙ sym f.found) done),
        )
  ]
]
