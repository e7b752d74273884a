-- ===== src/Kmem/Refine.antt =====
-- The kernel heap stays a list of blocks that fill it: initialisation, allocation, release.
use mathlib.Core.Path.{ap₂}
use the_os_reborn.Common.{
  ℕ, ◌+◌, ◌-◌, ◌≡◌, ◌≢◌, refl, sym, ap, ◌∙◌, false, List, [], ◌∷◌, ◌++◌, ◌==◌, ==_ne, ==_self,
  arith,
}
use the_os_reborn.Kmem.{
  used, available, Header, Kmem, header_size, heap_end, next_header, set_state, relink, join_next,
  join_prev, kfree_nolock, kfree,
}
use the_os_reborn.Kmem.Chain.{
  Block, header_of, behind, Seg, Seg-le, Seg-frame, Seg-move, Seg-append, Seg-split, relink-Seg,
  relink-other, relink_bounds,
}
use the_os_reborn.Kmem.Search.{IsHeap}
use the_os_reborn.Kmem.Free.{Hole, swallow, freed, join_next-swallow, join_prev-join_last}

-- the address of the header behind the blocks `bs` from `a` on
abbrev pub address : ℕ → List Block → ℕ
address a [] = a
address a (b ∷ bs) = address (behind a b) bs

Seg-address :
    (h : ℕ → Header) (a p : ℕ) (bs : List Block) (m q : ℕ) → Seg h a p bs m q → m ≡ address a bs
Seg-address h a p [] m q s = sym s.0
Seg-address h a p (b ∷ bs) m q s = Seg-address h (behind a b) a bs m q s.1

join_next_bounds : (s : Kmem) (a : ℕ) → (join_next s a).heap_start ≡ s.heap_start
unfolding join_next
join_next_bounds s a = ground arith

join_prev_bounds : (s : Kmem) (p a : ℕ) → (join_prev s p a).0.heap_start ≡ s.heap_start
unfolding join_prev
join_prev_bounds s p a = ground arith

-- the end of kfree_nolock
abbrev finish : Kmem × ℕ → Kmem
finish (t, x) = set_state (relink t (next_header t x) x) x available

kfree_nolock_lem :
    (s : Kmem) (a prev : ℕ) (b : Block)
    → s.header a ≡ header_of b prev
    → b.state ≡ used
    → kfree_nolock (a + header_size) s ≡ finish (join_prev (join_next s a) prev a)
unfolding kfree_nolock
kfree_nolock_lem s a prev b e u =
    let at_a : a + header_size - header_size ≡ a = omega arith in
    rw (at_a, kfree_nolock) (rw (e, u) refl)

state_other : (s : Kmem) (a x : ℕ) → a ≢ x → (set_state s a available).header x ≡ s.header x
state_other s a x ne = rw (==_ne a x ne) refl

state_self :
    (s : Kmem) (a : ℕ)
    → (set_state s a available).header a ≡ record (s.header a) { state = available }
state_self s a = rw (==_self a) refl

-- Setting the link behind and the state fills the hole.
finish-IsHeap :
    (t : Kmem) (before : List Block) (x prev : ℕ) (b : Block) (after : List Block)
    → t.heap_start ≢ 0
    → Hole t before x prev b after
    → IsHeap (finish (t, x)) ((before ++ (record b { state = available } ∷ [])) ++ after)
finish-IsHeap t before x prev b after nz h =
    let next : next_header t x ≡ behind x b =
      ap (λ (k : Header). x + header_size + k.size) h.here in
    let r : Kmem = relink t (behind x b) x in
    let u : Kmem = set_state r x available in
    let bounds = relink_bounds t (behind x b) x in
    let le = Seg-le t.header t.heap_start 0 before x prev h.front in
    let (q, g) = relink-Seg t (behind x b) h.back_link x after h.last h.back in
    let at_r = λ (i : ℕ) (n : behind x b ≢ i) (m : x ≢ i).
      state_other r x i m ∙ relink-other t (behind x b) x i n in
    let front' =
      Seg-frame t.header u.header t.heap_start 0 before x prev
        (λ i lo hi. at_r i (omega arith) (omega arith)) h.front in
    let here' : u.header x ≡ header_of (record b { state = available }) prev =
      state_self r x
      ∙ ap (λ (k : Header). record k { state = available })
          (relink-other t (behind x b) x x (omega arith) ∙ h.here) in
    let back' =
      Seg-frame r.header u.header (behind x b) x after (heap_end t) q
        (λ i lo hi. state_other r x i (omega arith)) g in
    let whole =
      Seg-append u.header t.heap_start 0 (before ++ (record b { state = available } ∷ [])) after
        (behind x b) x (heap_end t) q
        (Seg-append u.header t.heap_start 0 before (record b { state = available } ∷ []) x prev
          (behind x b) x front' (here', (refl, refl)))
        back' in
    rw next (record {
      placed = λ z. nz (sym bounds.0 ∙ z);
      last = q;
      chain =
          Seg-move u.header 0 _ q _ _ _ _ (sym bounds.0) (ap₂ ◌+◌ (sym bounds.0) (sym bounds.1))
            whole;
    })

-- kfree of a used block's payload: the heap that held the blocks `before`, the block and the blocks
-- `after` then holds them with the block free and joined with its free neighbours on both sides.
pub kfree-freed :
    (s : Kmem) (before : List Block) (b : Block) (after : List Block)
    → IsHeap s (before ++ (b ∷ after))
    → b.state ≡ used
    → IsHeap (kfree (address s.heap_start before + header_size) s) (freed before b after)
unfolding kfree freed
kfree-freed s before b after h u =
    let (a, prev, f, k) =
      Seg-split s.header s.heap_start 0 before (b ∷ after) (heap_end s) h.last h.chain in
    let at_a = Seg-address s.header s.heap_start 0 before a prev f in
    let hole : Hole s before a prev b after = record {
      front = f;
      here = k.0;
      back_link = a;
      last = h.last;
      back = k.1;
    } in
    let start : (join_next s a).heap_start ≢ 0 = λ z. h.placed (sym (join_next_bounds s a) ∙ z) in
    let hole1 = join_next-swallow s before a prev b after hole in
    let (c, rest) = swallow b after in
    let t : Kmem × ℕ = join_prev (join_next s a) prev a in
    let (before', b', prev', hole2, e) =
      join_prev-join_last (join_next s a) before a prev c rest start hole1 in
    let done =
      finish-IsHeap t.0 before' t.1 prev' b' rest
        (λ z. start (sym (join_prev_bounds (join_next s a) prev a) ∙ z)) hole2 in
    let pos : (a + header_size == 0) ≡ false = ground arith in
    rw (← at_a, pos, kfree_nolock_lem s a prev b k.0 u, e) done
