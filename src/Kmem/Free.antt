-- ===== src/Kmem/Free.antt =====
-- kfree joins the block with its free neighbours.
use mathlib.Core.List.{append_assoc}
use the_os_reborn.Common.{
  ℕ, ◌+◌, ◌≤◌, ◌≡◌, ◌≢◌, refl, sym, ap, ◌∙◌, subst, true, false, not, ◌&&◌, List, [], ◌∷◌, ◌++◌,
  ◌==◌, ==_ne, ==_self, if◌then◌else◌, inl, inr, ◌⊎◌, Bool-cases, arith,
}
use the_os_reborn.Kmem.{
  MemState, used, available, Header, Kmem, header_size, heap_end, header_is_valid, next_header,
  set_size, is_available, join_next, join_prev,
}
use the_os_reborn.Kmem.Chain.{Block, header_of, behind, Seg, Seg-le, Seg-frame, Seg-move, Seg-split}

-- The specification: a block swallows the free block behind it,
unfoldable pub swallow : Block → List Block → Block × List Block
swallow b [] = (b, [])
swallow b (c ∷ cs) =
    if is_available c.state
    then (record b { size = b.size + (c.size + header_size) }, cs)
    else (b, c ∷ cs)

-- and is swallowed by the free block before it.
unfoldable pub join_last : List Block → Block → List Block
join_last [] b = b ∷ []
join_last (c ∷ []) b =
    if is_available c.state
    then record c { size = c.size + (b.size + header_size) } ∷ []
    else c ∷ b ∷ []
join_last (c ∷ d ∷ cs) b = c ∷ join_last (d ∷ cs) b

-- the blocks after freeing `b`
unfoldable pub freed : List Block → Block → List Block → List Block
freed before b after =
    let (c, rest) = swallow b after in join_last before (record c { state = available }) ++ rest

snoc_cases :
    (bs : List Block) → (bs ≡ []) ⊎ ((init : List Block) × (c : Block) × (bs ≡ init ++ (c ∷ [])))
snoc_cases [] = inl refl
snoc_cases (b ∷ bs) = elim (snoc_cases bs) [
  | inl e ↦ inr ([], b, ap (λ (k : List Block). b ∷ k) e)
  | inr (i, c, e) ↦ inr (b ∷ i, c, ap (λ (k : List Block). b ∷ k) e)
]

join_last-snoc :
    (bs : List Block) (c b : Block) → join_last (bs ++ (c ∷ [])) b ≡ bs ++ join_last (c ∷ []) b
unfolding join_last
join_last-snoc [] c b = refl
join_last-snoc (x ∷ []) c b = refl
join_last-snoc (x ∷ y ∷ bs) c b = ap (λ (k : List Block). x ∷ k) (join_last-snoc (y ∷ bs) c b)

-- The block at `a`, between the blocks `before` and `after`; the back link of the block behind is
-- still to be set.
pub record Hole (s : Kmem) (before : List Block) (a prev : ℕ) (b : Block) (after : List Block)
    : Type 0 where
  pub front : Seg s.header s.heap_start 0 before a prev
  pub here : s.header a ≡ header_of b prev
  pub back_link : ℕ
  pub last : ℕ
  pub back : Seg s.header (behind a b) back_link after (heap_end s) last

size_other : (s : Kmem) (a n x : ℕ) → a ≢ x → (set_size s a n).header x ≡ s.header x
size_other s a n x ne = rw (==_ne a x ne) refl

size_self : (s : Kmem) (a n : ℕ) → (set_size s a n).header a ≡ record (s.header a) { size = n }
size_self s a n = rw (==_self a) refl

-- the block at `a` takes all up to `m`
grow-Hole :
    (s : Kmem) (before : List Block) (a prev n : ℕ) (b : Block) (after : List Block) (l q : ℕ)
    → Seg s.header s.heap_start 0 before a prev
    → s.header a ≡ header_of b prev
    → b.size ≤ n
    → Seg s.header (a + header_size + n) l after (heap_end s) q
    → Hole (set_size s a n) before a prev (record b { size = n }) after
grow-Hole s before a prev n b after l q f e le g = record {
  front =
      Seg-frame s.header (set_size s a n).header s.heap_start 0 before a prev
        (λ x lo hi. size_other s a n x (omega arith)) f;
  here = size_self s a n ∙ ap (λ (h : Header). record h { size = n }) e;
  back_link = l;
  last = q;
  back =
      Seg-frame s.header (set_size s a n).header (a + header_size + n) l after (heap_end s) q
        (λ x lo hi. size_other s a n x (omega arith)) g;
}

join_next_alone :
    (s : Kmem) (a : ℕ)
    → (header_is_valid s (next_header s a) && is_available (s.header (next_header s a)).state)
      ≡ false
    → join_next s a ≡ s
unfolding join_next
join_next_alone s a h = rw (h, join_next) refl

join_next_both :
    (s : Kmem) (a : ℕ)
    → (header_is_valid s (next_header s a) && is_available (s.header (next_header s a)).state)
      ≡ true
    → join_next s a
      ≡ set_size s a ((s.header a).size + ((s.header (next_header s a)).size + header_size))
unfolding join_next
join_next_both s a h = rw (h, join_next) refl

next_at :
    (s : Kmem) (a prev : ℕ) (b : Block)
    → s.header a ≡ header_of b prev
    → next_header s a ≡ behind a b
next_at s a prev b e = ap (λ (h : Header). a + header_size + h.size) e

-- Joining the next block is `swallow`.
pub join_next-swallow :
    (s : Kmem) (before : List Block) (a prev : ℕ) (b : Block) (after : List Block)
    → Hole s before a prev b after
    → let (c, rest) = swallow b after in Hole (join_next s a) before a prev c rest
unfolding swallow
join_next-swallow s before a prev b [] h =
    let e = next_at s a prev b h.here in
    let past : header_is_valid s (behind a b) ≡ false = ground (arith, h.back.0) in
    rw (join_next_alone s a (rw (e, past) refl)) h
join_next-swallow s before a prev b (c ∷ cs) h = elim (Bool-cases (is_available c.state)) [
  | inl free ↦
      let e = next_at s a prev b h.here in
      let le =
        Seg-le s.header (behind (behind a b) c) (behind a b) cs (heap_end s) h.last h.back.1 in
      let ok : header_is_valid s (behind a b) ≡ true = ground arith in
      let c_free : is_available (s.header (behind a b)).state ≡ true = rw h.back.0 free in
      let sizes : (s.header a).size + ((s.header (next_header s a)).size + header_size)
          ≡ b.size + (c.size + header_size) =
        rw e (rw (h.back.0) (rw h.here refl)) in
      rw (free, join_next_both s a (rw (e, ok, c_free) refl), sizes)
        (grow-Hole s before a prev (b.size + (c.size + header_size)) b cs (behind a b) h.last
          h.front h.here (omega arith)
          (Seg-move s.header (behind a b) cs h.last _ _ _ _ (omega arith) refl h.back.1))
  | inr taken ↦
      let e = next_at s a prev b h.here in
      let c_taken : is_available (s.header (behind a b)).state ≡ false = rw h.back.0 taken in
      rw (taken, join_next_alone s a (rw (e, c_taken) (ground arith))) h
]

join_prev_alone :
    (s : Kmem) (prev a : ℕ)
    → (not (prev == 0) && is_available (s.header prev).state) ≡ false
    → join_prev s prev a ≡ (s, a)
unfolding join_prev
join_prev_alone s prev a h = rw (h, join_prev) refl

join_prev_both :
    (s : Kmem) (prev a : ℕ)
    → (not (prev == 0) && is_available (s.header prev).state) ≡ true
    → join_prev s prev a
      ≡ (set_size s prev ((s.header prev).size + ((s.header a).size + header_size)), prev)
unfolding join_prev
join_prev_both s prev a h = rw (h, join_prev) refl

-- a block in its hole, with the blocks before it: what join_prev leaves
abbrev pub Joined : Kmem → List Block → List Block → Kmem × ℕ → Type 0
Joined s front after (t, x) =
    (before : List Block) × (b : Block) × (prev : ℕ) × Hole t before x prev b after
    × (front ≡ before ++ (record b { state = available } ∷ []))

pub available_of : (m : MemState) → is_available m ≡ true → m ≡ available
available_of available h = refl
available_of used h = cc

join_last_free :
    (c b : Block)
    → is_available c.state ≡ true
    → join_last (c ∷ []) b
      ≡ record { state = available; size = c.size + (b.size + header_size) } ∷ []
unfolding join_last
join_last_free c b h = rw h (
    ap (λ m. record { state = m; size = c.size + (b.size + header_size) } ∷ [])
      (available_of c.state h))

join_last_taken : (c b : Block) → is_available c.state ≡ false → join_last (c ∷ []) b ≡ c ∷ b ∷ []
unfolding join_last
join_last_taken c b h = rw h refl

-- the header at `n` of the block `c` before is the one that the back link names
join_prev_snoc :
    (s : Kmem) (i : List Block) (n r a : ℕ) (c b : Block) (after : List Block)
    → Seg s.header s.heap_start 0 i n r
    → s.header n ≡ header_of c r
    → behind n c ≡ a
    → n ≢ 0
    → Hole s (i ++ (c ∷ [])) a n b after
    → Joined s (join_last (i ++ (c ∷ [])) (record b { state = available })) after (join_prev s n a)
join_prev_snoc s i n r a c b after g e at_a nz h = elim (Bool-cases (is_available c.state)) [
  | inl free ↦
      let new_size : ℕ = c.size + (b.size + header_size) in
      let c_free : is_available (s.header n).state ≡ true = rw e free in
      let sizes : (s.header n).size + ((s.header a).size + header_size) ≡ new_size =
        rw e (rw h.here refl) in
      rw
        (
          join_last-snoc i c (record b { state = available }),
          join_last_free c (record b { state = available }) free,
          join_prev_both s n a (rw (==_ne n 0 nz, c_free) refl),
          sizes,
        )
        (
          i,
          record c { size = new_size },
          r,
          grow-Hole s i n r new_size c after h.back_link h.last g e (omega arith)
              (Seg-move s.header h.back_link after h.last _ _ _ _ (omega arith) refl h.back),
          refl,
        )
  | inr taken ↦
      let c_taken : is_available (s.header n).state ≡ false = rw e taken in
      rw
        (
          join_last-snoc i c (record b { state = available }),
          join_last_taken c (record b { state = available }) taken,
          join_prev_alone s n a (rw c_taken (ground arith)),
        )
        (
          i ++ (c ∷ []),
          b,
          n,
          h,
          sym (append_assoc i (c ∷ []) (record b { state = available } ∷ [])),
        )
]

-- Joining the previous block is `join_last`.
pub join_prev-join_last :
    (s : Kmem) (before : List Block) (a prev : ℕ) (b : Block) (after : List Block)
    → s.heap_start ≢ 0
    → Hole s before a prev b after
    → Joined s (join_last before (record b { state = available })) after (join_prev s prev a)
join_prev-join_last s before a prev b after nz h = elim (snoc_cases before) [
  | inl e ↦
      let f = subst (λ k. Seg s.header s.heap_start 0 k a prev) e h.front in
      rw (e, join_prev_alone s prev a (rw (← f.1) refl))
        ([], b, prev, subst (λ k. Hole s k a prev b after) e h, unfold join_last in refl)
  | inr (i, c, e) ↦
      let h' = subst (λ k. Hole s k a prev b after) e h in
      let (n, r, g, k) = Seg-split s.header s.heap_start 0 i (c ∷ []) a prev h'.front in
      let le = Seg-le s.header s.heap_start 0 i n r g in
      rw e (
        subst
          (λ x.
            Joined s (join_last (i ++ (c ∷ [])) (record b { state = available })) after
              (join_prev s x a))
          k.1.1
          (join_prev_snoc s i n r a c b after g k.0 k.1.0 (λ z. nz (omega arith))
            (subst (λ x. Hole s (i ++ (c ∷ [])) a x b after) (sym k.1.1) h')))
]
