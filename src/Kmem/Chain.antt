-- ===== src/Kmem/Chain.antt =====
-- The headers of the kernel heap as a list of blocks that follow one another without a gap.
use the_os_reborn.Common.{
  ℕ, ◌+◌, ◌≤◌, ◌<◌, ◌≡◌, ◌≢◌, refl, sym, ◌∙◌, subst, List, [], ◌∷◌, ◌++◌, length, arith,
}
use the_os_reborn.Kmem.{MemState, Header, Kmem, header_size, heap_end, relink}

-- a block: its state and the size of its payload
pub record Block : Type 0 where
  pub state : MemState
  pub size : ℕ

abbrev pub header_of : Block → ℕ → Header
header_of b prev = record { state = b.state; size = b.size; prev_malloc_header = prev }

abbrev pub behind : ℕ → Block → ℕ
behind a b = a + header_size + b.size

-- The blocks `bs` stand from `a` on, the first with the back link `p`; behind them is `m`, and the
-- last header is at `q` (`a` and `p` if there is no block).
abbrev pub Seg : (ℕ → Header) → ℕ → ℕ → List Block → ℕ → ℕ → Type 0
Seg h a p [] m q = (a ≡ m) × (p ≡ q)
Seg h a p (b ∷ bs) m q = (h a ≡ header_of b p) × Seg h (behind a b) a bs m q

pub Seg-le : (h : ℕ → Header) (a p : ℕ) (bs : List Block) (m q : ℕ) → Seg h a p bs m q → a ≤ m
Seg-le h a p [] m q s = omega arith
Seg-le h a p (b ∷ bs) m q s = omega (arith, Seg-le h (behind a b) a bs m q s.1)

-- Each block takes more than its header, so there are fewer blocks than bytes.
pub Seg-length :
    (h : ℕ → Header) (a p : ℕ) (bs : List Block) (m q : ℕ) → Seg h a p bs m q → a + length bs ≤ m
Seg-length h a p [] m q s = omega arith
Seg-length h a p (b ∷ bs) m q s = omega (arith, Seg-length h (behind a b) a bs m q s.1)

-- Writes below a segment or behind it do not change it.
pub Seg-frame :
    (h g : ℕ → Header) (a p : ℕ) (bs : List Block) (m q : ℕ)
    → ((x : ℕ) → a ≤ x → x < m → g x ≡ h x)
    → Seg h a p bs m q
    → Seg g a p bs m q
Seg-frame h g a p [] m q same s = s
Seg-frame h g a p (b ∷ bs) m q same s =
    let le = Seg-le h (behind a b) a bs m q s.1 in
    (
      same a (omega arith) (omega arith) ∙ s.0,
      Seg-frame h g (behind a b) a bs m q (λ x lo hi. same x (omega arith) hi) s.1,
    )

pub Seg-move :
    (h : ℕ → Header) (p : ℕ) (bs : List Block) (q a a' m m' : ℕ)
    → a ≡ a'
    → m ≡ m'
    → Seg h a p bs m q
    → Seg h a' p bs m' q
Seg-move h p bs q a a' m m' e f g =
    subst (λ x. Seg h x p bs m' q) e (subst (λ x. Seg h a p bs x q) f g)

pub Seg-append :
    (h : ℕ → Header) (a p : ℕ) (bs cs : List Block) (m q n r : ℕ)
    → Seg h a p bs m q
    → Seg h m q cs n r
    → Seg h a p (bs ++ cs) n r
Seg-append h a p [] cs m q n r s t =
    subst (λ x. Seg h a x cs n r) (sym s.1) (subst (λ x. Seg h x q cs n r) (sym s.0) t)
Seg-append h a p (b ∷ bs) cs m q n r s t = (s.0, Seg-append h (behind a b) a bs cs m q n r s.1 t)

pub relink-other : (s : Kmem) (n p' x : ℕ) → n ≢ x → (relink s n p').header x ≡ s.header x
unfolding relink
relink-other s n p' x h = ground arith

pub relink_bounds :
    (s : Kmem) (n p' : ℕ)
    → ((relink s n p').heap_start ≡ s.heap_start) × ((relink s n p').heap_size ≡ s.heap_size)
unfolding relink
relink_bounds s n p' = ground arith

relink_self :
    (s : Kmem) (n p p' : ℕ) (b : Block)
    → n + header_size ≤ heap_end s
    → s.header n ≡ header_of b p
    → (relink s n p').header n ≡ header_of b p'
unfolding relink
relink_self s n p p' b le e = ground arith

-- relinking the block behind gives it the new back link
pub relink-Seg :
    (s : Kmem) (n p p' : ℕ) (bs : List Block) (q : ℕ)
    → Seg s.header n p bs (heap_end s) q
    → (q' : ℕ) × Seg (relink s n p').header n p' bs (heap_end s) q'
relink-Seg s n p p' [] q g = (p', (g.0, refl))
relink-Seg s n p p' (b ∷ bs) q g =
    let le = Seg-le s.header (behind n b) n bs (heap_end s) q g.1 in
    (
      q,
      (
        relink_self s n p p' b (omega arith) g.0,
        Seg-frame s.header (relink s n p').header (behind n b) n bs (heap_end s) q
            (λ x lo hi. relink-other s n p' x (omega arith)) g.1,
      ),
    )

-- a segment is cut where its first part ends
pub Seg-split :
    (h : ℕ → Header) (a p : ℕ) (bs cs : List Block) (m q : ℕ)
    → Seg h a p (bs ++ cs) m q
    → (n : ℕ) × (r : ℕ) × Seg h a p bs n r × Seg h n r cs m q
Seg-split h a p [] cs m q s = (a, p, (refl, refl), s)
Seg-split h a p (b ∷ bs) cs m q s =
    let (n, r, g, k) = Seg-split h (behind a b) a bs cs m q s.1 in (n, r, (s.0, g), k)
