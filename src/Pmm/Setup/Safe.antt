-- ===== src/Pmm/Setup/Safe.antt =====
-- Which pages PMM_init_region marks as free.
use the_os_reborn.Common.{
  ltb→lt, lt→ltb, ℕ, ◌+◌, ◌-◌, ◌*◌, ◌/◌, ◌^◌, ◌≤◌, ◌<◌, ◌≡◌, refl, sym, ap, ◌∙◌, Bool, true, false,
  not, ◌&&◌, none, some, ◌==◌, ltb, leb, if◌then◌else◌, Bool-cases, inl, inr, arith,
}
use the_os_reborn.Kmem.{header_size}
use the_os_reborn.Pmm.{page_size, u32, u64, mmap_set, clear, bit_at, write_bit}
use the_os_reborn.Pmm.Setup.{Scan, Bounds, heap_size_at, place_bitmap, mark_page}

-- writing one bit of a bitmap changes that bit only
pub bit_at-write_bit :
    (bits : ℕ → ℕ → Bool) (start j k : ℕ) (v : Bool)
    → j < 2 ^ 31
    → bit_at (write_bit bits start j v) start k ≡ (if j == k then v else bit_at bits start k)
bit_at-write_bit bits start j k v small =
    let positive : ltb j (2 ^ 31) ≡ true = lt→ltb _ _ small in rw positive (ground arith)

bit_at-clear :
    (bits : ℕ → ℕ → Bool) (start size k : ℕ)
    → 8 * (k / 64) < size
    → bit_at (clear start size bits) start k ≡ false
bit_at-clear bits start size k lt = ground arith

-- the page with index `k`
abbrev pub page : Bounds → ℕ → ℕ
page b k = b.addr_start + k * page_size

-- page `k` may be handed out: it lies behind the bitmap at `start` and behind what the heap has, and
-- not in the kernel
pub record MayBeFree (b : Bounds) (start : ℕ) (c : Scan) (p : ℕ) : Type 0 where
  pub behind_bitmap : start + b.mmap_num_pages * page_size ≤ p
  pub behind_heap : c.reserved.1 ≤ p
  pub not_kernel : (leb b.kernel_start p && ltb p b.kernel_end) ≡ false

pub record IsMarked (b : Bounds) (c : Scan) (start : ℕ) : Type 0 where
  pub bitmap_passed : start + b.mmap_num_pages * page_size ≤ c.i
  pub free :
      (k : ℕ) → k < b.num_pages → bit_at c.bits start k ≡ true → MayBeFree b start c (page b k)

pub record IsScan (b : Bounds) (fresh : Bool) (c : Scan) : Type 0 where
  pub index : ℕ
  pub at_index : c.i ≡ page b index
  pub heap_passed : c.reserved.1 ≤ c.i
  pub heap_placed : fresh ≡ true → c.kmem_initialized ≡ true → c.reserved.1 ≡ c.heap.0 + c.heap.1
  pub marked : (start : ℕ) → c.mmap_start ≡ some start → IsMarked b c start

-- the bitmap has a bit for every page, and the region ends far below 2 ^ 64
pub record IsWide (b : Bounds) : Type 0 where
  pub wide : (b.num_pages + 63) / 64 * 8 ≤ b.mmap_num_pages * page_size
  pub few : b.num_pages + 1 < 2 ^ 31 + 1
  pub low : b.addr_end ≤ 2 ^ 63
  pub short : b.mmap_num_pages ≤ 2 ^ 20
  pub pages : b.num_pages ≡ (b.addr_end - b.addr_start) / page_size

heap_size_at_pages : (b : Bounds) (i : ℕ) → (j : ℕ) × (heap_size_at b i ≡ j * page_size)
heap_size_at_pages b i = (heap_size_at b i / page_size, ground arith)

pub heap_size_at_small : (b : Bounds) (i : ℕ) → heap_size_at b i ≤ 2 ^ 24
heap_size_at_small b i = ground arith

pub next_page :
    (b : Bounds) (c : Scan) (fresh : Bool)
    → c.i < 2 ^ 63
    → IsScan b fresh c
    → IsScan b fresh (record c { i = u64 (c.i + page_size) })
next_page b c fresh below v = record {
  index = v.index + 1;
  at_index = omega (arith, v.at_index, below);
  heap_passed = omega (arith, v.heap_passed, below);
  heap_placed = v.heap_placed;
  marked = λ start e.
      let m = v.marked start e in
      record {
        bitmap_passed = omega (arith, m.bitmap_passed, below);
        free = λ k lt set_k.
            let f = m.free k lt set_k in
            record {
              behind_bitmap = f.behind_bitmap;
              behind_heap = f.behind_heap;
              not_kernel = f.not_kernel;
            };
      };
}

pub mark_page-IsScan :
    (b : Bounds) (start : ℕ) (c : Scan) (fresh : Bool)
    → IsWide b
    → c.i < b.addr_end
    → (leb b.kernel_start c.i && ltb c.i b.kernel_end) ≡ false
    → c.mmap_start ≡ some start
    → IsScan b fresh c
    → IsScan b fresh (mark_page b start c)
unfolding mark_page mmap_set
mark_page-IsScan b start c fresh w lt not_kernel e v =
    let m = v.marked start e in
    let bit : ℕ = u32 (u64 (c.i + 2 ^ 64 - b.addr_start) / page_size) in
    let bit_is : bit ≡ v.index = omega (arith, v.at_index, w.few, w.pages, lt, w.low) in
    elim (Bool-cases (not (c.reserved.0 == 0) && leb c.reserved.0 c.i && ltb c.i c.reserved.1)) [
      | inl held ↦ rw held (next_page b c fresh (omega (arith, lt, w.low)) v)
      | inr open_page ↦ elim (Bool-cases (ltb bit b.num_pages)) [
        | inr outside ↦ rw (open_page, outside) (next_page b c fresh (omega (arith, lt, w.low)) v)
        | inl inside ↦
            rw (open_page, inside)
              (record {
                index = v.index + 1;
                at_index = omega (arith, v.at_index, lt, w.low);
                heap_passed = omega (arith, v.heap_passed, lt, w.low);
                heap_placed = v.heap_placed;
                marked = λ start' e'.
                    let same : start' ≡ start = ground (arith, e, e') in
                    rw same (marks m bit_is (ltb→lt _ _ inside));
              })
      ]
    ]
  where
    marks :
        {bit : ℕ}
        → IsMarked b c start
        → bit ≡ v.index
        → bit < b.num_pages
        → IsMarked b
            (record c { i = u64 (c.i + page_size); bits = write_bit c.bits start bit true })
            start
    marks {bit} m bit_is below = record {
      bitmap_passed = omega (arith, m.bitmap_passed, lt, w.low);
      free = λ k lt_k set_k. elim (Bool-cases (bit == k)) [
        | inl here ↦
            let at_k : c.i ≡ page b k = ground (arith, here, bit_is, v.at_index) in
            record {
              behind_bitmap = omega (arith, at_k, m.bitmap_passed);
              behind_heap = omega (arith, at_k, v.heap_passed);
              not_kernel =
                  ap (λ x. leb b.kernel_start x && ltb x b.kernel_end) (sym at_k) ∙ not_kernel;
            }
        | inr other ↦
            let old : bit_at c.bits start k ≡ true =
              sym (
                bit_at-write_bit c.bits start bit k true (omega (arith, below, w.few))
                ∙ ap (λ x. if x then true else bit_at c.bits start k) other)
              ∙ set_k in
            let f = m.free k lt_k old in
            record {
              behind_bitmap = f.behind_bitmap;
              behind_heap = f.behind_heap;
              not_kernel = f.not_kernel;
            }
      ];
    }

-- right after its placement the bitmap has no bit set
placed-IsMarked :
    (b : Bounds) (c d : Scan) (size : ℕ)
    → IsWide b
    → d.i ≡ c.i + b.mmap_num_pages * page_size + size
    → d.bits ≡ clear c.i (b.mmap_num_pages * page_size) c.bits
    → IsMarked b d c.i
placed-IsMarked b c d size w at_i cleared = record {
  bitmap_passed = omega (arith, at_i);
  free = λ k lt set_k.
      let none_set =
        bit_at-clear c.bits c.i (b.mmap_num_pages * page_size) k (omega (arith, w.wide, lt)) in
      let clash = sym (ap (λ f. bit_at f c.i k) cleared ∙ none_set) ∙ set_k in cc;
}

pub place_bitmap-IsScan :
    (b : Bounds) (c : Scan)
    → (fresh : Bool) → IsWide b
    → c.i < b.addr_end
    → c.mmap_start ≡ none
    → IsScan b fresh c
    → IsScan b fresh (place_bitmap b c)
unfolding place_bitmap
place_bitmap-IsScan b c fresh w lt e v =
    let i : ℕ = u64 (c.i + b.mmap_num_pages * page_size) in
    let at_i : i ≡ c.i + b.mmap_num_pages * page_size = omega (arith, lt, w.low, w.short) in
    let not_over : u64 (i + heap_size_at b i) ≡ i + heap_size_at b i =
      omega (arith, at_i, lt, w.low, w.short, heap_size_at_small b i) in
    let (j, size_is) = heap_size_at_pages b i in
    elim (Bool-cases (not c.kmem_initialized && ltb (header_size + 8) (heap_size_at b i))) [
      | inl heap_too ↦ rw heap_too (record {
        index = v.index + b.mmap_num_pages + j;
        at_index = not_over ∙ omega (arith, at_i, v.at_index, size_is);
        heap_passed = omega arith;
        heap_placed = λ f k. not_over;
        marked = λ start e'.
            let same : start ≡ c.i = ground (arith, e') in
            rw same
              (placed-IsMarked b c _ (heap_size_at b i) w (not_over ∙ omega (arith, at_i)) refl);
      })
      | inr no_heap ↦ rw no_heap (record {
        index = v.index + b.mmap_num_pages;
        at_index = omega (arith, at_i, v.at_index);
        heap_passed = omega (arith, at_i, v.heap_passed);
        heap_placed = v.heap_placed;
        marked = λ start e'.
            let same : start ≡ c.i = ground (arith, e') in
            rw same (placed-IsMarked b c _ 0 w (omega (arith, at_i)) refl);
      })
    ]
