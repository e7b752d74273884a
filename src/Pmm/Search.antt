-- ===== src/Pmm/Search.antt =====
-- The search of PMM_get_index_of_free_page over words and bits finds the first free page.
use the_os_reborn.Common.{
  ℕ, zero, suc, ◌+◌, ◌-◌, ◌*◌, ◌/◌, ◌%◌, ◌^◌, ◌≤◌, ◌<◌, ◌≡◌, refl, ap, ◌∙◌, subst, Bool, true,
  false, ◌&&◌, Option, none, some, ◌==◌, ltb, Bool-cases, Option-cases, ltb→lt, inl, inr, arith,
}
use the_os_reborn.Pmm.{
  page_size, u32, Region, find_bit, is_zero_from, find_word, pages_of, get_index_of_free_page,
  bit_at,
}

-- `k` is the least index from `lo` on, below `hi`, at which `f` is true
pub record IsFirst (f : ℕ → Bool) (lo hi k : ℕ) : Type 0 where
  pub above : lo ≤ k
  pub below : k < hi
  pub is_set : f k ≡ true
  pub earlier : (j : ℕ) → lo ≤ j → j < k → f j ≡ false

abbrev pub NoneSet : (ℕ → Bool) → ℕ → ℕ → Type 0
NoneSet f lo hi = (j : ℕ) → lo ≤ j → j < hi → f j ≡ false

-- what a search from `lo` to `hi` found
abbrev pub Finds : (ℕ → Bool) → ℕ → ℕ → Option ℕ → Type 0
Finds f lo hi none = NoneSet f lo hi
Finds f lo hi (some k) = IsFirst f lo hi k

-- a search that goes on after `mid`
Finds-extend :
    (f : ℕ → Bool) (lo mid hi : ℕ) (o : Option ℕ)
    → NoneSet f lo mid
    → lo ≤ mid
    → Finds f mid hi o
    → Finds f lo hi o
Finds-extend f lo mid hi none front le rest = λ j a b. elim (Bool-cases (ltb j mid)) [
  | inl low ↦ front j a (ltb→lt _ _ low)
  | inr high ↦ rest j (ground (arith, high)) b
]
Finds-extend f lo mid hi (some k) front le rest = record {
  above = omega (arith, rest.above);
  below = rest.below;
  is_set = rest.is_set;
  earlier = λ j a b. elim (Bool-cases (ltb j mid)) [
    | inl low ↦ front j a (ltb→lt _ _ low)
    | inr high ↦ rest.earlier j (ground (arith, high)) b
  ];
}

-- nothing is found at `lo`
NoneSet-one : (f : ℕ → Bool) (lo : ℕ) → f lo ≡ false → NoneSet f lo (lo + 1)
NoneSet-one f lo h j a b = let same : j ≡ lo = omega arith in ap f same ∙ h

-- a bit that is set in the word is a page if its index is below the number of pages
abbrev below_pages : ℕ → ℕ → (ℕ → Bool) → ℕ → Bool
below_pages base num_pages word j = word j && ltb (base + j) num_pages

abbrev shift : ℕ → Option ℕ → Option ℕ
shift base none = none
shift base (some k) = some (base + k)

find_bit-Finds :
    (n bit base num_pages : ℕ) (word : ℕ → Bool)
    → (o : Option ℕ) × (find_bit n bit base num_pages word ≡ shift base o)
      × Finds (below_pages base num_pages word) bit (bit + n) o
unfolding find_bit
find_bit-Finds zero bit base num_pages word = (none, refl, λ j a b. absurd (omega arith))
find_bit-Finds (suc n) bit base num_pages word =
    let (o, e, f) = find_bit-Finds n (bit + 1) base num_pages word in
    let g : Finds (below_pages base num_pages word) (bit + 1) (bit + suc n) o =
      subst (λ x. Finds (below_pages base num_pages word) (bit + 1) x o) (omega arith) f in
    elim (Bool-cases (word bit)) [
      | inr clear ↦ (
        o,
        rw clear e,
        Finds-extend _ bit (bit + 1) (bit + suc n) o (NoneSet-one _ bit (rw clear refl))
            (omega arith) g,
      )
      | inl is_set ↦ elim (Bool-cases (ltb (base + bit) num_pages)) [
        | inr outside ↦ (
          o,
          rw (is_set, outside) e,
          Finds-extend _ bit (bit + 1) (bit + suc n) o
              (NoneSet-one _ bit (rw (is_set, outside) refl)) (omega arith) g,
        )
        | inl inside ↦ (
          some bit,
          rw (is_set, inside) refl,
          record {
            above = omega arith;
            below = omega arith;
            is_set = rw (is_set, inside) refl;
            earlier = λ j a b. absurd (omega arith);
          },
        )
      ]
    ]

is_zero_from-NoneSet :
    (n bit : ℕ) (word : ℕ → Bool) → is_zero_from n bit word ≡ true → NoneSet word bit (bit + n)
is_zero_from-NoneSet zero bit word h = λ j a b. absurd (omega arith)
is_zero_from-NoneSet (suc n) bit word h = λ j a b. elim (Bool-cases (j == bit)) [
  | inl here ↦ let same : j ≡ bit = ground (arith, here) in ap word same ∙ ground (arith, h)
  | inr later ↦
      is_zero_from-NoneSet n (bit + 1) word (ground (arith, h)) j (ground (arith, later))
        (omega arith)
]

-- page `j` is free in the bitmap at `start`
abbrev pub is_free : (ℕ → ℕ → Bool) → ℕ → ℕ → ℕ → Bool
is_free bits start num_pages j = bit_at bits start j && ltb j num_pages

-- the bits of word `k` are those of the pages from `k * 64` on
word_page :
    (bits : ℕ → ℕ → Bool) (start num_pages k j : ℕ)
    → k * 64 ≤ j
    → j < (k + 1) * 64
    → is_free bits start num_pages j
      ≡ below_pages (k * 64) num_pages (bits (start + 8 * k)) (j - k * 64)
word_page bits start num_pages k j a b =
    let word : start + 8 * (j / 64) ≡ start + 8 * k = omega arith in
    let bit : j % 64 ≡ j - k * 64 = omega arith in
    let page : k * 64 + (j - k * 64) ≡ j = omega arith in rw (word, bit, page) refl

word-NoneSet :
    (bits : ℕ → ℕ → Bool) (start num_pages k : ℕ)
    → NoneSet (below_pages (k * 64) num_pages (bits (start + 8 * k))) 0 64
    → NoneSet (is_free bits start num_pages) (k * 64) ((k + 1) * 64)
word-NoneSet bits start num_pages k h j a b =
    word_page bits start num_pages k j a b ∙ h (j - k * 64) (omega arith) (omega arith)

word-IsFirst :
    (bits : ℕ → ℕ → Bool) (start num_pages k bit hi : ℕ)
    → IsFirst (below_pages (k * 64) num_pages (bits (start + 8 * k))) 0 64 bit
    → (k + 1) * 64 ≤ hi
    → IsFirst (is_free bits start num_pages) (k * 64) hi (k * 64 + bit)
word-IsFirst bits start num_pages k bit hi f le =
    let back : k * 64 + bit - k * 64 ≡ bit = omega arith in
    record {
      above = omega arith;
      below = omega (arith, f.below);
      is_set =
          word_page bits start num_pages k (k * 64 + bit) (omega arith) (omega (arith, f.below))
          ∙ ap (below_pages (k * 64) num_pages (bits (start + 8 * k))) back
          ∙ f.is_set;
      earlier = λ j a b.
          word_page bits start num_pages k j a (omega (arith, f.below))
          ∙ f.earlier (j - k * 64) (omega arith) (omega arith);
    }

pub find_word-Finds :
    (n k num_pages start : ℕ) (bits : ℕ → ℕ → Bool)
    → Finds
        (is_free bits start num_pages)
        (k * 64)
        ((k + n) * 64)
        (find_word n k num_pages start bits)
unfolding find_word
find_word-Finds zero k num_pages start bits = λ j a b. absurd (omega arith)
find_word-Finds (suc n) k num_pages start bits =
    let f : ℕ → Bool = is_free bits start num_pages in
    let rest =
      subst (λ x. Finds f ((k + 1) * 64) x (find_word n (k + 1) num_pages start bits)) (omega arith)
        (find_word-Finds n (k + 1) num_pages start bits) in
    let go_on = λ (h : NoneSet f (k * 64) ((k + 1) * 64)).
      Finds-extend f (k * 64) ((k + 1) * 64) ((k + suc n) * 64)
        (find_word n (k + 1) num_pages start bits) h (omega arith) rest in
    let word : ℕ → Bool = bits (start + 8 * k) in
    elim (Bool-cases (is_zero_from 64 0 word)) [
      | inl zero_word ↦
          let empty = is_zero_from-NoneSet 64 0 word zero_word in
          rw zero_word
            (go_on (word-NoneSet bits start num_pages k (λ j a b. rw (empty j a b) refl)))
      | inr some_bit ↦
          let (o, e, g) = find_bit-Finds 64 0 (k * 64) num_pages word in
          elim (Option-cases o) [
            | inl z ↦
                let none_here = subst (Finds (below_pages (k * 64) num_pages word) 0 64) z g in
                rw (some_bit, e ∙ ap (shift (k * 64)) z)
                  (go_on (word-NoneSet bits start num_pages k none_here))
            | inr (bit, z) ↦
                let here = subst (Finds (below_pages (k * 64) num_pages word) 0 64) z g in
                rw (some_bit, e ∙ ap (shift (k * 64)) z)
                  (word-IsFirst bits start num_pages k bit ((k + suc n) * 64) here (omega arith))
          ]
    ]

-- a search that only counts what is below `top`
Finds-below :
    (f : ℕ → Bool) (lo lo' hi top : ℕ) (o : Option ℕ)
    → lo ≡ lo'
    → top ≤ hi
    → Finds (λ j. f j && ltb j top) lo hi o
    → Finds f lo' top o
Finds-below f lo lo' hi top none e le h =
    λ j a b. let at_j = h j (omega arith) (omega arith) in ground (arith, at_j, b)
Finds-below f lo lo' hi top (some k) e le h =
    let at_k = h.is_set in
    let inside : k < top = ground (arith, at_k) in
    record {
      above = omega (arith, h.above);
      below = inside;
      is_set = ground (arith, at_k);
      earlier = λ j a b.
          let at_j = h.earlier j (omega arith) b in
          let lt : j < top = omega (arith, b, inside) in ground (arith, at_j, lt);
    }

-- with the number of pages in 32 bits
pub free_page-Finds :
    (bits : ℕ → ℕ → Bool) (r : Region)
    → pages_of r + 63 < 2 ^ 32
    → Finds (λ j. bit_at bits r.addr_mmap_start j) 0 (pages_of r) (get_index_of_free_page bits r)
unfolding get_index_of_free_page
free_page-Finds bits r small =
    let p : ℕ = pages_of r in
    Finds-below (λ j. bit_at bits r.addr_mmap_start j) (0 * 64) 0 ((0 + u32 (p + 63) / 64) * 64) p _
      refl (omega arith) (find_word-Finds (u32 (p + 63) / 64) 0 p r.addr_mmap_start bits)

-- On a region of less than 2 ^ 32 - 63 pages PMM_get_index_of_free_page finds the first page whose bit
-- is set, and returns -1 only if no page of the region has its bit set.
pub get_index_of_free_page-Finds :
    (bits : ℕ → ℕ → Bool) (r : Region)
    → r.len / page_size + 63 < 2 ^ 32
    → Finds
        (λ j. bit_at bits r.addr_mmap_start j)
        0
        (r.len / page_size)
        (get_index_of_free_page bits r)
get_index_of_free_page-Finds bits r small =
    let same : pages_of r ≡ r.len / page_size = omega (arith, small) in
    subst (λ n. Finds (λ j. bit_at bits r.addr_mmap_start j) 0 n (get_index_of_free_page bits r))
      same (free_page-Finds bits r (omega (arith, same, small)))
