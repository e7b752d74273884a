-- ===== src/Pmm/Alloc/Handed.antt =====
-- What PMM_alloc_page hands out.
use mathlib.Core.List.{Memᴰ}
use mathlib.Core.List.Memᴰ
use the_os_reborn.Common.{
  ◌/◌, ◌*◌, ℕ, suc, ◌+◌, ◌^◌, ◌≤◌, ◌<◌, ◌≡◌, ◌≢◌, refl, sym, ap, ◌∙◌, subst, Bool, true, false,
  List, [], ◌∷◌, All, ◌⊎◌, inl, inr, arith,
}
use the_os_reborn.Pmm.{
  page_size, Region, Pmm, pages_of, page_at, Found, page, nothing, out_of_fuel, alloc_in_region,
  alloc_loop, alloc_page,
}
use the_os_reborn.Pmm.Alloc.{
  bit_of, count-le, Consumes, Consumes-refl, Consumes-trans, IsFound, alloc_in_region-IsFound,
  IsFound-earlier,
}

abbrev pub AreSmall : List Region → Type 0
AreSmall rs = All (λ r. r.len / page_size ≤ 2 ^ 31) rs

-- what the loop over the regions `rs` found, going from `s` to `t`
abbrev pub IsAllocated : Pmm → Pmm → List Region → Found → Type 0
IsAllocated s t rs (page p) = (r : Region) × Memᴰ r rs × IsFound s t r (page p)
IsAllocated s t rs nothing =
    (r : Region) → Memᴰ r rs → (k : ℕ) → k < pages_of r → bit_of t r k ≡ false
IsAllocated s t rs out_of_fuel = ⊥

still_clear : (b c : Bool) → (c ≡ true → b ≡ true) → b ≡ false → c ≡ false
still_clear b c f e = ground (arith, f, e)

-- what the loop does after region `r` is what it does on `r`, if that ends with a page, and on the
-- rest otherwise
after_region :
    (s t u : Pmm) (r : Region) (rs : List Region)
    → Consumes s t
    → Consumes t u
    → IsFound s t r nothing
    → (f : Found) → IsAllocated t u rs f
    → IsAllocated s u (r ∷ rs) f
after_region s t u r rs c d all_clear (page p) (q, m, h) =
    (q, Memᴰ.tail m, IsFound-earlier s t u q (page p) c h)
after_region s t u r rs c d all_clear nothing h = λ q m k lt. elim (Memᴰ.cases_cons m) [
  | inl e ↦
      still_clear (bit_of t q k) (bit_of u q k) (d.cleared _ _)
        (subst (λ x. (j : ℕ) → j < pages_of x → bit_of t x j ≡ false) (sym e) all_clear k lt)
  | inr m' ↦ h q m' k lt
]
after_region s t u r rs c d all_clear out_of_fuel h = h

alloc_loop-IsAllocated :
    (rs : List Region) (s : Pmm)
    → AreSmall rs
    → Consumes s (alloc_loop rs s).0 × IsAllocated s (alloc_loop rs s).0 rs (alloc_loop rs s).1
unfolding alloc_loop
alloc_loop-IsAllocated [] s small = (Consumes-refl s, λ r m. absurd (Memᴰ.not-nil m))
alloc_loop-IsAllocated (r ∷ rs) s (small, others) =
    let (c, h) =
      alloc_in_region-IsFound (suc (pages_of r)) r s (omega (arith, small))
        (omega (arith, count-le (bit_of s r) (pages_of r))) in
    let t : Pmm = (alloc_in_region (suc (pages_of r)) r s).0 in
    let (d, g) = alloc_loop-IsAllocated rs t others in
    elim (Found-cases (alloc_in_region (suc (pages_of r)) r s).1) [
      | inl (p, e) ↦ rw (e, alloc_loop) (c, (r, Memᴰ.head refl, subst (IsFound s t r) e h))
      | inr (inl e) ↦
          rw (e, alloc_loop)
            (
              Consumes-trans s t (alloc_loop rs t).0 c d,
              after_region s t (alloc_loop rs t).0 r rs c d (subst (IsFound s t r) e h)
                  (alloc_loop rs t).1 g,
            )
      | inr (inr e) ↦ absurd (subst (IsFound s t r) e h)
    ]
  where
    Found-cases : (f : Found) → ((p : ℕ) × (f ≡ page p)) ⊎ ((f ≡ nothing) ⊎ (f ≡ out_of_fuel))
    Found-cases (page p) = inl (p, refl)
    Found-cases nothing = inr (inl refl)
    Found-cases out_of_fuel = inr (inr refl)

pub alloc_page-IsAllocated :
    (s : Pmm)
    → AreSmall s.regions
    → Consumes s (alloc_page s).0 × IsAllocated s (alloc_page s).0 s.regions (alloc_page s).1
unfolding alloc_page
alloc_page-IsAllocated s small = alloc_loop-IsAllocated s.regions s small

-- regions in the address space that have no address in common
abbrev pub AreApart : List Region → Type 0
AreApart rs =
    ((r : Region) → Memᴰ r rs → r.addr_start + r.len ≤ 2 ^ 64)
    × ((r q : Region)
        → Memᴰ r rs
        → Memᴰ q rs
        → (r ≡ q) ⊎ ((r.addr_start + r.len ≤ q.addr_start) ⊎ (q.addr_start + q.len ≤ r.addr_start)))

same_page :
    (rs : List Region) (r q : Region) (j k : ℕ)
    → AreApart rs
    → Memᴰ r rs
    → Memᴰ q rs
    → j < pages_of r
    → k < pages_of q
    → page_at r j ≡ page_at q k
    → (r ≡ q) × (j ≡ k)
same_page rs r q j k (inside, apart) m n lt_j lt_k e =
    let in_r : page_at r j ≡ r.addr_start + j * page_size = omega (arith, inside r m, lt_j) in
    let in_q : page_at q k ≡ q.addr_start + k * page_size = omega (arith, inside q n, lt_k) in
    let e' : r.addr_start + j * page_size ≡ q.addr_start + k * page_size = sym in_r ∙ e ∙ in_q in
    elim (apart r q m n) [
      | inl same ↦ (same, omega (arith, e', ap (λ (x : Region). x.addr_start) same))
      | inr (inl before) ↦ absurd (omega (arith, e', before, lt_j, lt_k))
      | inr (inr behind) ↦ absurd (omega (arith, e', behind, lt_j, lt_k))
    ]

-- PMM_alloc_page called again and again gave the pages `ps`
pub data Run : Pmm → Pmm → List ℕ → Type 0 where
  done : {s : Pmm} → Run s s []
  next :
      {s t u : Pmm} {p : ℕ} {ps : List ℕ}
      → alloc_page s ≡ (t, page p)
      → Run t u ps
      → Run s u (p ∷ ps)

-- the page `p` of region `r`, of which the bit is clear in `s`, is not handed out again
not_again :
    (s u : Pmm) (ps : List ℕ) (r : Region) (k : ℕ)
    → AreSmall s.regions
    → AreApart s.regions
    → Memᴰ r s.regions
    → k < pages_of r
    → bit_of s r k ≡ false
    → Run s u ps
    → All (λ q. page_at r k ≢ q) ps
not_again s u [] r k small apart m lt gone run = tt
not_again s u (p ∷ ps) r k small apart m lt gone (next {t} e run) =
    let (c, (q, n, (j, lt_j, p_is, is_set, cleared, free))) =
      subst (λ x. Consumes s x.0 × IsAllocated s x.0 s.regions x.1) e
        (alloc_page-IsAllocated s small) in
    (
      λ same.
          let (r_is_q, k_is_j) = same_page s.regions r q k j apart m n lt lt_j (same ∙ p_is) in
          let set_r : bit_of s r k ≡ true =
            subst (λ x. bit_of s x k ≡ true) (sym r_is_q) (ap (bit_of s q) k_is_j ∙ is_set) in
          cc,
      not_again t u ps r k (subst AreSmall (sym c.regions) small)
          (subst AreApart (sym c.regions) apart) (subst (Memᴰ r) (sym c.regions) m) lt
          (still_clear _ _ (c.cleared _ _) gone) run,
    )

abbrev pub AreDistinct : List ℕ → Type 0
AreDistinct [] = Unit
AreDistinct (p ∷ ps) = All (λ q. p ≢ q) ps × AreDistinct ps

-- When the regions have no address in common, at most 2 ^ 31 pages each, and end at 2 ^ 64 at the
-- latest, PMM_alloc_page called any number of times in a row, as long as it does not return NULL, gives
-- pages that all differ.
pub alloc_page-AreDistinct :
    (s t : Pmm) (ps : List ℕ)
    → AreSmall s.regions
    → AreApart s.regions
    → Run s t ps
    → AreDistinct ps
alloc_page-AreDistinct s t [] small apart run = tt
alloc_page-AreDistinct s t (p ∷ ps) small apart (next {t = u} e run) =
    let (c, (q, n, (j, lt_j, p_is, is_set, cleared, free))) =
      subst (λ x. Consumes s x.0 × IsAllocated s x.0 s.regions x.1) e
        (alloc_page-IsAllocated s small) in
    let small_u : AreSmall u.regions = subst AreSmall (sym c.regions) small in
    let apart_u : AreApart u.regions = subst AreApart (sym c.regions) apart in
    (
      subst (λ x. All (λ y. x ≢ y) ps) (sym p_is)
          (not_again u t ps q j small_u apart_u (subst (Memᴰ q) (sym c.regions) n) lt_j cleared
            run),
      alloc_page-AreDistinct u t ps small_u apart_u run,
    )
