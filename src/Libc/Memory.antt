-- ===== src/Libc/Memory.antt =====
-- Copying and filling memory: Userland/Libraries/LibC/string.c. Memory is the map from addresses to
-- cells: bytes for memset, memcpy and memmove, 16 and 64 bits for the functions whose names end in w
-- and q. The arrays lie below 2 ^ 64, so that addresses do not wrap.
use the_os_reborn.Common.{
  ℕ, zero, suc, ◌+◌, ◌-◌, ◌%◌, ◌^◌, ◌≤◌, ◌<◌, ◌≡◌, sym, ◌∙◌, ◌&&◌, ◌||◌, ◌==◌, ltb, leb,
  if◌then◌else◌, update, ◌⊎◌, inl, inr, arith, Bool-cases,
}

-- the rounds of the loops that fill, from address `p` on
pub fill : ℕ → ℕ → ℕ → (ℕ → ℕ) → ℕ → ℕ
fill zero p value m = m
fill (suc n) p value m = fill n (p + 1) value (update m p value)

-- `while (count--) *d++ = *s++`
pub copy_up : ℕ → ℕ → ℕ → (ℕ → ℕ) → ℕ → ℕ
copy_up zero d s m = m
copy_up (suc n) d s m = copy_up n (d + 1) (s + 1) (update m d (m s))

-- `while (count--) *--d = *--s`, for pointers that began behind the arrays at `d` and `s`
pub copy_down : ℕ → ℕ → ℕ → (ℕ → ℕ) → ℕ → ℕ
copy_down zero d s m = m
copy_down (suc n) d s m = copy_down n d s (update m (d + n) (m (s + n)))

pub memset : ℕ → ℕ → ℕ → (ℕ → ℕ) → ℕ → ℕ
memset ptr value count m = fill count ptr (value % 2 ^ 8) m

pub memsetw : ℕ → ℕ → ℕ → (ℕ → ℕ) → ℕ → ℕ
memsetw ptr value count m = fill count ptr (value % 2 ^ 16) m

pub memsetq : ℕ → ℕ → ℕ → (ℕ → ℕ) → ℕ → ℕ
memsetq ptr value count m = fill count ptr (value % 2 ^ 64) m

pub memcpy : ℕ → ℕ → ℕ → (ℕ → ℕ) → ℕ → ℕ
memcpy dest src count m = copy_up count dest src m

pub memcpyw : ℕ → ℕ → ℕ → (ℕ → ℕ) → ℕ → ℕ
memcpyw dest src count m = copy_up count dest src m

pub memcpyq : ℕ → ℕ → ℕ → (ℕ → ℕ) → ℕ → ℕ
memcpyq dest src count m = copy_up count dest src m

pub memmove : ℕ → ℕ → ℕ → (ℕ → ℕ) → ℕ → ℕ
memmove dest src count m =
    let up : ℕ → ℕ = copy_up count dest src m in
    let down : ℕ → ℕ = copy_down count dest src m in
    if dest == src || count == 0
    then m
    else if ltb dest src || leb (src + count) dest
    then up
    else down

-- `n` cells at `d` hold what stood in the cells at `s` before; the other cells are as they were
abbrev pub moved : ℕ → ℕ → ℕ → (ℕ → ℕ) → ℕ → ℕ
moved n d s m x = if leb d x && ltb x (d + n) then m (s + (x - d)) else m x

copy_up-moved :
    (n d s : ℕ) (m : ℕ → ℕ) (x : ℕ) → (d < s) ⊎ (s + n ≤ d) → copy_up n d s m x ≡ moved n d s m x
unfolding copy_up
copy_up-moved zero d s m x h = ground arith
copy_up-moved (suc n) d s m x h =
    let ih = copy_up-moved n (d + 1) (s + 1) (update m d (m s)) x (ground (arith, h)) in
    elim (Bool-cases (ltb d x)) [
      | inl above ↦
          let at_x : s + 1 + (x - (d + 1)) ≡ s + (x - d) = ground arith in
          ground (arith, ih, at_x, h)
      | inr below ↦
          let at_d : x ≡ d → s + (x - d) ≡ s = λ e. omega arith in ground (arith, ih, at_d, h)
    ]

copy_down-moved : (n d s : ℕ) (m : ℕ → ℕ) (x : ℕ) → s ≤ d → copy_down n d s m x ≡ moved n d s m x
unfolding copy_down
copy_down-moved zero d s m x h = ground arith
copy_down-moved (suc n) d s m x h =
    let ih = copy_down-moved n d s (update m (d + n) (m (s + n))) x h in
    elim (Bool-cases (x == d + n)) [
      | inl last ↦ let at_x : s + (x - d) ≡ s + n = ground arith in ground (arith, ih, at_x)
      | inr other ↦ ground (arith, ih, h)
    ]

fill_lem :
    (n p value : ℕ) (m : ℕ → ℕ) (x : ℕ)
    → fill n p value m x ≡ (if leb p x && ltb x (p + n) then value else m x)
unfolding fill
fill_lem zero p value m x = ground arith
fill_lem (suc n) p value m x = ground (arith, fill_lem n (p + 1) value (update m p value) x)

-- memmove copies between arrays that overlap in any way: the `count` cells at `dest` hold what stood
-- in those at `src` before the call, and every other cell is as it was.
pub memmove_lem :
    (dest src count : ℕ) (m : ℕ → ℕ) (x : ℕ) → memmove dest src count m x ≡ moved count dest src m x
unfolding memmove
memmove_lem dest src count m x = elim (Bool-cases (dest == src || count == 0)) [
  | inl same ↦
      let at_x : dest ≡ src → dest ≤ x → src + (x - dest) ≡ x = λ e le. omega arith in
      ground (arith, at_x)
  | inr other ↦ elim (Bool-cases (ltb dest src || leb (src + count) dest)) [
    | inl up ↦ rw (other, up) (copy_up-moved count dest src m x (ground arith))
    | inr down ↦ rw (other, down) (copy_down-moved count dest src m x (ground arith))
  ]
]

-- memcpy does the same for arrays of which the source does not begin below the destination and reach
-- into it.
pub memcpy_lem :
    (dest src count : ℕ) (m : ℕ → ℕ) (x : ℕ)
    → (dest < src) ⊎ (src + count ≤ dest)
    → memcpy dest src count m x ≡ memmove dest src count m x
unfolding memcpy
memcpy_lem dest src count m x h =
    copy_up-moved count dest src m x h ∙ sym (memmove_lem dest src count m x)

pub memset_lem :
    (ptr value count : ℕ) (m : ℕ → ℕ) (x : ℕ)
    → memset ptr value count m x ≡ (if leb ptr x && ltb x (ptr + count) then value % 2 ^ 8 else m x)
unfolding memset
memset_lem ptr value count m x = fill_lem count ptr (value % 2 ^ 8) m x
