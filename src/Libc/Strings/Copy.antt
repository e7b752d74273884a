-- ===== src/Libc/Strings/Copy.antt =====
-- What strcpy, strcat and strncpy write, and how strlen and strcmp read it.
use mathlib.Core.List.{append-nil}
use the_os_reborn.Common.{
  ℕ, zero, suc, ◌+◌, ◌≤◌, ◌<◌, ◌≡◌, refl, sym, ap, ◌∙◌, List, [], ◌∷◌, ◌++◌, ◌==◌, length,
  length-append, set, drop, length-drop, replicate, Bool-cases, inl, inr, arith,
}
use the_os_reborn.Libc.Strings.{
  first_byte, strlen, copy_text, strcpy, strcat, zero_cells, strncpy_loop, strncpy,
}
use the_os_reborn.Libc.Strings.Compare.{text}

-- a copy behind the first cell leaves it alone
copy_text-suc :
    (src : List ℕ) (i d : ℕ) (dest : List ℕ)
    → copy_text src (suc i) (d ∷ dest) ≡ d ∷ copy_text src i dest
unfolding copy_text
copy_text-suc [] i d dest = refl
copy_text-suc (x ∷ xs) i d dest = ground (arith, copy_text-suc xs (suc i) d (set dest i x))

copy_text-front :
    (src dest : List ℕ)
    → length (text src) < length dest
    → copy_text src 0 dest ≡ text src ++ (0 ∷ drop (suc (length (text src))) dest)
unfolding copy_text
copy_text-front [] [] room = absurd (omega arith)
copy_text-front [] (d ∷ dest) room = refl
copy_text-front (x ∷ xs) [] room = absurd (omega arith)
copy_text-front (x ∷ xs) (d ∷ dest) room = elim (Bool-cases (x == 0)) [
  | inl nul ↦ rw nul refl
  | inr more ↦
      let room' = rw more at room in
      rw more (
        copy_text-suc xs 0 x dest
        ∙ ap (λ r. x ∷ r) (copy_text-front xs dest (omega (arith, room'))))
]

strlen_lem : (s : List ℕ) → strlen s ≡ length (text s)
unfolding strlen
strlen_lem [] = refl
strlen_lem (x ∷ xs) = ground (arith, strlen_lem xs)

copy_text-behind :
    (src dest : List ℕ)
    → strlen dest < length dest
    → copy_text src (strlen dest) dest ≡ text dest ++ copy_text src 0 (drop (strlen dest) dest)
unfolding strlen
copy_text-behind src [] room = absurd (omega arith)
copy_text-behind src (d ∷ dest) room = elim (Bool-cases (d == 0)) [
  | inl nul ↦ rw nul refl
  | inr more ↦
      let room' = rw more at room in
      rw more (
        copy_text-suc src (strlen dest) d dest
        ∙ ap (λ r. d ∷ r) (copy_text-behind src dest (omega (arith, room'))))
]

text-append : (a b : List ℕ) → text (text a ++ b) ≡ text a ++ text b
text-append [] b = refl
text-append (x ∷ xs) b = elim (Bool-cases (x == 0)) [
  | inl nul ↦ rw nul refl
  | inr more ↦ rw more (rw more (ap (λ r. x ∷ r) (text-append xs b)))
]

text-nul : (a r : List ℕ) → text (text a ++ (0 ∷ r)) ≡ text a
text-nul a r = text-append a (0 ∷ r) ∙ append-nil (text a)

-- strcpy into an array with room for the text and its 0 writes these and nothing behind them, so that
-- the array then holds the same text.
pub strcpy_lem :
    (dest src : List ℕ)
    → length (text src) < length dest
    → (strcpy dest src ≡ text src ++ (0 ∷ drop (suc (length (text src))) dest))
      × (text (strcpy dest src) ≡ text src)
unfolding strcpy
strcpy_lem dest src room =
    let e = copy_text-front src dest room in (e, ap (λ x. text x) e ∙ text-nul src _)

-- strcat onto a text, in an array with room for both texts and a 0, gives the one followed by the
-- other; what lies behind the 0 is as it was.
pub strcat_lem :
    (dest src : List ℕ)
    → strlen dest + strlen src < length dest
    → (strcat dest src
        ≡ text dest ++ (text src ++ (0 ∷ drop (suc (strlen src)) (drop (strlen dest) dest))))
      × (text (strcat dest src) ≡ text dest ++ text src)
      × (strlen (strcat dest src) ≡ strlen dest + strlen src)
unfolding strcat
strcat_lem dest src room =
    let n = strlen_lem src in
    let e =
      copy_text-behind src dest (omega (arith, room))
      ∙ ap (λ x. text dest ++ x)
          (copy_text-front src (drop (strlen dest) dest)
              (omega (arith, room, n, length-drop (strlen dest) dest))
            ∙ ap (λ k. text src ++ (0 ∷ drop (suc k) (drop (strlen dest) dest))) (sym n)) in
    let t =
      ap (λ x. text x) e
      ∙ text-append dest (text src ++ (0 ∷ drop (suc (strlen src)) (drop (strlen dest) dest)))
      ∙ ap (λ x. text dest ++ x) (text-nul src _) in
    (
      e,
      t,
      strlen_lem (strcat dest src)
          ∙ ap (λ x. length x) t
          ∙ length-append (text dest) (text src)
          ∙ omega (arith, n, strlen_lem dest),
    )

zero_cells-suc :
    (n i d : ℕ) (dest : List ℕ) → zero_cells n (suc i) (d ∷ dest) ≡ d ∷ zero_cells n i dest
unfolding zero_cells
zero_cells-suc zero i d dest = refl
zero_cells-suc (suc n) i d dest = zero_cells-suc n (suc i) d (set dest i 0)

zero_cells-front :
    (n : ℕ) (dest : List ℕ) → n ≤ length dest → zero_cells n 0 dest ≡ replicate n 0 ++ drop n dest
unfolding zero_cells
zero_cells-front zero dest room = refl
zero_cells-front (suc n) [] room = absurd (omega arith)
zero_cells-front (suc n) (d ∷ dest) room =
    zero_cells-suc n 0 0 dest ∙ ap (λ x. 0 ∷ x) (zero_cells-front n dest (omega arith))

strncpy_loop-suc :
    (n : ℕ) (src : List ℕ) (i d : ℕ) (dest : List ℕ)
    → strncpy_loop n src (suc i) (d ∷ dest) ≡ d ∷ strncpy_loop n src i dest
unfolding strncpy_loop
strncpy_loop-suc zero src i d dest = refl
strncpy_loop-suc (suc n) src i d dest = ground (
  arith,
  zero_cells-suc (suc n) i d dest,
  strncpy_loop-suc n (drop 1 src) (suc i) d (set dest i (first_byte src)),
)

-- `n` bytes of a text, filled up with 0
abbrev pub padded : ℕ → List ℕ → List ℕ
padded zero t = []
padded (suc n) [] = 0 ∷ padded n []
padded (suc n) (x ∷ t) = x ∷ padded n t

padded-zeros : (n : ℕ) → padded n [] ≡ replicate n 0
padded-zeros zero = refl
padded-zeros (suc n) = ap (λ x. 0 ∷ x) (padded-zeros n)

zero_cells-padded :
    (n : ℕ) (dest : List ℕ) → n ≤ length dest → zero_cells n 0 dest ≡ padded n [] ++ drop n dest
zero_cells-padded n dest room =
    zero_cells-front n dest room ∙ ap (λ x. x ++ drop n dest) (sym (padded-zeros n))

-- strncpy into an array of at least `n` cells writes exactly `n`: the first `n` bytes of the text, or
-- all of it and zeros.
pub strncpy_lem :
    (n : ℕ) (dest src : List ℕ)
    → n ≤ length dest
    → strncpy dest src n ≡ padded n (text src) ++ drop n dest
unfolding strncpy strncpy_loop
strncpy_lem zero dest src room = refl
strncpy_lem (suc n) [] src room = absurd (omega arith)
strncpy_lem (suc n) (d ∷ dest) [] room = zero_cells-padded (suc n) (d ∷ dest) room
strncpy_lem (suc n) (d ∷ dest) (x ∷ xs) room = elim (Bool-cases (x == 0)) [
  | inl nul ↦ rw nul (zero_cells-padded (suc n) (d ∷ dest) room)
  | inr more ↦
      rw more
        (strncpy_loop-suc n xs 0 x dest ∙ ap (λ r. x ∷ r) (strncpy_lem n dest xs (omega arith)))
]
