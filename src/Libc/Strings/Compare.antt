-- ===== src/Libc/Strings/Compare.antt =====
-- The comparisons of strings are the lexicographic order on their texts.
use Prim.Native.Nat.{Ordering, lt, eq, gt}
use mathlib.Core.List.{map}
use the_os_reborn.Common.{
  ap, ◌∙◌, ◌+◌, ◌-◌, ◌&&◌, leb, ℕ, zero, suc, ◌≡◌, refl, List, [], ◌∷◌, ◌==◌, ltb, if◌then◌else◌,
  take, arith,
}
use the_os_reborn.Libc.Strings.{strcmp, tolower, strncmp, strcasecmp, strncasecmp}

-- the bytes before the first 0
abbrev pub text : List ℕ → List ℕ
text [] = []
text (x ∷ xs) = if x == 0 then [] else x ∷ text xs

-- a proper prefix is less; else the first bytes that differ decide
pub lex : List ℕ → List ℕ → Ordering
lex [] [] = eq
lex [] (y ∷ ys) = lt
lex (x ∷ xs) [] = gt
lex (x ∷ xs) (y ∷ ys) = let rest = lex xs ys in if ltb x y then lt else if ltb y x then gt else rest

strcmp_lem : (a b : List ℕ) → strcmp a b ≡ lex (text a) (text b)
unfolding strcmp lex
strcmp_lem [] [] = refl
strcmp_lem [] (y ∷ ys) = ground arith
strcmp_lem (x ∷ xs) [] = ground arith
strcmp_lem (x ∷ xs) (y ∷ ys) = ground (arith, strcmp_lem xs ys)

strncmp_lem : (n : ℕ) (a b : List ℕ) → strncmp n a b ≡ lex (take n (text a)) (take n (text b))
unfolding strncmp lex
strncmp_lem zero a b = refl
strncmp_lem (suc n) [] [] = refl
strncmp_lem (suc n) [] (y ∷ ys) = ground arith
strncmp_lem (suc n) (x ∷ xs) [] = ground arith
strncmp_lem (suc n) (x ∷ xs) (y ∷ ys) = ground (arith, strncmp_lem n xs ys)

tolower_zero : (x : ℕ) → (tolower x == 0) ≡ (x == 0)
unfolding tolower
tolower_zero x = ground arith

tolower_nul : tolower 0 ≡ 0
unfolding tolower
tolower_nul = refl

strcasecmp_lem : (a b : List ℕ) → strcasecmp a b ≡ strcmp (map tolower a) (map tolower b)
unfolding strcasecmp strcmp
strcasecmp_lem [] [] = ground (arith, tolower_nul)
strcasecmp_lem [] (y ∷ ys) = ground (arith, tolower_nul)
strcasecmp_lem (x ∷ xs) [] = ground (arith, tolower_nul)
strcasecmp_lem (x ∷ xs) (y ∷ ys) =
    ground (arith, strcasecmp_lem xs ys, tolower_zero x, tolower_zero y)

strncasecmp_lem :
    (n : ℕ) (a b : List ℕ) → strncasecmp n a b ≡ strncmp n (map tolower a) (map tolower b)
unfolding strncasecmp strncmp
strncasecmp_lem zero a b = refl
strncasecmp_lem (suc n) [] [] = ground (arith, tolower_nul, strncasecmp_lem n [] [])
strncasecmp_lem (suc n) [] (y ∷ ys) = ground (arith, tolower_nul, strncasecmp_lem n [] ys)
strncasecmp_lem (suc n) (x ∷ xs) [] =
    ground (arith, tolower_nul, strncasecmp_lem n xs [], tolower_zero x)
strncasecmp_lem (suc n) (x ∷ xs) (y ∷ ys) =
    ground (arith, tolower_nul, strncasecmp_lem n xs ys, tolower_zero x, tolower_zero y)

-- the letters A to Z, which are 26 from 65 on, become a to z, from 97 on
abbrev pub lower_case : ℕ → ℕ
lower_case c = if leb 65 c && ltb c (65 + 26) then 97 + (c - 65) else c

tolower-lower_case : (s : List ℕ) → map tolower s ≡ map lower_case s
unfolding tolower
tolower-lower_case [] = refl
tolower-lower_case (c ∷ s) =
    let here : tolower c ≡ lower_case c = ground arith in
    ap (λ x. x ∷ map tolower s) here ∙ ap (λ xs. lower_case c ∷ xs) (tolower-lower_case s)

-- The comparisons are the lexicographic order on texts, that is on the bytes before the first 0:
-- strcmp on the whole texts, strncmp on their first `n` bytes; strcasecmp and strncasecmp do the same
-- with the letters A to Z replaced by a to z.
pub strcmp-lex :
    (n : ℕ) (a b : List ℕ)
    → (strcmp a b ≡ lex (text a) (text b))
      × (strncmp n a b ≡ lex (take n (text a)) (take n (text b)))
      × (strcasecmp a b ≡ lex (text (map lower_case a)) (text (map lower_case b)))
      × (strncasecmp n a b
          ≡ lex (take n (text (map lower_case a))) (take n (text (map lower_case b))))
strcmp-lex n a b =
    let lower_a = tolower-lower_case a in
    let lower_b = tolower-lower_case b in
    (
      strcmp_lem a b,
      strncmp_lem n a b,
      strcasecmp_lem a b
          ∙ ap (λ x. strcmp x (map tolower b)) lower_a
          ∙ ap (λ y. strcmp (map lower_case a) y) lower_b
          ∙ strcmp_lem (map lower_case a) (map lower_case b),
      strncasecmp_lem n a b
          ∙ ap (λ x. strncmp n x (map tolower b)) lower_a
          ∙ ap (λ y. strncmp n (map lower_case a) y) lower_b
          ∙ strncmp_lem n (map lower_case a) (map lower_case b),
    )
