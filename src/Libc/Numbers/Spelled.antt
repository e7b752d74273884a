-- ===== src/Libc/Numbers/Spelled.antt =====
-- The number that stands in a text, as the C standard describes it for strtoll and strtoull, with no
-- bound; only that a prefix 0x counts even when no digit follows.
use the_os_reborn.Common.{
  ℕ, ◌+◌, ◌-◌, ◌*◌, ◌≡◌, refl, ◌∙◌, Bool, true, false, ◌&&◌, ◌||◌, List, [], ◌∷◌, Option, none,
  some, ◌==◌, ltb, leb, if◌then◌else◌, drop, Option-cases, inl, inr, arith,
}
use the_os_reborn.Libc.Strings.{isspace, first_byte}
use the_os_reborn.Libc.Numbers.{skip_space, skip_sign, digit_value, digit_below, normalize_base}
use the_os_reborn.Libc.Numbers.Exact.{digits_value}

-- the space, and the tab, the new line, the vertical tab, the form feed and the carriage return
abbrev pub is_blank : ℕ → Bool
is_blank c = c == 32 || (leb 9 c && leb c 13)

unfoldable pub behind_blanks : List ℕ → List ℕ
behind_blanks [] = []
behind_blanks (c ∷ s) = let rest = behind_blanks s in if is_blank c then rest else c ∷ s

-- behind a `+` or a `-`, and whether there is a `-`
unfoldable pub behind_sign : List ℕ → List ℕ × Bool
behind_sign [] = ([], false)
behind_sign (c ∷ s) = if c == 45 then (s, true) else if c == 43 then (s, false) else (c ∷ s, false)

-- a `0` and an `x` or `X`
unfoldable pub has_prefix : List ℕ → Bool
has_prefix [] = false
has_prefix (c ∷ []) = false
has_prefix (c ∷ x ∷ s) = c == 48 && (x == 120 || x == 88)

-- the base that the text has when `base` is asked for
unfoldable pub radix : List ℕ → ℕ → ℕ
radix p base =
    if base == 0 then if has_prefix p then 16 else if first_byte p == 48 then 8 else 10 else base

unfoldable pub behind_prefix : List ℕ → ℕ → List ℕ
behind_prefix p base = if has_prefix p && (base == 0 || base == 16) then drop 2 p else p

-- the place of `c` among the `n` bytes from `first` on
abbrev pub place : ℕ → ℕ → ℕ → Option ℕ
place first n c = if leb first c && ltb c (first + n) then some (c - first) else none

-- 0 to 9, then a to z, in either case, as far as they are below the base
unfoldable pub digit_of : ℕ → ℕ → Option ℕ
digit_of base c = elim (place 48 10 c) [
  | some d ↦ if ltb d base then some d else none
  | none ↦ elim (place 97 26 c) [
    | some d ↦ if ltb (10 + d) base then some (10 + d) else none
    | none ↦ elim (place 65 26 c) [
      | some d ↦ if ltb (10 + d) base then some (10 + d) else none
      | none ↦ none
    ]
  ]
]

-- the number that the digits at the front of a text spell behind `v`
unfoldable pub number : ℕ → ℕ → List ℕ → ℕ
number base v [] = v
number base v (c ∷ s) = elim (digit_of base c) [ none ↦ v | some d ↦ number base (v * base + d) s ]

-- the number that stands in a text for a base, and whether there is a `-` before it
abbrev pub spelled : List ℕ → ℕ → ℕ × Bool
spelled nptr base =
    let (p, minus) = behind_sign (behind_blanks nptr) in
    (number (radix p base) 0 (behind_prefix p base), minus)

pub skip_space-behind_blanks : (s : List ℕ) → skip_space s ≡ behind_blanks s
unfolding skip_space behind_blanks isspace
skip_space-behind_blanks [] = refl
skip_space-behind_blanks (c ∷ s) = ground (arith, skip_space-behind_blanks s)

pub skip_sign-behind_sign : (p : List ℕ) → skip_sign p ≡ behind_sign p
unfolding skip_sign behind_sign
skip_sign-behind_sign [] = refl
skip_sign-behind_sign (c ∷ s) = ground arith

pub normalize_base-radix :
    (p : List ℕ) (base : ℕ) → normalize_base p base ≡ (behind_prefix p base, radix p base)
unfolding normalize_base behind_prefix radix has_prefix
normalize_base-radix [] base = ground arith
normalize_base-radix (c ∷ []) base = ground arith
normalize_base-radix (c ∷ x ∷ s) base = ground arith

digit_below-digit_of : (base c : ℕ) → digit_below base c ≡ digit_of base c
unfolding digit_below digit_value digit_of
digit_below-digit_of base c = ground arith

pub digits_value-number : (base v : ℕ) (s : List ℕ) → digits_value base v s ≡ number base v s
unfolding digits_value number
digits_value-number base v [] = refl
digits_value-number base v (c ∷ s) = elim (Option-cases (digit_of base c)) [
  | inl e ↦ rw (digit_below-digit_of base c ∙ e, e, digits_value, number) refl
  | inr (d, e) ↦
      rw (digit_below-digit_of base c ∙ e, e, digits_value, number)
        (digits_value-number base (v * base + d) s)
]
