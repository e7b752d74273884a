-- ===== src/Libc/Numbers/Saturate.antt =====
-- The conversions return the exact number that the text spells, or the nearest bound and ERANGE.
use the_os_reborn.Common.{
  ◌≤◌, ◌⊎◌, ℤ, pos, neg, ℕ, zero, suc, ◌+◌, ◌-◌, ◌%◌, ◌^◌, ◌<◌, ◌≡◌, refl, sym, ap, ◌∙◌, Bool, true,
  false, List, [], ◌∷◌, ltb, leb, if◌then◌else◌, Bool-cases, Option-cases, lt→ltb, leb→le, inl, inr,
  arith,
}
use the_os_reborn.Libc.Numbers.RoundTrip.{parse_step}
use the_os_reborn.Libc.Numbers.{
  ullong_max, llong_max, skip_space, digit_below, Parsed, push_digit, parse_loop, parse_unsigned,
  normalize_base, skip_sign, scan_number, strtoull, to_llong, strtoll, clamp_int, atoi, bad_base,
}
use the_os_reborn.Libc.Numbers.Spelled.{
  behind_blanks, behind_sign, radix, behind_prefix, spelled, skip_space-behind_blanks,
  skip_sign-behind_sign, normalize_base-radix, digits_value-number,
}
use the_os_reborn.Libc.Numbers.Exact.{
  digits_value, digits_value-other, IsExact, parse_loop-IsExact, parse_stop,
}

any_stays : (s : List ℕ) (base v : ℕ) (o : Bool) → (parse_loop s base v o true).any ≡ true
unfolding parse_loop
any_stays [] base v o = refl
any_stays (c ∷ s) base v o = elim (Option-cases (digit_below base c)) [
  | inl stop ↦ ap (λ (n : Parsed). n.any) (parse_stop base c v s o true stop)
  | inr (d, h) ↦
      ap (λ (n : Parsed). n.any) (parse_step base c d v s o true h)
      ∙ any_stays s base (push_digit base d v o).0 (push_digit base d v o).1
]

-- where no digit was read, the number is 0
no_digits :
    (base : ℕ) (s : List ℕ) → (parse_unsigned s base).any ≡ false → digits_value base 0 s ≡ 0
unfolding parse_unsigned digits_value
no_digits base [] h = refl
no_digits base (c ∷ s) h = elim (Option-cases (digit_below base c)) [
  | inl stop ↦ digits_value-other base 0 c s stop
  | inr (d, e) ↦
      let go =
        ap (λ (n : Parsed). n.any) (parse_step base c d 0 s false false e)
        ∙ any_stays s base (push_digit base d 0 false).0 (push_digit base d 0 false).1 in
      let clash = sym go ∙ h in cc
]

-- a number with its sign as a `long long`, and whether it was out of range
abbrev pub to_range : ℕ → Bool → ℤ × Bool
to_range w minus =
    if minus
    then if ltb (llong_max + 1) w then (neg (llong_max + 1), true) else (neg w, false)
    else if ltb llong_max w
    then (pos llong_max, true)
    else (pos w, false)

abbrev pub to_unsigned_range : ℕ → Bool → ℕ × Bool
to_unsigned_range w minus =
    if ltb ullong_max w
    then (ullong_max, true)
    else (if minus then (2 ^ 64 - w) % 2 ^ 64 else w, false)

to_llong-to_range :
    (w : ℕ) (n : Parsed) (minus : Bool) → IsExact w n → to_llong n minus ≡ to_range w minus
unfolding to_llong
to_llong-to_range w n minus x = elim (Bool-cases (leb w ullong_max)) [
  | inl fits ↦ let (o, v) = x.in_range (leb→le _ _ fits) in rw (o, v) refl
  | inr large ↦
      let over = x.out_of_range (ground arith) in
      let a : ltb (llong_max + 1) w ≡ true = ground arith in
      let b : ltb llong_max w ≡ true = ground arith in
      elim (Bool-cases minus) [ inl m ↦ rw (m, over, a) refl | inr m ↦ rw (m, over, b) refl ]
]

radix_positive : (base : ℕ) (p : List ℕ) → bad_base base ≡ false → 0 < (normalize_base p base).1
unfolding normalize_base
radix_positive base p good = ground (arith, good)

-- the number that the code finds in a text
read_number : List ℕ → ℕ → ℕ × Bool
read_number nptr base =
    let (p, minus) = skip_sign (skip_space nptr) in
    let (q, radix) = normalize_base p base in (digits_value radix 0 q, minus)

scan_number-IsExact :
    (nptr : List ℕ) (base : ℕ)
    → bad_base base ≡ false
    → IsExact (read_number nptr base).0 (scan_number nptr base).0
      × ((scan_number nptr base).1 ≡ (read_number nptr base).1)
      × ((scan_number nptr base).0.any ≡ false → (read_number nptr base).0 ≡ 0)
unfolding scan_number read_number parse_unsigned
scan_number-IsExact nptr base good =
    let p : List ℕ = (skip_sign (skip_space nptr)).0 in
    let (q, radix) = normalize_base p base in
    (
      parse_loop-IsExact q radix 0 false (radix_positive base p good) (omega arith),
      refl,
      no_digits radix q,
    )

strtoll_lem :
    (nptr : List ℕ) (base : ℕ)
    → bad_base base ≡ false
    → ((strtoll nptr base).result, (strtoll nptr base).range_error)
      ≡ to_range (read_number nptr base).0 (read_number nptr base).1
unfolding strtoll
strtoll_lem nptr base good =
    let (exact, sign, empty) = scan_number-IsExact nptr base good in
    let same = to_llong-to_range _ _ (scan_number nptr base).1 exact in
    elim (Bool-cases (scan_number nptr base).0.any) [
      | inl some_digit ↦
          rw (good, some_digit) (same ∙ ap (λ b. to_range (read_number nptr base).0 b) sign)
      | inr none_read ↦
          rw (good, none_read, empty none_read)
            (elim (Bool-cases (read_number nptr base).1) [ inl m ↦ rw m refl | inr m ↦ rw m refl ])
    ]

strtoull_lem :
    (nptr : List ℕ) (base : ℕ)
    → bad_base base ≡ false
    → ((strtoull nptr base).result, (strtoull nptr base).range_error)
      ≡ to_unsigned_range (read_number nptr base).0 (read_number nptr base).1
unfolding strtoull
strtoull_lem nptr base good =
    let (exact, sign, empty) = scan_number-IsExact nptr base good in
    elim (Bool-cases (scan_number nptr base).0.any) [
      | inr none_read ↦
          rw (good, none_read, empty none_read)
            (elim (Bool-cases (read_number nptr base).1) [ inl m ↦ rw m refl | inr m ↦ rw m refl ])
      | inl some_digit ↦ elim (Bool-cases (leb (read_number nptr base).0 ullong_max)) [
        | inl fits ↦
            let (o, v) = exact.in_range (leb→le _ _ fits) in
            let small : ltb ullong_max (read_number nptr base).0 ≡ false = ground (arith, fits) in
            rw (good, some_digit, o, v, small, sign) refl
        | inr large ↦
            let over : ullong_max < (read_number nptr base).0 = ground (arith, large) in
            rw (good, some_digit, exact.out_of_range over, lt→ltb _ _ over) refl
      ]
    ]

-- the nearest `int`
abbrev pub nearest_int : ℕ → Bool → ℤ
nearest_int w minus =
    if minus
    then neg (if ltb (2 ^ 31) w then 2 ^ 31 else w)
    else pos (if ltb (2 ^ 31 - 1) w then 2 ^ 31 - 1 else w)

clamp_int-to_range : (w : ℕ) (minus : Bool) → clamp_int (to_range w minus).0 ≡ nearest_int w minus
unfolding clamp_int
clamp_int-to_range w false = elim (Bool-cases (ltb llong_max w)) [
  | inl big ↦ let b : ltb (2 ^ 31 - 1) w ≡ true = ground (arith, big) in rw (big, b) refl
  | inr small ↦ rw small refl
]
clamp_int-to_range zero true = refl
clamp_int-to_range (suc w) true = elim (Bool-cases (ltb (llong_max + 1) (suc w))) [
  | inl big ↦ let b : ltb (2 ^ 31) (suc w) ≡ true = ground (arith, big) in rw (big, b) refl
  | inr small ↦ elim (Bool-cases (ltb (2 ^ 31) (suc w))) [
    | inl over ↦
        let b : ltb (2 ^ 31 - 1) w ≡ true = ground (arith, over) in rw (small, over, b) refl
    | inr fits ↦
        let b : ltb (2 ^ 31 - 1) w ≡ false = ground (arith, fits) in rw (small, fits, b) refl
  ]
]

read_number-spelled : (nptr : List ℕ) (base : ℕ) → read_number nptr base ≡ spelled nptr base
unfolding read_number
read_number-spelled nptr base =
    let (p, minus) = behind_sign (behind_blanks nptr) in
    let first : skip_sign (skip_space nptr) ≡ (p, minus) =
      ap (λ s. skip_sign s) (skip_space-behind_blanks nptr)
      ∙ skip_sign-behind_sign (behind_blanks nptr) in
    ap
      (λ (x : List ℕ × Bool).
        (digits_value (normalize_base x.0 base).1 0 (normalize_base x.0 base).0, x.1))
      first
    ∙ ap (λ (y : List ℕ × ℕ). (digits_value y.1 0 y.0, minus)) (normalize_base-radix p base)
    ∙ ap (λ n. (n, minus)) (digits_value-number (radix p base) 0 (behind_prefix p base))

-- For a base that is 0 or between 2 and 36, with `w` the number that the digits of the text spell in
-- its base, however many they are (0 if there is none): strtoull returns `w`, or its negative modulo
-- 2 ^ 64 behind a `-`, but 2 ^ 64 - 1 with ERANGE if `w` is above that. strtoll returns `w`, or -`w`
-- behind a `-`, but the nearest bound of a long long with ERANGE if that is out of range. atoi returns
-- the `int` that is nearest to the number in base 10. The digits stand behind white space, a sign and,
-- for the bases 0 and 16, a prefix 0x, each if it is there; base 0 means 16 with the prefix, 8 before
-- another 0, and 10 otherwise.
pub conversions_saturate :
    (nptr : List ℕ) (base : ℕ)
    → (base ≡ 0) ⊎ ((2 ≤ base) × (base ≤ 36))
    → let (w, minus) = spelled nptr base in
      let (w', minus') = spelled nptr 10 in
      (((strtoull nptr base).result, (strtoull nptr base).range_error) ≡ to_unsigned_range w minus)
      × (((strtoll nptr base).result, (strtoll nptr base).range_error) ≡ to_range w minus)
      × (atoi nptr ≡ nearest_int w' minus')
unfolding atoi
conversions_saturate nptr base good =
    let same = read_number-spelled nptr base in
    let same_10 = read_number-spelled nptr 10 in
    let ok = is_base base good in
    (
      strtoull_lem nptr base ok ∙ ap (λ (x : ℕ × Bool). to_unsigned_range x.0 x.1) same,
      strtoll_lem nptr base ok ∙ ap (λ (x : ℕ × Bool). to_range x.0 x.1) same,
      ap (λ (x : ℤ × Bool). clamp_int x.0) (strtoll_lem nptr 10 refl)
          ∙ clamp_int-to_range (read_number nptr 10).0 (read_number nptr 10).1
          ∙ ap (λ (x : ℕ × Bool). nearest_int x.0 x.1) same_10,
    )
  where
    is_base : (base : ℕ) → (base ≡ 0) ⊎ ((2 ≤ base) × (base ≤ 36)) → bad_base base ≡ false
    is_base base (inl zero_base) = ground (arith, zero_base)
    is_base base (inr (lo, hi)) = ground (arith, lo, hi)
