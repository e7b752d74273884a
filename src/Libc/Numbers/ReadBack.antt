-- ===== src/Libc/Numbers/ReadBack.antt =====
-- strtoull reads back what lltoa prints, in every base.
use mathlib.Core.List.{reverse, reverse-cons}
use native.Mathlib.Decide.{ℕ_discrete}
use native.Mathlib.Nat.{div-add-mod', div-lt_iff_lt-mul, pow-zero, pow-suc}
use the_os_reborn.Common.{
  ℕ, zero, suc, ◌+◌, ◌-◌, ◌*◌, ◌/◌, ◌%◌, ◌^◌, ◌≤◌, ◌<◌, ◌≡◌, ◌≢◌, refl, sym, ap, ◌∙◌, Bool, true,
  false, not, ◌&&◌, ◌||◌, List, [], ◌∷◌, ◌++◌, length-append, ◌==◌, ltb, length, drop, ==_ne, arith,
}
use the_os_reborn.Libc.Strings.{first_byte, isspace}
use the_os_reborn.Libc.Numbers.{
  ullong_max, digit_char, ll_digits, store, lltoa, skip_space, digit_below, Parsed, push_digit,
  parse_loop, parse_unsigned, normalize_base, skip_sign, scan_number, strtoull,
}
use the_os_reborn.Libc.Numbers.RoundTrip.{
  parse_digits, ll_digits-suc, ll_digits-zero, store_front, digit_char_plain,
  digit_below-digit_char, parse_step,
}

length-reverse-ll_digits : (n base v : ℕ) → length (reverse (ll_digits n base v)) ≤ n
unfolding ll_digits
length-reverse-ll_digits zero base v = omega arith
length-reverse-ll_digits (suc n) base v = elim (ℕ_discrete v 0) [
  | yes z ↦ ap≤ (ap (λ x. length (reverse (ll_digits (suc n) base x))) z) (omega arith)
  | no nz ↦
      let front : List ℕ = reverse (ll_digits n base (v / base)) in
      let e =
        ap (λ x. length (reverse x)) (ll_digits-suc n base v nz)
        ∙ ap (λ x. length x) (reverse-cons (digit_char (v % base)) (ll_digits n base (v / base)))
        ∙ length-append front (digit_char (v % base) ∷ []) in
      ap≤ e (omega (arith, length-reverse-ll_digits n base (v / base)))
]
  where
    ap≤ : {a b k : ℕ} → a ≡ b → b ≤ k → a ≤ k
    ap≤ e le = omega (arith, e, le)

-- the first digit printed is not 0
leading_digit :
    (n base v : ℕ)
    → 2 ≤ base
    → v < base ^ n
    → v ≢ 0
    → (d : ℕ) × (r : List ℕ) × (reverse (ll_digits n base v) ≡ digit_char d ∷ r) × (d ≢ 0)
leading_digit zero base v two lt nz = absurd (omega (arith, lt, pow-zero base))
leading_digit (suc n) base v two lt nz =
    let c : ℕ = digit_char (v % base) in
    let split : reverse (ll_digits (suc n) base v)
        ≡ reverse (ll_digits n base (v / base)) ++ (c ∷ []) =
      ap (λ x. reverse x) (ll_digits-suc n base v nz)
      ∙ reverse-cons c (ll_digits n base (v / base)) in
    let below : v / base < base ^ n =
      (div-lt_iff_lt-mul {k = base} {x = v} {y = base ^ n} (omega arith)).1
        (omega (arith, lt, pow-suc base n)) in
    elim (ℕ_discrete (v / base) 0) [
      | yes none_left ↦
          let whole = div-add-mod' v base in
          let last : v % base ≢ 0 =
            λ z. nz (sym whole ∙ ap (λ q. q * base + v % base) none_left ∙ omega (arith, z)) in
          (
            v % base,
            [],
            split
                ∙ ap (λ x. reverse x ++ (c ∷ []))
                    (ap (λ q. ll_digits n base q) none_left ∙ ll_digits-zero n base),
            last,
          )
      | no more ↦
          let (d, r, e, dz) = leading_digit n base (v / base) two below more in
          (d, r ++ (c ∷ []), split ∙ ap (λ x. x ++ (c ∷ [])) e, dz)
    ]

skip_space_stop : (c : ℕ) (s : List ℕ) → isspace c ≡ false → skip_space (c ∷ s) ≡ c ∷ s
unfolding skip_space
skip_space_stop c s h = rw h refl

skip_sign_none :
    (c : ℕ) (s : List ℕ) → (c == 0x2b || c == 0x2d) ≡ false → skip_sign (c ∷ s) ≡ (c ∷ s, false)
unfolding skip_sign
skip_sign_none c s h = rw h refl

-- a base that is given stands, if the text has no prefix 0x
normalize_base_given :
    (base c : ℕ) (s : List ℕ)
    → 2 ≤ base
    → (c == 0x30 && (first_byte s == 0x78 || first_byte s == 0x58)) ≡ false
    → normalize_base (c ∷ s) base ≡ (c ∷ s, base)
unfolding normalize_base
normalize_base_given base c s two h = ground (arith, h)

scan_number_plain :
    (base c : ℕ) (s : List ℕ)
    → 2 ≤ base
    → isspace c ≡ false
    → (c == 0x2b || c == 0x2d) ≡ false
    → (c == 0x30 && (first_byte s == 0x78 || first_byte s == 0x58)) ≡ false
    → scan_number (c ∷ s) base ≡ (parse_unsigned (c ∷ s) base, false)
unfolding scan_number
scan_number_plain base c s two space sign prefix =
    rw
      (skip_space_stop c s space, skip_sign_none c s sign, normalize_base_given base c s two prefix)
      refl

-- the number at a text that begins with a digit, without a prefix
strtoull_plain :
    (base c v : ℕ) (s t : List ℕ)
    → 2 ≤ base
    → base ≤ 36
    → scan_number (c ∷ s) base
      ≡ (record { end = t; value = v; overflow = false; any = true }, false)
    → strtoull (c ∷ s) base ≡ record { result = v; endptr = t; range_error = false }
unfolding strtoull
strtoull_plain base c v s t two le e =
    let good : (not (base == 0) && (ltb base 2 || ltb 36 base)) ≡ false = ground arith in
    rw (e, good, strtoull) refl

stop_at_nul :
    (base v : ℕ) (s : List ℕ) (o any : Bool)
    → parse_loop (0 ∷ s) base v o any ≡ record { end = 0 ∷ s; value = v; overflow = o; any = any }
unfolding parse_loop digit_below
stop_at_nul base v s o any = refl

-- what lltoa writes
lltoa_lem :
    (value length' base : ℕ) (buf : List ℕ)
    → 2 ≤ base
    → base ≤ 36
    → value ≢ 0
    → lltoa value buf length' base ≡ store (reverse (ll_digits (length' - 1) base value)) 0 buf
unfolding lltoa
lltoa_lem value length' base buf two le nz =
    let good : (ltb base 2 || ltb 36 base) ≡ false = ground arith in
    rw (good, ==_ne value 0 nz) refl

lltoa_zero :
    (length' base : ℕ) (buf : List ℕ)
    → 2 ≤ base
    → base ≤ 36
    → lltoa 0 buf length' base ≡ store (0x30 ∷ []) 0 buf
unfolding lltoa
lltoa_zero length' base buf two le =
    let good : (ltb base 2 || ltb 36 base) ≡ false = ground arith in rw good refl

push_zero : (base : ℕ) → push_digit base 0 0 false ≡ (0, false)
unfolding push_digit
push_zero base = ground arith

read_zero :
    (base : ℕ) (tail : List ℕ)
    → 2 ≤ base
    → base ≤ 36
    → strtoull (0x30 ∷ 0 ∷ tail) base
      ≡ record { result = 0; endptr = 0 ∷ tail; range_error = false }
unfolding parse_unsigned digit_char isspace
read_zero base tail two le = strtoull_plain base 0x30 0 (0 ∷ tail) (0 ∷ tail) two le (
    scan_number_plain base 0x30 (0 ∷ tail) two refl refl refl
    ∙ ap (λ (x : Parsed). (x, false))
        (parse_step base 0x30 0 0 (0 ∷ tail) false false
            (digit_below-digit_char base 0 (omega arith) le)
          ∙ ap (λ (x : ℕ × Bool). parse_loop (0 ∷ tail) base x.0 x.1 true) (push_zero base)
          ∙ stop_at_nul base 0 tail false true))

read_digits :
    (n base v : ℕ) (tail : List ℕ)
    → 2 ≤ base
    → base ≤ 36
    → v ≤ ullong_max
    → v < base ^ n
    → v ≢ 0
    → strtoull (reverse (ll_digits n base v) ++ (0 ∷ tail)) base
      ≡ record { result = v; endptr = 0 ∷ tail; range_error = false }
unfolding parse_unsigned
read_digits n base v tail two le fits lt nz =
    let (d, r, e, dz) = leading_digit n base v two lt nz in
    let (space, sign, zero_digit) = digit_char_plain d in
    let prefix : (digit_char d == 0x30
          && (first_byte (r ++ (0 ∷ tail)) == 0x78 || first_byte (r ++ (0 ∷ tail)) == 0x58))
        ≡ false =
      rw (zero_digit, ==_ne d 0 dz) refl in
    let parsed =
      parse_digits n base v (0 ∷ tail) false false two le fits lt nz
      ∙ stop_at_nul base v tail false true in
    ap (λ x. strtoull (x ++ (0 ∷ tail)) base) e
    ∙ strtoull_plain base (digit_char d) v (r ++ (0 ∷ tail)) (0 ∷ tail) two le (
        scan_number_plain base (digit_char d) (r ++ (0 ∷ tail)) two space sign prefix
        ∙ ap (λ (x : Parsed). (x, false))
            (ap (λ x. parse_loop (x ++ (0 ∷ tail)) base 0 false false) (sym e) ∙ parsed))

-- strtoull reads back every unsigned 64-bit number that lltoa prints, in every base from 2 to 36,
-- when the buffer has the length that lltoa is given, at least 2, and the number has fewer digits than
-- that: the value is the number, `*endptr` is at the final 0, and errno is left alone.
pub strtoull-lltoa :
    (value length' base : ℕ) (buf : List ℕ)
    → 2 ≤ base
    → base ≤ 36
    → value ≤ ullong_max
    → 2 ≤ length'
    → length' ≤ length buf
    → value < base ^ (length' - 1)
    → (tail : List ℕ) × (strtoull (lltoa value buf length' base) base
        ≡ record { result = value; endptr = 0 ∷ tail; range_error = false })
strtoull-lltoa value length' base buf two le fits some_room room lt = elim (ℕ_discrete value 0) [
  | yes z ↦ (
    drop 2 buf,
    ap (λ v. strtoull (lltoa v buf length' base) base) z
        ∙ ap (λ x. strtoull x base)
            (lltoa_zero length' base buf two le ∙ store_front (0x30 ∷ []) buf (omega arith))
        ∙ read_zero base (drop 2 buf) two le
        ∙ ap (λ v. record { result = v; endptr = 0 ∷ drop 2 buf; range_error = false }) (sym z),
  )
  | no nz ↦
      let ds : List ℕ = reverse (ll_digits (length' - 1) base value) in
      let short = length-reverse-ll_digits (length' - 1) base value in
      (
        drop (suc (length ds)) buf,
        ap (λ x. strtoull x base)
              (lltoa_lem value length' base buf two le nz
                ∙ store_front ds buf (omega (arith, short)))
            ∙ read_digits (length' - 1) base value (drop (suc (length ds)) buf) two le fits lt nz,
      )
]
