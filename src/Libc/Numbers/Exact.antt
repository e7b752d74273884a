-- ===== src/Libc/Numbers/Exact.antt =====
-- strtoull, strtoll and atoi return the exact number that the text spells, or the nearest bound.
use native.Mathlib.Nat.{le-div_iff_mul-le, le-mul_of_pos_right}
use the_os_reborn.Common.{
  ℕ, ◌+◌, ◌-◌, ◌*◌, ◌/◌, ◌%◌, ◌^◌, ◌≤◌, ◌<◌, ◌≡◌, refl, ap, ◌∙◌, Bool, true, false, List, [], ◌∷◌,
  none, some, ltb, leb, Bool-cases, Option-cases, ltb→lt, lt→ltb, leb→le, inl, inr, arith,
}
use the_os_reborn.Libc.Numbers.RoundTrip.{parse_step}
use the_os_reborn.Libc.Numbers.{
  ullong_max, digit_below, digit_value, Parsed, push_digit, parse_loop,
}

-- the number that the digits at the front of a text spell behind `v`, with no bound
unfoldable pub digits_value : ℕ → ℕ → List ℕ → ℕ
digits_value base v [] = v
digits_value base v (c ∷ s) = elim (digit_below base c) [
  | none ↦ v
  | some d ↦ digits_value base (v * base + d) s
]

pub digits_value-digit :
    (base v c d : ℕ) (s : List ℕ)
    → digit_below base c ≡ some d
    → digits_value base v (c ∷ s) ≡ digits_value base (v * base + d) s
unfolding digits_value
digits_value-digit base v c d s h = rw (h, digits_value) refl

pub digits_value-other :
    (base v c : ℕ) (s : List ℕ) → digit_below base c ≡ none → digits_value base v (c ∷ s) ≡ v
unfolding digits_value
digits_value-other base v c s h = rw (h, digits_value) refl

grows : (base v d : ℕ) → 0 < base → v ≤ v * base + d
grows base v d some_base = omega (arith, le-mul_of_pos_right {m = base} v some_base)

le-digits_value : (base v : ℕ) (s : List ℕ) → 0 < base → v ≤ digits_value base v s
unfolding digits_value
le-digits_value base v [] some_base = omega arith
le-digits_value base v (c ∷ s) some_base = elim (Option-cases (digit_below base c)) [
  | inl stop ↦ omega (arith, digits_value-other base v c s stop)
  | inr (d, h) ↦ omega (
    arith,
    digits_value-digit base v c d s h,
    grows base v d some_base,
    le-digits_value base (v * base + d) s some_base,
  )
]

-- what the loop knows of the exact number `w`
pub record IsExact (w : ℕ) (n : Parsed) : Type 0 where
  pub in_range : w ≤ ullong_max → (n.overflow ≡ false) × (n.value ≡ w)
  pub out_of_range : ullong_max < w → n.overflow ≡ true

pub parse_stop :
    (base c value : ℕ) (s : List ℕ) (o any : Bool)
    → digit_below base c ≡ none
    → parse_loop (c ∷ s) base value o any
      ≡ record { end = c ∷ s; value = value; overflow = o; any = any }
unfolding parse_loop
parse_stop base c value s o any h = rw (h, parse_loop) refl

push_digit_over : (base d v : ℕ) → (push_digit base d v true).1 ≡ true
unfolding push_digit
push_digit_over base d v = ground arith

-- once a digit ran over, the number stays out of range
stays_over : (s : List ℕ) (base v : ℕ) (any : Bool) → (parse_loop s base v true any).overflow ≡ true
unfolding parse_loop
stays_over [] base v any = refl
stays_over (c ∷ s) base v any = elim (Option-cases (digit_below base c)) [
  | inl stop ↦ ap (λ (n : Parsed). n.overflow) (parse_stop base c v s true any stop)
  | inr (d, h) ↦
      ap (λ (n : Parsed). n.overflow) (parse_step base c d v s true any h)
      ∙ ap (λ b. (parse_loop s base (push_digit base d v true).0 b true).overflow)
          (push_digit_over base d v)
      ∙ stays_over s base (push_digit base d v true).0 true
]

digit_below_bound : (base c d : ℕ) → digit_below base c ≡ some d → d < 36
unfolding digit_below digit_value
digit_below_bound base c d h = ground arith

push_digit_fits :
    (base d v : ℕ) (o : Bool)
    → 0 < base
    → v * base + d ≤ ullong_max
    → push_digit base d v o ≡ (v * base + d, o)
unfolding push_digit
push_digit_fits base d v o some_base fits =
    let room =
      (le-div_iff_mul-le {k = base} {x = v} {y = ullong_max - d} some_base).1
        (omega (arith, fits)) in
    let test : ltb ((ullong_max - d) / base) v ≡ false = ground arith in
    let sum : (v * base + d) % 2 ^ 64 ≡ v * base + d = omega (arith, fits) in rw test (rw sum refl)

push_digit_wraps :
    (base d v : ℕ) (o : Bool)
    → 0 < base
    → d < 36
    → ullong_max < v * base + d
    → push_digit base d v o ≡ (ullong_max, true)
unfolding push_digit
push_digit_wraps base d v o some_base small over =
    let none_left : (ullong_max - d) / base < v =
      elim (Bool-cases (ltb ((ullong_max - d) / base) v)) [
        | inl yes_lt ↦ ltb→lt _ _ yes_lt
        | inr no_lt ↦
            let le : v ≤ (ullong_max - d) / base = ground arith in
            absurd (
              omega (
                arith,
                (le-div_iff_mul-le {k = base} {x = v} {y = ullong_max - d} some_base).0 le,
                over,
              ))
      ] in
    rw (lt→ltb _ _ none_left) refl

-- The loop finds the exact number, unless it has more than 64 bits; then it says so.
pub parse_loop-IsExact :
    (s : List ℕ) (base v : ℕ) (any : Bool)
    → 0 < base
    → v ≤ ullong_max
    → IsExact (digits_value base v s) (parse_loop s base v false any)
unfolding parse_loop digits_value
parse_loop-IsExact [] base v any some_base fits = record {
  in_range = λ le. (refl, refl);
  out_of_range = λ lt. absurd (omega arith);
}
parse_loop-IsExact (c ∷ s) base v any some_base fits = elim (Option-cases (digit_below base c)) [
  | inl stop ↦
      rw (digits_value-other base v c s stop, parse_stop base c v s false any stop)
        (record { in_range = λ le. (refl, refl); out_of_range = λ lt. absurd (omega arith) })
  | inr (d, h) ↦ elim (Bool-cases (leb (v * base + d) ullong_max)) [
    | inl room ↦
        rw
          (
            digits_value-digit base v c d s h,
            parse_step base c d v s false any h,
            push_digit_fits base d v false some_base (leb→le _ _ room),
          )
          (parse_loop-IsExact s base (v * base + d) true some_base (leb→le _ _ room))
    | inr full ↦
        let over : ullong_max < v * base + d = ground arith in
        let le = le-digits_value base (v * base + d) s some_base in
        rw
          (
            digits_value-digit base v c d s h,
            parse_step base c d v s false any h,
            push_digit_wraps base d v false some_base (digit_below_bound base c d h) over,
          )
          (record {
            in_range = λ small. absurd (omega (arith, small, over, le));
            out_of_range = λ lt. stays_over s base ullong_max true;
          })
  ]
]
