-- ===== src/Libc/Numbers/RoundTrip.antt =====
-- strtoull reads back what lltoa writes.
use mathlib.Core.List.{reverse, reverse-cons, append_assoc}
use native.Mathlib.Decide.{ℕ_discrete}
use native.Mathlib.Nat.{
  div-add-mod', le-div_iff_mul-le, div-lt_iff_lt-mul, mod-lt, pow-zero, pow-suc, div-le_self,
}
use the_os_reborn.Common.{
  ℕ, zero, suc, ◌+◌, ◌-◌, ◌*◌, ◌/◌, ◌%◌, ◌^◌, ◌≤◌, ◌<◌, ◌≡◌, ◌≢◌, refl, sym, ap, ◌∙◌, Bool, true,
  false, ◌||◌, List, [], ◌∷◌, ◌++◌, some, ◌==◌, ltb, leb, length, set, drop, ==_ne, arith,
}
use the_os_reborn.Libc.Strings.{isspace}
use the_os_reborn.Libc.Numbers.{
  ullong_max, digit_char, ll_digits, store, digit_value, digit_below, push_digit, parse_loop,
}

digit_value-digit_char : (d : ℕ) → d < 36 → digit_value (digit_char d) ≡ some d
unfolding digit_value digit_char
digit_value-digit_char d h = ground arith

digit_char_nonzero : (d : ℕ) → (digit_char d == 0) ≡ false
unfolding digit_char
digit_char_nonzero d = ground arith

pub digit_below-digit_char :
    (base d : ℕ) → d < base → base ≤ 36 → digit_below base (digit_char d) ≡ some d
unfolding digit_below
digit_below-digit_char base d lt le =
    let small : leb base d ≡ false = ground arith in
    rw (digit_char_nonzero d, digit_value-digit_char d (omega arith)) (rw small refl)

-- the last digit of a number, read behind the others
push_digit_last :
    (base v : ℕ) (o : Bool)
    → 0 < base
    → v ≤ ullong_max
    → push_digit base (v % base) (v / base) o ≡ (v, o)
unfolding push_digit
push_digit_last base v o pos fits =
    let whole = div-add-mod' v base in
    let room =
      (le-div_iff_mul-le {k = base} {x = v / base} {y = ullong_max - v % base} pos).1
        (omega (arith, whole)) in
    let test : ltb ((ullong_max - v % base) / base) (v / base) ≡ false = ground arith in
    let sum : (v / base * base + v % base) % 2 ^ 64 ≡ v = omega (arith, whole) in
    rw test (rw sum refl)

pub parse_step :
    (base c d value : ℕ) (s : List ℕ) (o any : Bool)
    → digit_below base c ≡ some d
    → parse_loop (c ∷ s) base value o any
      ≡ parse_loop s base (push_digit base d value o).0 (push_digit base d value o).1 true
unfolding parse_loop
parse_step base c d value s o any h = rw (h, parse_loop) refl

parse_last :
    (base v : ℕ) (s : List ℕ) (o any : Bool)
    → 2 ≤ base
    → base ≤ 36
    → v ≤ ullong_max
    → parse_loop (digit_char (v % base) ∷ s) base (v / base) o any ≡ parse_loop s base v o true
parse_last base v s o any two le fits =
    parse_step base (digit_char (v % base)) (v % base) (v / base) s o any
      (digit_below-digit_char base (v % base) (mod-lt v (omega arith)) le)
    ∙ ap (λ (x : ℕ × Bool). parse_loop s base x.0 x.1 true)
        (push_digit_last base v o (omega arith) fits)

pub ll_digits-zero : (n base : ℕ) → ll_digits n base 0 ≡ []
unfolding ll_digits
ll_digits-zero zero base = refl
ll_digits-zero (suc n) base = refl

pub ll_digits-suc :
    (n base v : ℕ)
    → v ≢ 0
    → ll_digits (suc n) base v ≡ digit_char (v % base) ∷ ll_digits n base (v / base)
unfolding ll_digits
ll_digits-suc n base v h = rw (==_ne v 0 h) refl

-- reading the digits of `v`, the first one first
pub parse_digits :
    (n base v : ℕ) (s : List ℕ) (o any : Bool)
    → 2 ≤ base
    → base ≤ 36
    → v ≤ ullong_max
    → v < base ^ n
    → v ≢ 0
    → parse_loop (reverse (ll_digits n base v) ++ s) base 0 o any ≡ parse_loop s base v o true
parse_digits zero base v s o any two le fits lt nz = absurd (omega (arith, lt, pow-zero base))
parse_digits (suc n) base v s o any two le fits lt nz =
    let c : ℕ = digit_char (v % base) in
    let front : List ℕ = reverse (ll_digits n base (v / base)) in
    let split : reverse (ll_digits (suc n) base v) ++ s ≡ front ++ (c ∷ s) =
      ap (λ x. reverse x ++ s) (ll_digits-suc n base v nz)
      ∙ ap (λ x. x ++ s) (reverse-cons c (ll_digits n base (v / base)))
      ∙ append_assoc front (c ∷ []) s in
    let below : v / base < base ^ n =
      (div-lt_iff_lt-mul {k = base} {x = v} {y = base ^ n} (omega arith)).1
        (omega (arith, lt, pow-suc base n)) in
    let last = parse_last base v s o any two le fits in
    elim (ℕ_discrete (v / base) 0) [
      | yes none_left ↦
          ap (λ x. parse_loop x base 0 o any) split
          ∙ ap (λ x. parse_loop (reverse x ++ (c ∷ s)) base 0 o any)
              (ap (λ q. ll_digits n base q) none_left ∙ ll_digits-zero n base)
          ∙ ap (λ q. parse_loop (c ∷ s) base q o any) (sym none_left)
          ∙ last
      | no more ↦
          ap (λ x. parse_loop x base 0 o any) split
          ∙ parse_digits n base (v / base) (c ∷ s) o any two le (omega (arith, div-le_self v base))
              below more
          ∙ parse_last base v s o true two le fits
    ]

-- What lltoa leaves in its buffer: the digits, a 0, and behind it what was there.
pub store_front :
    (ds buf : List ℕ)
    → length ds < length buf
    → store ds 0 buf ≡ ds ++ (0 ∷ drop (suc (length ds)) buf)
unfolding store
store_front ds [] room = absurd (omega arith)
store_front [] (b ∷ buf) room = refl
store_front (d ∷ ds) (b ∷ buf) room =
    store-suc ds 0 d buf ∙ ap (λ x. d ∷ x) (store_front ds buf (omega arith))
  where
    store-suc :
        (ds : List ℕ) (i b : ℕ) (buf : List ℕ) → store ds (suc i) (b ∷ buf) ≡ b ∷ store ds i buf
    store-suc [] i b buf = refl
    store-suc (d ∷ ds) i b buf = store-suc ds (suc i) b (set buf i d)

-- a digit is neither space nor sign, and only the digit 0 is the byte '0'
pub digit_char_plain :
    (d : ℕ)
    → (isspace (digit_char d) ≡ false)
      × ((digit_char d == 0x2b || digit_char d == 0x2d) ≡ false)
      × ((digit_char d == 0x30) ≡ (d == 0))
unfolding digit_char isspace
digit_char_plain d = ground arith
