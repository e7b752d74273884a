-- ===== src/Libc/Numbers.antt =====
-- Numbers and texts: lltoa and itoa of Userland/Libraries/LibC/stdio.c, and strtoull, strtoll, atoi,
-- atol and atoll of Userland/Libraries/LibC/stdlib_parse.c. A `const char *` is the list of the bytes
-- from there on, pointers are not NULL, and a base is not negative.
pub mod RoundTrip
pub mod ReadBack
pub mod Exact
pub mod Spelled
pub mod Saturate
use mathlib.Core.List.{reverse}
use the_os_reborn.Common.{
  ℤ, pos, negsuc, neg, ℕ, zero, suc, ◌+◌, ◌-◌, ◌*◌, ◌/◌, ◌%◌, ◌^◌, ◌≤◌, ◌<◌, ◌≡◌, ◌≢◌, refl, sym,
  ap, ◌∙◌, subst, Bool, true, false, not, ◌&&◌, ◌||◌, List, [], ◌∷◌, ◌++◌, Option, none, some, ◌==◌,
  ltb, leb, if◌then◌else◌, update, length, get_or, set, take, drop, replicate, All, Bool-cases,
  Option-cases, ==_ne, ==_self, ==_iff, ltb→lt, lt→ltb, leb→le, ◌↔◌, ◌⊎◌, inl, inr, arith,
}
use the_os_reborn.Libc.Strings.{first_byte, isspace}

abbrev pub ullong_max : ℕ
ullong_max = 2 ^ 64 - 1

abbrev pub llong_max : ℕ
llong_max = 2 ^ 63 - 1

-- the digits 0 to 9 and a to z
pub digit_char : ℕ → ℕ
digit_char d = if leb d 9 then 0x30 + d else 0x61 + (d - 10)

-- The loop of lltoa, for `n` more places in `digits`: the digits, the last one first. In base 2 the
-- code has `& 1` and `>> 1`.
pub ll_digits : ℕ → ℕ → ℕ → List ℕ
ll_digits zero base v = []
ll_digits (suc n) base v =
    let rest = ll_digits n base (v / base) in if v == 0 then [] else digit_char (v % base) ∷ rest

-- the loop that writes to `buf`, and the final 0
pub store : List ℕ → ℕ → List ℕ → List ℕ
store [] i buf = set buf i 0
store (d ∷ ds) i buf = store ds (suc i) (set buf i d)

pub lltoa : ℕ → List ℕ → ℕ → ℕ → List ℕ
lltoa value buf length base =
    if ltb base 2 || ltb 36 base
    then buf
    else store (reverse (if value == 0 then 0x30 ∷ [] else ll_digits (length - 1) base value)) 0 buf

-- one round on an `int` with the bit pattern `v`: `v` goes to `unsigned` for `%` and `/`; in base 2
-- the shift keeps the sign
pub next_int : ℕ → ℕ → ℕ
next_int base v = if base == 2 then v / 2 + v / 2 ^ 31 * 2 ^ 31 else v / base

pub int_digits : ℕ → ℕ → ℕ → List ℕ
int_digits zero base v = []
int_digits (suc n) base v =
    let rest = int_digits n base (next_int base v) in
    if v == 0 then [] else digit_char (v % base) ∷ rest

-- the 32 bits of an `int`
abbrev pub int_bits : ℤ → ℕ
int_bits (pos n) = n % 2 ^ 32
int_bits (negsuc n) = (2 ^ 32 - 1 - n) % 2 ^ 32

pub itoa : ℤ → List ℕ → ℕ → ℕ → List ℕ
itoa value buf length base =
    let v : ℕ = int_bits value in
    if ltb base 2 || ltb 36 base
    then buf
    else store (reverse (if v == 0 then 0x30 ∷ [] else int_digits (length - 1) base v)) 0 buf

pub skip_space : List ℕ → List ℕ
skip_space [] = []
skip_space (c ∷ s) = let rest = skip_space s in if isspace c then rest else c ∷ s

-- `none` is -1
pub digit_value : ℕ → Option ℕ
digit_value c =
    if leb 0x30 c && leb c 0x39
    then some (c - 0x30)
    else if leb 0x61 c && leb c 0x7a
    then some (10 + (c - 0x61))
    else if leb 0x41 c && leb c 0x5a
    then some (10 + (c - 0x41))
    else none

-- the loop goes on at `c`: it is not the final 0, and a digit of the base
pub digit_below : ℕ → ℕ → Option ℕ
digit_below base c =
    if c == 0
    then none
    else elim (digit_value c) [ none ↦ none | some d ↦ if leb base d then none else some d ]

pub record Parsed : Type 0 where
  pub end : List ℕ
  pub value : ℕ
  pub overflow : Bool
  pub any : Bool

-- one digit onto a value: the value and whether it ran over
pub push_digit : ℕ → ℕ → ℕ → Bool → ℕ × Bool
push_digit base digit value overflow =
    if ltb ((ullong_max - digit) / base) value
    then (ullong_max, true)
    else ((value * base + digit) % 2 ^ 64, overflow)

-- the loop of stdlib_parse_unsigned with its variables
pub parse_loop : List ℕ → ℕ → ℕ → Bool → Bool → Parsed
parse_loop [] base value overflow any = record {
  end = [];
  value = value;
  overflow = overflow;
  any = any;
}
parse_loop (c ∷ s) base value overflow any =
    let stop : Parsed = record { end = c ∷ s; value = value; overflow = overflow; any = any } in
    elim (digit_below base c) [
      | none ↦ stop
      | some d ↦
          let (next, over) = push_digit base d value overflow in parse_loop s base next over true
    ]

pub parse_unsigned : List ℕ → ℕ → Parsed
parse_unsigned p base = parse_loop p base 0 false false

abbrev has_hex_prefix : List ℕ → Bool
has_hex_prefix p =
    first_byte p == 0x30 && (first_byte (drop 1 p) == 0x78 || first_byte (drop 1 p) == 0x58)

-- the text behind a prefix, and the base
pub normalize_base : List ℕ → ℕ → List ℕ × ℕ
normalize_base p base =
    if base == 0
    then if has_hex_prefix p
      then (drop 2 p, 16)
      else if first_byte p == 0x30
      then (p, 8)
      else (p, 10)
    else if base == 16 && has_hex_prefix p
    then (drop 2 p, 16)
    else (p, base)

-- what a conversion returns, `*endptr`, and whether it sets errno to ERANGE
pub record Conversion {ℓ} (A : Type ℓ) : Type ℓ where
  pub result : A
  pub endptr : List ℕ
  pub range_error : Bool

abbrev pub bad_base : ℕ → Bool
bad_base base = not (base == 0) && (ltb base 2 || ltb 36 base)

-- the text behind the sign, and whether the sign is `-`
pub skip_sign : List ℕ → List ℕ × Bool
skip_sign p =
    if first_byte p == 0x2b || first_byte p == 0x2d
    then (drop 1 p, first_byte p == 0x2d)
    else (p, false)

-- what strtoull and strtoll have in common: the digits, and whether there is a `-`
pub scan_number : List ℕ → ℕ → Parsed × Bool
scan_number nptr base =
    let (p, minus) = skip_sign (skip_space nptr) in
    let (q, radix) = normalize_base p base in (parse_unsigned q radix, minus)

pub strtoull : List ℕ → ℕ → Conversion ℕ
strtoull nptr base =
    let (n, minus) = scan_number nptr base in
    if bad_base base || not n.any
    then record { result = 0; endptr = nptr; range_error = false }
    else if n.overflow
    then record { result = ullong_max; endptr = n.end; range_error = true }
    else record {
      result = (if minus then (2 ^ 64 - n.value) % 2 ^ 64 else n.value);
      endptr = n.end;
      range_error = false;
    }

-- the value and the flag of strtoll for a number with its sign
pub to_llong : Parsed → Bool → ℤ × Bool
to_llong n minus =
    if n.overflow
    then (if minus then neg (llong_max + 1) else pos llong_max, true)
    else if minus
    then if ltb (llong_max + 1) n.value then (neg (llong_max + 1), true) else (neg n.value, false)
    else if ltb llong_max n.value
    then (pos llong_max, true)
    else (pos n.value, false)

pub strtoll : List ℕ → ℕ → Conversion ℤ
strtoll nptr base =
    let (n, minus) = scan_number nptr base in
    let (value, range) = to_llong n minus in
    if bad_base base || not n.any
    then record { result = pos 0; endptr = nptr; range_error = false }
    else record { result = value; endptr = n.end; range_error = range }

-- The clamp of atoi; where nothing is converted, strtoll returns 0 already.
pub clamp_int : ℤ → ℤ
clamp_int (pos n) = pos (if ltb (2 ^ 31 - 1) n then 2 ^ 31 - 1 else n)
clamp_int (negsuc n) = negsuc (if ltb (2 ^ 31 - 1) n then 2 ^ 31 - 1 else n)

pub atoi : List ℕ → ℤ
atoi nptr = clamp_int (strtoll nptr 10).result

-- atol and atoll: `long` and `long long` have 64 bits
pub atoll : List ℕ → ℤ
atoll nptr = (strtoll nptr 10).result
