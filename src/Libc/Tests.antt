-- ===== src/Libc/Tests.antt =====
-- Calls of the C library on short arrays and texts.
use mathlib.Core.List.{map}
use the_os_reborn.Common.{inr, ℕ, ◌+◌, ◌≡◌, false, List, [], ◌∷◌, take, replicate, arith}
use the_os_reborn.Libc.Memory.{memmove, moved, memmove_lem}
use the_os_reborn.Libc.Numbers.{lltoa, strtoull, strtoll, atoi}
use the_os_reborn.Libc.Numbers.ReadBack.{strtoull-lltoa}
use the_os_reborn.Libc.Numbers.Spelled.{spelled}
use the_os_reborn.Libc.Numbers.Saturate.{
  to_unsigned_range, to_range, nearest_int, conversions_saturate,
}
use the_os_reborn.Libc.Strings.{strcmp, strncmp, strcasecmp, strncasecmp}
use the_os_reborn.Libc.Strings.Compare.{text, lex, lower_case, strcmp-lex}

-- cell `x` holds `x + 100`; ten cells are moved up by three
memmove_lem_example :
    memmove 1003 1000 10 (λ x. x + 100) 1005 ≡ moved 10 1003 1000 (λ x. x + 100) 1005
memmove_lem_example = memmove_lem 1003 1000 10 (λ x. x + 100) 1005

-- "ab" and "aC"
abbrev ab : List ℕ
ab = 97 ∷ 98 ∷ 0 ∷ []

abbrev a_c : List ℕ
a_c = 97 ∷ 67 ∷ 0 ∷ []

strcmp-lex_example :
    (strcmp ab a_c ≡ lex (text ab) (text a_c))
    × (strncmp 1 ab a_c ≡ lex (take 1 (text ab)) (take 1 (text a_c)))
    × (strcasecmp ab a_c ≡ lex (text (map lower_case ab)) (text (map lower_case a_c)))
    × (strncasecmp 1 ab a_c
        ≡ lex (take 1 (text (map lower_case ab))) (take 1 (text (map lower_case a_c))))
strcmp-lex_example = strcmp-lex 1 ab a_c

strtoull-lltoa_example :
    (tail : List ℕ) × (strtoull (lltoa 0xbeef (replicate 8 1) 8 16) 16
      ≡ record { result = 0xbeef; endptr = 0 ∷ tail; range_error = false })
strtoull-lltoa_example =
    strtoull-lltoa 0xbeef 8 16 (replicate 8 1) (omega arith) (omega arith) (omega arith)
      (omega arith) (omega arith) (omega arith)

-- "-7"
abbrev minus_seven : List ℕ
minus_seven = 45 ∷ 55 ∷ 0 ∷ []

conversions_saturate_example :
    let (w, minus) = spelled minus_seven 10 in
    (((strtoull minus_seven 10).result, (strtoull minus_seven 10).range_error)
      ≡ to_unsigned_range w minus)
    × (((strtoll minus_seven 10).result, (strtoll minus_seven 10).range_error) ≡ to_range w minus)
    × (atoi minus_seven ≡ nearest_int w minus)
conversions_saturate_example = conversions_saturate minus_seven 10 (inr (omega arith, omega arith))
