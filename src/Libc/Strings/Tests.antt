-- ===== src/Libc/Strings/Tests.antt =====
-- Copies of "ab" and "aC" into arrays of eight bytes.
use the_os_reborn.Common.{ℕ, suc, ◌+◌, ◌≡◌, refl, List, [], ◌∷◌, ◌++◌, drop, replicate, arith}
use the_os_reborn.Libc.Strings.{strlen, strcpy, strcat, strncpy}
use the_os_reborn.Libc.Strings.Compare.{text}
use the_os_reborn.Libc.Strings.Copy.{padded, strcpy_lem, strcat_lem, strncpy_lem}

abbrev ab : List ℕ
ab = 97 ∷ 98 ∷ 0 ∷ []

abbrev buffer : List ℕ
buffer = 97 ∷ 67 ∷ 0 ∷ replicate 5 1

strcpy_lem_example :
    (strcpy buffer ab ≡ 97 ∷ 98 ∷ 0 ∷ replicate 5 1) × (text (strcpy buffer ab) ≡ 97 ∷ 98 ∷ [])
strcpy_lem_example = strcpy_lem buffer ab (omega arith)

lengths : (strlen buffer ≡ 2) × (strlen ab ≡ 2)
unfolding strlen
lengths = (refl, refl)

strcat_lem_example :
    (strcat buffer ab
      ≡ text buffer ++ (text ab ++ (0 ∷ drop (suc (strlen ab)) (drop (strlen buffer) buffer))))
    × (text (strcat buffer ab) ≡ text buffer ++ text ab)
    × (strlen (strcat buffer ab) ≡ strlen buffer + strlen ab)
strcat_lem_example = strcat_lem buffer ab (omega (arith, lengths))

strncpy_lem_example : strncpy buffer ab 4 ≡ padded 4 (text ab) ++ drop 4 buffer
strncpy_lem_example = strncpy_lem 4 buffer ab (omega arith)
