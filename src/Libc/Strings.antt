-- ===== src/Libc/Strings.antt =====
-- Strings: Userland/Libraries/LibC/string.c. A `char *` is the list of the bytes from
-- there on; what lies behind the list reads as the terminating 0.
pub mod Compare
pub mod Copy
mod Tests
use Prim.Native.Nat.{Ordering, lt, eq, gt}
use the_os_reborn.Common.{
  ℕ, zero, suc, ◌+◌, ◌-◌, ◌*◌, ◌/◌, ◌%◌, ◌^◌, ◌≤◌, ◌<◌, ◌≡◌, ◌≢◌, refl, sym, ap, ◌∙◌, subst, Bool,
  true, false, not, ◌&&◌, ◌||◌, List, [], ◌∷◌, ◌++◌, Option, none, some, ◌==◌, ltb, leb,
  if◌then◌else◌, update, length, get_or, set, take, drop, replicate, All, Bool-cases, Option-cases,
  ==_ne, ==_self, ==_iff, ltb→lt, lt→ltb, leb→le, ◌↔◌, ◌⊎◌, inl, inr, arith,
}

-- `(a < b) ? -1 : 1` after the test for equality; -1, 0 and 1 are lt, eq and gt.
abbrev pub sign_of : ℕ → ℕ → Ordering
sign_of a b = if a == b then eq else if ltb a b then lt else gt

abbrev pub first_byte : List ℕ → ℕ
first_byte [] = 0
first_byte (x ∷ xs) = x

unfoldable pub strcmp : List ℕ → List ℕ → Ordering
strcmp [] ys = sign_of 0 (first_byte ys)
strcmp (x ∷ xs) [] = sign_of x 0
strcmp (x ∷ xs) (y ∷ ys) =
    let rest = strcmp xs ys in
    if x == 0 || y == 0 then sign_of x y else if not (x == y) then sign_of x y else rest

abbrev pub is_eq : Ordering → Bool
is_eq eq = true
is_eq _ = false

unfoldable pub tolower : ℕ → ℕ
tolower c = if leb 0x41 c && leb c 0x5a then c + 32 else c

unfoldable pub toupper : ℕ → ℕ
toupper c = if leb 0x61 c && leb c 0x7a then c - 32 else c

-- the space, and the bytes 9 to 13 that the code lists
unfoldable pub isspace : ℕ → Bool
isspace c = c == 0x20 || c == 0x0c || c == 0x0a || c == 0x0d || c == 0x09 || c == 0x0b

pub strlen : List ℕ → ℕ
strlen [] = 0
strlen (x ∷ xs) = let rest = strlen xs in if x == 0 then 0 else suc rest

-- The index of the byte, for the pointer to it; `none` is NULL.
pub strchr_from : List ℕ → ℕ → ℕ → Option ℕ
strchr_from [] c i = if c == 0 then some i else none
strchr_from (x ∷ xs) c i =
    let rest = strchr_from xs c (suc i) in
    if x == 0 then (if c == 0 then some i else none) else if x == c then some i else rest

pub strchr : List ℕ → ℕ → Option ℕ
strchr str ch = strchr_from str (ch % 2 ^ 8) 0

pub strncmp : ℕ → List ℕ → List ℕ → Ordering
strncmp zero xs ys = eq
strncmp (suc n) xs ys =
    let a = first_byte xs in
    let b = first_byte ys in
    let rest = strncmp n (drop 1 xs) (drop 1 ys) in
    if not (a == b) then sign_of a b else if a == 0 then eq else rest

pub memcmp : ℕ → List ℕ → List ℕ → Ordering
memcmp zero xs ys = eq
memcmp (suc n) xs ys =
    let a = first_byte xs in
    let b = first_byte ys in
    let rest = memcmp n (drop 1 xs) (drop 1 ys) in
    if ltb a b then lt else if ltb b a then gt else rest

pub strcasecmp : List ℕ → List ℕ → Ordering
strcasecmp [] ys = sign_of (tolower 0) (tolower (first_byte ys))
strcasecmp (x ∷ xs) [] = sign_of (tolower x) (tolower 0)
strcasecmp (x ∷ xs) (y ∷ ys) =
    let rest = strcasecmp xs ys in
    if x == 0 || y == 0
    then sign_of (tolower x) (tolower y)
    else if not (tolower x == tolower y)
    then sign_of (tolower x) (tolower y)
    else rest

pub strncasecmp : ℕ → List ℕ → List ℕ → Ordering
strncasecmp zero xs ys = eq
strncasecmp (suc n) xs ys =
    let a = tolower (first_byte xs) in
    let b = tolower (first_byte ys) in
    let rest = strncasecmp n (drop 1 xs) (drop 1 ys) in
    if not (a == b) then sign_of a b else if first_byte xs == 0 then eq else rest

-- the loop of strcpy and strcat: `src`, with its 0, into the array from index `i` on
pub copy_text : List ℕ → ℕ → List ℕ → List ℕ
copy_text [] i dest = set dest i 0
copy_text (x ∷ xs) i dest =
    let rest = copy_text xs (suc i) (set dest i x) in if x == 0 then set dest i 0 else rest

pub strcpy : List ℕ → List ℕ → List ℕ
strcpy dest src = copy_text src 0 dest

pub strcat : List ℕ → List ℕ → List ℕ
strcat dest src = copy_text src (strlen dest) dest

-- the second loop of strncpy, for the `n` cells from index `i` on
pub zero_cells : ℕ → ℕ → List ℕ → List ℕ
zero_cells zero i dest = dest
zero_cells (suc n) i dest = zero_cells n (suc i) (set dest i 0)

pub strncpy_loop : ℕ → List ℕ → ℕ → List ℕ → List ℕ
strncpy_loop zero src i dest = dest
strncpy_loop (suc n) src i dest =
    let rest = strncpy_loop n (drop 1 src) (suc i) (set dest i (first_byte src)) in
    if first_byte src == 0 then zero_cells (suc n) i dest else rest

pub strncpy : List ℕ → List ℕ → ℕ → List ℕ
strncpy dest src length = strncpy_loop length src 0 dest
