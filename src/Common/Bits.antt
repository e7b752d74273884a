-- ===== src/Common/Bits.antt =====
-- The bitwise operations on native numbers, one binary digit at a time.
use Prim.Native.Nat.{
  ℕ, zero, suc, ◌+◌, ◌*◌, ◌/◌, ◌%◌, ◌^◌, ◌≤◌, ◌<◌, min, max, digits, bit_and, bit_or,
  bit_and-bitwise, bit_or-bitwise,
}
use mathlib.Core.Path.{◌≡◌, refl, sym, ap, ◌∙◌}
use native.Mathlib.Omega.{arith}

-- an operation with the digits `f`, and `z b` where the first number has run out
module _ (z : ℕ → ℕ) (f : ℕ → ℕ → ℕ) (ends : (b : ℕ) → z b ≡ z (b / 2) * 2 + f 0 (b % 2)) where
  count_irrelevant : (n a b : ℕ) (m : ℕ) → a ≤ n → a ≤ m → digits z f n a b ≡ digits z f m a b
  count_irrelevant zero zero b zero p q = refl
  count_irrelevant zero zero b (suc m) p q = refl
  count_irrelevant (suc n) zero b zero p q = refl
  count_irrelevant (suc n) zero b (suc m) p q = refl
  count_irrelevant zero (suc a) b m p q = absurd (omega (arith, p))
  count_irrelevant (suc n) (suc a) b zero p q = absurd (omega (arith, q))
  count_irrelevant (suc n) (suc a) b (suc m) p q =
      ap (λ x. x * 2 + f (suc a % 2) (b % 2))
        (count_irrelevant n (suc a / 2) (b / 2) m (omega (arith, p)) (omega (arith, q)))

  lowest_digit :
      (a b : ℕ) → digits z f a a b ≡ digits z f (a / 2) (a / 2) (b / 2) * 2 + f (a % 2) (b % 2)
  lowest_digit zero b = ends b
  lowest_digit (suc a) b =
      ap (λ x. x * 2 + f (suc a % 2) (b % 2))
        (count_irrelevant a (suc a / 2) (b / 2) (suc a / 2) (omega arith) (omega arith))

pub bit_and_step : (a b : ℕ) → bit_and a b ≡ bit_and (a / 2) (b / 2) * 2 + min (a % 2) (b % 2)
bit_and_step a b =
    bit_and-bitwise a b
    ∙ lowest_digit (λ b. 0) min (λ b. omega arith) a b
    ∙ ap (λ x. x * 2 + min (a % 2) (b % 2)) (sym (bit_and-bitwise (a / 2) (b / 2)))

pub bit_or_step : (a b : ℕ) → bit_or a b ≡ bit_or (a / 2) (b / 2) * 2 + max (a % 2) (b % 2)
bit_or_step a b =
    bit_or-bitwise a b
    ∙ lowest_digit (λ b. b) max (λ b. omega arith) a b
    ∙ ap (λ x. x * 2 + max (a % 2) (b % 2)) (sym (bit_or-bitwise (a / 2) (b / 2)))

-- a first number of at most `n`
or_nothing : (n a : ℕ) → a ≤ n → bit_or a 0 ≡ a
or_nothing zero zero h = refl
or_nothing zero (suc a) h = absurd (omega (arith, h))
or_nothing (suc n) zero h = refl
or_nothing (suc n) (suc a) h =
    omega (arith, bit_or_step (suc a) 0, or_nothing n (suc a / 2) (omega (arith, h)))

and_nothing : (n a : ℕ) → a ≤ n → bit_and a 0 ≡ 0
and_nothing zero zero h = refl
and_nothing zero (suc a) h = absurd (omega (arith, h))
and_nothing (suc n) zero h = refl
and_nothing (suc n) (suc a) h =
    omega (arith, bit_and_step (suc a) 0, and_nothing n (suc a / 2) (omega (arith, h)))

pub bit_or_two : (a : ℕ) → bit_or a 2 ≡ a / 4 * 4 + 2 + a % 2
bit_or_two a = omega (
  arith,
  bit_or_step a 2,
  bit_or_step (a / 2) 1,
  or_nothing (a / 2 / 2) (a / 2 / 2) (omega arith),
)

pub bit_or_four : (a : ℕ) → bit_or a 4 ≡ a / 8 * 8 + 4 + a % 4
bit_or_four a = omega (arith, bit_or_step a 4, bit_or_step (a / 2) 2, bit_or_two (a / 2))

pub bit_and_four : (a : ℕ) → bit_and a 4 ≡ a / 4 % 2 * 4
bit_and_four a = omega (
  arith,
  bit_and_step a 4,
  bit_and_step (a / 2) 2,
  bit_and_step (a / 2 / 2) 1,
  and_nothing (a / 2 / 2 / 2) (a / 2 / 2 / 2) (omega arith),
)

-- the mask of `n` ones
ones : ℕ → ℕ
ones zero = 0
ones (suc n) = ones n * 2 + 1

and_ones : (n a : ℕ) → a < 2 ^ n → bit_and a (ones n) ≡ a
unfolding ones
and_ones zero a h = ap (λ x. bit_and x 0) {x = a} {y = 0} (omega (arith, h)) ∙ omega (arith, h)
and_ones (suc n) a h =
    let low : (ones n * 2 + 1) / 2 ≡ ones n = omega arith in
    let rest = and_ones n (a / 2) (omega (arith, h)) in
    bit_and_step a (ones n * 2 + 1)
    ∙ ap (λ x. bit_and (a / 2) x * 2 + min (a % 2) ((ones n * 2 + 1) % 2)) low
    ∙ ap (λ x. x * 2 + min (a % 2) ((ones n * 2 + 1) % 2)) rest
    ∙ omega arith

-- a mask of thirteen ones above the digits 011
pub bit_and_mask : (a : ℕ) → a < 2 ^ 16 → bit_and a 65531 ≡ a / 8 * 8 + a % 4
unfolding ones
bit_and_mask a small =
    let high : bit_and (a / 2 / 2 / 2) 8191 ≡ a / 2 / 2 / 2 =
      and_ones 13 (a / 2 / 2 / 2) (omega (arith, small)) in
    omega (
      arith,
      high,
      bit_and_step a 65531,
      bit_and_step (a / 2) 32765,
      bit_and_step (a / 2 / 2) 16382,
    )
