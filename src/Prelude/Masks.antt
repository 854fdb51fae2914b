-- ===== src/Prelude/Masks.antt =====
-- `bit_and` and `bit_or` one binary digit at a time, and the masks that the programs use.
use Prim.Native.Nat.{
  ℕ, zero, suc, ◌+◌, ◌-◌, ◌*◌, ◌/◌, ◌%◌, ◌^◌, ◌≤◌, ◌<◌, min, bit_and, bit_or, digits,
  bit_and-bitwise,
}
use mathlib.Core.Path.{◌≡◌, refl, ap, ◌∙◌}
use native.Mathlib.Omega.{arith}
use meraki_builder.Prelude.Xor.{or_of_zero, or_step}

abbrev and_digits : ℕ → ℕ → ℕ → ℕ
and_digits n a b = digits (λ b. zero) min n a b

and_digits_enough : (n m a b : ℕ) → a ≤ n → a ≤ m → and_digits n a b ≡ and_digits m a b
and_digits_enough zero zero a b p q = refl
and_digits_enough zero (suc m) zero b p q = refl
and_digits_enough zero (suc m) (suc a) b p q = absurd (omega arith)
and_digits_enough (suc n) zero zero b p q = refl
and_digits_enough (suc n) zero (suc a) b p q = absurd (omega arith)
and_digits_enough (suc n) (suc m) zero b p q = refl
and_digits_enough (suc n) (suc m) (suc a) b p q =
    omega (arith, and_digits_enough n m (suc a / 2) (b / 2) (omega arith) (omega arith))

and_of_zero : (b : ℕ) → bit_and 0 b ≡ 0
and_of_zero b = bit_and-bitwise 0 b

and_step : (a b : ℕ) → bit_and a b ≡ bit_and (a / 2) (b / 2) * 2 + min (a % 2) (b % 2)
and_step zero b = omega (arith, and_of_zero b, and_of_zero (b / 2))
and_step (suc a) b = omega (
  arith,
  bit_and-bitwise (suc a) b,
  bit_and-bitwise (suc a / 2) (b / 2),
  and_digits_enough a (suc a / 2) (suc a / 2) (b / 2) (omega arith) (omega arith),
)

and_nothing : (n a : ℕ) → a ≤ n → bit_and a 0 ≡ 0
and_nothing n zero h = and_of_zero 0
and_nothing zero (suc a) h = absurd (omega arith)
and_nothing (suc n) (suc a) h =
    omega (arith, and_step (suc a) 0, and_nothing n (suc a / 2) (omega arith))

bit_and_zero : (a : ℕ) → bit_and a 0 ≡ 0
bit_and_zero a = and_nothing a a (omega arith)

halved : (m : ℕ) → m * 2 / 2 ≡ m
halved m = omega arith

halved_odd : (m : ℕ) → (m * 2 + 1) / 2 ≡ m
halved_odd m = omega arith

-- `a & (m * 2)` and `a & (m * 2 + 1)` over `a / 2 & m`.
and_even : (a m : ℕ) → bit_and a (m * 2) ≡ bit_and (a / 2) m * 2
and_even a m = omega (arith, and_step a (m * 2), ap (λ k. bit_and (a / 2) k) (halved m))

and_odd : (a m : ℕ) → bit_and a (m * 2 + 1) ≡ bit_and (a / 2) m * 2 + a % 2
and_odd a m = omega (arith, and_step a (m * 2 + 1), ap (λ k. bit_and (a / 2) k) (halved_odd m))

low_one : (a : ℕ) → bit_and a 1 ≡ a % 2
low_one a = omega (arith, and_odd a 0, bit_and_zero (a / 2))

pub low_two : (a : ℕ) → bit_and a 3 ≡ a % 4
low_two a = omega (arith, and_odd a 1, low_one (a / 2))

low_three : (a : ℕ) → bit_and a 7 ≡ a % 8
low_three a = omega (arith, and_odd a 3, low_two (a / 2))

low_four : (a : ℕ) → bit_and a 15 ≡ a % 16
low_four a = omega (arith, and_odd a 7, low_three (a / 2))

low_five : (a : ℕ) → bit_and a 31 ≡ a % 32
low_five a = omega (arith, and_odd a 15, low_four (a / 2))

low_six : (a : ℕ) → bit_and a 63 ≡ a % 64
low_six a = omega (arith, and_odd a 31, low_five (a / 2))

pub low_seven : (a : ℕ) → bit_and a 127 ≡ a % 128
low_seven a = omega (arith, and_odd a 63, low_six (a / 2))

without_one : (a : ℕ) → bit_and a 126 ≡ a % 128 / 2 * 2
without_one a = omega (arith, and_even a 63, low_six (a / 2))

-- All but the lowest two digits of a byte.
pub without_two : (a : ℕ) → bit_and a 252 ≡ a % 256 / 4 * 4
without_two a = omega (arith, and_even a 126, without_one (a / 2))

at_two : (a : ℕ) → bit_and a 6 ≡ a / 2 % 4 * 2
at_two a = omega (arith, and_even a 3, low_two (a / 2))

at_four : (a : ℕ) → bit_and a 12 ≡ a / 4 % 4 * 4
at_four a = omega (arith, and_even a 6, at_two (a / 2))

at_eight : (a : ℕ) → bit_and a 24 ≡ a / 8 % 4 * 8
at_eight a = omega (arith, and_even a 12, at_four (a / 2))

-- The digits at 16 and 32.
pub middle_two : (a : ℕ) → bit_and a 48 ≡ a / 16 % 4 * 16
middle_two a = omega (arith, and_even a 24, at_eight (a / 2))

at_thirty_two : (a : ℕ) → bit_and a 96 ≡ a / 32 % 4 * 32
at_thirty_two a = omega (arith, and_even a 48, middle_two (a / 2))

-- The digits at 64 and 128.
pub high_two : (a : ℕ) → bit_and a 192 ≡ a / 64 % 4 * 64
high_two a = omega (arith, and_even a 96, at_thirty_two (a / 2))

-- The digits at 128.
pub top_digit : (a : ℕ) → bit_and a 128 ≡ a / 128 % 2 * 128
top_digit a = omega (arith, and_even a 64, digit_six (a / 2))
  where
    digit_one : (a : ℕ) → bit_and a 2 ≡ a / 2 % 2 * 2
    digit_one a = omega (arith, and_even a 1, low_one (a / 2))

    digit_two : (a : ℕ) → bit_and a 4 ≡ a / 4 % 2 * 4
    digit_two a = omega (arith, and_even a 2, digit_one (a / 2))

    digit_three : (a : ℕ) → bit_and a 8 ≡ a / 8 % 2 * 8
    digit_three a = omega (arith, and_even a 4, digit_two (a / 2))

    digit_four : (a : ℕ) → bit_and a 16 ≡ a / 16 % 2 * 16
    digit_four a = omega (arith, and_even a 8, digit_three (a / 2))

    digit_five : (a : ℕ) → bit_and a 32 ≡ a / 32 % 2 * 32
    digit_five a = omega (arith, and_even a 16, digit_four (a / 2))

    digit_six : (a : ℕ) → bit_and a 64 ≡ a / 64 % 2 * 64
    digit_six a = omega (arith, and_even a 32, digit_five (a / 2))

-- A word of 16 bits under a mask of ones.
all_ones : (k a : ℕ) → a < 2 ^ k → bit_and a (2 ^ k - 1) ≡ a
all_ones zero a h = omega (arith, and_nothing 0 a (omega arith))
all_ones (suc k) a h =
    let half : (2 ^ suc k - 1) / 2 ≡ 2 ^ k - 1 = grind arith in
    let odd : (2 ^ suc k - 1) % 2 ≡ 1 = grind arith in
    let small : a / 2 < 2 ^ k = grind arith in
    omega (
      arith,
      and_step a (2 ^ suc k - 1),
      all_ones k (a / 2) small,
      odd,
      ap (λ m. bit_and (a / 2) m) half,
    )

clear_one : (a : ℕ) → a < 2048 → bit_and a 134217726 ≡ a / 2 * 2
clear_one a h = omega (arith, and_even a 67108863, all_ones 26 (a / 2) (omega arith))

clear_two : (a : ℕ) → a < 4096 → bit_and a 268435452 ≡ a / 4 * 4
clear_two a h = omega (arith, and_even a 134217726, clear_one (a / 2) (omega arith))

clear_at_two : (a : ℕ) → a < 8192 → bit_and a 536870905 ≡ a / 8 * 8 + a % 2
clear_at_two a h = omega (arith, and_odd a 268435452, clear_two (a / 2) (omega arith))

clear_at_four : (a : ℕ) → a < 16384 → bit_and a 1073741811 ≡ a / 16 * 16 + a % 4
clear_at_four a h = omega (arith, and_odd a 536870905, clear_at_two (a / 2) (omega arith))

clear_at_eight : (a : ℕ) → a < 32768 → bit_and a 2147483623 ≡ a / 32 * 32 + a % 8
clear_at_eight a h = omega (arith, and_odd a 1073741811, clear_at_four (a / 2) (omega arith))

-- `a & ~0x30` in 32 bits.
pub without_middle : (a : ℕ) → a < 65536 → bit_and a (2 ^ 32 - 1 - 48) ≡ a / 64 * 64 + a % 16
without_middle a h = omega (arith, and_odd a 2147483623, clear_at_eight (a / 2) (omega arith))

or_nothing_right : (n a : ℕ) → a ≤ n → bit_or a 0 ≡ a
or_nothing_right n zero h = or_of_zero 0
or_nothing_right zero (suc a) h = absurd (omega arith)
or_nothing_right (suc n) (suc a) h =
    omega (arith, or_step (suc a) 0, or_nothing_right n (suc a / 2) (omega arith))

or_right : (a b : ℕ) → b ≡ 0 → bit_or a b ≡ a
or_right a b e = rw e (or_nothing_right a a (omega arith))

-- Where not both have the lowest digit, and the others are added, all are added.
or_adds :
    (a b : ℕ) → a % 2 + b % 2 ≤ 1 → bit_or (a / 2) (b / 2) ≡ a / 2 + b / 2 → bit_or a b ≡ a + b
or_adds a b h e = omega (arith, or_step a b, e)

or_one : (a b : ℕ) → a % 2 ≡ 0 → b < 2 → bit_or a b ≡ a + b
or_one a b e h = or_adds a b (omega arith) (omega (arith, or_right (a / 2) (b / 2) (omega arith)))

or_two : (a b : ℕ) → a % 4 ≡ 0 → b < 4 → bit_or a b ≡ a + b
or_two a b e h = or_adds a b (omega arith) (or_one (a / 2) (b / 2) (omega arith) (omega arith))

-- Two digits are added below a number that has them clear.
pub or_low : (a b : ℕ) → b < 4 → bit_or (a * 4) b ≡ a * 4 + b
or_low a b h = or_two (a * 4) b (omega arith) h

or_at_two : (a b : ℕ) → a / 2 % 4 ≡ 0 → b % 2 ≡ 0 → b < 8 → bit_or a b ≡ a + b
or_at_two a b e k h = or_adds a b (omega arith) (or_two (a / 2) (b / 2) (omega arith) (omega arith))

or_at_four : (a b : ℕ) → a / 4 % 4 ≡ 0 → b % 4 ≡ 0 → b < 16 → bit_or a b ≡ a + b
or_at_four a b e k h =
    or_adds a b (omega arith) (or_at_two (a / 2) (b / 2) (omega arith) (omega arith) (omega arith))

or_at_eight : (a b : ℕ) → a / 8 % 4 ≡ 0 → b % 8 ≡ 0 → b < 32 → bit_or a b ≡ a + b
or_at_eight a b e k h =
    or_adds a b (omega arith) (or_at_four (a / 2) (b / 2) (omega arith) (omega arith) (omega arith))

or_at_sixteen : (a b : ℕ) → a / 16 % 4 ≡ 0 → b % 16 ≡ 0 → b < 64 → bit_or a b ≡ a + b
or_at_sixteen a b e k h =
    or_adds a b (omega arith)
      (or_at_eight (a / 2) (b / 2) (omega arith) (omega arith) (omega arith))

-- A mode is written at 16 and 32.
pub or_mode : (a b m : ℕ) → b < 16 → m < 4 → bit_or (a * 64 + b) (m * 16) ≡ a * 64 + m * 16 + b
or_mode a b m h k =
    omega (arith, or_at_sixteen (a * 64 + b) (m * 16) (omega arith) (omega arith) (omega arith))

twice : (c p : ℕ) → c * (p * 2) ≡ c * p * 2
twice c p = grind arith

-- Above the digits of `a`, the digits of another number are added.
pub or_above : (k a c : ℕ) → a < 2 ^ k → bit_or a (c * 2 ^ k) ≡ a + c * 2 ^ k
or_above zero a c h =
    let e : a ≡ 0 = omega arith in omega (arith, or_of_zero (c * 1), ap (λ n. bit_or n (c * 1)) e)
or_above (suc k) a c h =
    let pow : 2 ^ suc k ≡ 2 ^ k * 2 = omega arith in
    let double : c * 2 ^ suc k ≡ c * 2 ^ k * 2 = ap (λ p. c * p) pow ∙ twice c (2 ^ k) in
    let half : c * 2 ^ suc k / 2 ≡ c * 2 ^ k = omega (arith, double) in
    let small : a / 2 < 2 ^ k = grind arith in
    omega (
      arith,
      or_step a (c * 2 ^ suc k),
      double,
      half,
      or_above k (a / 2) c small,
      ap (λ m. bit_or (a / 2) m) half,
    )
