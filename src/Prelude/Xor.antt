-- ===== src/Prelude/Xor.antt =====
-- `bit_xor` and `bit_or` are 0 only at equal numbers, and at zeros.
use Prim.Native.Nat.{
  ℕ, zero, suc, ◌+◌, ◌*◌, ◌/◌, ◌%◌, ◌≤◌, max, differ, bit_xor, bit_or, digits, bit_xor-bitwise,
  bit_or-bitwise,
}
use mathlib.Core.Path.{◌≡◌, refl, sym, ap, ◌∙◌}
use native.Mathlib.Omega.{arith}

abbrev or_digits : ℕ → ℕ → ℕ → ℕ
or_digits n a b = digits (λ b. b) max n a b

or_digits_enough : (n m a b : ℕ) → a ≤ n → a ≤ m → or_digits n a b ≡ or_digits m a b
or_digits_enough zero zero a b p q = refl
or_digits_enough zero (suc m) zero b p q = refl
or_digits_enough zero (suc m) (suc a) b p q = absurd (omega arith)
or_digits_enough (suc n) zero zero b p q = refl
or_digits_enough (suc n) zero (suc a) b p q = absurd (omega arith)
or_digits_enough (suc n) (suc m) zero b p q = refl
or_digits_enough (suc n) (suc m) (suc a) b p q =
    omega (arith, or_digits_enough n m (suc a / 2) (b / 2) (omega arith) (omega arith))

pub or_of_zero : (b : ℕ) → bit_or 0 b ≡ b
or_of_zero b = bit_or-bitwise 0 b

pub or_step : (a b : ℕ) → bit_or a b ≡ bit_or (a / 2) (b / 2) * 2 + max (a % 2) (b % 2)
or_step zero b = omega (arith, or_of_zero b, or_of_zero (b / 2))
or_step (suc a) b = omega (
  arith,
  bit_or-bitwise (suc a) b,
  bit_or-bitwise (suc a / 2) (b / 2),
  or_digits_enough a (suc a / 2) (suc a / 2) (b / 2) (omega arith) (omega arith),
)

or_nothing : (n a b : ℕ) → a ≤ n → bit_or a b ≡ 0 → (a ≡ 0) × (b ≡ 0)
or_nothing n zero b h e = (refl, omega (arith, or_of_zero b))
or_nothing zero (suc a) b h e = absurd (omega arith)
or_nothing (suc n) (suc a) b h e =
    let step = or_step (suc a) b in
    let rest = or_nothing n (suc a / 2) (b / 2) (omega arith) (omega (arith, step)) in
    (omega (arith, step, rest.0), omega (arith, step, rest.1))

pub bit_or-nothing : (a b : ℕ) → bit_or a b ≡ 0 → (a ≡ 0) × (b ≡ 0)
bit_or-nothing a b e = or_nothing a a b (omega arith) e

pub differ-nothing : (x y : ℕ) → differ x y ≡ 0 → x ≡ y
differ-nothing zero zero e = refl
differ-nothing zero (suc y) e = absurd (omega arith)
differ-nothing (suc x) zero e = absurd (omega arith)
differ-nothing (suc x) (suc y) e = omega (arith, differ-nothing x y e)

differ_self : (x : ℕ) → differ x x ≡ 0
differ_self zero = refl
differ_self (suc x) = differ_self x

abbrev xor_digits : ℕ → ℕ → ℕ → ℕ
xor_digits n a b = digits (λ b. b) differ n a b

xor_digits_enough : (n m a b : ℕ) → a ≤ n → a ≤ m → xor_digits n a b ≡ xor_digits m a b
xor_digits_enough zero zero a b p q = refl
xor_digits_enough zero (suc m) zero b p q = refl
xor_digits_enough zero (suc m) (suc a) b p q = absurd (omega arith)
xor_digits_enough (suc n) zero zero b p q = refl
xor_digits_enough (suc n) zero (suc a) b p q = absurd (omega arith)
xor_digits_enough (suc n) (suc m) zero b p q = refl
xor_digits_enough (suc n) (suc m) (suc a) b p q =
    ap (λ d. d * 2 + differ (suc a % 2) (b % 2))
      (xor_digits_enough n m (suc a / 2) (b / 2) (omega arith) (omega arith))

xor_of_zero : (b : ℕ) → bit_xor 0 b ≡ b
xor_of_zero b = bit_xor-bitwise 0 b

xor_step :
    (a b : ℕ) → bit_xor (suc a) b ≡ bit_xor (suc a / 2) (b / 2) * 2 + differ (suc a % 2) (b % 2)
xor_step a b =
    bit_xor-bitwise (suc a) b
    ∙ ap (λ d. d * 2 + differ (suc a % 2) (b % 2))
        (xor_digits_enough a (suc a / 2) (suc a / 2) (b / 2) (omega arith) (omega arith)
          ∙ sym (bit_xor-bitwise (suc a / 2) (b / 2)))

xor_nothing : (n a b : ℕ) → a ≤ n → bit_xor a b ≡ 0 → a ≡ b
xor_nothing n zero b h e = omega (arith, xor_of_zero b)
xor_nothing zero (suc a) b h e = absurd (omega arith)
xor_nothing (suc n) (suc a) b h e =
    let step = xor_step a b in
    let high = xor_nothing n (suc a / 2) (b / 2) (omega arith) (omega (arith, step)) in
    let low = differ-nothing (suc a % 2) (b % 2) (omega (arith, step)) in omega (arith, high, low)

pub bit_xor-nothing : (a b : ℕ) → bit_xor a b ≡ 0 → a ≡ b
bit_xor-nothing a b e = xor_nothing a a b (omega arith) e

xor_same : (n a : ℕ) → a ≤ n → bit_xor a a ≡ 0
xor_same n zero h = xor_of_zero 0
xor_same zero (suc a) h = absurd (omega arith)
xor_same (suc n) (suc a) h =
    omega (arith, xor_step a (suc a), xor_same n (suc a / 2) (omega arith), differ_self (suc a % 2))

pub bit_xor_self : (a : ℕ) → bit_xor a a ≡ 0
bit_xor_self a = xor_same a a (omega arith)
