-- ===== src/Libc/Decimal.antt =====
-- `%u`, `%llu`: an unsigned number in decimal.
use meraki_builder.Prelude.{
  ℕ, zero, suc, ◌+◌, ◌-◌, ◌/◌, ◌%◌, ◌≤◌, ◌^◌, Bytes, [], ◌∷◌, ◌≡◌, refl, arith, ltb, length, codes,
  true, false,
}

-- One round for each digit; the fuel is above the number of digits.
print_digits : ℕ → ℕ → Bytes → Bytes
print_digits zero n out = out
print_digits (suc fuel) n out = elim (ltb n 10) [
  | true ↦ (b'0' + n) ∷ out
  | false ↦ print_digits fuel (n / 10) ((b'0' + n % 10) ∷ out)
]

-- A number below `10 ^ 20` has at most twenty digits, so every 64-bit number is printed whole.
unfoldable pub decimal : ℕ → Bytes
unfolding print_digits
decimal n = print_digits 20 n []

length-print_digits :
    (fuel n : ℕ) (out : Bytes) → length (print_digits fuel n out) ≤ fuel + length out
unfolding print_digits
length-print_digits zero n out = omega arith
length-print_digits (suc fuel) n out =
    ground (arith, length-print_digits fuel (n / 10) ((b'0' + n % 10) ∷ out))

pub length-decimal : (n : ℕ) → length (decimal n) ≤ 20
unfolding decimal
length-decimal n = omega (arith, length-print_digits 20 n [])

largest : decimal (2 ^ 64 - 1) ≡ codes "18446744073709551615"
unfolding decimal
largest = refl
