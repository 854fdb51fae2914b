-- ===== src/Libc/Number.antt =====
-- `strtoul`, `strtoull`: blanks, a sign, for base 16 a prefix, then digits. The result has the
-- value, the text behind the number (the whole text where there is no digit) and `ERANGE`.
use meraki_builder.Prelude.{
  ℕ, ◌+◌, ◌-◌, ◌*◌, ◌%◌, ◌<◌, ◌^◌, Bytes, Bool, true, false, [], ◌∷◌, Option, none, some, ◌≡◌, refl,
  arith, ◌==◌, ltb, if◌then◌else◌, ◌&&◌, ◌||◌, codes,
}
use meraki_builder.Libc.Ctype.{isspace, isdigit, isupper, islower}

pub record Scan : Type 0 where
  pub value : ℕ
  pub rest : Bytes
  pub range : Bool

-- The targets are 32-bit MIPS: `unsigned long` has 32 bits, `unsigned long long` has 64.
abbrev pub ulong_mod : ℕ
ulong_mod = 2 ^ 32

abbrev pub ullong_mod : ℕ
ullong_mod = 2 ^ 64

abbrev digit_of : ℕ → Option ℕ
digit_of c =
    if isdigit c
    then some (c - b'0')
    else if islower c
    then some (c - b'a' + 10)
    else if isupper c
    then some (c - b'A' + 10)
    else none

digit_value : ℕ → ℕ → Option ℕ
digit_value base c = elim (digit_of c) [
  | none ↦ none
  | some d ↦ if ltb d base then some d else none
]

-- The digits at the front: their number's value behind `n`, and what follows.
digits_of : ℕ → Bytes → ℕ → ℕ × Bytes
unfolding digit_value
digits_of base [] n = (n, [])
digits_of base (c ∷ s) n = elim (digit_value base c) [
  | none ↦ (n, c ∷ s)
  | some d ↦ digits_of base s (n * base + d)
]

skip_space : Bytes → Bytes
skip_space [] = []
skip_space (c ∷ s) = let more = skip_space s in if isspace c then more else c ∷ s

sign_of : Bytes → Bool × Bytes
sign_of [] = (false, [])
sign_of (c ∷ s) = if c == b'-' then (true, s) else if c == b'+' then (false, s) else (false, c ∷ s)

-- `0x` counts as a prefix where a hexadecimal digit follows.
skip_prefix : ℕ → Bytes → Bytes
unfolding digit_value
skip_prefix base [] = []
skip_prefix base (a ∷ []) = a ∷ []
skip_prefix base (a ∷ b ∷ []) = a ∷ b ∷ []
skip_prefix base (a ∷ b ∷ c ∷ s) =
    if base == 16 && a == b'0' && (b == b'x' || b == b'X')
    then elim (digit_value 16 c) [ none ↦ a ∷ b ∷ c ∷ s | some _ ↦ c ∷ s ]
    else a ∷ b ∷ c ∷ s

has_digit : ℕ → Bytes → Bool
unfolding digit_value
has_digit base [] = false
has_digit base (c ∷ s) = elim (digit_value base c) [ none ↦ false | some _ ↦ true ]

-- A minus sign negates in the unsigned type.
signed_value : ℕ → Bool → ℕ → ℕ
signed_value modulus true v = (modulus - v) % modulus
signed_value modulus false v = v

finish : ℕ → Bool → ℕ × Bytes → Scan
unfolding signed_value
finish modulus negative (v, rest) =
    if ltb v modulus
    then record { value = signed_value modulus negative v; rest = rest; range = false }
    else record { value = modulus - 1; rest = rest; range = true }

scan_number : ℕ → ℕ → Bytes → Bool × Bytes → Scan
unfolding digits_of skip_prefix has_digit finish
scan_number modulus base whole (negative, s) =
    if has_digit base (skip_prefix base s)
    then finish modulus negative (digits_of base (skip_prefix base s) 0)
    else record { value = 0; rest = whole; range = false }

unfoldable pub strtoul : ℕ → ℕ → Bytes → Scan
unfolding scan_number skip_space sign_of
strtoul modulus base s = scan_number modulus base s (sign_of (skip_space s))

plain : strtoul ulong_mod 10 (codes "42x") ≡ record { value = 42; rest = codes "x"; range = false }
unfolding strtoul
plain = refl

minus_one :
    strtoul ulong_mod 10 (codes " -1") ≡ record { value = 2 ^ 32 - 1; rest = []; range = false }
unfolding strtoul
minus_one = refl

no_number :
    strtoul ulong_mod 10 (codes "x1") ≡ record { value = 0; rest = codes "x1"; range = false }
unfolding strtoul
no_number = refl

finish-lt :
    (modulus : ℕ) (negative : Bool) (v : ℕ) (rest : Bytes)
    → 0 < modulus
    → (finish modulus negative (v, rest)).value < modulus
unfolding finish
finish-lt modulus true v rest h = grind arith
finish-lt modulus false v rest h = ground arith

-- The value fits the type.
pub strtoul-lt :
    (modulus base : ℕ) (s : Bytes) → 0 < modulus → (strtoul modulus base s).value < modulus
unfolding strtoul scan_number
strtoul-lt modulus base s h =
    let (negative, t) = sign_of (skip_space s) in
    let (v, rest) = digits_of base (skip_prefix base t) 0 in
    ground (arith, finish-lt modulus negative v rest h)
