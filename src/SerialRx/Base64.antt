-- ===== src/SerialRx/Base64.antt =====
-- `base64_value` and `decode_base64`: strict, padded Base64 into a buffer of given size.
pub mod RoundTrip
use meraki_builder.Prelude.{
  ℕ, zero, suc, ◌+◌, ◌-◌, ◌*◌, ◌/◌, ◌%◌, ◌^◌, ◌≤◌, ◌<◌, Bytes, Bool, true, false, not, [], ◌∷◌,
  ◌++◌, Option, none, some, ◌≡◌, refl, arith, ◌==◌, ltb, leb, if◌then◌else◌, ◌&&◌, ◌||◌, ◌>>=◌,
  ◌>>◌, check, length, codes,
}

unfoldable pub base64_value : ℕ → Option ℕ
base64_value c =
    if leb b'A' c && leb c b'Z'
    then some (c - b'A')
    else if leb b'a' c && leb c b'z'
    then some (c - b'a' + 26)
    else if leb b'0' c && leb c b'9'
    then some (c - b'0' + 52)
    else if c == b'+'
    then some 62
    else if c == b'/'
    then some 63
    else none

-- One round of the loop over a group of four: the byte at place `i`, the padding so far and
-- whether the group is the last; the result is the value and the padding.
sextet : Bool → ℕ → ℕ → ℕ → Option (ℕ × ℕ)
unfolding base64_value
sextet last i padding c =
    if c == b'='
    then if ltb i 2 || not last then none else some (0, padding + 1)
    else if ltb 0 padding
    then none
    else elim (base64_value c) [ none ↦ none | some v ↦ some (v, padding) ]

-- The bytes of a 24-bit word, as many as the padding leaves.
word_bytes : ℕ → ℕ → Bytes
word_bytes word padding =
    if padding == 0
    then (word / 2 ^ 16) % 256 ∷ (word / 2 ^ 8) % 256 ∷ word % 256 ∷ []
    else if padding == 1
    then (word / 2 ^ 16) % 256 ∷ (word / 2 ^ 8) % 256 ∷ []
    else (word / 2 ^ 16) % 256 ∷ []

-- A whole group: the values are below 64, so the disjoint `|` of the shifted values is a sum.
group : Bool → ℕ → ℕ → ℕ → ℕ → Option Bytes
unfolding sextet word_bytes
group last a b c d = do
  (v₀, p₀) ← sextet last 0 0 a
  (v₁, p₁) ← sextet last 1 p₀ b
  (v₂, p₂) ← sextet last 2 p₁ c
  (v₃, p₃) ← sextet last 3 p₂ d
  check (not (ltb 2 p₃))
  check (not (p₃ == 1 && not (d == b'=')))
  check (not (p₃ == 2 && not (c == b'=' && d == b'=')))
  some (word_bytes (v₀ * 2 ^ 18 + v₁ * 2 ^ 12 + v₂ * 2 ^ 6 + v₃) p₃)

abbrev is_nil : Bytes → Bool
is_nil [] = true
is_nil (c ∷ s) = false

-- `length % 4 != 0` is the case of one to three bytes left over.
groups : ℕ → Bytes → Bytes → Option Bytes
unfolding group
groups capacity [] out = some out
groups capacity (a ∷ b ∷ c ∷ d ∷ rest) out = elim (group (is_nil rest) a b c d) [
  | none ↦ none
  | some bytes ↦
      (let more = groups capacity rest (out ++ bytes) in
        if ltb capacity (length out + length bytes) then none else more)
]
groups capacity _ out = none

unfoldable pub decode_base64 : ℕ → Bytes → Option Bytes
unfolding groups
decode_base64 capacity input =
    if length input == 0 || not (length input % 4 == 0) then none else groups capacity input []

foobar : decode_base64 3072 (codes "Zm9vYmE=") ≡ some (codes "fooba")
unfolding decode_base64
foobar = refl
