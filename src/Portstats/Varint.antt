-- ===== src/Portstats/Varint.antt =====
-- `read_varint` and `skip_value`.
use meraki_builder.Prelude.{
  ℕ, ◌+◌, ◌-◌, ◌*◌, ◌%◌, ◌^◌, Bytes, true, false, [], ◌∷◌, Option, none, some, ◌==◌, ltb, leb,
  if◌then◌else◌, bit_and, bit_or, length,
}

-- `i` bytes have been read, with the value `result`.
unfoldable pub varint_loop : ℕ → ℕ → Bytes → Option (ℕ × ℕ)
varint_loop i result [] = none
varint_loop i result (byte ∷ b) =
    let result' = bit_or result (bit_and byte 0x7f * 2 ^ (7 * i) % 2 ^ 64) in
    elim (leb 10 i) [
      | true ↦ none
      | false ↦ elim (bit_and byte 0x80 == 0) [
        | true ↦ some (i + 1, result')
        | false ↦ varint_loop (i + 1) result' b
      ]
    ]

-- The bytes consumed and the value; none for 0.
unfoldable pub read_varint : Bytes → Option (ℕ × ℕ)
unfolding varint_loop
read_varint b = varint_loop 0 0 b

-- The bytes of a value of the wire type; 0 for an error.
unfoldable pub skip_value : Bytes → ℕ → ℕ
unfolding read_varint
skip_value b wire =
    if wire == 0
    then elim (read_varint b) [ none ↦ 0 | some (n, v) ↦ n ]
    else if wire == 1
    then (if leb 8 (length b) then 8 else 0)
    else if wire == 2
    then elim (read_varint b) [ none ↦ 0 | some (n, v) ↦ if ltb (length b - n) v then 0 else n + v ]
    else if wire == 5
    then (if leb 4 (length b) then 4 else 0)
    else 0
