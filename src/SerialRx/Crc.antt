-- ===== src/SerialRx/Crc.antt =====
-- `crc32_bytes`: the reflected CRC-32, a bit at a time.
use Prim.Native.Nat.{bit_and, bit_xor}
use meraki_builder.Prelude.{ℕ, zero, suc, ◌-◌, ◌/◌, ◌%◌, ◌^◌, Bytes, [], ◌∷◌, ◌≡◌, refl, codes}

-- `(uint32_t)-(int32_t)(crc & 1)`: all ones where the lowest bit is set.
bit_mask : ℕ → ℕ
bit_mask crc = (2 ^ 32 - crc % 2) % 2 ^ 32

crc_bits : ℕ → ℕ → ℕ
unfolding bit_mask
crc_bits zero crc = crc
crc_bits (suc bit) crc = crc_bits bit (bit_xor (crc / 2) (bit_and 0xedb88320 (bit_mask crc)))

crc_loop : Bytes → ℕ → ℕ
unfolding crc_bits
crc_loop [] crc = crc
crc_loop (c ∷ s) crc = crc_loop s (crc_bits 8 (bit_xor crc c))

unfoldable pub crc32_bytes : Bytes → ℕ
unfolding crc_loop
crc32_bytes s = bit_xor (crc_loop s 0xffffffff) 0xffffffff

-- The check value of the CRC-32 catalogues.
check_value : crc32_bytes (codes "123456789") ≡ 0xcbf43926
unfolding crc32_bytes
check_value = refl
