-- ===== src/Portstats/RoundTrip.antt =====
-- Varints as they are written, and that `read_varint` reads them.
use meraki_builder.Prelude.{
  ℕ, zero, suc, ◌+◌, ◌*◌, ◌/◌, ◌%◌, ◌^◌, ◌<◌, Bytes, true, false, [], ◌∷◌, ◌++◌, Option, some, ◌≡◌,
  refl, sym, ap, ◌∙◌, ◌==◌, ltb, leb, bit_and, bit_or, length, arith, low_seven, top_digit,
  or_above, Bool-cases, inl, inr, subst,
}
use meraki_builder.Portstats.Varint.{varint_loop, read_varint}

-- Seven digits to a byte, the lowest first, in at most `k` bytes.
unfoldable pub write_varint : ℕ → ℕ → Bytes
write_varint zero n = []
write_varint (suc k) n = elim (ltb n 128) [
  | true ↦ n ∷ []
  | false ↦ (128 + n % 128) ∷ write_varint k (n / 128)
]

-- What one byte adds to the value.
added :
    (i acc byte d : ℕ)
    → acc < 2 ^ (7 * i)
    → byte % 128 ≡ d
    → d * 2 ^ (7 * i) < 2 ^ 64
    → bit_or acc (bit_and byte 0x7f * 2 ^ (7 * i) % 2 ^ 64) ≡ acc + d * 2 ^ (7 * i)
added i acc byte d h e fits =
    let low : bit_and byte 127 ≡ d = low_seven byte ∙ e in
    let same : bit_and byte 127 * 2 ^ (7 * i) % 2 ^ 64 ≡ d * 2 ^ (7 * i) =
      ap (λ x. x * 2 ^ (7 * i) % 2 ^ 64) low ∙ small (d * 2 ^ (7 * i)) fits in
    ap (bit_or acc) same ∙ or_above (7 * i) acc d h
  where
    small : (x : ℕ) → x < 2 ^ 64 → x % 2 ^ 64 ≡ x
    small x h = omega arith

spread : (q r p : ℕ) → (q * 128 + r) * p ≡ q * (p * 128) + r * p
spread q r p = grind arith

-- The last seven digits of a number, and the rest, over a common factor.
digits : (n p : ℕ) → n * p ≡ n / 128 * (p * 128) + n % 128 * p
digits n p =
    let whole : n ≡ n / 128 * 128 + n % 128 = omega arith in
    ap (λ x. x * p) whole ∙ spread (n / 128) (n % 128) p

seven_more : (x : ℕ) → 2 ^ suc (suc (suc (suc (suc (suc (suc x)))))) ≡ 2 ^ x * 128
seven_more x = omega arith

power : (i : ℕ) → 2 ^ (7 * (i + 1)) ≡ 2 ^ (7 * i) * 128
power i =
    let e : 7 * (i + 1) ≡ suc (suc (suc (suc (suc (suc (suc (7 * i))))))) = omega arith in
    ap (λ x. 2 ^ x) e ∙ seven_more (7 * i)

power_suc : (k : ℕ) → 2 ^ (7 * suc k) ≡ 2 ^ (7 * k) * 128
power_suc k = let e : 7 * suc k ≡ 7 * (k + 1) = omega arith in ap (λ x. 2 ^ x) e ∙ power k

not_last : (n : ℕ) → bit_and (128 + n % 128) 0x80 ≡ 128
not_last n = omega (arith, top_digit (128 + n % 128))

last_byte : (n : ℕ) → n < 128 → bit_and n 0x80 ≡ 0
last_byte n h = omega (arith, top_digit n)

abbrev next_value : ℕ → ℕ → ℕ → ℕ
next_value i acc byte = bit_or acc (bit_and byte 0x7f * 2 ^ (7 * i) % 2 ^ 64)

loop_last :
    (i acc byte : ℕ) (b : Bytes)
    → leb 10 i ≡ false
    → (bit_and byte 0x80 == 0) ≡ true
    → varint_loop i acc (byte ∷ b) ≡ some (i + 1, next_value i acc byte)
unfolding varint_loop
loop_last i acc byte b h k = rw (h, k, varint_loop)

loop_more :
    (i acc byte : ℕ) (b : Bytes)
    → leb 10 i ≡ false
    → (bit_and byte 0x80 == 0) ≡ false
    → varint_loop i acc (byte ∷ b) ≡ varint_loop (i + 1) (next_value i acc byte) b
unfolding varint_loop
loop_more i acc byte b h k = rw (h, k, varint_loop)

write_short : (k n : ℕ) → ltb n 128 ≡ true → write_varint (suc k) n ≡ n ∷ []
unfolding write_varint
write_short k n h = rw (h, write_varint)

write_long :
    (k n : ℕ)
    → ltb n 128 ≡ false
    → write_varint (suc k) n ≡ (128 + n % 128) ∷ write_varint k (n / 128)
unfolding write_varint
write_long k n h = rw (h, write_varint)

more_left : (k n : ℕ) → ltb n 128 ≡ false → n < 2 ^ (7 * suc k) → 0 < k
more_left zero n h fits = absurd (ground arith)
more_left (suc k) n h fits = omega arith

sum_fits : (r acc p : ℕ) → r < 128 → acc < p → acc + r * p < p * 128
sum_fits r acc p h k = grind arith

same_pair : {a b c d : ℕ} → a ≡ b → c ≡ d → ◌≡◌ {A = Option (ℕ × ℕ)} (some (a, c)) (some (b, d))
same_pair e h = rw (e, h) refl

-- The loop reads what is left of a value, behind `i` bytes with the value `acc`.
reads :
    (k i acc n : ℕ) (rest : Bytes)
    → i + k ≡ 10
    → 0 < k
    → acc < 2 ^ (7 * i)
    → n < 2 ^ (7 * k)
    → n * 2 ^ (7 * i) < 2 ^ 64
    → varint_loop i acc (write_varint k n ++ rest)
      ≡ some (i + length (write_varint k n), acc + n * 2 ^ (7 * i))
reads zero i acc n rest e pos low fits room = absurd (omega arith)
reads (suc k) i acc n rest e pos low fits room = elim (Bool-cases (ltb n 128)) [
  | inl short ↦
      let at : leb 10 i ≡ false = ground arith in
      let sum = added i acc n n low (ground arith) room in
      rw (write_short k n short)
        (loop_last i acc n rest at (ground (arith, last_byte n)) ∙ ap (λ v. some (i + 1, v)) sum)
  | inr long ↦
      let at : leb 10 i ≡ false = ground arith in
      let p = 2 ^ (7 * i) in
      let next = power i in
      let up = power_suc k in
      let sum =
        added i acc (128 + n % 128) (n % 128) low (omega arith) (omega (arith, digits n p, room)) in
      let more =
        reads k (i + 1) (acc + n % 128 * p) (n / 128) rest (omega arith) (more_left k n long fits)
          (omega (arith, next, sum_fits (n % 128) acc p (omega arith) low)) (omega (arith, up))
          (subst (λ q. n / 128 * q < 2 ^ 64) (sym next) (omega (arith, digits n p, room))) in
      rw (write_long k n long) (
        loop_more i acc (128 + n % 128) (write_varint k (n / 128) ++ rest) at
          (ground (arith, not_last n))
        ∙ ap (λ v. varint_loop (i + 1) v (write_varint k (n / 128) ++ rest)) sum
        ∙ more
        ∙ same_pair (omega arith)
            (ap (λ q. acc + n % 128 * p + n / 128 * q) next ∙ omega (arith, digits n p)))
]

-- A 64-bit value, written in at most ten bytes, is read back, with its length, whatever follows.
pub read_varint-write_varint :
    (n : ℕ) (rest : Bytes)
    → n < 2 ^ 64
    → read_varint (write_varint 10 n ++ rest) ≡ some (length (write_varint 10 n), n)
unfolding read_varint
read_varint-write_varint n rest h =
    reads 10 0 0 n rest (omega arith) (omega arith) (omega arith) (omega arith) (omega arith)
    ∙ same_pair (omega arith) (omega arith)
