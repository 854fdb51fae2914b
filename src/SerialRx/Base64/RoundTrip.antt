-- ===== src/SerialRx/Base64/RoundTrip.antt =====
-- The decoder against an encoder written from RFC 4648, and the bounds of what it produces.
use meraki_builder.Prelude.{
  ℕ, ◌+◌, ◌-◌, ◌*◌, ◌/◌, ◌%◌, ◌≤◌, ◌<◌, Bytes, IsByte, Bool, true, false, [], ◌∷◌, ◌++◌, some, ◌≡◌,
  ◌≢◌, refl, arith, ltb, if◌then◌else◌, length, length-append, All, All-append, append_assoc,
  append-nil, inl, inr, Option-cases, ◌==◌, ◌∙◌, ap, subst, not, ◌||◌, some_inj, refused_unless,
  Ensures, Ensures-bind, Ensures-check, Ensures-some,
}
use Prim.Native.Nat.{zero-le}
use meraki_builder.SerialRx.Base64.{
  base64_value, sextet, word_bytes, group, is_nil, groups, decode_base64,
}

-- The alphabet of RFC 4648.
abbrev symbol : ℕ → ℕ
symbol v =
    if ltb v 26
    then b'A' + v
    else if ltb v 52
    then b'a' + (v - 26)
    else if ltb v 62
    then b'0' + (v - 52)
    else if ltb v 63
    then b'+'
    else b'/'

-- Three bytes make four symbols; one or two bytes at the end are padded.
unfoldable pub encode : Bytes → Bytes
encode [] = []
encode (x ∷ []) = symbol (x / 4) ∷ symbol (x % 4 * 16) ∷ b'=' ∷ b'=' ∷ []
encode (x ∷ y ∷ []) =
    symbol (x / 4) ∷ symbol (x % 4 * 16 + y / 16) ∷ symbol (y % 16 * 4) ∷ b'=' ∷ []
encode (x ∷ y ∷ z ∷ rest) =
    symbol (x / 4)
    ∷ symbol (x % 4 * 16 + y / 16)
    ∷ symbol (y % 16 * 4 + z / 64)
    ∷ symbol (z % 64)
    ∷ encode rest

sextet-symbol : (last : Bool) (i v : ℕ) → v < 64 → sextet last i 0 (symbol v) ≡ some (v, 0)
unfolding sextet base64_value
sextet-symbol last i v h = ground arith

module _ (x y z : ℕ) (hx : IsByte x) (hy : IsByte y) (hz : IsByte z) where
  abbrev word : ℕ
  word = x / 4 * 262144 + (x % 4 * 16 + y / 16) * 4096 + (y % 16 * 4 + z / 64) * 64 + z % 64

  word_parts : (word / 65536 % 256 ≡ x) × (word / 256 % 256 ≡ y) × (word % 256 ≡ z)
  word_parts = omega arith

  group_three :
      (last : Bool)
      → group last
          (symbol (x / 4))
          (symbol (x % 4 * 16 + y / 16))
          (symbol (y % 16 * 4 + z / 64))
          (symbol (z % 64))
        ≡ some (x ∷ y ∷ z ∷ [])
  unfolding group word_bytes
  group_three last =
      rw
        (
          sextet-symbol last 0 (x / 4) (omega arith),
          sextet-symbol last 1 (x % 4 * 16 + y / 16) (omega arith),
          sextet-symbol last 2 (y % 16 * 4 + z / 64) (omega arith),
          sextet-symbol last 3 (z % 64) (omega arith),
        )
        (cc (word_parts.0, word_parts.1, word_parts.2))

two_parts :
    (x y : ℕ)
    → IsByte x
    → IsByte y
    → some (
        (x / 4 * 262144 + (x % 4 * 16 + y / 16) * 4096 + y % 16 * 4 * 64 + 0) / 65536 % 256
        ∷ (x / 4 * 262144 + (x % 4 * 16 + y / 16) * 4096 + y % 16 * 4 * 64 + 0) / 256 % 256
        ∷ [])
      ≡ some (x ∷ y ∷ [])
two_parts x y hx hy = ground arith

one_part :
    (x : ℕ)
    → IsByte x
    → some ((x / 4 * 262144 + x % 4 * 16 * 4096 + 0 + 0) / 65536 % 256 ∷ []) ≡ some (x ∷ [])
one_part x hx = ground arith

group_two :
    (x y : ℕ)
    → IsByte x
    → IsByte y
    → group true (symbol (x / 4)) (symbol (x % 4 * 16 + y / 16)) (symbol (y % 16 * 4)) b'='
      ≡ some (x ∷ y ∷ [])
unfolding group word_bytes
group_two x y hx hy =
    rw
      (
        sextet-symbol true 0 (x / 4) (omega arith),
        sextet-symbol true 1 (x % 4 * 16 + y / 16) (omega arith),
        sextet-symbol true 2 (y % 16 * 4) (omega arith),
      )
      (two_parts x y hx hy)

group_one :
    (x : ℕ) → IsByte x → group true (symbol (x / 4)) (symbol (x % 4 * 16)) b'=' b'=' ≡ some (x ∷ [])
unfolding group word_bytes
group_one x hx =
    rw (sextet-symbol true 0 (x / 4) (omega arith), sextet-symbol true 1 (x % 4 * 16) (omega arith))
      (one_part x hx)

pub length-encode : (s : Bytes) → length (encode s) % 4 ≡ 0
unfolding encode
length-encode [] = refl
length-encode (x ∷ []) = refl
length-encode (x ∷ y ∷ []) = refl
length-encode (x ∷ y ∷ z ∷ rest) = omega (arith, length-encode rest)

groups_step :
    (capacity a b c d : ℕ) (rest out bytes : Bytes)
    → group (is_nil rest) a b c d ≡ some bytes
    → length out + length bytes ≤ capacity
    → groups capacity (a ∷ b ∷ c ∷ d ∷ rest) out ≡ groups capacity rest (out ++ bytes)
unfolding groups
groups_step capacity a b c d rest out bytes e h = rw (e, groups) (ground arith)

groups-encode :
    (capacity : ℕ) (s out : Bytes)
    → All IsByte s
    → length out + length s ≤ capacity
    → groups capacity (encode s) out ≡ some (out ++ s)
unfolding encode
groups-encode capacity [] out hs h = unfold groups in (rw append-nil)
groups-encode capacity (x ∷ []) out hs h =
    groups_step capacity _ _ _ _ [] out (x ∷ []) (group_one x hs.0) h ∙ unfold groups in refl
groups-encode capacity (x ∷ y ∷ []) out hs h =
    groups_step capacity _ _ _ _ [] out (x ∷ y ∷ []) (group_two x y hs.0 hs.1.0) h
    ∙ unfold groups in refl
groups-encode capacity (x ∷ y ∷ z ∷ rest) out hs h =
    groups_step capacity _ _ _ _ (encode rest) out (x ∷ y ∷ z ∷ [])
      (group_three x y z hs.0 hs.1.0 hs.1.1.0 _) (omega arith)
    ∙ groups-encode capacity rest (out ++ x ∷ y ∷ z ∷ []) hs.1.1.1
        (omega (arith, length-append out (x ∷ y ∷ z ∷ [])))
    ∙ ap some (append_assoc out (x ∷ y ∷ z ∷ []) rest)

pub length-encode-pos : (s : Bytes) → s ≢ [] → 0 < length (encode s)
unfolding encode
length-encode-pos [] h = absurd (h refl)
length-encode-pos (x ∷ []) h = omega arith
length-encode-pos (x ∷ y ∷ []) h = omega arith
length-encode-pos (x ∷ y ∷ z ∷ rest) h = omega arith

decode_base64-groups :
    (capacity : ℕ) (s : Bytes)
    → 0 < length s
    → length s % 4 ≡ 0
    → decode_base64 capacity s ≡ groups capacity s []
unfolding decode_base64
decode_base64-groups capacity s h k =
    let e : (length s == 0 || not (length s % 4 == 0)) ≡ false = ground arith in
    rw (e, decode_base64)

-- Base64 text written by RFC 4648 for a non-empty byte string that fits the buffer is decoded to
-- that byte string.
pub decode_base64-encode :
    (capacity : ℕ) (s : Bytes)
    → s ≢ []
    → All IsByte s
    → length s ≤ capacity
    → decode_base64 capacity (encode s) ≡ some s
decode_base64-encode capacity s h hs fits =
    decode_base64-groups capacity _ (length-encode-pos s h) (length-encode s)
    ∙ groups-encode capacity s [] hs (omega arith)

word_bytes-bounds :
    (word padding : ℕ)
    → All IsByte (word_bytes word padding) × (0 < length (word_bytes word padding))
unfolding word_bytes
word_bytes-bounds word padding = ground arith

abbrev IsGroup : Bytes → Type 0
IsGroup bytes = All IsByte bytes × (0 < length bytes)

group-IsGroup : (last : Bool) (a b c d : ℕ) → Ensures IsGroup (group last a b c d)
unfolding group
group-IsGroup last a b c d = Ensures-bind _ (sextet last 0 0 a) _ λ r₀.
    Ensures-bind _ (sextet last 1 r₀.1 b) _ λ r₁.
      Ensures-bind _ (sextet last 2 r₁.1 c) _ λ r₂.
        Ensures-bind _ (sextet last 3 r₂.1 d) _ λ r₃. search (Ensures-check, word_bytes-bounds)

groups_capacity :
    (capacity a b c d : ℕ) (rest out bytes result : Bytes)
    → group (is_nil rest) a b c d ≡ some bytes
    → groups capacity (a ∷ b ∷ c ∷ d ∷ rest) out ≡ some result
    → (length out + length bytes ≤ capacity) × (groups capacity rest (out ++ bytes) ≡ some result)
unfolding groups
groups_capacity capacity a b c d rest out bytes result e h =
    let (room, more) =
      refused_unless (ltb capacity (length out + length bytes))
        (groups capacity rest (out ++ bytes)) (rw (e, groups) at h) in
    (ground arith, more)

groups-bounds :
    (capacity : ℕ) (s out result : Bytes)
    → All IsByte out
    → length out ≤ capacity
    → groups capacity s out ≡ some result
    → All IsByte result × (length result ≤ capacity) × (length out ≤ length result)
unfolding groups
groups-bounds capacity [] out result ho fits h =
    subst (λ r. All IsByte r × (length r ≤ capacity) × (length out ≤ length r)) (some_inj h)
      (ho, fits, omega arith)
groups-bounds capacity (a ∷ []) out result ho fits h = cc
groups-bounds capacity (a ∷ b ∷ []) out result ho fits h = cc
groups-bounds capacity (a ∷ b ∷ c ∷ []) out result ho fits h = cc
groups-bounds capacity (a ∷ b ∷ c ∷ d ∷ rest) out result ho fits h =
    elim (Option-cases (group (is_nil rest) a b c d)) [
      | inl e ↦ cc (rw (e, groups) at h)
      | inr (bytes, e) ↦
          (let (room, more) = groups_capacity capacity a b c d rest out bytes result e h in
            let (are_bytes, _) = Ensures-some IsGroup _ (group-IsGroup (is_nil rest) a b c d) e in
            let bound =
              groups-bounds capacity rest (out ++ bytes) result
                (All-append IsByte out bytes ho are_bytes) (omega (arith, length-append out bytes))
                more in
            (bound.0, bound.1, omega (arith, length-append out bytes, bound.2)))
    ]

quartets : (n : ℕ) → (n == 0 || not (n % 4 == 0)) ≡ false → (n % 4 ≡ 0) × (0 < n)
quartets n h = ground arith

-- What the decoder returns are bytes, and no more of them than the buffer has room for; a text
-- whose length is no positive multiple of four is refused.
pub decode_base64-bounds :
    (capacity : ℕ) (s result : Bytes)
    → decode_base64 capacity s ≡ some result
    → All IsByte result × (length result ≤ capacity) × (length s % 4 ≡ 0) × (0 < length s)
unfolding decode_base64
decode_base64-bounds capacity s result h =
    let (shape, found) = refused_unless _ _ h in
    let bound = groups-bounds capacity s [] result tt zero-le found in
    (bound.0, bound.1, (quartets (length s) shape).0, (quartets (length s) shape).1)
