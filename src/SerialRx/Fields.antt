-- ===== src/SerialRx/Fields.antt =====
-- The checks on the fields of a frame: hashes, names and numbers.
use meraki_builder.Prelude.{
  ℕ, ◌-◌, ◌^◌, Bytes, Bool, true, false, not, [], ◌∷◌, Option, none, some, ◌==◌, ltb, if◌then◌else◌,
  ◌&&◌, ◌||◌, length, map, bytes_eq, codes,
}
use meraki_builder.Libc.{isxdigit, isalnum, tolower, strtoul, ulong_mod, ullong_mod}

abbrev pub hash_hex_bytes : ℕ
hash_hex_bytes = 64

abbrev pub name_max_bytes : ℕ
name_max_bytes = 127

all_hex : Bytes → Bool
all_hex [] = true
all_hex (c ∷ s) = isxdigit c && all_hex s

unfoldable pub valid_hash : Bytes → Bool
unfolding all_hex
valid_hash value = (length value == hash_hex_bytes) && all_hex value

unfoldable pub lowercase_hash : Bytes → Bytes
lowercase_hash input = map tolower input

abbrev pub name_char : ℕ → Bool
name_char c = isalnum c || c == b'.' || c == b'_' || c == b'-'

all_name_chars : Bytes → Bool
all_name_chars [] = true
all_name_chars (c ∷ s) = name_char c && all_name_chars s

unfoldable pub valid_name : Bytes → Bool
unfolding all_name_chars
valid_name value =
    not (
      length value == 0
      || ltb name_max_bytes (length value)
      || bytes_eq value (codes ".")
      || bytes_eq value (codes ".."))
    && all_name_chars value

-- `errno || !end || *end`: the whole text is one number in range.
abbrev whole_number : Bool → Bytes → Bool
whole_number range [] = not range
whole_number range (c ∷ s) = false

unfoldable pub parse_u64 : Bytes → Option ℕ
parse_u64 value =
    let scan = strtoul ullong_mod 10 value in
    if not (whole_number scan.range scan.rest) || scan.value == 0 then none else some scan.value

-- `unsigned long` has 32 bits, so its maximum is `UINT32_MAX`.
unfoldable pub parse_u32 : Bytes → Option ℕ
parse_u32 value =
    let scan = strtoul ulong_mod 10 value in
    if not (whole_number scan.range scan.rest) || ltb (2 ^ 32 - 1) scan.value
    then none
    else some scan.value

unfoldable pub parse_hex_u32 : Bytes → Option ℕ
parse_hex_u32 value =
    let scan = strtoul ulong_mod 16 value in
    if not (length value == 8)
    then none
    else if not (whole_number scan.range scan.rest) || ltb (2 ^ 32 - 1) scan.value
    then none
    else some scan.value
