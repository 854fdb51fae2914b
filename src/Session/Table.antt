-- ===== src/Session/Table.antt =====
-- The state and the operations of session.c. Times are seconds since 1970; the source adds them in
-- signed arithmetic, which is undefined on overflow, so no wrap is written out.
use Prim.Native.Nat.{bit_xor, bit_or}
use meraki_builder.Prelude.{
  ℕ, suc, ◌+◌, ◌-◌, ◌/◌, ◌%◌, Bytes, Bool, true, false, not, List, [], ◌∷◌, Option, none, some,
  ◌==◌, ltb, leb, ◌&&◌, if◌then◌else◌, length, set, take, map, bytes_eq, get_or, codes,
}

-- `token[0]` is 0, so the token the empty string, in a free slot.
pub record Entry : Type 0 where
  pub token : Bytes
  pub username : Bytes
  pub expires_at : ℕ

abbrev pub Table : Type 0
Table = List Entry

abbrev pub is_set : Bytes → Bool
is_set [] = false
is_set (c ∷ s) = true

abbrev pub clear_if : Bool → Entry → Entry
clear_if true e = record e { token = [] }
clear_if false e = e

unfoldable pub purge_expired : ℕ → Table → Table
purge_expired now table =
    map (λ (e : Entry). clear_if (is_set e.token && leb e.expires_at now) e) table

-- The loop of `ct_equal` over the common length.
unfoldable pub ct_loop : Bytes → Bytes → ℕ → ℕ
ct_loop (x ∷ a) (y ∷ b) diff = ct_loop a b (bit_or diff (bit_xor x y))
ct_loop _ _ diff = diff

-- `!= 0` as a number.
abbrev pub nonzero : ℕ → ℕ
nonzero n = if n == 0 then 0 else 1

unfoldable pub ct_equal : Bytes → Bytes → Bool
unfolding ct_loop
ct_equal a b = ct_loop a b (nonzero (bit_xor (length a) (length b))) == 0

unfoldable pub hex_of : Bytes → Bytes
hex_of [] = []
hex_of (byte ∷ raw) =
    get_or (codes "0123456789abcdef") (byte / 16) 0
    ∷ get_or (codes "0123456789abcdef") (byte % 16) 0
    ∷ hex_of raw

-- `raw` is what the random source gives: 32 bytes, or nothing when it fails.
unfoldable pub generate_token : Option Bytes → Option Bytes
unfolding hex_of
generate_token none = none
generate_token (some raw) = some (hex_of raw)

abbrev pub earlier : ℕ → ℕ → Option (ℕ × ℕ) → Option (ℕ × ℕ)
earlier i expires none = some (i, expires)
earlier i expires (some (slot, oldest)) =
    if ltb expires oldest then some (i, expires) else some (slot, oldest)

-- The first free slot, or else the one that expires first. `best` is `slot` with `oldest`.
unfoldable pub choose_slot : ℕ → Table → Option (ℕ × ℕ) → Option ℕ
choose_slot i [] none = none
choose_slot i [] (some (slot, oldest)) = some slot
choose_slot i (e ∷ table) best = elim (is_set e.token) [
  | false ↦ some i
  | true ↦ choose_slot (suc i) table (earlier i e.expires_at best)
]

-- `SESSION_MAX` slots.
abbrev pub session_max : ℕ
session_max = 32

-- The entry that a slot out of the table would have.
abbrev no_entry : Entry
no_entry = record { token = []; username = []; expires_at = 0 }

unfoldable pub fill_slot : ℕ → Bytes → ℕ → Option Bytes → Table → Table × Option Bytes
fill_slot slot username expires none table =
    (set table slot (record (get_or table slot no_entry) { token = [] }), none)
fill_slot slot username expires (some token) table = (
  set table slot (record { token = token; username = take 64 username; expires_at = expires }),
  some token,
)

unfoldable pub session_create : Bytes → ℕ → ℕ → Option Bytes → Table → Table × Option Bytes
unfolding purge_expired generate_token choose_slot fill_slot
session_create username ttl_seconds now raw table =
    let purged = purge_expired now table in
    if not (is_set username) then (table, none) else elim (choose_slot 0 purged none) [
      | none ↦ (purged, none)
      | some slot ↦ fill_slot slot username (now + ttl_seconds) (generate_token raw) purged
    ]

-- The first live entry with the token.
unfoldable pub find : Bytes → Table → Option Entry
unfolding ct_equal
find token [] = none
find token (e ∷ table) = elim (is_set e.token && ct_equal e.token token) [
  | true ↦ some e
  | false ↦ find token table
]

abbrev pub copied : ℕ → Option Entry → Option Bytes
copied n none = none
copied n (some e) = some (take (n - 1) e.username)

-- The username is copied to a buffer of `n` bytes; nothing is returned for -1.
unfoldable pub session_lookup : Bytes → ℕ → ℕ → Table → Table × Option Bytes
unfolding purge_expired find
session_lookup token now n table =
    let purged = purge_expired now table in
    if not (length token == 64) then (table, none) else (purged, copied n (find token purged))

unfoldable pub session_revoke_token : Bytes → Table → Table
unfolding ct_equal
session_revoke_token token table =
    if not (is_set token)
    then table
    else map (λ (e : Entry). clear_if (is_set e.token && ct_equal e.token token) e) table

unfoldable pub session_revoke_user : Bytes → Table → Table
session_revoke_user username table =
    if not (is_set username)
    then table
    else map (λ (e : Entry). clear_if (is_set e.token && bytes_eq e.username username) e) table
