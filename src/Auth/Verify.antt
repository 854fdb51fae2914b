-- ===== src/Auth/Verify.antt =====
-- The check of a password. `crypt` is the C library's: what it gives for a password and a hash.
use Prim.Native.Nat.{bit_xor, bit_or}
use meraki_builder.Prelude.{
  ℕ, Bytes, Bool, true, false, not, [], ◌∷◌, Option, none, some, ◌==◌, ◌&&◌, ◌||◌, if◌then◌else◌,
  bytes_eq, codes, length, take,
}
use meraki_builder.Roles.Account.{
  System, Role, role_none, role_viewer, role_operator, role_admin, role_for_username,
}
use meraki_builder.Auth.Accounts.{
  AccountRecord, is_empty, safe_username, account_by_name, shadow_hash,
}

-- The loop of `constant_time_equal`: behind its end, a text has zeros.
unfoldable pub equal_loop : Bytes → Bytes → ℕ → ℕ
equal_loop (a ∷ left) (b ∷ right) difference =
    equal_loop left right (bit_or difference (bit_xor a b))
equal_loop (a ∷ left) [] difference = equal_loop left [] (bit_or difference (bit_xor a 0))
equal_loop [] (b ∷ right) difference = equal_loop [] right (bit_or difference (bit_xor 0 b))
equal_loop [] [] difference = difference

-- The lengths are below 2^32.
unfoldable pub constant_time_equal : Bytes → Bytes → Bool
unfolding equal_loop
constant_time_equal left right = equal_loop left right (bit_xor (length left) (length right)) == 0

-- The answers of `auth_verify_user`: 0, or its error with the message.
pub data Verdict : Type 0 where
  verified : Verdict
  invalid_credentials not_authorized unavailable locked failed : Verdict

abbrev pub is_none : Role → Bool
is_none role_none = true
is_none role_viewer = false
is_none role_operator = false
is_none role_admin = false

-- The hash: from the account, if it stands there, or from the shadow file.
unfoldable pub hash_of : System → AccountRecord → Option Bytes
unfolding shadow_hash
hash_of system account =
    if not (is_empty account.password)
      && not (bytes_eq account.password (codes "x"))
      && not (bytes_eq account.password (codes "*"))
    then some (take 511 account.password)
    else shadow_hash system account.name 512

abbrev pub is_locked : Bytes → Bool
is_locked [] = true
is_locked (c ∷ hash) = c == b'!' || c == b'*'

unfoldable pub compare_hash : Bytes → Option Bytes → Verdict
unfolding constant_time_equal
compare_hash hash none = failed
compare_hash hash (some calculated) =
    if constant_time_equal calculated hash then verified else failed

unfoldable pub check_hash : (Bytes → Bytes → Option Bytes) → Bytes → Option Bytes → Verdict
unfolding compare_hash
check_hash crypt password none = unavailable
check_hash crypt password (some hash) =
    if is_locked hash then locked else compare_hash hash (crypt password hash)

unfoldable pub check_account :
    (Bytes → Bytes → Option Bytes) → System → Bytes → Bytes → Option AccountRecord → Verdict
unfolding check_hash hash_of role_for_username
check_account crypt system username password none = not_authorized
check_account crypt system username password (some account) =
    if is_none (role_for_username system username)
    then not_authorized
    else check_hash crypt password (hash_of system account)

unfoldable pub auth_verify_user :
    (Bytes → Bytes → Option Bytes) → System → Bytes → Option Bytes → Verdict
unfolding safe_username check_account account_by_name
auth_verify_user crypt system username none = invalid_credentials
auth_verify_user crypt system username (some password) =
    if not (safe_username username)
    then invalid_credentials
    else check_account crypt system username password (account_by_name system username)
