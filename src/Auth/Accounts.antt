-- ===== src/Auth/Accounts.antt =====
-- Accounts looked up in their files. The lines and their fields are read as in Roles.Fields, whose
-- functions auth.c repeats. A null pointer is the empty text where the code treats both alike.
use meraki_builder.Prelude.{
  ℕ, Bytes, Bool, true, false, not, List, [], ◌∷◌, Option, none, some, ◌==◌, ltb, leb, ◌&&◌, ◌||◌,
  if◌then◌else◌, bytes_eq, codes, length, take,
}
use meraki_builder.Roles.Fields.{next_colon_field, account_lines}
use meraki_builder.Roles.Account.{System, account_path, whole_number}

pub record AccountRecord : Type 0 where
  pub name : Bytes
  pub password : Bytes
  pub uid : ℕ
  pub gid : ℕ
  pub home : Bytes
  pub shell : Bytes

abbrev within : ℕ → ℕ → ℕ → Bool
within low high c = leb low c && leb c high

abbrev pub safe_char : ℕ → Bool
safe_char c =
    within b'a' b'z' c
    || within b'A' b'Z' c
    || within b'0' b'9' c
    || c == b'_'
    || c == b'-'
    || c == b'.'

unfoldable pub all_safe : Bytes → Bool
all_safe [] = true
all_safe (c ∷ s) = safe_char c && all_safe s

abbrev pub is_empty : Bytes → Bool
is_empty [] = true
is_empty (c ∷ s) = false

unfoldable pub safe_username : Bytes → Bool
unfolding all_safe
safe_username username =
    if is_empty username || ltb 64 (length username) then false else all_safe username

-- The fields of a line that the code keeps, as far as they are there.
abbrev pub parsed :
    Option Bytes
    → Option Bytes
    → Option Bytes
    → Option Bytes
    → Option Bytes
    → Option Bytes
    → Option AccountRecord
unfolding whole_number
parsed (some name) (some password) (some uid_text) (some gid_text) (some home) (some shell) =
    elim (whole_number uid_text) [
      | none ↦ none
      | some uid ↦ elim (whole_number gid_text) [
        | none ↦ none
        | some gid ↦ some (record {
          name = take 64 name;
          password = take 511 password;
          uid = uid;
          gid = gid;
          home = take 255 home;
          shell = take 127 shell;
        })
      ]
    ]
parsed _ _ _ _ _ _ = none

unfoldable pub parse_account_line : Bytes → Option AccountRecord
unfolding next_colon_field parsed whole_number
parse_account_line line =
    let (name, c1) = next_colon_field (some line) in
    let (password, c2) = next_colon_field c1 in
    let (uid_text, c3) = next_colon_field c2 in
    let (gid_text, c4) = next_colon_field c3 in
    let (gecos, c5) = next_colon_field c4 in
    let (home, c6) = next_colon_field c5 in
    let (shell, c7) = next_colon_field c6 in parsed name password uid_text gid_text home shell

-- The account, if the candidate is the one that is looked for.
abbrev pub same_name : Bytes → Option AccountRecord → Option AccountRecord
same_name username none = none
same_name username (some candidate) =
    if bytes_eq candidate.name username then some candidate else none

unfoldable pub scan_accounts : Bytes → List Bytes → Option AccountRecord
unfolding parse_account_line
scan_accounts username [] = none
scan_accounts username (line ∷ lines) = elim (same_name username (parse_account_line line)) [
  | none ↦ scan_accounts username lines
  | some found ↦ some found
]

-- The account for 0, none for any error, which the callers do not tell apart.
unfoldable pub account_by_name : System → Bytes → Option AccountRecord
unfolding safe_username scan_accounts account_lines account_path
account_by_name system username =
    if not (safe_username username)
    then none
    else elim (system.files
        (account_path system (codes "POSTMERKOS_PASSWD_FILE") (codes "/etc/passwd"))) [
          | none ↦ none
          | some text ↦ scan_accounts username (account_lines text)
        ]

abbrev pub is_some {ℓ} : {A : Type ℓ} → Option A → Bool
is_some none = false
is_some (some a) = true

unfoldable pub account_exists : System → Bytes → Bool
unfolding account_by_name
account_exists system username = is_some (account_by_name system username)

-- The two fields of a line of the shadow file, if the line is the account's.
abbrev pub hash_field : Bytes → Option Bytes → Option Bytes → Option Bytes
hash_field username (some name) (some password) =
    if bytes_eq name username then some password else none
hash_field username _ _ = none

unfoldable pub shadow_line : Bytes → Bytes → Option Bytes
unfolding next_colon_field
shadow_line username line =
    let (name, c1) = next_colon_field (some line) in
    let (password, c2) = next_colon_field c1 in hash_field username name password

unfoldable pub scan_shadow : Bytes → ℕ → List Bytes → Option Bytes
unfolding shadow_line
scan_shadow username hash_size [] = none
scan_shadow username hash_size (line ∷ lines) = elim (shadow_line username line) [
  | none ↦ scan_shadow username hash_size lines
  | some password ↦ if leb hash_size (length password) then none else some password
]

-- The hash for 0, none for any error.
unfoldable pub shadow_hash : System → Bytes → ℕ → Option Bytes
unfolding scan_shadow account_lines account_path
shadow_hash system username hash_size =
    elim (system.files
      (account_path system (codes "POSTMERKOS_SHADOW_FILE") (codes "/etc/shadow"))) [
        | none ↦ none
        | some text ↦ scan_shadow username hash_size (account_lines text)
      ]
