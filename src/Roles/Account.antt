-- ===== src/Roles/Account.antt =====
-- Accounts and groups looked up in their files, and the role that follows.
use meraki_builder.Prelude.{
  ℕ, zero, suc, Bytes, Bool, true, false, not, List, [], ◌∷◌, Option, none, some, ◌==◌, ltb, ◌||◌,
  if◌then◌else◌, bytes_eq, codes, length, take,
}
use meraki_builder.Libc.{strtoul, ulong_mod, tokens}
use meraki_builder.Roles.Fields.{Fields, fields_of, account_lines, account_line_max}

pub data Role : Type 0 where
  role_none role_viewer role_operator role_admin : Role

-- What the programs are given: the environment and the files. A file that is not there cannot be
-- opened.
pub record System : Type 0 where
  pub getenv : Bytes → Option Bytes
  pub files : Bytes → Option Bytes

abbrev nonempty : Bytes → Bool
nonempty [] = false
nonempty (c ∷ s) = true

unfoldable pub account_path : System → Bytes → Bytes → Bytes
account_path system environment fallback = elim (system.getenv environment) [
  | none ↦ fallback
  | some value ↦ if nonempty value then value else fallback
]

-- The result of a lookup: the account, or -EINVAL, -ENOENT, or the error of opening the file.
pub data Account : Type 0 where
  account : ℕ → ℕ → Account
  invalid missing unopened : Account

-- `strtoul` in base 10, when all of the text is read.
unfoldable pub whole_number : Bytes → Option ℕ
unfolding strtoul
whole_number s =
    let scan = strtoul ulong_mod 10 s in if nonempty scan.rest then none else some scan.value

abbrev pub ids : Option ℕ → Option ℕ → Account
ids (some uid) (some gid) = account uid gid
ids (some uid) none = invalid
ids none gid = invalid

-- A line of the user file: none if the loop goes on.
unfoldable pub user_line : Bytes → Fields → Option Account
unfolding whole_number
user_line username f = elim f.name [
  | none ↦ none
  | some name ↦ elim f.third [
    | none ↦ none
    | some uid_text ↦ elim f.fourth [
      | none ↦ none
      | some gid_text ↦
          if bytes_eq name username
          then some (ids (whole_number uid_text) (whole_number gid_text))
          else none
    ]
  ]
]

unfoldable pub scan_users : Bytes → List Bytes → Account
unfolding fields_of user_line
scan_users username [] = missing
scan_users username (line ∷ lines) = elim (user_line username (fields_of line)) [
  | none ↦ scan_users username lines
  | some result ↦ result
]

unfoldable pub account_uid_for_username : System → Bytes → Account
unfolding account_path scan_users account_lines
account_uid_for_username system username =
    if not (nonempty username)
    then invalid
    else elim (system.files
        (account_path system (codes "POSTMERKOS_PASSWD_FILE") (codes "/etc/passwd"))) [
          | none ↦ unopened
          | some text ↦ scan_users username (account_lines text)
        ]

-- The name of an account, or -EINVAL, -ENOENT, -ENAMETOOLONG, or the error of opening the file.
pub data NameResult : Type 0 where
  named : Bytes → NameResult
  too_long name_invalid name_missing name_unopened : NameResult

abbrev pub same_number : Option ℕ → ℕ → Bool
same_number none n = false
same_number (some m) n = m == n

unfoldable pub name_line : ℕ → ℕ → Fields → Option NameResult
unfolding whole_number
name_line uid size f = elim f.name [
  | none ↦ none
  | some name ↦ elim f.third [
    | none ↦ none
    | some uid_text ↦
        if same_number (whole_number uid_text) uid
        then some (if ltb (length name) size then named name else too_long)
        else none
  ]
]

unfoldable pub scan_names : ℕ → ℕ → List Bytes → NameResult
unfolding fields_of name_line
scan_names uid size [] = name_missing
scan_names uid size (line ∷ lines) = elim (name_line uid size (fields_of line)) [
  | none ↦ scan_names uid size lines
  | some result ↦ result
]

unfoldable pub account_username_for_uid : System → ℕ → ℕ → NameResult
unfolding account_path scan_names account_lines
account_username_for_uid system uid zero = name_invalid
account_username_for_uid system uid (suc room) =
    if uid == 0
    then named (take room (codes "root"))
    else elim (system.files
        (account_path system (codes "POSTMERKOS_PASSWD_FILE") (codes "/etc/passwd"))) [
          | none ↦ name_unopened
          | some text ↦ scan_names uid (suc room) (account_lines text)
        ]

unfoldable pub has_token : Bytes → List Bytes → Bool
has_token username [] = false
has_token username (t ∷ ts) =
    let rest = has_token username ts in if bytes_eq t username then true else rest

unfoldable pub member_list_contains : Bytes → Bytes → Bool
unfolding has_token tokens
member_list_contains members username =
    if ltb (length members) account_line_max
    then has_token username (tokens b',' members)
    else false

abbrev pub listed : Option Bytes → Bytes → Bool
unfolding member_list_contains
listed none username = false
listed (some members) username = member_list_contains members username

-- A line of the group file: none if the loop goes on.
unfoldable pub group_line : Bytes → ℕ → Bytes → Fields → Option Bool
unfolding whole_number listed
group_line username primary_gid group_name f = elim f.name [
  | none ↦ none
  | some name ↦ elim f.third [
    | none ↦ none
    | some gid_text ↦
        if bytes_eq name group_name
        then some (same_number (whole_number gid_text) primary_gid || listed f.fourth username)
        else none
  ]
]

unfoldable pub scan_groups : Bytes → ℕ → Bytes → List Bytes → Bool
unfolding fields_of group_line
scan_groups username primary_gid group_name [] = false
scan_groups username primary_gid group_name (line ∷ lines) =
    elim (group_line username primary_gid group_name (fields_of line)) [
      | none ↦ scan_groups username primary_gid group_name lines
      | some found ↦ found
    ]

unfoldable pub group_contains : System → Bytes → ℕ → Bytes → Bool
unfolding account_path scan_groups account_lines
group_contains system username primary_gid group_name =
    elim (system.files (account_path system (codes "POSTMERKOS_GROUP_FILE") (codes "/etc/group"))) [
      | none ↦ false
      | some text ↦ scan_groups username primary_gid group_name (account_lines text)
    ]

abbrev pub admin_group : Bytes
admin_group = codes "postmerkos-admin"

abbrev pub operator_group : Bytes
operator_group = codes "postmerkos-operator"

abbrev pub viewer_group : Bytes
viewer_group = codes "postmerkos-viewer"

unfoldable pub role_of_account : System → Bytes → Account → Role
unfolding group_contains
role_of_account system username (account uid gid) =
    if uid == 0
    then role_admin
    else if group_contains system username gid admin_group
    then role_admin
    else if group_contains system username gid operator_group
    then role_operator
    else if group_contains system username gid viewer_group
    then role_viewer
    else role_none
role_of_account system username invalid = role_none
role_of_account system username missing = role_none
role_of_account system username unopened = role_none

unfoldable pub role_for_username : System → Bytes → Role
unfolding account_uid_for_username role_of_account
role_for_username system username =
    if not (nonempty username)
    then role_none
    else role_of_account system username (account_uid_for_username system username)

abbrev account_name_max : ℕ
account_name_max = 128

unfoldable pub role_for_uid : System → ℕ → Role
unfolding role_for_username account_username_for_uid
role_for_uid system uid =
    if uid == 0 then role_admin else elim (account_username_for_uid system uid account_name_max) [
      | named username ↦ role_for_username system username
      | too_long ↦ role_none
      | name_invalid ↦ role_none
      | name_missing ↦ role_none
      | name_unopened ↦ role_none
    ]
