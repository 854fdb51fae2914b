-- ===== src/Auth/Groups.antt =====
-- The roles of accounts, set by their groups.
use meraki_builder.Prelude.{
  Bytes, Bool, true, false, not, List, [], ◌∷◌, Option, none, some, ◌||◌, if◌then◌else◌, bytes_eq,
  codes,
}
use meraki_builder.Libc.{tokens}
use meraki_builder.Roles.Fields.{next_colon_field, cut_colon, fgets_lines, account_lines}
use meraki_builder.Roles.Account.{
  System, account_path, has_token, admin_group, operator_group, viewer_group,
}
use meraki_builder.Auth.Accounts.{safe_username, account_exists}
use meraki_builder.Libc.{c_string}
use meraki_builder.Auth.Manage.{
  Commands, Answer, success, no_entry, invalid_argument, not_permitted, input_output, is_success,
  admin_name, run_command,
}

-- A line up to its first colon; the newline of a line without one is part of it.
unfoldable pub names_group : Bytes → List Bytes → Bool
unfolding cut_colon c_string
names_group group [] = false
names_group group (line ∷ lines) =
    let rest = names_group group lines in
    if bytes_eq (cut_colon (c_string line)).0 group then true else rest

abbrev pub group_file : System → Option Bytes
group_file system =
    system.files (account_path system (codes "POSTMERKOS_GROUP_FILE") (codes "/etc/group"))

unfoldable pub group_exists : System → Bytes → Bool
unfolding names_group account_path fgets_lines
group_exists system group = elim (group_file system) [
  | none ↦ false
  | some text ↦ names_group group (fgets_lines 4095 4095 [] text)
]

-- The members in a line of the group, none if the loop goes on.
abbrev pub members_field : Bytes → Option Bytes → Option Bytes → Option (List Bytes)
members_field group none members = none
members_field group (some name) none = if bytes_eq name group then some [] else none
members_field group (some name) (some members) =
    if bytes_eq name group then some (tokens b',' members) else none

unfoldable pub members_line : Bytes → Bytes → Option (List Bytes)
unfolding next_colon_field tokens
members_line group line =
    let (name, c1) = next_colon_field (some line) in
    let (password, c2) = next_colon_field c1 in
    let (gid, c3) = next_colon_field c2 in
    let (members, c4) = next_colon_field c3 in members_field group name members

unfoldable pub scan_members : Bytes → Bytes → List Bytes → Bool
unfolding members_line has_token
scan_members group username [] = false
scan_members group username (line ∷ lines) = elim (members_line group line) [
  | none ↦ scan_members group username lines
  | some names ↦ has_token username names
]

unfoldable pub group_has_member : System → Bytes → Bytes → Bool
unfolding scan_members account_lines account_path
group_has_member system group username = elim (group_file system) [
  | none ↦ false
  | some text ↦ scan_members group username (account_lines text)
]

unfoldable pub role_group : Option Bytes → Option Bytes
role_group none = none
role_group (some role) =
    if bytes_eq role (codes "admin")
    then some admin_group
    else if bytes_eq role (codes "operator")
    then some operator_group
    else if bytes_eq role (codes "viewer")
    then some viewer_group
    else none

abbrev pub all_groups : List Bytes
all_groups = admin_group ∷ operator_group ∷ viewer_group ∷ []

abbrev pub is_admin_text : Option Bytes → Bool
is_admin_text none = false
is_admin_text (some role) = bytes_eq role (codes "admin")

module _ (World : Type 0) (sys : Commands World) where
  unfoldable pub ensure_group : Bytes → World → Answer × World
  unfolding group_exists run_command
  ensure_group group w =
      if group_exists (sys.system w) group
      then (success, w)
      else run_command World sys (codes "addgroup" ∷ group ∷ []) w

  unfoldable pub group_membership : Bytes → Bytes → Bool → World → Answer × World
  unfolding run_command
  group_membership username group add w =
      run_command World sys
        ((if add then codes "addgroup" else codes "delgroup") ∷ username ∷ group ∷ []) w

  -- One turn of the loop over the groups: the user is added to the target, removed from another
  -- one, in which case a failure is ignored. True where the code returns -EIO.
  unfoldable pub set_group : Bytes → Bytes → Bytes → World → Bool × World
  unfolding group_has_member group_membership
  set_group username target group w =
      let member = group_has_member (sys.system w) group username in
      if bytes_eq group target
      then (if member
          then (false, w)
          else let (rc, w1) = group_membership username group true w in (not (is_success rc), w1))
      else if member
      then (let (rc, w1) = group_membership username group false w in (false, w1))
      else (false, w)

  unfoldable pub set_groups : Bytes → Bytes → List Bytes → World → Answer × World
  unfolding set_group
  set_groups username target [] w = (success, w)
  set_groups username target (group ∷ groups) w =
      let (stop, w1) = set_group username target group w in
      let rest = set_groups username target groups w1 in if stop then (input_output, w1) else rest

  abbrev pub set_target : Bytes → World → Option Bytes → Answer × World
  set_target username w none = (invalid_argument, w)
  set_target username w (some target) =
      let (rc, w1) = ensure_group target w in
      let rest = set_groups username target all_groups w1 in
      if is_success rc then rest else (rc, w1)

  unfoldable pub auth_set_role : Bytes → Option Bytes → World → Answer × World
  unfolding safe_username account_exists role_group ensure_group set_groups
  auth_set_role username role w =
      if not (safe_username username) || not (account_exists (sys.system w) username)
      then (no_entry, w)
      else if bytes_eq username admin_name
      then (if is_admin_text role then (success, w) else (not_permitted, w))
      else set_target username w (role_group role)
