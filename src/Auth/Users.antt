-- ===== src/Auth/Users.antt =====
-- Accounts made and removed.
use meraki_builder.Prelude.{Bytes, not, [], ◌∷◌, Option, ◌||◌, if◌then◌else◌, bytes_eq, codes}
use meraki_builder.Auth.Accounts.{safe_username, account_exists, is_some}
use meraki_builder.Auth.Manage.{
  Commands, Answer, no_entry, invalid_argument, not_permitted, is_success, bad_password, or_empty,
  admin_name, run_chpasswd, run_command,
}
use meraki_builder.Auth.Groups.{role_group, auth_set_role}

module _ (World : Type 0) (sys : Commands World) where
  -- After a failure, deluser removes the account, whatever it gives.
  abbrev pub removed_unless : Bytes → Answer × World → Answer × World
  removed_unless username (rc, w) =
      if is_success rc
      then (rc, w)
      else (rc, (run_command World sys (codes "deluser" ∷ username ∷ []) w).1)

  abbrev pub set_role_after : Bytes → Option Bytes → Answer × World → Answer × World
  set_role_after username role (rc, w) =
      let rest = auth_set_role World sys username role w in if is_success rc then rest else (rc, w)

  abbrev pub equip_after : Bytes → Bytes → Option Bytes → Answer × World → Answer × World
  equip_after username password role (rc, w) =
      let rest =
        removed_unless username
          (set_role_after username role (run_chpasswd World sys username password w)) in
      if is_success rc then rest else (rc, w)

  unfoldable pub auth_create_user : Bytes → Option Bytes → Option Bytes → World → Answer × World
  unfolding safe_username account_exists bad_password role_group run_command run_chpasswd
      auth_set_role
  auth_create_user username password role w =
      if not (safe_username username) || account_exists (sys.system w) username
      then (invalid_argument, w)
      else if bad_password password
      then (invalid_argument, w)
      else if not (is_some (role_group role))
      then (invalid_argument, w)
      else equip_after username (or_empty password) role (
          run_command World sys
            (codes "adduser" ∷ codes "-D" ∷ codes "-s" ∷ codes "/bin/sh" ∷ username ∷ []) w)

  unfoldable pub auth_delete_user : Bytes → World → Answer × World
  unfolding safe_username account_exists run_command
  auth_delete_user username w =
      if not (safe_username username) || not (account_exists (sys.system w) username)
      then (no_entry, w)
      else if bytes_eq username admin_name
      then (not_permitted, w)
      else run_command World sys (codes "deluser" ∷ username ∷ []) w
