-- ===== src/Auth/Tests.antt =====
-- Two accounts: root, with its hash in the shadow file, and an operator with one of her own.
use meraki_builder.Prelude.{
  ℕ, suc, Bytes, Bool, true, false, [], ◌∷◌, ◌++◌, Option, none, some, ◌≡◌, refl, if◌then◌else◌,
  bytes_eq, codes,
}
use meraki_builder.Libc.{strtoul, tokens, trim_newline, c_string}
use meraki_builder.Roles.Fields.{fgets_lines, next_colon_field, account_lines}
use meraki_builder.Roles.Account.{System, role_for_username}
use meraki_builder.Auth.Accounts.{parse_account_line, account_by_name, safe_username, shadow_hash}
use meraki_builder.Auth.Verify.{
  verified, auth_verify_user, constant_time_equal, hash_of, check_hash,
}
use meraki_builder.Auth.Proof.{Proved, verified-Proved}
use meraki_builder.Auth.Manage.{
  exited, Commands, success, no_entry, has_char, is_success, auth_change_password, admin_name,
}
use meraki_builder.Auth.Groups.{auth_set_role}
use meraki_builder.Auth.Users.{auth_create_user, auth_delete_user}
use meraki_builder.Auth.Change.{Outcome, auth_change_password-Outcome}
use meraki_builder.Auth.Lifecycle.{root_stays}

abbrev newline : Bytes
newline = 10 ∷ []

abbrev passwd : Bytes
passwd =
    codes "root:x:0:0:root:/:/bin/sh" ++ (newline ++ (codes "ann:ha:7:9::/:/bin/sh" ++ newline))

abbrev shadow : Bytes
shadow = codes "root:hr:1::::::" ++ newline

abbrev group : Bytes
group = codes "postmerkos-operator:x:5:ann" ++ newline

abbrev system : System
system = record {
  getenv = λ name. none;
  files = λ path.
      if bytes_eq path (codes "/etc/passwd")
      then some passwd
      else if bytes_eq path (codes "/etc/shadow")
      then some shadow
      else some group;
}

-- A cipher with a hash for each of two passwords.
abbrev cipher : Bytes → Bytes → Option Bytes
cipher password hash = some (if bytes_eq password (codes "secret") then codes "hr" else codes "ha")

-- The state of the system is how many programs have run.
abbrev sys : Commands ℕ
sys = record {
  system = λ n. system;
  crypt = cipher;
  chpasswd = λ text n. (exited 0, suc n);
  execute = λ args n. (exited 0, suc n);
  unlink = λ path n. n;
}

abbrev runs : Bool
unfolding role_for_username bytes_eq strtoul tokens trim_newline c_string fgets_lines
    next_colon_field account_lines parse_account_line account_by_name safe_username shadow_hash
    auth_verify_user constant_time_equal hash_of check_hash has_char auth_change_password
    auth_set_role auth_create_user auth_delete_user
runs = true

root_verified : auth_verify_user cipher system (codes "root") (some (codes "secret")) ≡ verified
unfolding runs
root_verified = refl

verified-Proved_example : Proved cipher system (codes "root") (codes "secret")
verified-Proved_example =
    verified-Proved cipher system (codes "root") (codes "secret") root_verified

auth_change_password-Outcome_example :
    Outcome ℕ sys
      (codes "root")
      (codes "ann")
      (some (codes "secret"))
      (some (codes "abcdefgh"))
      0
      (success, 1)
unfolding runs
auth_change_password-Outcome_example =
    auth_change_password-Outcome ℕ sys (codes "root") (codes "ann") (some (codes "secret"))
      (some (codes "abcdefgh")) 0

bob_made :
    auth_create_user ℕ sys (codes "bob") (some (codes "abcdefgh")) (some (codes "viewer")) 0
    ≡ (no_entry, 3)
unfolding runs
bob_made = refl

root_stays_example :
    ((auth_delete_user ℕ sys admin_name 0).1 ≡ 0)
    × (is_success (auth_delete_user ℕ sys admin_name 0).0 ≡ false)
    × ((auth_set_role ℕ sys admin_name (some (codes "viewer")) 0).1 ≡ 0)
    × (false ≡ false
        → is_success (auth_set_role ℕ sys admin_name (some (codes "viewer")) 0).0 ≡ false)
unfolding runs
root_stays_example = root_stays ℕ sys (some (codes "viewer")) 0
