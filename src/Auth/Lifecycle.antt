-- ===== src/Auth/Lifecycle.antt =====
-- The accounts that are made and removed: every way the two operations can end.
use meraki_builder.Prelude.{
  Bytes, true, false, not, List, [], ◌∷◌, Option, none, ◌||◌, ◌≡◌, refl, if◌then◌else◌, if_both,
  bytes_eq, codes, ◌⊎◌,
}
use meraki_builder.Auth.Accounts.{account_by_name, account_exists, safe_username}
use meraki_builder.Auth.Manage.{
  Ended, exited, Commands, Answer, success, invalid_argument, no_entry, not_permitted, is_success,
  answer_of, bad_password, or_empty, input_for, admin_name,
}
use meraki_builder.Auth.Groups.{role_group, auth_set_role, is_admin_text}
use meraki_builder.Auth.Users.{auth_delete_user}
use meraki_builder.Auth.Change.{Settable}

abbrev pub adduser_line : Bytes → List Bytes
adduser_line username = codes "adduser" ∷ codes "-D" ∷ codes "-s" ∷ codes "/bin/sh" ∷ username ∷ []

abbrev pub deluser_line : Bytes → List Bytes
deluser_line username = codes "deluser" ∷ username ∷ []

module _ (World : Type 0) (sys : Commands World) where
  -- The ways an attempt to make an account ends: refused, with nothing run; stopped where adduser
  -- fails; undone by deluser; or made, with its password and its role.
  pub data Created (username : Bytes) (password role : Option Bytes) (w : World)
      : Answer × World → Type 0 where
    refused :
        (safe_username username ≡ false)
          ⊎ (account_exists (sys.system w) username ≡ true)
          ⊎ (bad_password password ≡ true)
          ⊎ (role_group role ≡ none)
        → Created username password role w (invalid_argument, w)
    not_added :
        (ended : Ended) (after : World)
        → sys.execute (adduser_line username) w ≡ (ended, after)
        → is_success (answer_of ended) ≡ false
        → Created username password role w (answer_of ended, after)
    no_password :
        (ended : Ended) (added given : World)
        → sys.execute (adduser_line username) w ≡ (exited 0, added)
        → sys.chpasswd (input_for username (or_empty password)) added ≡ (ended, given)
        → is_success (answer_of ended) ≡ false
        → Created username password role w
            (answer_of ended, (sys.execute (deluser_line username) given).1)
    no_role :
        (rc : Answer) (added given after : World)
        → sys.execute (adduser_line username) w ≡ (exited 0, added)
        → sys.chpasswd (input_for username (or_empty password)) added ≡ (exited 0, given)
        → auth_set_role World sys username role given ≡ (rc, after)
        → is_success rc ≡ false
        → Created username password role w (rc, (sys.execute (deluser_line username) after).1)
    made :
        (rc : Answer) (added given after : World)
        → is_success rc ≡ true
        → account_by_name (sys.system w) username ≡ none
        → Settable (or_empty password)
        → sys.execute (adduser_line username) w ≡ (exited 0, added)
        → sys.chpasswd (input_for username (or_empty password)) added ≡ (exited 0, given)
        → auth_set_role World sys username role given ≡ (rc, after)
        → Created username password role w (rc, after)

  -- The account root is never deleted, nor given a role that is not the administrator's: such a
  -- call fails, and no program runs.
  pub root_stays :
      (role : Option Bytes) (w : World)
      → ((auth_delete_user World sys admin_name w).1 ≡ w)
        × (is_success (auth_delete_user World sys admin_name w).0 ≡ false)
        × ((auth_set_role World sys admin_name role w).1 ≡ w)
        × (is_admin_text role ≡ false
            → is_success (auth_set_role World sys admin_name role w).0 ≡ false)
  unfolding auth_delete_user auth_set_role bytes_eq
  root_stays role w =
      let b = not (safe_username admin_name) || not (account_exists (sys.system w) admin_name) in
      let D = λ (r : Answer × World). (r.1 ≡ w) × (is_success r.0 ≡ false) in
      let S =
        λ (r : Answer × World). (r.1 ≡ w) × (is_admin_text role ≡ false → is_success r.0 ≡ false) in
      let own : Answer × World =
        if◌then◌else◌ {A = Answer × World} (is_admin_text role) (success, w) (not_permitted, w) in
      let own_role : S own =
        if_both S (is_admin_text role) (success, w) (not_permitted, w) (λ e. (refl, λ f. cc))
          (λ e. (refl, λ f. refl)) in
      let (kept, barred) =
        if_both D b (no_entry, w) (not_permitted, w) (λ t. (refl, refl)) (λ t. (refl, refl)) in
      let (same, fails) = if_both S b (no_entry, w) own (λ t. (refl, λ e. refl)) (λ t. own_role) in
      (kept, barred, same, fails)
