-- ===== src/Roles/Grant.antt =====
-- Where a capability comes from: an account on file that is the super-user's or is in a group.
use meraki_builder.Prelude.{ℕ, Bytes, true, [], ◌∷◌, ◌≡◌, ◌≢◌, refl, subst, arith, ◌==◌, if_both}
use meraki_builder.Roles.Account.{
  Role, role_none, role_viewer, role_operator, role_admin, System, Account, account, invalid,
  missing, unopened, role_of_account, role_for_username, account_uid_for_username, group_contains,
  admin_group, operator_group, viewer_group,
}
use meraki_builder.Roles.Lines.{UserEntry, account_uid-UserEntry}
use meraki_builder.Roles.GroupLines.{GroupEntry, group_contains-GroupEntry}
use meraki_builder.Roles.Capability.{role_has_capability, capabilities, listed_cap}

-- What stands behind a role: the number of the super-user, or a line of the group file.
pub data Stands (system : System) (username : Bytes) (uid gid : ℕ) : Role → Type 0 where
  super_user : uid ≡ 0 → Stands system username uid gid role_admin
  in_admin : GroupEntry system username gid admin_group → Stands system username uid gid role_admin
  in_operator :
      GroupEntry system username gid operator_group → Stands system username uid gid role_operator
  in_viewer :
      GroupEntry system username gid viewer_group → Stands system username uid gid role_viewer

pub record Granted (system : System) (username : Bytes) (role : Role) : Type 0 where
  pub uid : ℕ
  pub gid : ℕ
  pub on_file : UserEntry system username uid gid
  pub stands : Stands system username uid gid role

Supported : System → Bytes → Account → Role → Type 0
Supported system username a role =
    role ≢ role_none
    → (uid : ℕ) × (gid : ℕ) × (a ≡ account uid gid) × Stands system username uid gid role

role_of_account_lem :
    (system : System) (username : Bytes) (a : Account)
    → Supported system username a (role_of_account system username a)
unfolding role_of_account Supported
role_of_account_lem system username (account uid gid) =
    let P = λ (r : Role).
      r ≢ role_none
      → (u : ℕ) × (g : ℕ) × (account uid gid ≡ account u g) × Stands system username u g r in
    if_both P (uid == 0) _ _ (λ e _. (uid, gid, refl, super_user (ground arith)))
      (λ _.
        if_both P (group_contains system username gid admin_group) _ _
          (λ e _. (
            uid,
            gid,
            refl,
            in_admin (group_contains-GroupEntry system username gid admin_group e),
          ))
          (λ _.
            if_both P (group_contains system username gid operator_group) _ _
              (λ e _. (
                uid,
                gid,
                refl,
                in_operator (group_contains-GroupEntry system username gid operator_group e),
              ))
              (λ _.
                if_both P (group_contains system username gid viewer_group) _ _
                  (λ e _. (
                    uid,
                    gid,
                    refl,
                    in_viewer (group_contains-GroupEntry system username gid viewer_group e),
                  ))
                  (λ _ h. absurd (h refl)))))
role_of_account_lem system username invalid = λ h. absurd (h refl)
role_of_account_lem system username missing = λ h. absurd (h refl)
role_of_account_lem system username unopened = λ h. absurd (h refl)

role_for_username-Granted :
    (system : System) (username : Bytes)
    → role_for_username system username ≢ role_none
    → Granted system username (role_for_username system username)
unfolding role_for_username Supported
role_for_username-Granted system [] h = absurd (h refl)
role_for_username-Granted system (c ∷ s) h =
    let (uid, gid, e, p) =
      role_of_account_lem system (c ∷ s) (account_uid_for_username system (c ∷ s)) h in
    record {
      uid = uid;
      gid = gid;
      on_file = account_uid-UserEntry system (c ∷ s) uid gid e;
      stands = p;
    }

no_capability : (capability : Bytes) → listed_cap capability (capabilities role_none) ≡ true → ⊥
unfolding listed_cap capabilities
no_capability capability h = cc

-- The role of a user name has a capability only if a line of the user file begins with the name and
-- a colon and has the account's two numbers in its third and fourth fields, and the first of them
-- is 0, or a line of the group file begins with the name of the role's group and has the account's
-- second number in its third field or the user name among the members in its fourth.
pub capability-Granted :
    (system : System) (username capability : Bytes)
    → role_has_capability (role_for_username system username) capability ≡ true
    → Granted system username (role_for_username system username)
unfolding role_has_capability
capability-Granted system username capability h = role_for_username-Granted system username (λ e.
    no_capability capability
      (subst (λ (r : Role). listed_cap capability (capabilities r) ≡ true) e h))
