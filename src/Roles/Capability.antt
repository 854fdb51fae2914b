-- ===== src/Roles/Capability.antt =====
-- The capabilities of a role.
use meraki_builder.Prelude.{
  Bytes, Bool, true, false, List, [], ◌∷◌, ◌++◌, ◌≡◌, arith, if◌then◌else◌, bytes_eq, codes,
}
use meraki_builder.Roles.Account.{Role, role_none, role_viewer, role_operator, role_admin}

abbrev pub viewer_caps : List Bytes
viewer_caps = codes "status.read" ∷ codes "config.read" ∷ codes "firmware.history.read" ∷ []

abbrev pub operator_caps : List Bytes
operator_caps =
    codes "status.read"
    ∷ codes "config.read"
    ∷ codes "firmware.history.read"
    ∷ codes "ports.write"
    ∷ codes "switching.write"
    ∷ codes "backup.create"
    ∷ codes "system.reboot"
    ∷ []

abbrev pub admin_caps : List Bytes
admin_caps =
    codes "status.read"
    ∷ codes "config.read"
    ∷ codes "firmware.history.read"
    ∷ codes "ports.write"
    ∷ codes "switching.write"
    ∷ codes "backup.create"
    ∷ codes "system.reboot"
    ∷ codes "system.poweroff"
    ∷ codes "firmware.update"
    ∷ codes "config.restore"
    ∷ codes "network.write"
    ∷ codes "users.manage"
    ∷ codes "services.manage"
    ∷ codes "terminal.exec"
    ∷ codes "system.factory_reset"
    ∷ []

unfoldable pub capabilities : Role → List Bytes
capabilities role_admin = admin_caps
capabilities role_operator = operator_caps
capabilities role_viewer = viewer_caps
capabilities role_none = []

unfoldable pub listed_cap : Bytes → List Bytes → Bool
listed_cap capability [] = false
listed_cap capability (c ∷ cs) =
    let rest = listed_cap capability cs in if bytes_eq c capability then true else rest

unfoldable pub role_has_capability : Role → Bytes → Bool
unfolding capabilities listed_cap
role_has_capability role capability = listed_cap capability (capabilities role)

unfoldable pub role_name : Role → Bytes
role_name role_admin = codes "administrator"
role_name role_operator = codes "operator"
role_name role_viewer = codes "viewer"
role_name role_none = codes "none"

listed_cap-append :
    (capability : Bytes) (xs ys : List Bytes)
    → listed_cap capability xs ≡ true
    → listed_cap capability (xs ++ ys) ≡ true
unfolding listed_cap
listed_cap-append capability [] ys h = cc
listed_cap-append capability (x ∷ xs) ys h = ground (arith, listed_cap-append capability xs ys)

-- The order of the roles, from none to administrator.
pub data Within : Role → Role → Type 0 where
  none_viewer : Within role_none role_viewer
  viewer_operator : Within role_viewer role_operator
  operator_admin : Within role_operator role_admin
  same_role : (r : Role) → Within r r
  over : (a b c : Role) → Within a b → Within b c → Within a c

-- A role has every capability of the roles below it.
pub role_has_capability_grows :
    (a b : Role) (capability : Bytes)
    → Within a b
    → role_has_capability a capability ≡ true
    → role_has_capability b capability ≡ true
unfolding role_has_capability
role_has_capability_grows _ _ capability none_viewer h = cc
role_has_capability_grows _ _ capability viewer_operator h =
    listed_cap-append capability viewer_caps
      (codes "ports.write"
        ∷ codes "switching.write"
        ∷ codes "backup.create"
        ∷ codes "system.reboot"
        ∷ [])
      h
role_has_capability_grows _ _ capability operator_admin h =
    listed_cap-append capability operator_caps
      (codes "system.poweroff"
        ∷ codes "firmware.update"
        ∷ codes "config.restore"
        ∷ codes "network.write"
        ∷ codes "users.manage"
        ∷ codes "services.manage"
        ∷ codes "terminal.exec"
        ∷ codes "system.factory_reset"
        ∷ [])
      h
role_has_capability_grows _ _ capability (same_role r) h = h
role_has_capability_grows _ _ capability (over a b c p q) h =
    role_has_capability_grows b c capability q (role_has_capability_grows a b capability p h)
