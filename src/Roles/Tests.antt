-- ===== src/Roles/Tests.antt =====
-- A small user file and group file.
use meraki_builder.Prelude.{
  Bytes, Bool, true, [], ◌∷◌, ◌++◌, none, some, ◌≡◌, refl, if◌then◌else◌, bytes_eq, codes, arith,
  ◌↔◌,
}
use mathlib.Core.List.{Memᴰ}
use meraki_builder.Libc.{strtoul, tokens, trim_newline, c_string}
use meraki_builder.Roles.Fields.{fgets_lines, fields_of}
use meraki_builder.Roles.Account.{
  System, role_operator, role_viewer, role_for_username, member_list_contains,
}
use meraki_builder.Roles.Capability.{role_has_capability}
use meraki_builder.Roles.Grant.{Granted, capability-Granted}
use meraki_builder.Roles.Members.{IsName, join, member_list_contains-join}

abbrev newline : Bytes
newline = 10 ∷ []

abbrev passwd : Bytes
passwd = codes "root:x:0:0:root:/:/bin/sh" ++ newline ++ codes "ann:x:7:9::/:/bin/sh" ++ newline

abbrev group : Bytes
group = codes "postmerkos-operator:x:5:bob,ann" ++ newline

abbrev system : System
system = record {
  getenv = λ name. none;
  files = λ path. if bytes_eq path (codes "/etc/passwd") then some passwd else some group;
}

abbrev runs : Bool
unfolding role_for_username bytes_eq strtoul tokens trim_newline c_string fgets_lines fields_of
    role_has_capability
runs = true

ann_operator : role_for_username system (codes "ann") ≡ role_operator
unfolding runs
ann_operator = refl

ann_reboots :
    role_has_capability (role_for_username system (codes "ann")) (codes "system.reboot") ≡ true
unfolding runs
ann_reboots = refl

capability-Granted_example : Granted system (codes "ann") (role_for_username system (codes "ann"))
capability-Granted_example =
    capability-Granted system (codes "ann") (codes "system.reboot") ann_reboots

viewer_reads : role_has_capability role_viewer (codes "config.read") ≡ true
unfolding runs
viewer_reads = refl

bob-IsName : IsName (codes "bob")
bob-IsName = record {
  first = b'b';
  others = codes "ob";
  spelled = refl;
  plain = (λ e. cc, (λ e. cc, (λ e. cc, tt)));
}

member_list_contains-join_example :
    (member_list_contains (codes "bob,bob") (codes "bob") ≡ true)
    ↔ Memᴰ (codes "bob") (codes "bob" ∷ codes "bob" ∷ [])
unfolding join
member_list_contains-join_example =
    member_list_contains-join (codes "bob" ∷ codes "bob" ∷ []) (codes "bob")
      (bob-IsName, (bob-IsName, tt)) (omega arith)
