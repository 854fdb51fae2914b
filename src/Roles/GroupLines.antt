-- ===== src/Roles/GroupLines.antt =====
-- What a line of the group file must say to count, in terms of its bytes.
use meraki_builder.Prelude.{
  ℕ, Bytes, Bool, true, false, List, [], ◌∷◌, Option, none, some, ◌≡◌, ◌⊎◌, inl, inr, refl, ap,
  arith, ==_iff, if_both, bytes_eq, bytes_eq→eq, codes, some_inj, ◌∙◌, Bool-cases,
}
use mathlib.Core.List.{Memᴰ}
use meraki_builder.Roles.Fields.{fields_of, cut_colon, next_colon_field, account_lines}
use meraki_builder.Roles.Lines.{Cut, cut_colon-Cut, next-Cut, before-Cut, first-Cut}
use meraki_builder.Roles.Account.{
  System, account_path, whole_number, same_number, listed, member_list_contains, group_line,
  scan_groups, group_contains,
}

-- A line `group_name:password:gid:members`, whose number is the primary group or whose members
-- have the name.
pub record GroupLine (username : Bytes) (primary_gid : ℕ) (group_name line : Bytes) : Type 0 where
  pub behind_name : Bytes
  pub password : Bytes
  pub behind_password : Bytes
  pub gid_text : Bytes
  pub behind_gid : Option Bytes
  pub name_field : Cut line group_name (some behind_name)
  pub password_field : Cut behind_name password (some behind_password)
  pub gid_field : Cut behind_password gid_text behind_gid
  pub counts :
      (whole_number gid_text ≡ some primary_gid)
      ⊎ ((s : Bytes) × (members : Bytes) × (rest : Option Bytes) × (behind_gid ≡ some s)
          × Cut s members rest
          × (member_list_contains members username ≡ true))

-- A line of the group file by which the name is in the group.
pub record GroupEntry (system : System) (username : Bytes) (primary_gid : ℕ) (group_name : Bytes)
    : Type 0 where
  pub text : Bytes
  pub opened :
      system.files (account_path system (codes "POSTMERKOS_GROUP_FILE") (codes "/etc/group"))
      ≡ some text
  pub line : Bytes
  pub in_file : Memᴰ line (account_lines text)
  pub says : GroupLine username primary_gid group_name line

numbered : (o : Option ℕ) (n : ℕ) → same_number o n ≡ true → o ≡ some n
numbered none n = λ e. cc
numbered (some m) n = λ e. ap some ((==_iff m n).0 e)

member_field :
    (o : Option Bytes) (username : Bytes)
    → listed (next_colon_field o).0 username ≡ true
    → (s : Bytes) × (members : Bytes) × (rest : Option Bytes) × (o ≡ some s)
      × Cut s members rest
      × (member_list_contains members username ≡ true)
unfolding next_colon_field member_list_contains
member_field none username = λ e. cc
member_field (some s) username =
    λ e. (s, (cut_colon s).0, (cut_colon s).1, refl, cut_colon-Cut s, e)

fields_group :
    (username : Bytes) (gid : ℕ) (group_name name : Bytes) (password third fourth : Option Bytes)
    → group_line username gid group_name
        (record { name = some name; password = password; third = third; fourth = fourth })
      ≡ some true
    → (gid_text : Bytes) × (name ≡ group_name)
      × (third ≡ some gid_text)
      × ((whole_number gid_text ≡ some gid) ⊎ (listed fourth username ≡ true))
unfolding group_line
fields_group username gid group_name name password none fourth = λ e. cc
fields_group username gid group_name name password (some g) fourth =
    if_both
      (λ (o : Option Bool).
        o ≡ some true
        → (gid_text : Bytes) × (name ≡ group_name)
          × (some g ≡ some gid_text)
          × ((whole_number gid_text ≡ some gid) ⊎ (listed fourth username ≡ true)))
      (bytes_eq name group_name) _ _
      (λ same e. (
        g,
        bytes_eq→eq name group_name same,
        refl,
        elim (Bool-cases (same_number (whole_number g) gid)) [
          | inl its ↦ inl (numbered (whole_number g) gid its)
          | inr differs ↦ inr (ground (arith, some_inj e))
        ],
      ))
      (λ _ e. cc)

line_group :
    (username : Bytes) (gid : ℕ) (group_name line : Bytes)
    → group_line username gid group_name (fields_of line) ≡ some true
    → GroupLine username gid group_name line
unfolding fields_of
line_group username gid group_name line e =
    let c1 = (cut_colon line).1 in
    let c2 = (next_colon_field c1).1 in
    let c3 = (next_colon_field c2).1 in
    let (g, same, third, counts) =
      fields_group username gid group_name (cut_colon line).0 (next_colon_field c1).0
        (next_colon_field c2).0 (next_colon_field c3).0 e in
    let (s2, at2, gid_cut) = next-Cut c2 g third in
    let (s1, password, at1, password_cut) = before-Cut c1 s2 at2 in
    record {
      behind_name = s1;
      password = password;
      behind_password = s2;
      gid_text = g;
      behind_gid = c3;
      name_field = first-Cut line group_name s1 same at1;
      password_field = password_cut;
      gid_field = gid_cut;
      counts = elim counts [
        | inl own ↦ inl own
        | inr member ↦ inr (member_field c3 username member)
      ];
    }

found_group :
    (username : Bytes) (gid : ℕ) (group_name : Bytes) (lines : List Bytes)
    → scan_groups username gid group_name lines ≡ true
    → (line : Bytes) × Memᴰ line lines × GroupLine username gid group_name line
unfolding scan_groups
found_group username gid group_name [] = λ h. cc
found_group username gid group_name (line ∷ lines) =
    let more = found_group username gid group_name lines in
    here (group_line username gid group_name (fields_of line)) refl more
  where
    here :
        (o : Option Bool)
        → group_line username gid group_name (fields_of line) ≡ o
        → (scan_groups username gid group_name lines ≡ true
            → (l : Bytes) × Memᴰ l lines × GroupLine username gid group_name l)
        → elim o [ none ↦ scan_groups username gid group_name lines | some found ↦ found ] ≡ true
        → (l : Bytes) × Memᴰ l (line ∷ lines) × GroupLine username gid group_name l
    here none e more h = let (l, at, says) = more h in (l, Memᴰ.tail at, says)
    here (some found) e more h =
        (line, Memᴰ.head refl, line_group username gid group_name line (e ∙ ap some h))

-- A name that is found in a group is there by a line of the group file.
pub group_contains-GroupEntry :
    (system : System) (username : Bytes) (gid : ℕ) (group_name : Bytes)
    → group_contains system username gid group_name ≡ true
    → GroupEntry system username gid group_name
unfolding group_contains
group_contains-GroupEntry system username gid group_name =
    in_text
      (system.files (account_path system (codes "POSTMERKOS_GROUP_FILE") (codes "/etc/group"))) refl
  where
    in_text :
        (o : Option Bytes)
        → system.files (account_path system (codes "POSTMERKOS_GROUP_FILE") (codes "/etc/group"))
          ≡ o
        → elim o [
          | none ↦ false
          | some text ↦ scan_groups username gid group_name (account_lines text)
        ]
          ≡ true
        → GroupEntry system username gid group_name
    in_text none e = λ h. cc
    in_text (some text) e = λ h.
        let (line, at, says) = found_group username gid group_name (account_lines text) h in
        record { text = text; opened = e; line = line; in_file = at; says = says }
