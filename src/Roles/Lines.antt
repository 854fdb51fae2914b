-- ===== src/Roles/Lines.antt =====
-- What a line of the user file must say to count, in terms of its bytes.
use meraki_builder.Prelude.{
  ℕ, Bytes, List, [], ◌∷◌, ◌++◌, Option, none, some, ◌≡◌, ◌≢◌, refl, sym, ap, subst, arith, ◌==◌,
  ==_iff, if_both, bytes_eq, bytes_eq→eq, codes, All, some_inj, ◌∙◌,
}
use mathlib.Core.List.{Memᴰ}
use meraki_builder.Roles.Fields.{fields_of, cut_colon, next_colon_field, account_lines}
use meraki_builder.Roles.Account.{
  System, Account, account, unopened, account_path, whole_number, ids, user_line, scan_users,
  account_uid_for_username,
}

-- `Cut s field rest`: the field is what stands in front of the first colon of `s`, or all of `s` if
-- there is none; the rest is what stands behind that colon.
pub data Cut : Bytes → Bytes → Option Bytes → Type 0 where
  last : (s : Bytes) → All (λ (c : ℕ). c ≢ b':') s → Cut s s none
  colon :
      (field rest : Bytes)
      → All (λ (c : ℕ). c ≢ b':') field
      → Cut (field ++ b':' ∷ rest) field (some rest)

cut_more :
    (c : ℕ) (s field : Bytes) (rest : Option Bytes)
    → c ≢ b':'
    → Cut s field rest
    → Cut (c ∷ s) (c ∷ field) rest
cut_more c _ _ _ h (last s a) = last (c ∷ s) (h, a)
cut_more c _ _ _ h (colon field rest a) = colon (c ∷ field) rest (h, a)

pub cut_colon-Cut : (s : Bytes) → Cut s (cut_colon s).0 (cut_colon s).1
unfolding cut_colon
cut_colon-Cut [] = last [] tt
cut_colon-Cut (c ∷ s) =
    let more = cut_colon-Cut s in
    if_both (λ (r : Bytes × Option Bytes). Cut (c ∷ s) r.0 r.1) (c == b':') _ _
      (λ e. subst (λ (d : ℕ). Cut (d ∷ s) [] (some s)) (sym ((==_iff c b':').0 e)) (colon [] s tt))
      (λ e. cut_more c s (cut_colon s).0 (cut_colon s).1 (λ d. ground (arith, d)) more)

-- A field that was read at a cursor.
pub next-Cut :
    (o : Option Bytes) (field : Bytes)
    → (next_colon_field o).0 ≡ some field
    → (s : Bytes) × (o ≡ some s) × Cut s field (next_colon_field o).1
unfolding next_colon_field
next-Cut none field h = cc
next-Cut (some s) field h =
    (s, refl, subst (λ (f : Bytes). Cut s f (cut_colon s).1) (some_inj h) (cut_colon-Cut s))

-- A line `username:password:uid:gid`, with or without more behind it.
pub record UserLine (username line : Bytes) (uid gid : ℕ) : Type 0 where
  pub behind_name : Bytes
  pub password : Bytes
  pub behind_password : Bytes
  pub uid_text : Bytes
  pub behind_uid : Bytes
  pub gid_text : Bytes
  pub behind_gid : Option Bytes
  pub name_field : Cut line username (some behind_name)
  pub password_field : Cut behind_name password (some behind_password)
  pub uid_field : Cut behind_password uid_text (some behind_uid)
  pub gid_field : Cut behind_uid gid_text behind_gid
  pub its_uid : whole_number uid_text ≡ some uid
  pub its_gid : whole_number gid_text ≡ some gid

-- A line of the user file that gives the name these numbers.
pub record UserEntry (system : System) (username : Bytes) (uid gid : ℕ) : Type 0 where
  pub text : Bytes
  pub opened :
      system.files (account_path system (codes "POSTMERKOS_PASSWD_FILE") (codes "/etc/passwd"))
      ≡ some text
  pub line : Bytes
  pub in_file : Memᴰ line (account_lines text)
  pub says : UserLine username line uid gid

ids_lem :
    (a b : Option ℕ) (uid gid : ℕ) → ids a b ≡ account uid gid → (a ≡ some uid) × (b ≡ some gid)
ids_lem (some m) (some n) uid gid = λ e. (cc, cc)
ids_lem (some m) none uid gid = λ e. cc
ids_lem none b uid gid = λ e. cc

fields_user :
    (username name : Bytes) (password third fourth : Option Bytes) (uid gid : ℕ)
    → user_line username
        (record { name = some name; password = password; third = third; fourth = fourth })
      ≡ some (account uid gid)
    → (uid_text : Bytes) × (gid_text : Bytes) × (name ≡ username)
      × (third ≡ some uid_text)
      × (fourth ≡ some gid_text)
      × (whole_number uid_text ≡ some uid)
      × (whole_number gid_text ≡ some gid)
unfolding user_line
fields_user username name password none fourth uid gid = λ e. cc
fields_user username name password (some u) none uid gid = λ e. cc
fields_user username name password (some u) (some g) uid gid =
    if_both
      (λ (o : Option Account).
        o ≡ some (account uid gid)
        → (uid_text : Bytes) × (gid_text : Bytes) × (name ≡ username)
          × (some u ≡ some uid_text)
          × (some g ≡ some gid_text)
          × (whole_number uid_text ≡ some uid)
          × (whole_number gid_text ≡ some gid))
      (bytes_eq name username) _ _
      (λ same e.
        let (m, n) = ids_lem (whole_number u) (whole_number g) uid gid (some_inj e) in
        (u, g, bytes_eq→eq name username same, refl, refl, m, n))
      (λ _ e. cc)

-- A field that has something behind it was read at a cursor.
pub before-Cut :
    (o : Option Bytes) (rest : Bytes)
    → (next_colon_field o).1 ≡ some rest
    → (s : Bytes) × (field : Bytes) × (o ≡ some s) × Cut s field (some rest)
unfolding next_colon_field
before-Cut none rest h = cc
before-Cut (some s) rest h =
    (s, (cut_colon s).0, refl, subst (Cut s (cut_colon s).0) h (cut_colon-Cut s))

pub first-Cut :
    (line name behind : Bytes)
    → (cut_colon line).0 ≡ name
    → (cut_colon line).1 ≡ some behind
    → Cut line name (some behind)
first-Cut line name behind e f =
    subst (λ (n : Bytes). Cut line n (some behind)) e
      (subst (Cut line (cut_colon line).0) f (cut_colon-Cut line))

line_user :
    (username line : Bytes) (uid gid : ℕ)
    → user_line username (fields_of line) ≡ some (account uid gid)
    → UserLine username line uid gid
unfolding fields_of
line_user username line uid gid e =
    let c1 = (cut_colon line).1 in
    let c2 = (next_colon_field c1).1 in
    let c3 = (next_colon_field c2).1 in
    let (u, g, same, third, fourth, m, n) =
      fields_user username (cut_colon line).0 (next_colon_field c1).0 (next_colon_field c2).0
        (next_colon_field c3).0 uid gid e in
    let (s3, at3, gid_cut) = next-Cut c3 g fourth in
    let (s2, at2, uid_cut) = next-Cut c2 u third in
    let (s1, password, at1, password_cut) = before-Cut c1 s2 at2 in
    record {
      behind_name = s1;
      password = password;
      behind_password = s2;
      uid_text = u;
      behind_uid = s3;
      gid_text = g;
      behind_gid = (next_colon_field c3).1;
      name_field = first-Cut line username s1 same at1;
      password_field = password_cut;
      uid_field = subst (Cut s2 u) at3 uid_cut;
      gid_field = gid_cut;
      its_uid = m;
      its_gid = n;
    }

found_user :
    (username : Bytes) (uid gid : ℕ) (lines : List Bytes)
    → scan_users username lines ≡ account uid gid
    → (line : Bytes) × Memᴰ line lines × UserLine username line uid gid
unfolding scan_users
found_user username uid gid [] = λ h. cc
found_user username uid gid (line ∷ lines) =
    let more = found_user username uid gid lines in
    here (user_line username (fields_of line)) refl more
  where
    here :
        (o : Option Account)
        → user_line username (fields_of line) ≡ o
        → (scan_users username lines ≡ account uid gid
            → (l : Bytes) × Memᴰ l lines × UserLine username l uid gid)
        → elim o [ none ↦ scan_users username lines | some result ↦ result ] ≡ account uid gid
        → (l : Bytes) × Memᴰ l (line ∷ lines) × UserLine username l uid gid
    here none e more h = let (l, at, says) = more h in (l, Memᴰ.tail at, says)
    here (some result) e more h =
        (line, Memᴰ.head refl, line_user username line uid gid (e ∙ ap some h))

-- The numbers that are found for a name stand behind it in a line of the user file.
pub account_uid-UserEntry :
    (system : System) (username : Bytes) (uid gid : ℕ)
    → account_uid_for_username system username ≡ account uid gid
    → UserEntry system username uid gid
unfolding account_uid_for_username
account_uid-UserEntry system [] uid gid = λ h. cc
account_uid-UserEntry system (c ∷ s) uid gid =
    in_text
      (system.files (account_path system (codes "POSTMERKOS_PASSWD_FILE") (codes "/etc/passwd")))
      refl
  where
    in_text :
        (o : Option Bytes)
        → system.files (account_path system (codes "POSTMERKOS_PASSWD_FILE") (codes "/etc/passwd"))
          ≡ o
        → elim o [ none ↦ unopened | some text ↦ scan_users (c ∷ s) (account_lines text) ]
          ≡ account uid gid
        → UserEntry system (c ∷ s) uid gid
    in_text none e = λ h. cc
    in_text (some text) e = λ h.
        let (line, at, says) = found_user (c ∷ s) uid gid (account_lines text) h in
        record { text = text; opened = e; line = line; in_file = at; says = says }
