-- ===== src/Auth/Lines.antt =====
-- What the lines of the user file and the shadow file say of an account, in terms of their bytes.
use meraki_builder.Prelude.{
  ℕ, Bytes, not, List, [], ◌∷◌, Option, none, some, ◌≡◌, if◌then◌else◌, refl, sym, ap, ◌∙◌, leb,
  if_both, option_both, bytes_eq, bytes_eq→eq, codes, some_inj, take, length,
}
use mathlib.Core.List.{Memᴰ}
use meraki_builder.Roles.Fields.{cut_colon, next_colon_field, account_lines}
use meraki_builder.Roles.Account.{System, account_path, whole_number}
use meraki_builder.Roles.Lines.{Cut, next-Cut, first-Cut}
use meraki_builder.Auth.Accounts.{
  AccountRecord, safe_username, parsed, parse_account_line, same_name, scan_accounts,
  account_by_name, hash_field, shadow_line, scan_shadow, shadow_hash,
}

-- A line `name:password:…` of the user file; the name and the password are cut to their buffers.
pub record AccountLine (username line : Bytes) (a : AccountRecord) : Type 0 where
  pub name : Bytes
  pub behind_name : Bytes
  pub password : Bytes
  pub behind_password : Option Bytes
  pub name_field : Cut line name (some behind_name)
  pub password_field : Cut behind_name password behind_password
  pub its_name : take 64 name ≡ username
  pub account_name : a.name ≡ username
  pub account_password : a.password ≡ take 511 password

-- A line of the user file by which the name has this account.
pub record AccountEntry (system : System) (username : Bytes) (a : AccountRecord) : Type 0 where
  pub text : Bytes
  pub opened :
      system.files (account_path system (codes "POSTMERKOS_PASSWD_FILE") (codes "/etc/passwd"))
      ≡ some text
  pub line : Bytes
  pub in_file : Memᴰ line (account_lines text)
  pub says : AccountLine username line a

-- A line `username:hash…` of the shadow file.
pub record ShadowLine (username hash line : Bytes) : Type 0 where
  pub behind_name : Bytes
  pub behind_hash : Option Bytes
  pub name_field : Cut line username (some behind_name)
  pub hash_field : Cut behind_name hash behind_hash

-- A line of the shadow file by which the name has this hash.
pub record ShadowEntry (system : System) (username hash : Bytes) : Type 0 where
  pub text : Bytes
  pub opened :
      system.files (account_path system (codes "POSTMERKOS_SHADOW_FILE") (codes "/etc/shadow"))
      ≡ some text
  pub line : Bytes
  pub in_file : Memᴰ line (account_lines text)
  pub says : ShadowLine username hash line

Kept : Option Bytes → Option Bytes → AccountRecord → Type 0
Kept name password a =
    (n : Bytes) × (p : Bytes) × (name ≡ some n)
    × (password ≡ some p)
    × (a.name ≡ take 64 n)
    × (a.password ≡ take 511 p)

parsed-Kept :
    (name password uid gid home shell : Option Bytes) (a : AccountRecord)
    → parsed name password uid gid home shell ≡ some a
    → Kept name password a
unfolding Kept parse_account_line
parsed-Kept none password uid gid home shell a = λ e. cc
parsed-Kept (some n) none uid gid home shell a = λ e. cc
parsed-Kept (some n) (some p) none gid home shell a = λ e. cc
parsed-Kept (some n) (some p) (some u) none home shell a = λ e. cc
parsed-Kept (some n) (some p) (some u) (some g) none shell a = λ e. cc
parsed-Kept (some n) (some p) (some u) (some g) (some h) none a = λ e. cc
parsed-Kept (some n) (some p) (some u) (some g) (some h) (some s) a =
    let P = λ (o : Option AccountRecord). o ≡ some a → Kept (some n) (some p) a in
    option_both P (whole_number u) none _ (λ e. cc)
      (λ uid _.
        option_both P (whole_number g) none _ (λ e. cc)
          (λ gid _ e. (
            n,
            p,
            refl,
            refl,
            sym (ap (λ (r : AccountRecord). r.name) (some_inj e)),
            sym (ap (λ (r : AccountRecord). r.password) (some_inj e)),
          )))

line_account :
    (username line : Bytes) (a : AccountRecord)
    → parse_account_line line ≡ some a
    → a.name ≡ username
    → AccountLine username line a
unfolding parse_account_line Kept
line_account username line a e same =
    let c1 = (cut_colon line).1 in
    let c2 = (next_colon_field c1).1 in
    let c3 = (next_colon_field c2).1 in
    let c4 = (next_colon_field c3).1 in
    let c5 = (next_colon_field c4).1 in
    let c6 = (next_colon_field c5).1 in
    let (n, p, first, second, cut_name, cut_password) =
      parsed-Kept (some (cut_colon line).0) (next_colon_field c1).0 (next_colon_field c2).0
        (next_colon_field c3).0 (next_colon_field c5).0 (next_colon_field c6).0 a e in
    let (s1, at1, password_cut) = next-Cut c1 p second in
    record {
      name = n;
      behind_name = s1;
      password = p;
      behind_password = c2;
      name_field = first-Cut line n s1 (some_inj first) at1;
      password_field = password_cut;
      its_name = sym cut_name ∙ same;
      account_name = same;
      account_password = cut_password;
    }

same_name_lem :
    (username : Bytes) (o : Option AccountRecord) (a : AccountRecord)
    → same_name username o ≡ some a
    → (o ≡ some a) × (a.name ≡ username)
same_name_lem username none a = λ e. cc
same_name_lem username (some b) a =
    if_both (λ (o : Option AccountRecord). o ≡ some a → (some b ≡ some a) × (a.name ≡ username))
      (bytes_eq b.name username) _ _
      (λ same e. (
        e,
        ap (λ (r : AccountRecord). r.name) (sym (some_inj e)) ∙ bytes_eq→eq b.name username same,
      ))
      (λ _ e. cc)

found_account :
    (username : Bytes) (a : AccountRecord) (lines : List Bytes)
    → scan_accounts username lines ≡ some a
    → (line : Bytes) × Memᴰ line lines × AccountLine username line a
unfolding scan_accounts
found_account username a [] = λ h. cc
found_account username a (line ∷ lines) =
    here (same_name username (parse_account_line line)) refl (found_account username a lines)
  where
    here :
        (o : Option AccountRecord)
        → same_name username (parse_account_line line) ≡ o
        → (scan_accounts username lines ≡ some a
            → (l : Bytes) × Memᴰ l lines × AccountLine username l a)
        → elim o [ none ↦ scan_accounts username lines | some found ↦ some found ] ≡ some a
        → (l : Bytes) × Memᴰ l (line ∷ lines) × AccountLine username l a
    here none e more h = let (l, at, says) = more h in (l, Memᴰ.tail at, says)
    here (some found) e more h =
        let (read, same) = same_name_lem username (parse_account_line line) a (e ∙ h) in
        (line, Memᴰ.head refl, line_account username line a read same)

-- An account that is found for a name stands in a line of the user file.
pub account_by_name-AccountEntry :
    (system : System) (username : Bytes) (a : AccountRecord)
    → account_by_name system username ≡ some a
    → AccountEntry system username a
unfolding account_by_name
account_by_name-AccountEntry system username a =
    let path = account_path system (codes "POSTMERKOS_PASSWD_FILE") (codes "/etc/passwd") in
    if_both (λ (o : Option AccountRecord). o ≡ some a → AccountEntry system username a)
      (not (safe_username username)) _ _ (λ _ e. cc)
      (λ _.
        option_both (λ (o : Option AccountRecord). o ≡ some a → AccountEntry system username a)
          (system.files path) none _ (λ e. cc)
          (λ text opened e.
            let (line, at, says) = found_account username a (account_lines text) e in
            record { text = text; opened = opened; line = line; in_file = at; says = says }))

line_shadow :
    (username hash line : Bytes)
    → shadow_line username line ≡ some hash
    → ShadowLine username hash line
unfolding shadow_line
line_shadow username hash line = let c1 = (cut_colon line).1 in second (next_colon_field c1).0 refl
  where
    second :
        (o : Option Bytes)
        → (next_colon_field (cut_colon line).1).0 ≡ o
        → hash_field username (some (cut_colon line).0) o ≡ some hash
        → ShadowLine username hash line
    second none at = λ e. cc
    second (some p) at =
        if_both (λ (o : Option Bytes). o ≡ some hash → ShadowLine username hash line)
          (bytes_eq (cut_colon line).0 username) _ _
          (λ same e.
            let (s1, there, hash_cut) = next-Cut (cut_colon line).1 hash (at ∙ e) in
            record {
              behind_name = s1;
              behind_hash = (next_colon_field (cut_colon line).1).1;
              name_field = first-Cut line username s1 (bytes_eq→eq _ username same) there;
              hash_field = hash_cut;
            })
          (λ _ e. cc)

found_shadow :
    (username hash : Bytes) (size : ℕ) (lines : List Bytes)
    → scan_shadow username size lines ≡ some hash
    → (line : Bytes) × Memᴰ line lines × ShadowLine username hash line
unfolding scan_shadow
found_shadow username hash size [] = λ h. cc
found_shadow username hash size (line ∷ lines) =
    here (shadow_line username line) refl (found_shadow username hash size lines)
  where
    here :
        (o : Option Bytes)
        → shadow_line username line ≡ o
        → (scan_shadow username size lines ≡ some hash
            → (l : Bytes) × Memᴰ l lines × ShadowLine username hash l)
        → elim o [
          | none ↦ scan_shadow username size lines
          | some password ↦ if leb size (length password) then none else some password
        ]
          ≡ some hash
        → (l : Bytes) × Memᴰ l (line ∷ lines) × ShadowLine username hash l
    here none e more = λ h. let (l, at, says) = more h in (l, Memᴰ.tail at, says)
    here (some p) e more =
        if_both
          (λ (o : Option Bytes).
            o ≡ some hash → (l : Bytes) × Memᴰ l (line ∷ lines) × ShadowLine username hash l)
          (leb size (length p)) _ _ (λ _ h. cc)
          (λ _ h. (line, Memᴰ.head refl, line_shadow username hash line (e ∙ h)))

-- A hash that is found for a name stands behind it in a line of the shadow file.
pub shadow_hash-ShadowEntry :
    (system : System) (username hash : Bytes) (size : ℕ)
    → shadow_hash system username size ≡ some hash
    → ShadowEntry system username hash
unfolding shadow_hash
shadow_hash-ShadowEntry system username hash size =
    let path = account_path system (codes "POSTMERKOS_SHADOW_FILE") (codes "/etc/shadow") in
    option_both (λ (o : Option Bytes). o ≡ some hash → ShadowEntry system username hash)
      (system.files path) none _ (λ e. cc)
      (λ text opened e.
        let (line, at, says) = found_shadow username hash size (account_lines text) e in
        record { text = text; opened = opened; line = line; in_file = at; says = says })
