-- ===== src/Auth/Proof.antt =====
-- What a verified password proves.
use meraki_builder.Prelude.{
  ℕ, [], ◌∷◌, ◌==◌, neither, arith, Bytes, false, not, Option, none, some, ◌≡◌, ◌≢◌, refl, ap,
  if_both, ◌&&◌, sym, ◌∙◌, some_inj, take, codes, bytes_eq, ne_of_bytes_eq,
}
use meraki_builder.Roles.Account.{System, Role, role_none, role_for_username}
use meraki_builder.Auth.Accounts.{
  AccountRecord, account_by_name, safe_username, is_empty, shadow_hash,
}
use meraki_builder.Auth.Lines.{
  AccountEntry, ShadowEntry, account_by_name-AccountEntry, shadow_hash-ShadowEntry,
}
use meraki_builder.Auth.Verify.{
  Verdict, verified, auth_verify_user, check_account, check_hash, compare_hash, hash_of, is_none,
  is_locked,
}
use meraki_builder.Auth.Equal.{constant_time_equal_iff}

-- A hash with a first byte, which is not one of the two marks.
pub record Unlocked (hash : Bytes) : Type 0 where
  pub first : ℕ
  pub others : Bytes
  pub spelled : hash ≡ first ∷ others
  pub no_bang : first ≢ b'!'
  pub no_star : first ≢ b'*'

other : (c d : ℕ) → (c == d) ≡ false → c ≡ d → ⊥
other c d e h = ground (arith, h)

is_locked-Unlocked : (hash : Bytes) → is_locked hash ≡ false → Unlocked hash
is_locked-Unlocked [] e = cc
is_locked-Unlocked (c ∷ hash) e =
    let (bang, star) = neither (c == b'!') (c == b'*') e in
    record {
      first = c;
      others = hash;
      spelled = refl;
      no_bang = λ h. other c b'!' bang h;
      no_star = λ h. other c b'*' star h;
    }

-- Where a hash comes from: the password field of the account, unless it is empty or one of the two
-- marks for a hash that is kept elsewhere; or the second field of the name's shadow line.
pub data Source (system : System) (username : Bytes) (account : AccountRecord) (hash : Bytes)
    : Type 0 where
  in_account :
      account.password ≢ []
      → account.password ≢ codes "x"
      → account.password ≢ codes "*"
      → hash ≡ take 511 account.password
      → Source system username account hash
  in_shadow : ShadowEntry system username hash → Source system username account hash

full : (s : Bytes) → is_empty s ≡ false → s ≢ []
full [] h e = cc
full (c ∷ s) h e = cc

hash_of-Source :
    (system : System) (username hash : Bytes) (account : AccountRecord)
    → account.name ≡ username
    → hash_of system account ≡ some hash
    → Source system username account hash
unfolding hash_of
hash_of-Source system username hash account same =
    let s = account.password in
    let x = codes "x" in
    let star = codes "*" in
    if_both (λ (o : Option Bytes). o ≡ some hash → Source system username account hash)
      (not (is_empty s) && not (bytes_eq s x) && not (bytes_eq s star)) _ _
      (λ t e.
        in_account (full s (ground arith)) (ne_of_bytes_eq s x (ground arith))
          (ne_of_bytes_eq s star (ground arith)) (sym (some_inj e)))
      (λ _ e. in_shadow (
        shadow_hash-ShadowEntry system username hash 512
          (ap (λ (n : Bytes). shadow_hash system n 512) (sym same) ∙ e)))

-- The password is the one of an account on file that has a role and is not locked.
pub record Proved (crypt : Bytes → Bytes → Option Bytes) (system : System)
    (username password : Bytes) : Type 0 where
  pub account : AccountRecord
  pub hash : Bytes
  pub on_file : AccountEntry system username account
  pub authorized : role_for_username system username ≢ role_none
  pub source : Source system username account hash
  pub unlocked : Unlocked hash
  pub computed : crypt password hash ≡ some hash

compare_hash_lem :
    (hash : Bytes) (o : Option Bytes) → compare_hash hash o ≡ verified → o ≡ some hash
unfolding compare_hash
compare_hash_lem hash none = λ e. cc
compare_hash_lem hash (some c) =
    if_both (λ (v : Verdict). v ≡ verified → some c ≡ some hash) _ _ _
      (λ t e. ap some ((constant_time_equal_iff c hash).0 t)) (λ t e. cc)

check_hash_lem :
    (crypt : Bytes → Bytes → Option Bytes) (password : Bytes) (o : Option Bytes)
    → check_hash crypt password o ≡ verified
    → (hash : Bytes) × (o ≡ some hash)
      × (is_locked hash ≡ false)
      × (crypt password hash ≡ some hash)
unfolding check_hash
check_hash_lem crypt password none = λ e. cc
check_hash_lem crypt password (some h) =
    let Q =
      (hash : Bytes) × (some h ≡ some hash)
      × (is_locked hash ≡ false)
      × (crypt password hash ≡ some hash) in
    if_both (λ (v : Verdict). v ≡ verified → Q) (is_locked h) _ _ (λ t e. cc)
      (λ t e. (h, refl, t, compare_hash_lem h (crypt password h) e))

pub has_role : (r : Role) → is_none r ≡ false → r ≢ role_none
has_role r h e = cc

check_account_lem :
    (crypt : Bytes → Bytes → Option Bytes) (system : System) (username password : Bytes)
    (o : Option AccountRecord)
    → account_by_name system username ≡ o
    → check_account crypt system username password o ≡ verified
    → Proved crypt system username password
unfolding check_account
check_account_lem crypt system username password none f = λ e. cc
check_account_lem crypt system username password (some a) f =
    if_both (λ (v : Verdict). v ≡ verified → Proved crypt system username password)
      (is_none (role_for_username system username)) _ _ (λ t e. cc)
      (λ t e.
        let (hash, its, free, same) = check_hash_lem crypt password (hash_of system a) e in
        let entry = account_by_name-AccountEntry system username a f in
        record {
          account = a;
          hash = hash;
          on_file = entry;
          authorized = has_role (role_for_username system username) t;
          source = hash_of-Source system username hash a entry.says.account_name its;
          unlocked = is_locked-Unlocked hash free;
          computed = same;
        })

-- A password is accepted only if a line of the user file begins with the user name, the name has a
-- role, a hash stands in the second field of that line or, else, in the second field of a line of
-- the shadow file that begins with the user name and a colon, this hash is neither empty nor marked
-- as locked by `!` or `*`, and the C library computes just this hash from the password. A name in
-- the user file counts by its first 64 bytes, a hash there by its first 511.
pub verified-Proved :
    (crypt : Bytes → Bytes → Option Bytes) (system : System) (username password : Bytes)
    → auth_verify_user crypt system username (some password) ≡ verified
    → Proved crypt system username password
unfolding auth_verify_user
verified-Proved crypt system username password =
    if_both (λ (v : Verdict). v ≡ verified → Proved crypt system username password)
      (not (safe_username username)) _ _ (λ t e. cc)
      (λ t e.
        check_account_lem crypt system username password (account_by_name system username) refl e)
