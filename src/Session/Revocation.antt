-- ===== src/Session/Revocation.antt =====
-- What the table holds after a revocation, and what a lookup that succeeds has found.
use meraki_builder.Prelude.{
  ℕ, suc, ◌-◌, ◌<◌, Bytes, Bool, true, false, not, [], ◌∷◌, Option, none, some, ◌==◌, ◌≡◌, ◌≢◌,
  refl, sym, ap, subst, ◌∙◌, leb, ◌&&◌, length, take, map, get_elem?, bytes_eq, bytes_eq_iff, arith,
  All, elim_both, if_both, &&-split, some_inj,
}
use meraki_builder.Session.Table.{
  Entry, Table, is_set, clear_if, purge_expired, ct_equal, find, copied, session_lookup,
  session_revoke_token, session_revoke_user,
}
use meraki_builder.Session.Compare.{ct_equal_iff}

-- No live entry has the token.
abbrev pub NoToken : Bytes → Table → Type 0
NoToken token table = All (λ (e : Entry). (is_set e.token && ct_equal e.token token) ≡ false) table

cleared :
    (token : Bytes) (b : Bool) (e : Entry)
    → (is_set e.token && ct_equal e.token token) ≡ b
    → (is_set (clear_if b e).token && ct_equal (clear_if b e).token token) ≡ false
cleared token true e h = refl
cleared token false e h = h

pub purged-one :
    (token : Bytes) (b : Bool) (e : Entry)
    → (is_set e.token && ct_equal e.token token) ≡ false
    → (is_set (clear_if b e).token && ct_equal (clear_if b e).token token) ≡ false
purged-one token true e h = refl
purged-one token false e h = h

clear-NoToken :
    (token : Bytes) (table : Table)
    → NoToken token
        (map (λ (e : Entry). clear_if (is_set e.token && ct_equal e.token token) e) table)
clear-NoToken token [] = tt
clear-NoToken token (e ∷ table) = (cleared token _ e refl, clear-NoToken token table)

pub purge-NoToken :
    (token : Bytes) (now : ℕ) (table : Table)
    → NoToken token table
    → NoToken token (purge_expired now table)
unfolding purge_expired
purge-NoToken token now [] h = tt
purge-NoToken token now (e ∷ table) (h, rest) =
    (purged-one token _ e h, purge-NoToken token now table rest)

find-NoToken : (token : Bytes) (table : Table) → NoToken token table → find token table ≡ none
unfolding find
find-NoToken token [] h = refl
find-NoToken token (e ∷ table) (h, rest) = rw (h, find) (find-NoToken token table rest)

lookup-NoToken :
    (token : Bytes) (now n : ℕ) (table : Table)
    → NoToken token table
    → (session_lookup token now n table).1 ≡ none
unfolding session_lookup
lookup-NoToken token now n table h =
    if_both (λ (r : Table × Option Bytes). r.1 ≡ none) (not (length token == 64)) _ _ (λ _. refl)
      (λ _.
        ap (copied n)
          (find-NoToken token (purge_expired now table) (purge-NoToken token now table h)))

-- A token that was revoked is never found again in the table, at any time.
pub revoke_token-lookup :
    (token : Bytes) (now n : ℕ) (table : Table)
    → (session_lookup token now n (session_revoke_token token table)).1 ≡ none
unfolding session_revoke_token session_lookup
revoke_token-lookup [] now n table = refl
revoke_token-lookup (c ∷ token) now n table =
    lookup-NoToken (c ∷ token) now n _ (clear-NoToken (c ∷ token) table)

both_not : (a b : Bool) → a ≡ true → b ≡ true → (a && b) ≡ false → ⊥
both_not a b h k e = ground arith

user_cleared :
    (username : Bytes) (b : Bool) (e : Entry)
    → (is_set e.token && bytes_eq e.username username) ≡ b
    → is_set (clear_if b e).token ≡ true
    → (clear_if b e).username ≢ username
user_cleared username true e h live same = cc
user_cleared username false e h live same =
    both_not (is_set e.token) (bytes_eq e.username username) live
      ((bytes_eq_iff e.username username).1 same) h

clear-AllUsers :
    (username : Bytes) (table : Table)
    → All
        (λ (e : Entry). is_set e.token ≡ true → e.username ≢ username)
        (map (λ (e : Entry). clear_if (is_set e.token && bytes_eq e.username username) e) table)
clear-AllUsers username [] = tt
clear-AllUsers username (e ∷ table) =
    (user_cleared username _ e refl, clear-AllUsers username table)

-- After the sessions of a user are revoked, no slot in use is the user's.
pub revoke_user-All :
    (username : Bytes) (table : Table)
    → username ≢ []
    → All
        (λ (e : Entry). is_set e.token ≡ true → e.username ≢ username)
        (session_revoke_user username table)
unfolding session_revoke_user
revoke_user-All [] table h = absurd (h refl)
revoke_user-All (c ∷ username) table h = clear-AllUsers (c ∷ username) table

-- A slot of the table with the token, which has not expired.
pub record Live (token : Bytes) (now : ℕ) (table : Table) (found : Entry) : Type 0 where
  pub index : ℕ
  pub there : get_elem? table index ≡ some found
  pub same_token : found.token ≡ token
  pub in_time : now < found.expires_at

later :
    (token : Bytes) (now : ℕ) (e found : Entry) (table : Table)
    → Live token now table found
    → Live token now (e ∷ table) found
later token now e found table v = record {
  index = suc v.index;
  there = v.there;
  same_token = v.same_token;
  in_time = v.in_time;
}

-- Whatever is found in the rest, or here if the test of `find` succeeds.
record Finds (token : Bytes) (now : ℕ) (table : Table) (o : Option Entry) : Type 0 where
  finds : (found : Entry) → o ≡ some found → Live token now table found

unexpired : (s : Bool) (now expires : ℕ) → (s && leb expires now) ≡ false → s ≡ true → now < expires
unexpired s now expires h k = ground arith

here :
    (token : Bytes) (now : ℕ) (b : Bool) (e found : Entry) (table : Table)
    → (is_set e.token && leb e.expires_at now) ≡ b
    → (is_set (clear_if b e).token && ct_equal (clear_if b e).token token) ≡ true
    → some (clear_if b e) ≡ some found
    → Live token now (e ∷ table) found
here token now true e found table h t s = cc
here token now false e found table h t s =
    let (live, same) = &&-split (is_set e.token) (ct_equal e.token token) t in
    record {
      index = 0;
      there = s;
      same_token =
          ap (λ (x : Entry). x.token) (sym (some_inj s)) ∙ (ct_equal_iff e.token token).0 same;
      in_time =
          subst (λ (x : Entry). now < x.expires_at) (some_inj s)
            (unexpired (is_set e.token) now e.expires_at h live);
    }

find-Finds :
    (token : Bytes) (now : ℕ) (table : Table)
    → Finds token now table (find token (purge_expired now table))
unfolding find purge_expired
find-Finds token now [] = record { finds = λ found e. cc }
find-Finds token now (e ∷ table) =
    let b = is_set e.token && leb e.expires_at now in
    let x = clear_if b e in
    elim_both (Finds token now (e ∷ table)) (is_set x.token && ct_equal x.token token) (some x) _
      (λ t. record { finds = λ found s. here token now b e found table refl t s })
      (λ _. record {
        finds =
            λ found s. later token now e found table ((find-Finds token now table).finds found s);
      })

-- What a lookup that gives this result has found.
record Looks (token : Bytes) (now n : ℕ) (table : Table) (r : Table × Option Bytes) : Type 0 where
  looks :
      (name : Bytes)
      → r.1 ≡ some name
      → (found : Entry) × Live token now table found × (name ≡ take (n - 1) found.username)

copied-Looks :
    (token : Bytes) (now n : ℕ) (table after : Table) (o : Option Entry)
    → Finds token now table o
    → Looks token now n table (after, copied n o)
copied-Looks token now n table after none f = record { looks = λ name e. cc }
copied-Looks token now n table after (some found) f = record {
  looks = λ name e. (found, f.finds found refl, sym (some_inj e));
}

session_lookup-Looks :
    (token : Bytes) (now n : ℕ) (table : Table)
    → Looks token now n table (session_lookup token now n table)
unfolding session_lookup
session_lookup-Looks token now n table =
    if_both (Looks token now n table) (not (length token == 64)) (table, none)
      (purge_expired now table, copied n (find token (purge_expired now table)))
      (λ _. record { looks = λ name e. cc })
      (λ _. copied-Looks token now n table _ _ (find-Finds token now table))

-- A lookup that succeeds returns the name, cut to the buffer, of a slot that has the token and has
-- not expired.
pub lookup-Live :
    (token : Bytes) (now n : ℕ) (table : Table) (name : Bytes)
    → (session_lookup token now n table).1 ≡ some name
    → (found : Entry) × Live token now table found × (name ≡ take (n - 1) found.username)
lookup-Live token now n table name e = (session_lookup-Looks token now n table).looks name e
