-- ===== src/Session/Tests.antt =====
-- A session is opened, found, and revoked.
use meraki_builder.Prelude.{
  ℕ, suc, zero, arith, ◌-◌, Bytes, Bool, true, [], Option, none, some, ◌≡◌, ◌≢◌, refl, All, take,
  replicate, codes, bytes_eq,
}
use meraki_builder.Session.Table.{
  Entry, Table, is_set, session_max, purge_expired, ct_loop, ct_equal, hex_of, generate_token,
  choose_slot, fill_slot, find, session_create, session_lookup, session_revoke_token,
  session_revoke_user,
}
use meraki_builder.Session.Creation.{create-lookup}
use meraki_builder.Session.Revocation.{
  NoToken, Live, revoke_token-lookup, revoke_user-All, lookup-Live,
}

abbrev fresh : Table
fresh = replicate session_max (record { token = []; username = []; expires_at = 0 })

abbrev opened : Table × Option Bytes
opened = session_create (codes "admin") 100 1000 (some (replicate 32 0xab)) fresh

abbrev token : Bytes
unfolding hex_of
token = hex_of (replicate 32 0xab)

abbrev runs : Bool
unfolding session_create purge_expired generate_token choose_slot fill_slot hex_of find ct_equal
    ct_loop session_lookup session_revoke_token session_revoke_user bytes_eq
runs = true

created : opened.1 ≡ some token
unfolding runs
created = refl

finds_admin : (session_lookup token 1050 65 opened.0).1 ≡ some (codes "admin")
unfolding runs
finds_admin = refl

expired : (session_lookup token 1100 65 opened.0).1 ≡ none
unfolding runs
expired = refl

revoke_token-lookup_example :
    (session_lookup token 1050 65 (session_revoke_token token opened.0)).1 ≡ none
revoke_token-lookup_example = revoke_token-lookup token 1050 65 opened.0

revoke_user-All_example :
    All
      (λ (e : Entry). is_set e.token ≡ true → e.username ≢ codes "admin")
      (session_revoke_user (codes "admin") opened.0)
revoke_user-All_example = revoke_user-All (codes "admin") opened.0 (λ e. cc)

lookup-Live_example :
    (found : Entry) × Live token 1050 opened.0 found
    × (codes "admin" ≡ take (65 - 1) found.username)
lookup-Live_example = lookup-Live token 1050 65 opened.0 (codes "admin") finds_admin

free-NoToken :
    (other : Bytes) (now n : ℕ)
    → NoToken other
        (purge_expired now (replicate n (record { token = []; username = []; expires_at = 0 })))
unfolding purge_expired
free-NoToken other now zero = tt
free-NoToken other now (suc n) = (refl, free-NoToken other now n)

create-lookup_example :
    (session_lookup token 1099 65 opened.0).1 ≡ some (take (65 - 1) (take 64 (codes "admin")))
unfolding runs
create-lookup_example =
    create-lookup (codes "admin") (replicate 32 0xab) token 100 1000 1099 65 fresh opened.0 refl
      refl (free-NoToken token 1000 session_max) (omega arith)
