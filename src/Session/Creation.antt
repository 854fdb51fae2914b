-- ===== src/Session/Creation.antt =====
-- A session that was created is found until it expires.
use meraki_builder.Prelude.{
  ℕ, zero, suc, ◌+◌, ◌-◌, ◌*◌, ◌<◌, Bytes, Bool, true, false, not, [], ◌∷◌, Option, none, some,
  ◌==◌, ◌≡◌, refl, sym, ap, subst, ◌∙◌, leb, ltb, ◌&&◌, length, set, take, arith, elim_both,
  if_both, option_both, some_inj, if_false_eq,
}
use meraki_builder.Session.Table.{
  Entry, Table, is_set, purge_expired, hex_of, generate_token, earlier, choose_slot, fill_slot,
  session_create, find, copied, session_lookup,
}
use meraki_builder.Session.Compare.{ct_equal_iff}
use meraki_builder.Session.Revocation.{NoToken, purged-one}

-- A slot that the loop may have kept so far.
abbrev Before : ℕ → Option (ℕ × ℕ) → Type 0
Before i none = Unit
Before i (some (slot, oldest)) = slot < i

earlier-Before :
    (i expires : ℕ) (best : Option (ℕ × ℕ))
    → Before i best
    → Before (suc i) (earlier i expires best)
earlier-Before i expires none h = omega arith
earlier-Before i expires (some (slot, oldest)) h =
    if_both (Before (suc i)) (ltb expires oldest) (some (i, expires)) (some (slot, oldest))
      (λ _. omega arith) (λ _. omega arith)

record Within (bound : ℕ) (o : Option ℕ) : Type 0 where
  within : (slot : ℕ) → o ≡ some slot → slot < bound

Within-of : (slot bound : ℕ) → slot < bound → Within bound (some slot)
Within-of slot bound h = record { within = λ k e. subst (λ x. x < bound) (some_inj e) h }

choose_slot-Within :
    (i : ℕ) (table : Table) (best : Option (ℕ × ℕ))
    → Before i best
    → Within (i + length table) (choose_slot i table best)
unfolding choose_slot
choose_slot-Within i [] none h = record { within = λ slot e. cc }
choose_slot-Within i [] (some (slot, oldest)) h = Within-of slot (i + 0) (omega arith)
choose_slot-Within i (e ∷ table) best h =
    elim_both (Within (i + suc (length table))) (is_set e.token)
      (choose_slot (suc i) table (earlier i e.expires_at best)) (some i)
      (λ _.
        subst (λ b. Within b (choose_slot (suc i) table (earlier i e.expires_at best)))
          (omega arith)
          (choose_slot-Within (suc i) table (earlier i e.expires_at best)
            (earlier-Before i e.expires_at best h)))
      (λ _. Within-of i (i + suc (length table)) (omega arith))

still_live : (b : Bool) (expires later : ℕ) → later < expires → (b && leb expires later) ≡ false
still_live b expires later h = ground arith

found_test : (a b : Bool) → a ≡ true → b ≡ true → (a && b) ≡ true
found_test a b h k = ground arith

-- The entry is the only live one with its token.
find-set :
    (token : Bytes) (later : ℕ) (table : Table) (slot : ℕ) (new : Entry)
    → NoToken token table
    → slot < length table
    → new.token ≡ token
    → is_set new.token ≡ true
    → later < new.expires_at
    → find token (purge_expired later (set table slot new)) ≡ some new
unfolding find purge_expired
find-set token later [] slot new no_token h same live in_time = absurd (omega arith)
find-set token later (e ∷ table) zero new (first, rest) h same live in_time =
    rw (still_live (is_set new.token) new.expires_at later in_time)
      (rw (found_test _ _ live ((ct_equal_iff new.token token).1 same), find) refl)
find-set token later (e ∷ table) (suc slot) new (first, rest) h same live in_time =
    rw (purged-one token _ e first, find)
      (find-set token later table slot new rest (omega arith) same live in_time)

length-hex_of : (raw : Bytes) → length (hex_of raw) ≡ 2 * length raw
unfolding hex_of
length-hex_of [] = refl
length-hex_of (b ∷ raw) = omega (arith, length-hex_of raw)

set_token : (token : Bytes) → length token ≡ 64 → is_set token ≡ true
set_token [] h = absurd (omega arith)
set_token (c ∷ s) h = refl

-- The result of `session_create`: a token comes with its entry in a slot of the purged table.
record Opens (username : Bytes) (expires : ℕ) (raw : Bytes) (purged : Table)
    (r : Table × Option Bytes) : Type 0 where
  opens :
      (token : Bytes)
      → r.1 ≡ some token
      → (slot : ℕ) × (slot < length purged)
        × (token ≡ hex_of raw)
        × (r.0
            ≡ set purged slot
                (record { token = token; username = take 64 username; expires_at = expires }))

session_create-Opens :
    (username : Bytes) (ttl now : ℕ) (raw : Bytes) (table : Table)
    → Opens username
        (now + ttl)
        raw
        (purge_expired now table)
        (session_create username ttl now (some raw) table)
unfolding session_create generate_token fill_slot
session_create-Opens username ttl now raw table =
    let purged = purge_expired now table in
    let P = Opens username (now + ttl) raw purged in
    if_both P (not (is_set username)) (table, none) _ (λ _. record { opens = λ token e. cc })
      (λ _.
        option_both P (choose_slot 0 purged none) (purged, none) _
          (record { opens = λ token e. cc })
          (λ slot e. record {
            opens = λ token f. (
              slot,
              subst (λ b. slot < b) (omega arith)
                  ((choose_slot-Within 0 purged none tt).within slot e),
              sym (some_inj f),
              rw (some_inj f) refl,
            );
          }))

right_length : (n : ℕ) → n ≡ 64 → not (n == 64) ≡ false
right_length n h = ground arith

lookup-found :
    (token : Bytes) (later n : ℕ) (table : Table) (new : Entry)
    → length token ≡ 64
    → find token (purge_expired later table) ≡ some new
    → (session_lookup token later n table).1 ≡ some (take (n - 1) new.username)
unfolding session_lookup
lookup-found token later n table new long found =
    let purged = purge_expired later table in
    ap (λ (r : Table × Option Bytes). r.1)
      (if_false_eq (not (length token == 64)) (table, none) (purged, copied n (find token purged))
        (right_length (length token) long))
    ∙ ap (copied n) found

-- A session that was created with 32 random bytes is found under its token until its time to live
-- is over, with the name of its user cut to 64 bytes and to the buffer, if no session that was live
-- had drawn the same token.
pub create-lookup :
    (username raw token : Bytes) (ttl now later n : ℕ) (table after : Table)
    → session_create username ttl now (some raw) table ≡ (after, some token)
    → length raw ≡ 32
    → NoToken token (purge_expired now table)
    → later < now + ttl
    → (session_lookup token later n after).1 ≡ some (take (n - 1) (take 64 username))
create-lookup username raw token ttl now later n table after e long no_token in_time =
    let (slot, bound, hex, filled) =
      (session_create-Opens username ttl now raw table).opens token
        (ap (λ (r : Table × Option Bytes). r.1) e) in
    let long' : length token ≡ 64 = ap length hex ∙ omega (arith, length-hex_of raw) in
    let holds = sym (ap (λ (r : Table × Option Bytes). r.0) e) ∙ filled in
    let new : Entry = record {
      token = token;
      username = take 64 username;
      expires_at = now + ttl;
    } in
    let purged = purge_expired now table in
    subst (λ t. (session_lookup token later n t).1 ≡ some (take (n - 1) (take 64 username)))
      (sym holds)
      (lookup-found token later n (set purged slot new) new long'
        (find-set token later purged slot new no_token bound refl (set_token token long') in_time))
