-- ===== src/Throttle/Run.antt =====
-- Runs of failed logins, against the same calls on a function from keys to counts.
use meraki_builder.Prelude.{
  ℕ, zero, suc, ◌-◌, ◌*◌, ◌≤◌, Bytes, false, List, [], ◌∷◌, ◌++◌, ◌≡◌, refl, sym, ap, ◌∙◌, subst,
  arith, leb, if◌then◌else◌, bytes_eq, bytes_eq→eq, length, length-take, get_or, set, take,
  replicate, All, if_both, codes,
}
use meraki_builder.Throttle.Buckets.{
  Bucket, Buckets, no_bucket, nonempty, Slot, found, free, full, slot_of, at_slot, waiting,
  auth_bucket_for, auth_account_key, auth_peer_key, global_key, auth_record_failure_key,
  auth_record_failure, auth_retry_after_key,
}
use meraki_builder.Throttle.Slots.{AtSlot, scan-AtSlot, get_or-append}
use meraki_builder.Throttle.Refine.{
  Count, no_count, count_of, view, fail_count, Packed, Packed-blank, vacant, IsKey, record-Step,
  step_self, step_other, step-Packed, step_vacant, view_others, view_here, view_blank, view_none,
  free_blank,
}

-- A function, changed at one key.
abbrev pub update : (Bytes → Count) → Bytes → Count → Bytes → Count
update f q c k = if bytes_eq q k then c else f k

abbrev pub failed : Bytes → ℕ → (Bytes → Count) → Bytes → Count
failed key now f = update f key (fail_count now (f key))

-- A failed login: the user name, the peer and the time.
pub record Attempt : Type 0 where
  pub username : Bytes
  pub peer : Bytes
  pub now : ℕ

unfoldable pub run : List Attempt → Buckets → Buckets
run [] t = t
run (a ∷ attempts) t = run attempts (auth_record_failure a.username a.peer a.now t)

-- The same, on a function: the counts of the account, of the peer and of all logins go up.
unfoldable pub replay : List Attempt → (Bytes → Count) → Bytes → Count
replay [] f = f
replay (a ∷ attempts) f = replay attempts (
    failed global_key a.now
      (failed (auth_peer_key a.peer) a.now (failed (auth_account_key a.username) a.now f)))

account-IsKey : (username : Bytes) → IsKey (auth_account_key username)
unfolding auth_account_key
account-IsKey username = record {
  some_byte = refl;
  short = omega (
    arith,
    length-take 127
        (codes "account:" ++ (if nonempty username then username else codes "<invalid>")),
  );
}

peer-IsKey : (peer : Bytes) → IsKey (auth_peer_key peer)
unfolding auth_peer_key
peer-IsKey peer = record {
  some_byte = refl;
  short = omega (
    arith,
    length-take 127 (codes "peer:" ++ (if nonempty peer then take 79 peer else codes "<unknown>")),
  );
}

global-IsKey : IsKey global_key
global-IsKey = record { some_byte = refl; short = ground arith }

-- The table with so many free buckets shows the function.
record Shows (t : Buckets) (room : ℕ) (f : Bytes → Count) : Type 0 where
  packed : Packed t
  vacancy : room ≤ vacant t
  shows : (k : Bytes) → view k t ≡ f k

record-Shows :
    (key : Bytes) (now : ℕ) (t : Buckets) (room : ℕ) (f : Bytes → Count)
    → IsKey key
    → Shows t (suc room) f
    → Shows (auth_record_failure_key key now t) room (failed key now f)
record-Shows key now t room f v s =
    let t' = auth_record_failure_key key now t in
    let step = record-Step key now t v s.packed (omega (arith, s.vacancy)) in
    record {
      packed = step-Packed key now t t' v step s.packed;
      vacancy = omega (arith, s.vacancy, step_vacant key now t t' v step);
      shows = λ k.
          if_both (λ (c : Count). view k t' ≡ c) (bytes_eq key k) _ _
            (λ e.
              ap (λ q. view q t') (sym (bytes_eq→eq key k e))
              ∙ step_self key now t t' v step
              ∙ ap (fail_count now) (s.shows key))
            (λ e. step_other key now t t' v step k e ∙ s.shows k);
    }

run-Shows :
    (attempts : List Attempt) (t : Buckets) (f : Bytes → Count)
    → Shows t (3 * length attempts) f
    → Shows (run attempts t) 0 (replay attempts f)
unfolding run replay auth_record_failure
run-Shows [] t f s = record { packed = s.packed; vacancy = omega arith; shows = s.shows }
run-Shows (a ∷ attempts) t f s =
    let room = 3 * length attempts in
    let account = auth_account_key a.username in
    let peer = auth_peer_key a.peer in
    let t1 = auth_record_failure_key account a.now t in
    let t2 = auth_record_failure_key peer a.now t1 in
    let f1 = failed account a.now f in
    let f2 = failed peer a.now f1 in
    run-Shows attempts (auth_record_failure_key global_key a.now t2) (failed global_key a.now f2) (
      record-Shows global_key a.now t2 room f2 global-IsKey (
        record-Shows peer a.now t1 (suc room) f1 (peer-IsKey a.peer) (
          record-Shows account a.now t (suc (suc room)) f (account-IsKey a.username)
            (record { packed = s.packed; vacancy = omega (arith, s.vacancy); shows = s.shows }))))

wait_left :
    (now i : ℕ) (t : Buckets) (b : Bucket)
    → (if◌then◌else◌ {A = ℕ × Buckets}
        (leb b.blocked_until now)
        (0, t)
        (b.blocked_until - now, set t i (record b { last_seen = now }))).0
      ≡ b.blocked_until - now
wait_left now i t b =
    if_both (λ (r : ℕ × Buckets). r.0 ≡ b.blocked_until - now) (leb b.blocked_until now) _ _
      (λ e. ground arith) (λ _. refl)

none_left : (now : ℕ) → 0 ≡ 0 - now
none_left now = omega arith

-- The delay that the code answers is what is left of the block in the view.
waits :
    (key : Bytes) (now : ℕ) (t : Buckets) (s : Slot)
    → Packed t
    → AtSlot key 0 t s
    → (waiting now (at_slot key false t s)).0 ≡ (view key t).blocked_until - now
waits key now t (found i) p l =
    let at : get_or t i no_bucket ≡ l.here =
      ap (λ n. get_or t n no_bucket) (omega (arith, l.place) ∙ refl)
      ∙ ap (λ q. get_or q (length l.before) no_bucket) l.split
      ∙ get_or-append l.before l.here no_bucket l.behind in
    let shown : view key t ≡ count_of l.here =
      ap (view key) l.split
      ∙ view_others key l.before (l.here ∷ l.behind) l.others
      ∙ view_here key l.here l.behind l.what in
    wait_left now i t (get_or t i no_bucket)
    ∙ ap (λ (b : Bucket). b.blocked_until - now) at
    ∙ sym (ap (λ (c : Count). c.blocked_until - now) shown)
waits key now t (free i) p l =
    let blank = free_blank key l.before l.here l.behind l.others l.what (subst Packed l.split p) in
    let shown : view key t ≡ no_count =
      ap (view key) l.split
      ∙ view_others key l.before (l.here ∷ l.behind) l.others
      ∙ view_blank key (l.here ∷ l.behind) blank in
    none_left now ∙ sym (ap (λ (c : Count). c.blocked_until - now) shown)
waits key now t (full i) p l =
    none_left now ∙ sym (ap (λ (c : Count). c.blocked_until - now) (view_none key t l))

blank_Packed : (n : ℕ) → All (λ c. c ≡ no_bucket) (replicate n no_bucket)
blank_Packed zero = tt
blank_Packed (suc n) = (refl, blank_Packed n)

blank_vacant : (n : ℕ) → vacant (replicate n no_bucket) ≡ n
unfolding vacant
blank_vacant zero = refl
blank_vacant (suc n) = omega (arith, blank_vacant n)

-- From the empty table, over any 21 failed logins or fewer and no successful one: for every key the
-- failures and the end of the block that the table holds are those of the function, on which each
-- failed login counts once for its account, its peer and all logins; and what the code answers to
-- the question how long a login has to wait is what is left of that block.
pub run_refines :
    (attempts : List Attempt) (key : Bytes) (now : ℕ)
    → length attempts ≤ 21
    → (view key (run attempts (replicate 64 no_bucket)) ≡ replay attempts (λ k. no_count) key)
      × ((auth_retry_after_key key now (run attempts (replicate 64 no_bucket))).0
          ≡ (replay attempts (λ k. no_count) key).blocked_until - now)
unfolding auth_retry_after_key auth_bucket_for
run_refines attempts key now h =
    let empty = replicate 64 no_bucket in
    let t = run attempts empty in
    let s =
      run-Shows attempts empty (λ k. no_count)
        (record {
          packed = Packed-blank empty (blank_Packed 64);
          vacancy = omega (arith, blank_vacant 64);
          shows = λ k. view_blank k empty (blank_Packed 64);
        }) in
    (
      s.shows key,
      waits key now t (slot_of key t) s.packed
            (scan-AtSlot key 0 (0, (get_or t 0 no_bucket).last_seen) t)
          ∙ ap (λ (c : Count). c.blocked_until - now) (s.shows key),
    )
