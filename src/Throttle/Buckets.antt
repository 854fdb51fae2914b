-- ===== src/Throttle/Buckets.antt =====
-- The table of buckets and its operations. Times are milliseconds of the monotonic clock.
use meraki_builder.Prelude.{
  ℕ, ◌+◌, ◌-◌, ◌*◌, ◌%◌, ◌^◌, Bytes, Bool, true, false, List, [], ◌∷◌, ◌++◌, Option, none, some,
  ltb, leb, ◌&&◌, if◌then◌else◌, bytes_eq, codes, get_or, set, take,
}

-- A free bucket has the empty key.
pub record Bucket : Type 0 where
  pub key : Bytes
  pub failures : ℕ
  pub blocked_until : ℕ
  pub last_seen : ℕ

abbrev pub Buckets : Type 0
Buckets = List Bucket

abbrev pub no_bucket : Bucket
no_bucket = record { key = []; failures = 0; blocked_until = 0; last_seen = 0 }

abbrev pub bucket_max : ℕ
bucket_max = 64

abbrev pub nonempty : Bytes → Bool
nonempty [] = false
nonempty (c ∷ s) = true

-- What the loop of `auth_bucket_for` ends at.
pub data Slot : Type 0 where
  found free full : ℕ → Slot

abbrev pub older : ℕ → ℕ → ℕ × ℕ → ℕ × ℕ
older i seen (oldest, age) = if ltb seen age then (i, seen) else (oldest, age)

-- The bucket of the key, or the first free one, or the one that was not seen for longest.
unfoldable pub scan : Bytes → ℕ → ℕ × ℕ → Buckets → Slot
scan key i oldest [] = full oldest.0
scan key i oldest (b ∷ bs) = elim (nonempty b.key && bytes_eq b.key key) [
  | true ↦ found i
  | false ↦ elim (nonempty b.key) [
    | true ↦ scan key (i + 1) (older i b.last_seen oldest) bs
    | false ↦ free i
  ]
]

abbrev pub slot_of : Bytes → Buckets → Slot
slot_of key t = scan key 0 (0, (get_or t 0 no_bucket).last_seen) t

-- The bucket's index; where it is not there and none is to be created, none.
abbrev pub at_slot : Bytes → Bool → Buckets → Slot → Option ℕ × Buckets
at_slot key create t (found i) = (some i, t)
at_slot key true t (free i) =
    (some i, set t i (record (get_or t i no_bucket) { key = take 127 key }))
at_slot key false t (free i) = (none, t)
at_slot key true t (full i) = (some i, set t i (record no_bucket { key = take 127 key }))
at_slot key false t (full i) = (none, t)

unfoldable pub auth_bucket_for : Bytes → Bool → Buckets → Option ℕ × Buckets
unfolding scan
auth_bucket_for key create t = at_slot key create t (slot_of key t)

-- A null or empty name counts as `<invalid>`; the key is cut to 127 bytes.
unfoldable pub auth_account_key : Bytes → Bytes
auth_account_key username =
    take 127 (codes "account:" ++ (if nonempty username then username else codes "<invalid>"))

-- The address is empty where it is not known.
unfoldable pub auth_peer_key : Bytes → Bytes
auth_peer_key peer =
    take 127 (codes "peer:" ++ (if nonempty peer then take 79 peer else codes "<unknown>"))

abbrev pub waiting : ℕ → Option ℕ × Buckets → ℕ × Buckets
waiting now (none, t) = (0, t)
waiting now (some i, t) =
    let b = get_or t i no_bucket in
    if leb b.blocked_until now
    then (0, t)
    else (b.blocked_until - now, set t i (record b { last_seen = now }))

unfoldable pub auth_retry_after_key : Bytes → ℕ → Buckets → ℕ × Buckets
unfolding auth_bucket_for
auth_retry_after_key key now t = waiting now (auth_bucket_for key false t)

abbrev pub larger : ℕ → ℕ → ℕ
larger a b = if ltb b a then a else b

abbrev pub global_key : Bytes
global_key = codes "global"

unfoldable pub auth_retry_after_ms : Bytes → Bytes → ℕ → Buckets → ℕ × Buckets
unfolding auth_account_key auth_peer_key auth_retry_after_key
auth_retry_after_ms username peer now t =
    let (account_wait, t1) = auth_retry_after_key (auth_account_key username) now t in
    let (peer_wait, t2) = auth_retry_after_key (auth_peer_key peer) now t1 in
    let (global_wait, t3) = auth_retry_after_key global_key now t2 in
    (larger (larger account_wait peer_wait) global_wait, t3)

-- The delay for so many failures, of which there are at least 3.
unfoldable pub delay : ℕ → ℕ
delay failures =
    let shift = if ltb 6 (failures - 3) then 6 else failures - 3 in
    let delay = 500 * 2 ^ shift in if ltb 30000 delay then 30000 else delay

-- `failures` is an `unsigned int`.
unfoldable pub fail : ℕ → Bucket → Bucket
unfolding delay
fail now b =
    let failures = (b.failures + 1) % 2 ^ 32 in
    record b {
      last_seen = now;
      failures = failures;
      blocked_until = if leb 3 failures then now + delay failures else b.blocked_until;
    }

abbrev pub failed_at : ℕ → Option ℕ × Buckets → Buckets
failed_at now (none, t) = t
failed_at now (some i, t) = set t i (fail now (get_or t i no_bucket))

unfoldable pub auth_record_failure_key : Bytes → ℕ → Buckets → Buckets
unfolding auth_bucket_for fail
auth_record_failure_key key now t = failed_at now (auth_bucket_for key true t)

unfoldable pub auth_record_failure : Bytes → Bytes → ℕ → Buckets → Buckets
unfolding auth_account_key auth_peer_key auth_record_failure_key
auth_record_failure username peer now t = auth_record_failure_key global_key now (
    auth_record_failure_key (auth_peer_key peer) now
      (auth_record_failure_key (auth_account_key username) now t))

abbrev pub cleared_at : Option ℕ × Buckets → Buckets
cleared_at (none, t) = t
cleared_at (some i, t) = set t i no_bucket

unfoldable pub auth_clear_bucket : Bytes → Buckets → Buckets
unfolding auth_bucket_for
auth_clear_bucket key t = cleared_at (auth_bucket_for key false t)

unfoldable pub auth_record_success : Bytes → Bytes → Buckets → Buckets
unfolding auth_account_key auth_peer_key auth_clear_bucket
auth_record_success username peer t =
    auth_clear_bucket global_key
      (auth_clear_bucket (auth_peer_key peer) (auth_clear_bucket (auth_account_key username) t))
