-- ===== src/Web/Log.antt =====
-- What the calls so far say: the bytes that a file has got, which images a validator has passed,
-- and when an image may be flashed.
use meraki_builder.Prelude.{
  ℕ, ◌<◌, ◌≤◌, Bytes, Bool, true, false, List, [], ◌∷◌, ◌++◌, ◌≡◌, refl, if◌then◌else◌, bytes_eq,
  length,
}
use meraki_builder.Web.State.{
  Order, Call, created, wrote, removed, forked, waited, killed, started, max_firmware_upload,
}

-- What was written to a path since a file was last created there, whether or not the file has been
-- removed since. The latest call stands first.
unfoldable pub content : Bytes → List Call → Bytes
content path [] = []
content path (created p ∷ log) = if bytes_eq p path then [] else content path log
content path (wrote p piece ∷ log) =
    if bytes_eq p path then content path log ++ piece else content path log
content path (removed p ∷ log) = content path log
content path (forked pid order ∷ log) = content path log
content path (waited pid passed ∷ log) = content path log
content path (killed pid ∷ log) = content path log
content path (started order ∷ log) = content path log

-- A validator was started on the order.
pub data Forked (pid : ℕ) (order : Order) : List Call → Type 0 where
  forked_now : {log : List Call} → Forked pid order (forked pid order ∷ log)
  forked_before : {k : Call} {log : List Call} → Forked pid order log → Forked pid order (k ∷ log)

-- A validator was started on the order and exited with 0 after that.
pub data Validated (order : Order) : List Call → Type 0 where
  passed_now :
      {pid : ℕ} {log : List Call} → Forked pid order log → Validated order (waited pid true ∷ log)
  passed_before : {k : Call} {log : List Call} → Validated order log → Validated order (k ∷ log)

-- An order that may be carried out: a validator has passed it, and its file has got between one byte
-- and 16 MiB.
pub record Flashable (order : Order) (log : List Call) : Type 0 where
  pub validated : Validated order log
  pub some_bytes : 0 < length (content order.path log)
  pub fits : length (content order.path log) ≤ max_firmware_upload

-- Every order that the updater was started with could be carried out at the time.
unfoldable pub Cleared : List Call → Type 0
Cleared [] = Unit
Cleared (started order ∷ log) = Flashable order log × Cleared log
Cleared (created p ∷ log) = Cleared log
Cleared (wrote p piece ∷ log) = Cleared log
Cleared (removed p ∷ log) = Cleared log
Cleared (forked pid order ∷ log) = Cleared log
Cleared (waited pid passed ∷ log) = Cleared log
Cleared (killed pid ∷ log) = Cleared log

-- The calls that leave the contents of files alone and do not start the updater.
abbrev pub is_quiet : Call → Bool
is_quiet (created p) = false
is_quiet (wrote p piece) = false
is_quiet (removed p) = true
is_quiet (forked pid order) = true
is_quiet (waited pid passed) = true
is_quiet (killed pid) = true
is_quiet (started order) = false

pub content_quiet :
    (path : Bytes) (k : Call) (log : List Call)
    → is_quiet k ≡ true
    → content path (k ∷ log) ≡ content path log
unfolding content
content_quiet path (created p) log q = cc
content_quiet path (wrote p piece) log q = cc
content_quiet path (removed p) log q = refl
content_quiet path (forked pid order) log q = refl
content_quiet path (waited pid passed) log q = refl
content_quiet path (killed pid) log q = refl
content_quiet path (started order) log q = cc

pub cleared_quiet :
    (k : Call) (log : List Call) → is_quiet k ≡ true → Cleared log → Cleared (k ∷ log)
unfolding Cleared
cleared_quiet (created p) log q c = c
cleared_quiet (wrote p piece) log q c = c
cleared_quiet (removed p) log q c = c
cleared_quiet (forked pid order) log q c = c
cleared_quiet (waited pid passed) log q c = c
cleared_quiet (killed pid) log q c = c
cleared_quiet (started order) log q c = cc
