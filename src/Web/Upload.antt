-- ===== src/Web/Upload.antt =====
-- The requests about a firmware image, and the image's bytes.
use meraki_builder.Prelude.{
  ℕ, zero, suc, ◌+◌, ◌^◌, ◌%◌, Bytes, Bool, true, false, not, List, [], ◌∷◌, ◌++◌, Option, none,
  some, ◌==◌, ltb, leb, ◌&&◌, ◌||◌, if◌then◌else◌, bytes_eq, codes, take, drop, length,
}
use meraki_builder.Libc.{isalnum}
use meraki_builder.Web.State.{
  Client, created, wrote, removed, started, sent, error_reply, Server, put_client, call, reply,
  is_empty, owned_by, max_firmware_upload,
}
use meraki_builder.Web.Job.{
  cleanup_upload, firmware_job_forget, firmware_job_cancel, firmware_job_start, forget_failed,
  is_validating, is_ready,
}

-- A null pointer fails the two tests as the empty text does.
unfoldable pub valid_overlay : Bytes → Bool
valid_overlay value =
    bytes_eq value (codes "preserve")
    || bytes_eq value (codes "migrate")
    || bytes_eq value (codes "reset")
    || bytes_eq value (codes "image")

unfoldable pub artifact_chars : Bytes → Bool
artifact_chars [] = true
artifact_chars (c ∷ s) = (isalnum c || c == b'.' || c == b'_' || c == b'-') && artifact_chars s

-- A slash fails the test of the characters too.
unfoldable pub valid_artifact_name : Bytes → Bool
unfolding artifact_chars
valid_artifact_name name =
    if is_empty name || leb 128 (length name) then false else artifact_chars name

unfoldable pub handle_cancel : ℕ → Server → Server
unfolding firmware_job_cancel cleanup_upload
handle_cancel who s = reply who (sent (codes "ack")) (cleanup_upload who (firmware_job_cancel s))

-- The manifest of a request: none, not an object, or an object, which could be stored or not.
pub data Manifest : Type 0 where
  no_manifest no_object : Manifest
  object : Bool → Manifest

-- A request to start an upload: whether it has a size, this size, with 0 for those below, the
-- texts and marks in it; the token that the clock, the connection and the process give; the old
-- files that are removed from the directory; whether the new file could be created.
pub record Start : Type 0 where
  pub sized : Bool
  pub size : ℕ
  pub name : Bytes
  pub overlay : Bytes
  pub force : Bool
  pub accept_untested : Bool
  pub manifest : Manifest
  pub token : Bytes
  pub purged : List Bytes
  pub opened : Bool

unfoldable pub purge_upload_cache : List Bytes → Server → Server
purge_upload_cache [] s = s
purge_upload_cache (path ∷ paths) s = purge_upload_cache paths (call (removed path) s)

abbrev pub upload_path_of : Bytes → Bytes
upload_path_of token = codes "/run/fwupdate/uploads/" ++ (token ++ codes ".bin")

abbrev pub manifest_path_of : Bytes → Bytes
manifest_path_of token = codes "/run/fwupdate/uploads/" ++ (token ++ codes ".manifest.json")

abbrev pub named_upload : Start → Client → Client
named_upload q c = record c {
  upload_handed_off = false;
  upload_token = q.token;
  upload_path = upload_path_of q.token;
}

abbrev pub with_manifest : Start → Client → Client
with_manifest q c = record c { upload_manifest_path = manifest_path_of q.token }

abbrev pub begun_upload : Start → Client → Client
begun_upload q c = record c {
  upload_fd = true;
  upload_name = q.name;
  upload_overlay = q.overlay;
  upload_expected = q.size;
  upload_received = 0;
  upload_force = q.force;
  upload_accept_untested = q.accept_untested;
  upload_active = true;
}

unfoldable pub abandon : ℕ → ℕ → Server → Server
unfolding cleanup_upload
abandon who code s = cleanup_upload who (reply who (error_reply code) s)

unfoldable pub open_upload : ℕ → Start → Server → Server
unfolding abandon
open_upload who q s =
    if not q.opened
    then abandon who 500 s
    else let c = begun_upload q (s.clients who) in
      reply who (sent (codes "firmware_upload_ready"))
        (record (put_client who c (call (created c.upload_path) s)) { upload_owner = some who })

unfoldable pub store_manifest : ℕ → Start → Manifest → Server → Server
unfolding abandon open_upload
store_manifest who q no_manifest s = open_upload who q s
store_manifest who q no_object s = abandon who 400 s
store_manifest who q (object false) s =
    abandon who 500 (put_client who (with_manifest q (s.clients who)) s)
store_manifest who q (object true) s =
    open_upload who q (
      call (created (manifest_path_of q.token))
        (put_client who (with_manifest q (s.clients who)) s))

-- The new upload in place of the connection's last one.
unfoldable pub prepare_upload : ℕ → Start → Server → Server
unfolding cleanup_upload purge_upload_cache store_manifest
prepare_upload who q s =
    let s1 = purge_upload_cache q.purged (cleanup_upload who s) in
    store_manifest who q q.manifest (put_client who (named_upload q (s1.clients who)) s1)

abbrev pub other_owner : Option ℕ → ℕ → Bool
other_owner none who = false
other_owner (some owner) who = not (owner == who)

unfoldable pub handle_start : ℕ → Start → Server → Server
unfolding valid_overlay valid_artifact_name forget_failed prepare_upload
handle_start who q s =
    let s1 = forget_failed s in
    if not q.sized
    then reply who (error_reply 400) s
    else if q.size == 0
        || ltb max_firmware_upload q.size
        || not (valid_overlay q.overlay)
        || not (valid_artifact_name q.name)
    then reply who (error_reply 400) s
    else if is_validating s.job.state || is_ready s.job.state
    then reply who (error_reply 409) s
    else if other_owner s1.upload_owner who
    then reply who (error_reply 409) s1
    else prepare_upload who q s1

abbrev pub handed_off : Client → Client
handed_off c = record c { upload_active = false; upload_handed_off = true }

unfoldable pub start_validation : ℕ → Option ℕ → Server → Server
unfolding abandon firmware_job_start
start_validation who child s =
    let (begun, s1) = firmware_job_start (s.clients who) child s in
    if not begun
    then abandon who 500 s1
    else reply who (sent (codes "firmware_validating"))
        (record (put_client who (handed_off (s1.clients who)) s1) { upload_owner = none })

-- Whether the file could be synchronised, and the validator's process, are arguments.
unfoldable pub handle_finish : ℕ → Bool → Option ℕ → Server → Server
unfolding abandon start_validation
handle_finish who synced child s =
    let c = s.clients who in
    if not c.upload_active || not c.upload_fd
    then reply who (error_reply 400) s
    else if not synced
    then abandon who 500 s
    else let closed = put_client who (record c { upload_fd = false }) s in
      if not (c.upload_received == c.upload_expected)
      then abandon who 400 closed
      else start_validation who child closed

unfoldable pub handle_begin_flash : ℕ → Option Bytes → Bool → Server → Server
unfolding firmware_job_forget
handle_begin_flash who none begun s = reply who (error_reply 400) s
handle_begin_flash who (some token) begun s =
    if not (is_ready s.job.state) || is_empty s.job.order.path || not (bytes_eq token s.job.token)
    then reply who (error_reply 400) s
    else if not begun
    then reply who (error_reply 500) (call (started s.job.order) s)
    else let s1 = call (started s.job.order) s in
      firmware_job_forget false (
        reply who (sent (codes "firmware_starting"))
          (record (put_client who (handed_off (s1.clients who)) s1) { upload_owner = none }))

-- What `write` gives: so many bytes, an interruption, or an error. It writes at most what is left;
-- a list that ends early stands for an error.
pub data Write : Type 0 where
  written : ℕ → Write
  write_interrupted write_error : Write

abbrev pub received_more : Bytes → Client → Client
received_more piece c = record c { upload_received = c.upload_received + length piece }

unfoldable pub write_loop : ℕ → Bytes → List Write → Server → Server
unfolding abandon
write_loop who [] answers s = s
write_loop who (b ∷ rest) [] s = abandon who 500 s
write_loop who (b ∷ rest) (write_interrupted ∷ answers) s = write_loop who (b ∷ rest) answers s
write_loop who (b ∷ rest) (write_error ∷ answers) s = abandon who 500 s
write_loop who (b ∷ rest) (written zero ∷ answers) s = abandon who 500 s
write_loop who (b ∷ rest) (written (suc n) ∷ answers) s =
    let piece = take (suc n) (b ∷ rest) in
    let c = s.clients who in
    write_loop who (drop (suc n) (b ∷ rest)) answers
      (put_client who (received_more piece c) (call (wrote c.upload_path piece) s))

-- The sum is taken in 32 bits.
unfoldable pub receive_binary : ℕ → Bytes → List Write → Server → Server
unfolding abandon write_loop
receive_binary who input answers s =
    let c = s.clients who in
    if not c.authenticated
      || not c.upload_active
      || not c.upload_fd
      || not (owned_by s.upload_owner who)
    then reply who (error_reply 400) s
    else if ltb c.upload_expected ((c.upload_received + length input) % 2 ^ 32)
    then abandon who 400 s
    else write_loop who input answers s
