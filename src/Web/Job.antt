-- ===== src/Web/Job.antt =====
-- The upload of a connection given up, and the validation of an uploaded image. The kernel's answers
-- are arguments: whether a process could be started, and what waiting for it gives.
use meraki_builder.Prelude.{
  ℕ, zero, suc, Bytes, Bool, List, [], ◌∷◌, true, false, not, [], ◌++◌, Option, none, some, ◌&&◌,
  ◌||◌, if◌then◌else◌, codes, take,
}
use meraki_builder.Roles.Capability.{role_has_capability}
use meraki_builder.Web.State.{
  Client, Order, Job, JobState, idle, validating, ready, failed, no_job, forked, waited, killed,
  Server, put_client, call, set_job, is_empty, unlink_named, release_owner, reply, sent,
}

abbrev pub ended_upload : Client → Client
ended_upload c = record c {
  upload_fd = false;
  upload_active = false;
  upload_expected = 0;
  upload_received = 0;
  upload_path = [];
  upload_manifest_path = [];
}

abbrev pub unlink_upload : Client → Server → Server
unlink_upload c s =
    if c.upload_handed_off
    then s
    else unlink_named c.upload_manifest_path (unlink_named c.upload_path s)

unfoldable pub cleanup_upload : ℕ → Server → Server
cleanup_upload who s =
    let c = s.clients who in release_owner who (put_client who (ended_upload c) (unlink_upload c s))

unfoldable pub firmware_job_forget : Bool → Server → Server
firmware_job_forget unlink_files s =
    let order = s.job.order in
    let s1 =
      if unlink_files then unlink_named order.manifest_path (unlink_named order.path s) else s in
    set_job no_job (unlink_named s.job.error_path s1)

abbrev pub is_validating : JobState → Bool
is_validating idle = false
is_validating validating = true
is_validating ready = false
is_validating failed = false

abbrev pub is_ready : JobState → Bool
is_ready idle = false
is_ready validating = false
is_ready ready = true
is_ready failed = false

abbrev pub is_failed : JobState → Bool
is_failed idle = false
is_failed validating = false
is_failed ready = false
is_failed failed = true

-- A process number above 0.
abbrev pub running : ℕ → Bool
running zero = false
running (suc n) = true

unfoldable pub firmware_job_cancel : Server → Server
unfolding firmware_job_forget
firmware_job_cancel s =
    let s1 =
      if is_validating s.job.state && running s.job.pid then call (killed s.job.pid) s else s in
    firmware_job_forget true s1

unfoldable pub forget_failed : Server → Server
unfolding firmware_job_forget
forget_failed s = if is_failed s.job.state then firmware_job_forget true s else s

abbrev pub order_of : Client → Order
order_of c = record {
  path = c.upload_path;
  name = c.upload_name;
  manifest_path = c.upload_manifest_path;
  overlay = c.upload_overlay;
  force = c.upload_force;
  accept_untested = c.upload_accept_untested;
}

abbrev pub job_of : Client → Job
job_of c = record no_job {
  state = validating;
  username = c.username;
  token = c.upload_token;
  order = order_of c;
  error_path = codes "/run/fwupdate/uploads/" ++ (c.upload_token ++ codes ".verify");
  expected = c.upload_expected;
  received = c.upload_received;
}

-- `child` is the new process, which runs the validator on the order, or none if fork fails.
unfoldable pub fork_validator : Option ℕ → Server → Bool × Server
unfolding firmware_job_forget
fork_validator none s = (false, firmware_job_forget false s)
fork_validator (some child) s =
    (true, call (forked child s.job.order) (set_job (record s.job { pid = child }) s))

-- True for 0, the state of the job by the connection's upload.
unfoldable pub firmware_job_start : Client → Option ℕ → Server → Bool × Server
unfolding fork_validator forget_failed
firmware_job_start c child s =
    if is_validating s.job.state || is_ready s.job.state
    then (false, s)
    else fork_validator child (set_job (job_of c) (forget_failed s))

-- What `waitpid` with WNOHANG gives: nothing yet, an interruption, an error, or the end of the child
-- with the last line of its error file; true if it exited with 0.
pub data Waited : Type 0 where
  not_yet interrupted : Waited
  wait_error : Bytes → Waited
  child_ended : Bool → Bytes → Waited

-- The validator's state: ready, or failed with a message, which stands in 256 bytes.
abbrev pub with_outcome : JobState → Bytes → Job → Job
with_outcome state text j = record j { state = state; error = take 255 text }

abbrev pub or_default : Bytes → Bytes
or_default text = if is_empty text then codes "firmware validation failed" else text

-- The files of a job that failed go away; `error_path` goes away in any case.
abbrev pub settle_failed : Server → Server
settle_failed s =
    let order = s.job.order in
    let s1 = unlink_named order.manifest_path (unlink_named order.path s) in
    set_job (record s1.job { order = record s1.job.order { path = []; manifest_path = [] } }) s1

-- The connections whose role allows it are told.
unfoldable pub notify : Bytes → List ℕ → Server → Server
notify type [] s = s
notify type (who ∷ connected) s =
    let c = s.clients who in
    notify type connected (
      if not c.authenticated || not (role_has_capability c.role (codes "firmware.update"))
      then s
      else reply who (sent type) s)

unfoldable pub firmware_job_notify : Server → Server
unfolding notify
firmware_job_notify s =
    notify
      (if is_ready s.job.state then codes "firmware_ready" else codes "firmware_validation_failed")
      s.connected s

-- What follows once the job is ready or has failed.
unfoldable pub settle : Server → Server
unfolding firmware_job_notify
settle s =
    let s1 = unlink_named s.job.error_path (set_job (record s.job { pid = 0 }) s) in
    firmware_job_notify (if is_failed s1.job.state then settle_failed s1 else s1)

unfoldable pub poll_answer : Waited → Server → Server
unfolding settle
poll_answer not_yet s = s
poll_answer interrupted s = s
poll_answer (wait_error text) s =
    settle (
      set_job (with_outcome failed (codes "unable to observe firmware validator: " ++ text) s.job)
        s)
poll_answer (child_ended true text) s =
    settle (call (waited s.job.pid true) (set_job (record s.job { state = ready }) s))
poll_answer (child_ended false text) s =
    settle (call (waited s.job.pid false) (set_job (with_outcome failed (or_default text) s.job) s))

unfoldable pub firmware_job_poll : Waited → Server → Server
unfolding poll_answer
firmware_job_poll answer s =
    if not (is_validating s.job.state) || not (running s.job.pid) then s else poll_answer answer s
