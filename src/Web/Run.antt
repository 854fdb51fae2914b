-- ===== src/Web/Run.antt =====
-- Runs of the server, and the images that reach the updater in them.
use meraki_builder.Prelude.{
  ℕ, ◌<◌, ◌^◌, not, List, [], ◌∷◌, ◌++◌, none, leb, ◌≡◌, refl, subst, if_both, length, All,
}
use meraki_builder.Session.Table.{Table}
use meraki_builder.Throttle.Buckets.{Buckets}
use meraki_builder.Roles.Capability.{role_has_capability}
use meraki_builder.Web.State.{
  new_client, no_job, Order, Call, created, wrote, removed, forked, waited, killed, started, Server,
}
use meraki_builder.Web.Gate.{Env, revalidate_session}
use meraki_builder.Web.Upload.{handle_cancel, handle_start, handle_finish, handle_begin_flash}
use meraki_builder.Web.Serve.{
  Request, auth, auth_token, logout, firmware_upload_cancel, firmware_upload_start,
  firmware_upload_finish, firmware_begin_flash, firmware_update, checked, handle_request,
  max_clients, remove_client, Event, connect, close, request, binary, poll, revoke, step, steps,
}
use meraki_builder.Web.Log.{Cleared, Flashable}
use meraki_builder.Web.Sound.{Good, put_inactive, free_job}
use meraki_builder.Web.Sound.Validation.{cleanup_Good, poll_Good}
use meraki_builder.Web.Sound.Gate.{
  revalidate_Good, auth_Good, auth_token_Good, logout_Good, revoke_Good,
}
use meraki_builder.Web.Sound.Start.{start_Good}
use meraki_builder.Web.Sound.Upload.{handle_cancel_Good, finish_Good, begin_flash_Good}
use meraki_builder.Web.Sound.Input.{binary_Good}

checked_Good :
    (env : Env) (who : ℕ) (work : Server → Server) (s : Server)
    → ((t : Server) → Good t → Good (work t))
    → Good s
    → Good (checked env who work s)
unfolding checked
checked_Good env who work s w g =
    let (valid, s1) = revalidate_session env who s in
    let g1 = revalidate_Good env who s g in
    if_both Good (not valid) _ _ (λ e. g1)
      (λ e.
        if_both Good (role_has_capability (s1.clients who).role firmware_update) _ _ (λ f. w s1 g1)
          (λ f. g1))

request_Good :
    (env : Env) (who : ℕ) (r : Request) (s : Server) → Good s → Good (handle_request env who r s)
unfolding handle_request
request_Good env who (auth peer login) s g = auth_Good env who peer login s g
request_Good env who (auth_token token) s g = auth_token_Good env who token s g
request_Good env who logout s g = logout_Good who s g
request_Good env who firmware_upload_cancel s g =
    checked_Good env who (handle_cancel who) s (handle_cancel_Good who) g
request_Good env who (firmware_upload_start start) s g =
    checked_Good env who (handle_start who start) s (start_Good who start) g
request_Good env who (firmware_upload_finish synced child) s g =
    checked_Good env who (handle_finish who synced child) s (finish_Good who synced child) g
request_Good env who (firmware_begin_flash token begun) s g =
    checked_Good env who (handle_begin_flash who token begun) s (begin_flash_Good who token begun) g

-- A message fits the address space, of which the kernel keeps half.
unfoldable pub IsShort : Event → Type 0
IsShort (binary who input answers) = length input < 2 ^ 31
IsShort (connect who) = Unit
IsShort (close who) = Unit
IsShort (request env who r) = Unit
IsShort (poll answer) = Unit
IsShort (revoke username) = Unit

step_Good : (e : Event) (s : Server) → IsShort e → Good s → Good (step e s)
unfolding step IsShort
step_Good (connect who) s h g =
    if_both Good (leb max_clients (length s.connected)) _ _ (λ e. g)
      (λ e. put_inactive who new_client (record s { connected = s.connected ++ who ∷ [] }) refl g)
step_Good (close who) s h g =
    cleanup_Good who (record s { connected = remove_client who s.connected }) g
step_Good (request env who r) s h g = request_Good env who r s g
step_Good (binary who input answers) s h g = binary_Good who input answers s h g
step_Good (poll answer) s h g = poll_Good answer s g
step_Good (revoke username) s h g = revoke_Good username s g

steps_Good :
    (events : List Event) (s : Server) → All IsShort events → Good s → Good (steps events s)
unfolding steps
steps_Good [] s h g = g
steps_Good (e ∷ events) s (h, hs) g = steps_Good events (step e s) hs (step_Good e s h g)

-- The server as it starts, whatever sessions and delays there are.
abbrev pub new_server : Table → Buckets → Server
new_server sessions buckets = record {
  clients = λ n. new_client;
  connected = [];
  upload_owner = none;
  job = no_job;
  log = [];
  sessions = sessions;
  buckets = buckets;
  replies = [];
}

new_Good : (sessions : Table) (buckets : Buckets) → Good (new_server sessions buckets)
unfolding Cleared
new_Good sessions buckets = record {
  uploads = λ n e. cc;
  job_sound = free_job none [] no_job refl;
  cleared = tt;
}

-- After any events from the start, where no message has 2^31 bytes or more: a connection whose
-- upload is active owns the upload, has announced between one byte and 16 MiB, has sent at most
-- what it announced, and its file has got as many bytes as it sent; while a job is validated or
-- waits, nobody owns an upload, the file of the job has got all the bytes announced, a validator
-- was started on it, and one that waits was passed by a validator; and every order that the
-- updater was called to start with could be carried out at that time.
pub steps_Sound :
    (events : List Event) (sessions : Table) (buckets : Buckets)
    → All IsShort events
    → Good (steps events (new_server sessions buckets))
steps_Sound events sessions buckets h =
    steps_Good events (new_server sessions buckets) h (new_Good sessions buckets)

cleared_at :
    (order : Order) (later earlier : List Call)
    → Cleared (later ++ started order ∷ earlier)
    → Flashable order earlier
unfolding Cleared
cleared_at order [] earlier c = c.0
cleared_at order (started other ∷ later) earlier c = cleared_at order later earlier c.1
cleared_at order (created p ∷ later) earlier c = cleared_at order later earlier c
cleared_at order (wrote p piece ∷ later) earlier c = cleared_at order later earlier c
cleared_at order (removed p ∷ later) earlier c = cleared_at order later earlier c
cleared_at order (forked pid other ∷ later) earlier c = cleared_at order later earlier c
cleared_at order (waited pid passed ∷ later) earlier c = cleared_at order later earlier c
cleared_at order (killed pid ∷ later) earlier c = cleared_at order later earlier c

-- Whenever the updater is called to start after any events from the start, where no message has 2^31 bytes
-- or more, a validator was started before on the same path, name, manifest, overlay policy and
-- marks and then exited with 0, and the file had got between one byte and 16 MiB.
pub started-Flashable :
    (events : List Event) (sessions : Table) (buckets : Buckets) (order : Order)
    (later earlier : List Call)
    → All IsShort events
    → (steps events (new_server sessions buckets)).log ≡ later ++ started order ∷ earlier
    → Flashable order earlier
started-Flashable events sessions buckets order later earlier h e =
    cleared_at order later earlier (subst Cleared e (steps_Sound events sessions buckets h).cleared)
