-- ===== src/Web/Serve.antt =====
-- The requests of a connection and what else happens to the server, one event after another.
use meraki_builder.Prelude.{
  ℕ, Bytes, Bool, not, List, [], ◌∷◌, ◌++◌, Option, ◌==◌, leb, if◌then◌else◌, codes, length,
}
use meraki_builder.Web.State.{new_client, Server, put_client, reply, sent}
use meraki_builder.Web.Job.{cleanup_upload, firmware_job_poll, Waited}
use meraki_builder.Web.Gate.{
  Env, Login, handle_auth, handle_auth_token, handle_logout, revalidate_session, require_capability,
  ws_revoke_user_sessions,
}
use meraki_builder.Web.Upload.{
  Start, Write, handle_start, handle_cancel, handle_finish, handle_begin_flash, receive_binary,
}

-- The requests that are modelled.
pub data Request : Type 0 where
  auth : Bytes → Login → Request
  auth_token : Option Bytes → Request
  logout : Request
  firmware_upload_cancel : Request
  firmware_upload_start : Start → Request
  firmware_upload_finish : Bool → Option ℕ → Request
  firmware_begin_flash : Option Bytes → Bool → Request

abbrev pub firmware_update : Bytes
firmware_update = codes "firmware.update"

-- The requests for which the session is looked up again first.
unfoldable pub checked : Env → ℕ → (Server → Server) → Server → Server
unfolding revalidate_session
checked env who work s =
    let (valid, s1) = revalidate_session env who s in
    if not valid then s1 else require_capability who firmware_update work s1

unfoldable pub handle_request : Env → ℕ → Request → Server → Server
unfolding checked handle_auth handle_auth_token handle_logout handle_cancel handle_start
    handle_finish handle_begin_flash
handle_request env who (auth peer login) s = handle_auth env who peer login s
handle_request env who (auth_token token) s = handle_auth_token env who token s
handle_request env who logout s = handle_logout who s
handle_request env who firmware_upload_cancel s = checked env who (handle_cancel who) s
handle_request env who (firmware_upload_start start) s = checked env who (handle_start who start) s
handle_request env who (firmware_upload_finish synced child) s =
    checked env who (handle_finish who synced child) s
handle_request env who (firmware_begin_flash token begun) s =
    checked env who (handle_begin_flash who token begun) s

abbrev pub max_clients : ℕ
max_clients = 16

-- `remove_client` puts the last connection in the place of the removed one.
abbrev pub last_or : ℕ → List ℕ → ℕ
last_or n [] = n
last_or n (m ∷ ms) = last_or m ms

abbrev pub without_last : List ℕ → List ℕ
without_last [] = []
without_last (n ∷ []) = []
without_last (n ∷ m ∷ ms) = n ∷ without_last (m ∷ ms)

unfoldable pub remove_client : ℕ → List ℕ → List ℕ
remove_client who [] = []
remove_client who (n ∷ ns) =
    let rest = remove_client who ns in
    if n == who
    then (elim ns [ [] ↦ [] | m ∷ ms ↦ last_or m ms ∷ without_last (m ∷ ms) ])
    else n ∷ rest

pub data Event : Type 0 where
  connect : ℕ → Event
  close : ℕ → Event
  request : Env → ℕ → Request → Event
  binary : ℕ → Bytes → List Write → Event
  poll : Waited → Event
  revoke : Bytes → Event

unfoldable pub step : Event → Server → Server
unfolding remove_client handle_request receive_binary firmware_job_poll ws_revoke_user_sessions
    cleanup_upload
step (connect who) s =
    if leb max_clients (length s.connected)
    then s
    else reply who (sent (codes "auth_required"))
        (put_client who new_client (record s { connected = s.connected ++ who ∷ [] }))
step (close who) s = cleanup_upload who (record s { connected = remove_client who s.connected })
step (request env who r) s = handle_request env who r s
step (binary who input answers) s = receive_binary who input answers s
step (poll answer) s = firmware_job_poll answer s
step (revoke username) s = ws_revoke_user_sessions username s

unfoldable pub steps : List Event → Server → Server
unfolding step
steps [] s = s
steps (e ∷ events) s = steps events (step e s)
