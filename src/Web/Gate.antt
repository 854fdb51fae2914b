-- ===== src/Web/Gate.antt =====
-- Who a connection is: the logins, and the check before every other request.
use meraki_builder.Prelude.{
  ℕ, Bytes, Bool, true, false, not, List, [], ◌∷◌, Option, none, some, ltb, ◌&&◌, ◌||◌,
  if◌then◌else◌, bytes_eq, codes, take,
}
use meraki_builder.Roles.Account.{System, role_none, role_for_username}
use meraki_builder.Roles.Capability.{role_has_capability}
use meraki_builder.Session.Table.{
  Table, session_create, session_lookup, session_revoke_token, session_revoke_user,
}
use meraki_builder.Throttle.Buckets.{auth_retry_after_ms, auth_record_failure, auth_record_success}
use meraki_builder.Auth.Verify.{is_none, auth_verify_user}
use meraki_builder.Auth.Manage.{is_success, answer_of_verdict}
use meraki_builder.Web.State.{
  Client, JobState, idle, validating, ready, failed, sent, error_reply, Server, put_client, reply,
  is_empty,
}
use meraki_builder.Web.Job.{cleanup_upload, firmware_job_cancel}

-- What a request finds outside: the account files, `crypt`, the seconds since 1970, the monotonic
-- clock when the wait and when a failure is worked out, and 32 random bytes.
pub record Env : Type 0 where
  pub system : System
  pub crypt : Bytes → Bytes → Option Bytes
  pub now : ℕ
  pub clock : ℕ
  pub clock_after : ℕ
  pub random : Option Bytes

abbrev pub without_login : Client → Client
without_login c = record c {
  authenticated = false;
  role = role_none;
  username = [];
  session_token = [];
}

abbrev pub revoked_token : Bool → Bytes → Server → Server
revoked_token revoke_token token s =
    if revoke_token && not (is_empty token)
    then record s { sessions = session_revoke_token token s.sessions }
    else s

unfoldable pub deauthenticate_session : ℕ → Bool → Server → Server
unfolding cleanup_upload session_revoke_token
deauthenticate_session who revoke_token s =
    let s1 = cleanup_upload who (revoked_token revoke_token (s.clients who).session_token s) in
    put_client who (without_login (s1.clients who)) s1

unfoldable pub turned_away : ℕ → Bool → ℕ → Server → Server
unfolding deauthenticate_session
turned_away who revoke_token code s =
    reply who (error_reply code) (deauthenticate_session who revoke_token s)

-- The role of the account that the session was found for.
unfoldable pub with_current_role : Env → ℕ → Bytes → Server → Bool × Server
unfolding turned_away role_for_username
with_current_role env who username s =
    let role = role_for_username env.system username in
    if is_none role
    then (false, turned_away who true 403 s)
    else (true, put_client who (record (s.clients who) { role = role }) s)

unfoldable pub found_session : Env → ℕ → Option Bytes → Server → Bool × Server
unfolding turned_away with_current_role
found_session env who none s = (false, turned_away who false 401 s)
found_session env who (some username) s =
    if not (bytes_eq username (s.clients who).username)
    then (false, turned_away who false 401 s)
    else with_current_role env who username s

unfoldable pub revalidate_session : Env → ℕ → Server → Bool × Server
unfolding turned_away session_lookup found_session
revalidate_session env who s =
    let c = s.clients who in
    let (table, found) = session_lookup c.session_token env.now 65 s.sessions in
    if not c.authenticated || is_empty c.session_token
    then (false, turned_away who false 401 s)
    else found_session env who found (record s { sessions = table })

-- The work of a request, if the connection has the capability for it.
abbrev pub require_capability : ℕ → Bytes → (Server → Server) → Server → Server
require_capability who capability work s =
    if role_has_capability (s.clients who).role capability
    then work s
    else reply who (error_reply 403) s

-- A request to log in: whether it has a `data` object, the user name and the password in it, and
-- whether the session is to be remembered. Without `data` there is neither name nor password.
pub record Login : Type 0 where
  pub given : Bool
  pub username : Bytes
  pub password : Option Bytes
  pub remember : Bool

abbrev pub session_ttl : Bool → ℕ
session_ttl remember = if remember then 604800 else 28800

abbrev pub logged_in : Bytes → Bytes → Client → Client
logged_in username token c = record c {
  authenticated = true;
  username = take 64 username;
  session_token = take 64 token;
}

unfoldable pub with_session : ℕ → Bytes → Table × Option Bytes → Server → Server
unfolding turned_away
with_session who username (table, none) s = turned_away who true 503 (record s { sessions = table })
with_session who username (table, some token) s =
    reply who (sent (codes "auth"))
      (put_client who (logged_in username token (s.clients who)) (record s { sessions = table }))

abbrev pub unmanaged : Client → Client
unmanaged c = record c { role = role_none; authenticated = false; username = [] }

unfoldable pub handle_auth : Env → ℕ → Bytes → Login → Server → Server
unfolding turned_away with_session auth_retry_after_ms auth_verify_user auth_record_failure
    auth_record_success session_create role_for_username
handle_auth env who peer q s =
    let (retry_after, waited) = auth_retry_after_ms q.username peer env.clock s.buckets in
    let s1 = record s { buckets = waited } in
    let role = role_for_username env.system q.username in
    if ltb 0 retry_after
    then reply who (error_reply 429) s1
    else if not q.given
        || not (
            is_success
              (answer_of_verdict (auth_verify_user env.crypt env.system q.username q.password)))
    then turned_away who true 401
        (record s1 { buckets = auth_record_failure q.username peer env.clock_after s1.buckets })
    else if is_none role
    then reply who (error_reply 403) (put_client who (unmanaged (s1.clients who)) s1)
    else let s2 =
        put_client who (record (s1.clients who) { role = role })
          (record s1 { buckets = auth_record_success q.username peer s1.buckets }) in
      with_session who q.username
        (session_create q.username (session_ttl q.remember) env.now env.random s2.sessions) s2

-- The connection takes over a session, and its own other one is revoked.
unfoldable pub take_session : Env → ℕ → Bytes → Bytes → Server → Server
unfolding session_revoke_token role_for_username
take_session env who token username s =
    let c = s.clients who in
    let role = role_for_username env.system username in
    if is_none role
    then reply who (error_reply 403) (record s { sessions = session_revoke_token token s.sessions })
    else let s1 = revoked_token (not (bytes_eq c.session_token token)) c.session_token s in
      reply who (sent (codes "auth"))
        (put_client who (record (logged_in username token c) { role = role }) s1)

unfoldable pub known_session : Env → ℕ → Bytes → Option Bytes → Server → Server
unfolding take_session
known_session env who token none s = reply who (error_reply 401) s
known_session env who token (some username) s = take_session env who token username s

-- The token is none where the request has no text for it.
unfoldable pub handle_auth_token : Env → ℕ → Option Bytes → Server → Server
unfolding known_session session_lookup
handle_auth_token env who none s = reply who (error_reply 401) s
handle_auth_token env who (some token) s =
    let (table, found) = session_lookup token env.now 65 s.sessions in
    known_session env who token found (record s { sessions = table })

unfoldable pub handle_logout : ℕ → Server → Server
unfolding deauthenticate_session
handle_logout who s = reply who (sent (codes "auth_required")) (deauthenticate_session who true s)

-- A turn of the loop over the connections in `ws_revoke_user_sessions`.
unfoldable pub revoke_client : Bytes → ℕ → Server → Server
unfolding deauthenticate_session
revoke_client username who s =
    let c = s.clients who in
    if not c.authenticated || not (bytes_eq c.username username)
    then s
    else reply who (sent (codes "auth_required")) (deauthenticate_session who false s)

unfoldable pub revoke_clients : Bytes → List ℕ → Server → Server
unfolding revoke_client
revoke_clients username [] s = s
revoke_clients username (who ∷ connected) s =
    revoke_clients username connected (revoke_client username who s)

abbrev pub is_idle : JobState → Bool
is_idle idle = true
is_idle validating = false
is_idle ready = false
is_idle failed = false

unfoldable pub cancel_job_of : Bytes → Server → Server
unfolding firmware_job_cancel
cancel_job_of username s =
    if not (is_idle s.job.state) && bytes_eq s.job.username username
    then firmware_job_cancel s
    else s

unfoldable pub ws_revoke_user_sessions : Bytes → Server → Server
unfolding session_revoke_user cancel_job_of revoke_clients
ws_revoke_user_sessions username s =
    let s1 =
      cancel_job_of username (record s { sessions = session_revoke_user username s.sessions }) in
    if is_empty username then s else revoke_clients username s1.connected s1
