-- ===== src/Web/Sound/Gate.antt =====
-- The invariant is kept by the logins and by the check before a request.
use meraki_builder.Prelude.{
  ℕ, Bytes, Bool, true, false, not, List, [], ◌∷◌, Option, none, some, ltb, ◌||◌, ◌&&◌, refl,
  if_both, bytes_eq, take,
}
use meraki_builder.Roles.Account.{Role, role_none, role_for_username}
use meraki_builder.Session.Table.{Table, session_create, session_lookup, session_revoke_user}
use meraki_builder.Throttle.Buckets.{auth_retry_after_ms, auth_record_failure, auth_record_success}
use meraki_builder.Auth.Verify.{is_none, auth_verify_user}
use meraki_builder.Auth.Manage.{is_success, answer_of_verdict}
use meraki_builder.Web.State.{Server, put_client, is_empty}
use meraki_builder.Web.Job.{cleanup_upload}
use meraki_builder.Web.Gate.{
  Env, revoked_token, deauthenticate_session, turned_away, with_current_role, found_session,
  revalidate_session, Login, session_ttl, logged_in, with_session, handle_auth, take_session,
  known_session, handle_auth_token, handle_logout, revoke_client, revoke_clients, is_idle,
  cancel_job_of, ws_revoke_user_sessions,
}
use meraki_builder.Web.Sound.{Good, put_alike}
use meraki_builder.Web.Sound.Validation.{cleanup_Good, cancel_Good}

-- A change of who the connection is says nothing of its upload.
login_Good :
    (who : ℕ) (role : Role) (authenticated : Bool) (username session_token : Bytes) (s : Server)
    → Good s
    → Good (
        put_client who
          (record (s.clients who) {
            authenticated = authenticated;
            role = role;
            username = username;
            session_token = session_token;
          })
          s)
login_Good who role authenticated username session_token s g =
    put_alike who
      (record (s.clients who) {
        authenticated = authenticated;
        role = role;
        username = username;
        session_token = session_token;
      })
      s
      (record { same_active = refl; same_path = refl; same_expected = refl; same_received = refl })
      g

revoked_Good : (b : Bool) (token : Bytes) (s : Server) → Good s → Good (revoked_token b token s)
revoked_Good b token s g = if_both Good (b && not (is_empty token)) _ _ (λ e. g) (λ e. g)

pub deauthenticate_Good :
    (who : ℕ) (b : Bool) (s : Server) → Good s → Good (deauthenticate_session who b s)
unfolding deauthenticate_session
deauthenticate_Good who b s g =
    let s1 = cleanup_upload who (revoked_token b (s.clients who).session_token s) in
    login_Good who role_none false [] [] s1 (
      cleanup_Good who (revoked_token b (s.clients who).session_token s)
        (revoked_Good b (s.clients who).session_token s g))

pub turned_away_Good :
    (who : ℕ) (b : Bool) (code : ℕ) (s : Server) → Good s → Good (turned_away who b code s)
unfolding turned_away
turned_away_Good who b code s g = deauthenticate_Good who b s g

current_role_Good :
    (env : Env) (who : ℕ) (username : Bytes) (s : Server)
    → Good s
    → Good (with_current_role env who username s).1
unfolding with_current_role
current_role_Good env who username s g =
    let role = role_for_username env.system username in
    if_both (λ (r : Bool × Server). Good r.1) (is_none role) _ _
      (λ e. turned_away_Good who true 403 s g)
      (λ e.
        login_Good who role (s.clients who).authenticated (s.clients who).username
          (s.clients who).session_token s g)

found_session_Good :
    (env : Env) (who : ℕ) (o : Option Bytes) (s : Server)
    → Good s
    → Good (found_session env who o s).1
unfolding found_session
found_session_Good env who none s g = turned_away_Good who false 401 s g
found_session_Good env who (some username) s g =
    if_both (λ (r : Bool × Server). Good r.1) (not (bytes_eq username (s.clients who).username)) _ _
      (λ e. turned_away_Good who false 401 s g) (λ e. current_role_Good env who username s g)

pub revalidate_Good :
    (env : Env) (who : ℕ) (s : Server) → Good s → Good (revalidate_session env who s).1
unfolding revalidate_session
revalidate_Good env who s g =
    let c = s.clients who in
    let looked = session_lookup c.session_token env.now 65 s.sessions in
    if_both (λ (r : Bool × Server). Good r.1) (not c.authenticated || is_empty c.session_token) _ _
      (λ e. turned_away_Good who false 401 s g)
      (λ e. found_session_Good env who looked.1 (record s { sessions = looked.0 }) g)

with_session_Good :
    (who : ℕ) (username : Bytes) (r : Table × Option Bytes) (s : Server)
    → Good s
    → Good (with_session who username r s)
unfolding with_session
with_session_Good who username (table, none) s g =
    turned_away_Good who true 503 (record s { sessions = table }) g
with_session_Good who username (table, some token) s g =
    login_Good who (s.clients who).role true (take 64 username) (take 64 token)
      (record s { sessions = table }) g

pub auth_Good :
    (env : Env) (who : ℕ) (peer : Bytes) (q : Login) (s : Server)
    → Good s
    → Good (handle_auth env who peer q s)
unfolding handle_auth
auth_Good env who peer q s g =
    let (retry_after, waited) = auth_retry_after_ms q.username peer env.clock s.buckets in
    let s1 = record s { buckets = waited } in
    let role = role_for_username env.system q.username in
    if_both Good (ltb 0 retry_after) _ _ (λ e. g)
      (λ e.
        if_both Good
          (not q.given
            || not (
                is_success (
                  answer_of_verdict (auth_verify_user env.crypt env.system q.username q.password))))
          _ _
          (λ f.
            turned_away_Good who true 401
              (record s1 {
                buckets = auth_record_failure q.username peer env.clock_after s1.buckets;
              })
              g)
          (λ f.
            if_both Good (is_none role) _ _
              (λ h. login_Good who role_none false [] (s1.clients who).session_token s1 g)
              (λ h.
                let s2 =
                  put_client who (record (s1.clients who) { role = role })
                    (record s1 { buckets = auth_record_success q.username peer s1.buckets }) in
                with_session_Good who q.username
                  (session_create q.username (session_ttl q.remember) env.now env.random
                    s2.sessions)
                  s2
                  (login_Good who role (s1.clients who).authenticated (s1.clients who).username
                    (s1.clients who).session_token
                    (record s1 { buckets = auth_record_success q.username peer s1.buckets }) g))))

take_session_Good :
    (env : Env) (who : ℕ) (token username : Bytes) (s : Server)
    → Good s
    → Good (take_session env who token username s)
unfolding take_session
take_session_Good env who token username s g =
    let c = s.clients who in
    let role = role_for_username env.system username in
    let other = not (bytes_eq c.session_token token) in
    if_both Good (is_none role) _ _ (λ e. g)
      (λ e.
        let s1 = revoked_token other c.session_token s in
        if_both
          (λ (t : Server).
            Good (put_client who (record (logged_in username token c) { role = role }) t))
          (other && not (is_empty c.session_token)) _ _
          (λ f. login_Good who role true (take 64 username) (take 64 token) s g)
          (λ f. login_Good who role true (take 64 username) (take 64 token) s g))

known_session_Good :
    (env : Env) (who : ℕ) (token : Bytes) (o : Option Bytes) (s : Server)
    → Good s
    → Good (known_session env who token o s)
unfolding known_session
known_session_Good env who token none s g = g
known_session_Good env who token (some username) s g = take_session_Good env who token username s g

pub auth_token_Good :
    (env : Env) (who : ℕ) (o : Option Bytes) (s : Server)
    → Good s
    → Good (handle_auth_token env who o s)
unfolding handle_auth_token
auth_token_Good env who none s g = g
auth_token_Good env who (some token) s g =
    let looked = session_lookup token env.now 65 s.sessions in
    known_session_Good env who token looked.1 (record s { sessions = looked.0 }) g

pub logout_Good : (who : ℕ) (s : Server) → Good s → Good (handle_logout who s)
unfolding handle_logout
logout_Good who s g = deauthenticate_Good who true s g

revoke_client_Good :
    (username : Bytes) (who : ℕ) (s : Server) → Good s → Good (revoke_client username who s)
unfolding revoke_client
revoke_client_Good username who s g =
    if_both Good
      (not (s.clients who).authenticated || not (bytes_eq (s.clients who).username username)) _ _
      (λ e. g) (λ e. deauthenticate_Good who false s g)

revoke_clients_Good :
    (username : Bytes) (connected : List ℕ) (s : Server)
    → Good s
    → Good (revoke_clients username connected s)
unfolding revoke_clients
revoke_clients_Good username [] s g = g
revoke_clients_Good username (who ∷ connected) s g =
    revoke_clients_Good username connected (revoke_client username who s)
      (revoke_client_Good username who s g)

cancel_job_Good : (username : Bytes) (s : Server) → Good s → Good (cancel_job_of username s)
unfolding cancel_job_of
cancel_job_Good username s g =
    if_both Good (not (is_idle s.job.state) && bytes_eq s.job.username username) _ _
      (λ e. cancel_Good s g) (λ e. g)

pub revoke_Good :
    (username : Bytes) (s : Server) → Good s → Good (ws_revoke_user_sessions username s)
unfolding ws_revoke_user_sessions
revoke_Good username s g =
    let s0 = record s { sessions = session_revoke_user username s.sessions } in
    let s1 = cancel_job_of username s0 in
    if_both Good (is_empty username) _ _ (λ e. g)
      (λ e. revoke_clients_Good username s1.connected s1 (cancel_job_Good username s0 g))
