-- ===== src/Web/Admit.antt =====
-- Who may have a firmware request carried out.
use meraki_builder.Prelude.{ℕ, Bytes, Bool, true, false, Option, ◌≡◌, take}
use meraki_builder.Roles.Account.{Role, role_for_username}
use meraki_builder.Roles.Capability.{role_has_capability}
use meraki_builder.Roles.Grant.{Granted}
use meraki_builder.Session.Table.{Entry, Table}
use meraki_builder.Session.Revocation.{Live}
use meraki_builder.Web.State.{Server, reply, error_reply}
use meraki_builder.Web.Gate.{Env, revalidate_session}
use meraki_builder.Web.Upload.{
  Start, handle_cancel, handle_start, handle_finish, handle_begin_flash,
}
use meraki_builder.Web.Serve.{
  Request, firmware_upload_cancel, firmware_upload_start, firmware_upload_finish,
  firmware_begin_flash, firmware_update,
}

-- The session of the connection stands in the table and has not expired, and it is of the
-- connection's user, whose account has the role.
pub record Admitted (env : Env) (who : ℕ) (role : Role) (s : Server) : Type 0 where
  pub found : Entry
  pub live : Live (s.clients who).session_token env.now s.sessions found
  pub same_name : (s.clients who).username ≡ take 64 found.username
  pub current : role_for_username env.system (s.clients who).username ≡ role

-- What the check of the session gives, if it lets the request pass.
record Passes (env : Env) (who : ℕ) (s : Server) (r : Bool × Server) : Type 0 where
  passes : r.0 ≡ true → Admitted env who (r.1.clients who).role s

-- The firmware requests of a connection, and the work of each.
pub data Firmware (who : ℕ) : Request → (Server → Server) → Type 0 where
  cancels : Firmware who firmware_upload_cancel (handle_cancel who)
  starts : (start : Start) → Firmware who (firmware_upload_start start) (handle_start who start)
  finishes :
      (synced : Bool) (child : Option ℕ)
      → Firmware who (firmware_upload_finish synced child) (handle_finish who synced child)
  flashes :
      (token : Option Bytes) (begun : Bool)
      → Firmware who (firmware_begin_flash token begun) (handle_begin_flash who token begun)

-- How a firmware request ends: the session is not good any more, or its role does not have the
-- capability, in which cases the work is not done; or the work is done by a connection whose
-- session is live and whose role has the capability by the account files.
pub data Served (env : Env) (who : ℕ) (work : Server → Server) (s : Server) : Server → Type 0 where
  without_session :
      (revalidate_session env who s).0 ≡ false
      → Served env who work s (revalidate_session env who s).1
  without_role :
      (role : Role)
      → Admitted env who role s
      → role_has_capability role firmware_update ≡ false
      → Served env who work s (reply who (error_reply 403) (revalidate_session env who s).1)
  carried_out :
      (role : Role)
      → Admitted env who role s
      → Granted env.system (s.clients who).username role
      → Served env who work s (work (revalidate_session env who s).1)
