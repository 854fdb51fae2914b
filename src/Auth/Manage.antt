-- ===== src/Auth/Manage.antt =====
-- Changes of passwords. The changes of accounts run the programs chpasswd, adduser, deluser, addgroup and delgroup, which
-- are parameters, like the state of the system that they change.
use meraki_builder.Prelude.{
  ℕ, zero, suc, Bytes, Bool, true, false, not, List, [], ◌∷◌, ◌++◌, Option, none, some, ◌==◌, ltb,
  ◌&&◌, ◌||◌, if◌then◌else◌, bytes_eq, codes, length,
}
use meraki_builder.Roles.Account.{System, role_for_username}
use meraki_builder.Auth.Accounts.{AccountRecord, safe_username, account_by_name, is_some}
use meraki_builder.Auth.Verify.{
  Verdict, verified, invalid_credentials, not_authorized, unavailable, locked, failed,
  auth_verify_user, is_none,
}

-- How a program ended; or the error number of the call that starts it or waits for it.
pub data Ended : Type 0 where
  exited : ℕ → Ended
  killed : Ended
  not_run : ℕ → Ended

-- What the code is given: the files that a state of the system has, `crypt`, the programs, with
-- their arguments or the text that chpasswd reads, and `unlink`.
pub record Commands (World : Type 0) : Type 0 where
  pub system : World → System
  pub crypt : Bytes → Bytes → Option Bytes
  pub chpasswd : Bytes → World → Ended × World
  pub execute : List Bytes → World → Ended × World
  pub unlink : Bytes → World → World

-- The return values: 0, -ENOENT, -EINVAL, -EACCES, -EPERM, -EIO and another negated error number.
pub data Answer : Type 0 where
  success : Answer
  no_entry invalid_argument access_denied not_permitted input_output : Answer
  negated : ℕ → Answer

abbrev pub is_success : Answer → Bool
is_success success = true
is_success no_entry = false
is_success invalid_argument = false
is_success access_denied = false
is_success not_permitted = false
is_success input_output = false
is_success (negated errno) = false

abbrev pub answer_of : Ended → Answer
answer_of (exited zero) = success
answer_of (exited (suc n)) = input_output
answer_of killed = input_output
answer_of (not_run errno) = negated errno

abbrev pub answer_of_verdict : Verdict → Answer
answer_of_verdict verified = success
answer_of_verdict invalid_credentials = invalid_argument
answer_of_verdict not_authorized = access_denied
answer_of_verdict unavailable = access_denied
answer_of_verdict locked = access_denied
answer_of_verdict failed = access_denied

unfoldable pub has_char : ℕ → Bytes → Bool
has_char x [] = false
has_char x (c ∷ s) = c == x || has_char x s

-- The test of a new password, of which a null pointer fails.
unfoldable pub bad_password : Option Bytes → Bool
unfolding has_char
bad_password none = true
bad_password (some new) =
    ltb (length new) 8
    || ltb 128 (length new)
    || has_char 10 new
    || has_char 13 new
    || has_char b':' new

abbrev pub or_empty : Option Bytes → Bytes
or_empty none = []
or_empty (some s) = s

abbrev pub input_for : Bytes → Bytes → Bytes
input_for username new_password = username ++ (codes ":" ++ (new_password ++ (10 ∷ [])))

abbrev pub admin_name : Bytes
admin_name = codes "root"

abbrev pub default_password_mark : Bytes
default_password_mark = codes "/config/postmerkos/default-password-active"

module _ (World : Type 0) (sys : Commands World) where
  abbrev pub answered : Ended × World → Answer × World
  answered (e, w) = (answer_of e, w)

  unfoldable pub run_chpasswd : Bytes → Bytes → World → Answer × World
  run_chpasswd username new_password w = answered (sys.chpasswd (input_for username new_password) w)

  unfoldable pub run_command : List Bytes → World → Answer × World
  run_command args w = answered (sys.execute args w)

  -- The mark of the default password goes away with it.
  abbrev pub unmark : Bytes → Answer × World → Answer × World
  unmark target (rc, w) =
      if is_success rc && bytes_eq target admin_name
      then (rc, sys.unlink default_password_mark w)
      else (rc, w)

  unfoldable pub change_as : Bytes → Bytes → Bytes → World → Option AccountRecord → Answer × World
  unfolding run_chpasswd
  change_as actor target new w none = (no_entry, w)
  change_as actor target new w (some actor_entry) =
      if not (actor_entry.uid == 0) && not (bytes_eq actor target)
      then (access_denied, w)
      else unmark target (run_chpasswd target new w)

  unfoldable pub auth_change_password :
      Bytes → Bytes → Option Bytes → Option Bytes → World → Answer × World
  unfolding safe_username account_by_name role_for_username bad_password auth_verify_user change_as
  auth_change_password actor target actor_password new_password w =
      let system = sys.system w in
      if not (safe_username actor)
        || not (safe_username target)
        || not (is_some (account_by_name system target))
        || is_none (role_for_username system target)
      then (no_entry, w)
      else if bad_password new_password
      then (invalid_argument, w)
      else let rc = answer_of_verdict (auth_verify_user sys.crypt system actor actor_password) in
        if not (is_success rc)
        then (rc, w)
        else change_as actor target (or_empty new_password) w (account_by_name system actor)
