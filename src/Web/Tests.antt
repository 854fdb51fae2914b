-- ===== src/Web/Tests.antt =====
-- An upload of two bytes, from the login by a token to the start of the updater.
use meraki_builder.Prelude.{
  ◌≤◌, Bytes, Bool, true, false, List, [], ◌∷◌, ◌++◌, none, some, ◌≡◌, refl, arith, if◌then◌else◌,
  bytes_eq, codes, replicate, All,
}
use meraki_builder.Libc.{strtoul, tokens, trim_newline, c_string}
use meraki_builder.Roles.Fields.{fgets_lines, fields_of}
use meraki_builder.Roles.Account.{role_for_username}
use meraki_builder.Roles.Capability.{role_has_capability}
use meraki_builder.Session.Table.{Table, purge_expired, session_lookup, find, ct_equal, ct_loop}
use meraki_builder.Web.State.{Server, Order, Call, created, wrote, removed, forked, waited, started}
use meraki_builder.Web.Job.{child_ended}
use meraki_builder.Web.Gate.{Env}
use meraki_builder.Web.Upload.{receive_binary, Start, no_manifest, written, write_interrupted}
use meraki_builder.Web.Serve.{
  Event, connect, request, binary, poll, auth_token, firmware_upload_start, firmware_upload_finish,
  firmware_begin_flash, checked, handle_request, step, steps,
}
use meraki_builder.Web.Log.{Flashable}
use meraki_builder.Web.Run.{IsShort, new_server, started-Flashable}
use meraki_builder.Web.Deliver.{Open, GoesOn, progress, Delivered, receive_binary-Delivered}

abbrev newline : Bytes
newline = 10 ∷ []

abbrev env : Env
env = record {
  system = record {
    getenv = λ name. none;
    files = λ path.
        if bytes_eq path (codes "/etc/passwd")
        then some (codes "root:x:0:0:r:/:/s" ++ newline)
        else none;
  };
  crypt = λ password hash. none;
  now = 10;
  clock = 10;
  clock_after = 10;
  random = none;
}

abbrev token : Bytes
token = replicate 64 b'a'

abbrev sessions : Table
sessions = record { token = token; username = codes "root"; expires_at = 20 } ∷ []

abbrev start : Start
start = record {
  sized = true;
  size = 2;
  name = codes "fw.bin";
  overlay = codes "preserve";
  force = false;
  accept_untested = false;
  manifest = no_manifest;
  token = codes "1";
  purged = [];
  opened = true;
}

abbrev events : List Event
events =
    connect 3
    ∷ request env 3 (auth_token (some token))
    ∷ request env 3 (firmware_upload_start start)
    ∷ binary 3 (1 ∷ 2 ∷ []) (written 1 ∷ write_interrupted ∷ written 1 ∷ [])
    ∷ request env 3 (firmware_upload_finish true (some 7))
    ∷ poll (child_ended true [])
    ∷ request env 3 (firmware_begin_flash (some (codes "1")) true)
    ∷ []

abbrev order : Order
order = record {
  path = codes "/run/fwupdate/uploads/1.bin";
  name = codes "fw.bin";
  manifest_path = [];
  overlay = codes "preserve";
  force = false;
  accept_untested = false;
}

abbrev verify_file : Bytes
verify_file = codes "/run/fwupdate/uploads/1.verify"

abbrev earlier : List Call
earlier =
    removed verify_file
    ∷ waited 7 true
    ∷ forked 7 order
    ∷ wrote order.path (2 ∷ [])
    ∷ wrote order.path (1 ∷ [])
    ∷ created order.path
    ∷ []

events-IsShort : All IsShort events
unfolding IsShort
events-IsShort = (tt, (tt, (tt, (omega arith, (tt, (tt, (tt, tt)))))))

abbrev runs : Bool
unfolding steps step handle_request checked role_for_username bytes_eq strtoul tokens trim_newline
    c_string fgets_lines fields_of role_has_capability session_lookup purge_expired find ct_equal
    ct_loop
runs = true

flashes :
    (steps events (new_server sessions [])).log ≡ removed verify_file ∷ started order ∷ earlier
unfolding runs
flashes = refl

started-Flashable_example : Flashable order earlier
started-Flashable_example =
    started-Flashable events sessions [] order (removed verify_file ∷ []) earlier events-IsShort
      flashes

abbrev opened : Server
unfolding steps
opened =
    steps
      (connect 3
        ∷ request env 3 (auth_token (some token))
        ∷ request env 3 (firmware_upload_start start)
        ∷ [])
      (new_server sessions [])

opened-Open : Open 3 2 opened
unfolding runs
opened-Open = record {
  authenticated = refl;
  active = refl;
  has_file = refl;
  owns = refl;
  room = omega arith;
  in_range = omega arith;
}

goes_on : All GoesOn (written 1 ∷ write_interrupted ∷ written 1 ∷ [])
unfolding GoesOn
goes_on = (tt, (tt, (tt, tt)))

enough_writes : 2 ≤ progress (written 1 ∷ write_interrupted ∷ written 1 ∷ [])
unfolding progress
enough_writes = omega arith

receive_binary-Delivered_example :
    Delivered 3
      (1 ∷ 2 ∷ [])
      opened
      (receive_binary 3 (1 ∷ 2 ∷ []) (written 1 ∷ write_interrupted ∷ written 1 ∷ []) opened)
receive_binary-Delivered_example =
    receive_binary-Delivered 3 (1 ∷ 2 ∷ []) (written 1 ∷ write_interrupted ∷ written 1 ∷ []) opened
      opened-Open goes_on enough_writes
