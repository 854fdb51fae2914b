-- ===== src/Web/State.antt =====
-- The state of a connection and of the server. Left out are the replies that wait to be sent, the
-- receive buffer, the terminal and the marks that a status or a configuration is to be sent.
use meraki_builder.Prelude.{
  ℕ, ◌*◌, Bytes, Bool, true, false, List, [], ◌∷◌, Option, none, some, ◌==◌, if◌then◌else◌,
}
use meraki_builder.Roles.Account.{Role, role_none}
use meraki_builder.Session.Table.{Table}
use meraki_builder.Throttle.Buckets.{Buckets}

-- A connection. `upload_ready` is left out, since the code only ever clears it. `upload_fd` says whether the descriptor is one, that is not -1.
pub record Client : Type 0 where
  pub authenticated : Bool
  pub role : Role
  pub username : Bytes
  pub session_token : Bytes
  pub upload_active : Bool
  pub upload_handed_off : Bool
  pub upload_fd : Bool
  pub upload_path : Bytes
  pub upload_manifest_path : Bytes
  pub upload_name : Bytes
  pub upload_overlay : Bytes
  pub upload_token : Bytes
  pub upload_expected : ℕ
  pub upload_received : ℕ
  pub upload_force : Bool
  pub upload_accept_untested : Bool

abbrev pub new_client : Client
new_client = record {
  authenticated = false;
  role = role_none;
  username = [];
  session_token = [];
  upload_active = false;
  upload_handed_off = false;
  upload_fd = false;
  upload_path = [];
  upload_manifest_path = [];
  upload_name = [];
  upload_overlay = [];
  upload_token = [];
  upload_expected = 0;
  upload_received = 0;
  upload_force = false;
  upload_accept_untested = false;
}

pub data JobState : Type 0 where
  idle validating ready failed : JobState

-- What the validator and the updater are called with.
pub record Order : Type 0 where
  pub path : Bytes
  pub name : Bytes
  pub manifest_path : Bytes
  pub overlay : Bytes
  pub force : Bool
  pub accept_untested : Bool

-- `firmware_job`, of which `order` has the six fields that are passed on together.
pub record Job : Type 0 where
  pub state : JobState
  pub pid : ℕ
  pub username : Bytes
  pub token : Bytes
  pub order : Order
  pub error_path : Bytes
  pub error : Bytes
  pub expected : ℕ
  pub received : ℕ

abbrev pub no_order : Order
no_order = record {
  path = [];
  name = [];
  manifest_path = [];
  overlay = [];
  force = false;
  accept_untested = false;
}

abbrev pub no_job : Job
no_job = record {
  state = idle;
  pid = 0;
  username = [];
  token = [];
  order = no_order;
  error_path = [];
  error = [];
  expected = 0;
  received = 0;
}

-- What the code does outside: a file of an upload is created, written to or removed, a validator is
-- started, waited for or killed, the updater is called to start.
pub data Call : Type 0 where
  created : Bytes → Call
  wrote : Bytes → Bytes → Call
  removed : Bytes → Call
  forked : ℕ → Order → Call
  waited : ℕ → Bool → Call
  killed : ℕ → Call
  started : Order → Call

-- The answer to a request: the text of its type, or the number of an error.
pub data Reply : Type 0 where
  sent : Bytes → Reply
  error_reply : ℕ → Reply

-- The connections by number, the numbers of the open ones, the one that uploads, the job, the
-- calls so far, the latest first, the sessions, the delays after failed logins, and the replies so
-- far.
pub record Server : Type 0 where
  pub clients : ℕ → Client
  pub connected : List ℕ
  pub upload_owner : Option ℕ
  pub job : Job
  pub log : List Call
  pub sessions : Table
  pub buckets : Buckets
  pub replies : List (ℕ × Reply)

-- Small parts of the operations.
abbrev pub put_client : ℕ → Client → Server → Server
put_client who c s = record s { clients = λ n. if n == who then c else s.clients n }

abbrev pub call : Call → Server → Server
call k s = record s { log = k ∷ s.log }

abbrev pub set_job : Job → Server → Server
set_job j s = record s { job = j }

abbrev pub reply : ℕ → Reply → Server → Server
reply who r s = record s { replies = (who, r) ∷ s.replies }

abbrev pub is_empty : Bytes → Bool
is_empty [] = true
is_empty (c ∷ s) = false

-- `if (path[0]) unlink(path)`.
abbrev pub unlink_named : Bytes → Server → Server
unlink_named path s = if is_empty path then s else call (removed path) s

abbrev pub owned_by : Option ℕ → ℕ → Bool
owned_by none who = false
owned_by (some owner) who = owner == who

abbrev pub release_owner : ℕ → Server → Server
release_owner who s = if owned_by s.upload_owner who then record s { upload_owner = none } else s

abbrev pub max_firmware_upload : ℕ
max_firmware_upload = 16 * 1024 * 1024
