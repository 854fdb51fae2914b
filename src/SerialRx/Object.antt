-- ===== src/SerialRx/Object.antt =====
-- The state of a transfer and the three operations on an object: `object_begin`, `object_data`
-- and `object_end`, with `write_all` and `sha256_file` under them.
use meraki_builder.Prelude.{
  ℕ, ◌+◌, ◌-◌, ◌%◌, ◌^◌, Bytes, Bool, true, false, not, List, [], ◌∷◌, ◌++◌, Option, none, some,
  ◌==◌, ltb, leb, if◌then◌else◌, ◌&&◌, ◌||◌, length, take, drop, codes,
}
use meraki_builder.Posix.{Files, put_file, unlink, append_file}
use meraki_builder.SerialRx.Fields.{
  valid_hash, lowercase_hash, valid_name, parse_u64, parse_u32, parse_hex_u32,
}
use meraki_builder.SerialRx.Crc.{crc32_bytes}
use meraki_builder.SerialRx.Base64.{decode_base64}

pub data Kind : Type 0 where
  firmware manifest : Kind

abbrev pub same_kind : Kind → Kind → Bool
same_kind firmware firmware = true
same_kind manifest manifest = true
same_kind _ _ = false

-- `fd_open` is `fd >= 0`.
pub record Object : Type 0 where
  pub destination : Bytes
  pub part_path : Bytes
  pub name : Bytes
  pub expected_hash : Bytes
  pub expected_size : ℕ
  pub received : ℕ
  pub next_sequence : ℕ
  pub last_sequence : ℕ
  pub last_crc : ℕ
  pub fd_open : Bool
  pub started : Bool
  pub complete : Bool

-- The lines that the receiver prints.
pub data Reply : Type 0 where
  ready : ℕ → ℕ → Reply
  begin_ack : Kind → Reply
  ack : Kind → ℕ → Reply
  object_ok : Kind → ℕ → Bytes → Reply
  completed : Bytes → Bytes → Reply
  error : Bytes → Reply

pub record Receiver : Type 0 where
  pub firmware_object : Object
  pub manifest_object : Object
  pub active_object : Option Kind
  pub files : Files
  pub replies : List Reply

abbrev pub object : Receiver → Kind → Object
object r firmware = r.firmware_object
object r manifest = r.manifest_object

abbrev pub set_object : Receiver → Kind → Object → Receiver
set_object r firmware o = record r { firmware_object = o }
set_object r manifest o = record r { manifest_object = o }

abbrev pub say : Reply → Receiver → Receiver
say reply r = record r { replies = r.replies ++ reply ∷ [] }

abbrev pub with_files : Files → Receiver → Receiver
with_files fs r = record r { files = fs }

abbrev pub is_active : Receiver → Kind → Bool
is_active r kind = elim r.active_object [ none ↦ false | some k ↦ same_kind k kind ]

abbrev pub any_active : Receiver → Bool
any_active r = elim r.active_object [ none ↦ false | some k ↦ true ]

-- A call of `write` gives a count of at most the bytes offered, an interruption, or an error. The
-- results of the successive calls are a list; a call beyond its end is an error.
pub data Written : Type 0 where
  wrote : ℕ → Written
  interrupted : Written
  failed : Written

-- What the system calls that one command makes give.
pub record Calls : Type 0 where
  pub open_ok : Bool
  pub writes : List Written
  pub fsync_ok : Bool
  pub close_ok : Bool
  pub hash_ok : Bool
  pub rename_ok : Bool

-- What reached the file, and whether all of it did.
unfoldable pub write_all : List Written → Bytes → Bytes → Bytes × Bool
write_all [] [] out = (out, true)
write_all [] (b ∷ s) out = (out, false)
write_all (w ∷ ws) [] out = (out, true)
write_all (interrupted ∷ ws) (b ∷ s) out = write_all ws (b ∷ s) out
write_all (failed ∷ ws) (b ∷ s) out = (out, false)
write_all (wrote n ∷ ws) (b ∷ s) out = elim (n == 0) [
  | true ↦ (out, false)
  | false ↦ write_all ws (drop n (b ∷ s)) (out ++ take n (b ∷ s))
]

-- `PATH_SIZE` of `part_path`.
abbrev part_size : ℕ
part_size = 512

abbrev pub part_of : Bytes → Bytes
part_of destination = destination ++ codes ".part"

-- The fields that a successful `object_begin` sets.
abbrev pub opened_object : Object → Bytes → ℕ → Bytes → Bytes → Object
opened_object o part size hash name = record o {
  part_path = part;
  fd_open = true;
  expected_size = size;
  received = 0;
  next_sequence = 0;
  last_sequence = 2 ^ 32 - 1;
  last_crc = 0;
  expected_hash = lowercase_hash hash;
  name = name;
  started = true;
}

-- `open` with `O_CREAT | O_EXCL` after the old file is removed.
unfoldable pub begin_file : Calls → Receiver → Kind → ℕ → Bytes → Bytes → Receiver × Bool
begin_file calls r kind size hash name =
    let o = object r kind in
    let part = part_of o.destination in
    let removed = unlink part r.files in
    if leb part_size (length part)
    then (set_object r kind (record o { part_path = take (part_size - 1) part }), false)
    else if not calls.open_ok
    then (
      with_files removed (set_object r kind (record o { part_path = part; fd_open = false })),
      false,
    )
    else (
      record (with_files (put_file part [] removed)
          (set_object r kind (opened_object o part size hash name))) { active_object = some kind },
      true,
    )

unfoldable pub object_begin : Calls → Receiver → Kind → Bytes → Bytes → Bytes → ℕ → Receiver × Bool
unfolding begin_file
object_begin calls r kind size_text hash name maximum = elim (parse_u64 size_text) [
  | none ↦ (r, false)
  | some size ↦
      if (object r kind).started
        || (object r kind).complete
        || any_active r
        || ltb maximum size
        || not (valid_hash hash)
        || not (valid_name name)
      then (r, false)
      else begin_file calls r kind size hash name
]

-- The three results of `object_data`: -1, 0 and 1.
pub data Status : Type 0 where
  rejected stored duplicate : Status

-- The fields that an accepted frame sets.
abbrev pub counted_object : Object → ℕ → ℕ → ℕ → Object
counted_object o sequence crc count = record o {
  received = (o.received + count) % 2 ^ 64;
  last_sequence = sequence;
  last_crc = crc;
  next_sequence = (o.next_sequence + 1) % 2 ^ 32;
}

-- The decoded bytes are written and counted.
unfoldable pub store_data : Calls → Receiver → Kind → ℕ → ℕ → Bytes → Receiver × Status
unfolding write_all
store_data calls r kind sequence crc decoded =
    let o = object r kind in
    let (written, done) = write_all calls.writes decoded [] in
    let files = append_file o.part_path written r.files in
    if not done then (with_files files r, rejected) else (
      say (ack kind sequence)
          (with_files files (set_object r kind (counted_object o sequence crc (length decoded)))),
      stored,
    )

-- A frame with the sequence number that is due.
unfoldable pub next_data : Calls → Receiver → Kind → ℕ → ℕ → Bytes → Receiver × Status
unfolding store_data
next_data calls r kind sequence crc payload =
    if length payload == 0 || ltb 4096 (length payload)
    then (r, rejected)
    else elim (decode_base64 3072 payload) [
      | none ↦ (r, rejected)
      | some decoded ↦
          if length decoded == 0
            || ltb (object r kind).expected_size
                (((object r kind).received + length decoded) % 2 ^ 64)
            || not (crc32_bytes decoded == crc)
          then (r, rejected)
          else store_data calls r kind sequence crc decoded
    ]

unfoldable pub numbered_data : Calls → Receiver → Kind → ℕ → ℕ → Bytes → Receiver × Status
unfolding next_data
numbered_data calls r kind sequence crc payload =
    let o = object r kind in
    if (sequence + 1) % 2 ^ 32 == o.next_sequence
      && o.last_sequence == sequence
      && o.last_crc == crc
    then (say (ack kind sequence) r, duplicate)
    else if not (sequence == o.next_sequence)
    then (r, rejected)
    else next_data calls r kind sequence crc payload

unfoldable pub object_data : Calls → Receiver → Kind → Bytes → Bytes → Bytes → Receiver × Status
unfolding numbered_data
object_data calls r kind sequence_text crc_text payload =
    if not (is_active r kind) || not (object r kind).fd_open
    then (r, rejected)
    else elim (parse_u32 sequence_text) [
      | none ↦ (r, rejected)
      | some sequence ↦ elim (parse_hex_u32 crc_text) [
        | none ↦ (r, rejected)
        | some crc ↦ numbered_data calls r kind sequence crc payload
      ]
    ]
