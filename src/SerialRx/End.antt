-- ===== src/SerialRx/End.antt =====
-- `object_end`, with `sha256_file`, and `metadata_write`. The program `sha256sum` is a parameter: what it prints
-- for a file of the given content.
use meraki_builder.Prelude.{
  Bytes, Bool, true, false, not, [], ◌∷◌, ◌++◌, Option, none, some, ◌==◌, leb, if◌then◌else◌, ◌||◌,
  length, take, map, bytes_eq, codes,
}
use meraki_builder.Libc.{tolower, decimal}
use meraki_builder.Posix.{put_file, unlink, rename}
use meraki_builder.SerialRx.Fields.{hash_hex_bytes, valid_hash, parse_u32}
use meraki_builder.SerialRx.Object.{
  Kind, Receiver, Calls, object_ok, object, set_object, say, with_files, is_active, write_all,
}

module _ (sha256sum : Bytes → Bytes) where
  -- The first 64 bytes that the program prints, in lower case, if they are a hash.
  unfoldable pub sha256_file : Bool → Option Bytes → Option Bytes
  sha256_file hash_ok none = none
  sha256_file hash_ok (some content) =
      let output = take hash_hex_bytes (sha256sum content) in
      if not hash_ok || not (length output == hash_hex_bytes) || not (valid_hash output)
      then none
      else some (map tolower output)

  -- The file is closed; its hash is compared, and it is put in place.
  unfoldable pub install : Calls → Receiver → Kind → Receiver × Bool
  install calls r kind =
      let o = object r kind in
      let closed = set_object r kind (record o { fd_open = false }) in
      elim (sha256_file calls.hash_ok (r.files o.part_path)) [
        | none ↦ (closed, false)
        | some actual ↦
            if not (bytes_eq actual o.expected_hash) || not calls.rename_ok
            then (closed, false)
            else (
              record (say (object_ok kind o.expected_size o.expected_hash) (
                  with_files (rename o.part_path o.destination r.files) (
                    set_object r kind
                      (record o { fd_open = false; part_path = []; complete = true })))) {
                        active_object = none;
                      },
              true,
            )
      ]

  unfoldable pub object_end : Calls → Receiver → Kind → Bytes → Receiver × Bool
  unfolding install
  object_end calls r kind frames_text =
      let o = object r kind in
      if not (is_active r kind) || not o.fd_open then (r, false) else elim (parse_u32 frames_text) [
        | none ↦ (r, false)
        | some frames ↦
            if not (frames == o.next_sequence)
              || not (o.received == o.expected_size)
              || not calls.fsync_ok
              || not calls.close_ok
            then (r, false)
            else install calls r kind
      ]

abbrev newline : Bytes
newline = 10 ∷ []

-- The manifest's fields are empty where no manifest was received.
unfoldable pub metadata_text : Receiver → Bytes
metadata_text r =
    let f = r.firmware_object in
    let m = r.manifest_object in
    codes "protocol=1"
    ++ newline
    ++ (codes "firmware_name=" ++ f.name ++ newline)
    ++ (codes "firmware_bytes=" ++ decimal f.expected_size ++ newline)
    ++ (codes "firmware_sha256=" ++ f.expected_hash ++ newline)
    ++ (codes "manifest_received=" ++ (if m.complete then codes "1" else codes "0") ++ newline)
    ++ (codes "manifest_name=" ++ (if m.complete then m.name else []) ++ newline)
    ++ (codes "manifest_bytes=" ++ decimal (if m.complete then m.expected_size else 0) ++ newline)
    ++ (codes "manifest_sha256=" ++ (if m.complete then m.expected_hash else []) ++ newline)

abbrev pub temporary_of : Bytes → Bytes
temporary_of metadata_path = metadata_path ++ codes ".tmp"

-- The text is written beside the metadata file, which it then replaces. On a failure the temporary
-- file is removed.
unfoldable pub metadata_write : Calls → Bytes → Receiver → Receiver × Bool
unfolding write_all
metadata_write calls metadata_path r =
    let temporary = temporary_of metadata_path in
    let text = metadata_text r in
    let (written, done) = write_all calls.writes text [] in
    if leb 512 (length temporary) || not calls.open_ok
    then (r, false)
    else if leb 1024 (length text)
    then (with_files (unlink temporary (put_file temporary [] r.files)) r, false)
    else if not done || not calls.fsync_ok || not calls.close_ok || not calls.rename_ok
    then (with_files (unlink temporary (put_file temporary written r.files)) r, false)
    else (with_files (rename temporary metadata_path (put_file temporary written r.files)) r, true)
