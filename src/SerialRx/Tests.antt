-- ===== src/SerialRx/Tests.antt =====
-- A whole transfer of five bytes, on a `sha256sum` that prints one hash for every file.
use meraki_builder.Prelude.{
  Bytes, bytes_eq, ne_of_bytes_eq, Bool, true, [], ◌∷◌, ◌++◌, some, ◌≡◌, refl, codes, replicate,
  length, All, IsByte, ◌≤◌, ◌<◌, ◌%◌, arith,
}
use meraki_builder.Libc.{c_string, tokens, trim_newline, strtoul, tolower, decimal}
use meraki_builder.Posix.{no_files, append_file, put_file, rename, unlink}
use meraki_builder.SerialRx.Object.{
  Receiver, Calls, wrote, firmware, object_begin, object_data, write_all, begin_file, next_data,
  numbered_data, store_data, stored,
}
use meraki_builder.SerialRx.Fields.{
  parse_u32, parse_u64, parse_hex_u32, valid_hash, valid_name, lowercase_hash,
}
use meraki_builder.SerialRx.Crc.{crc32_bytes}
use meraki_builder.SerialRx.Base64.{decode_base64, base64_value}
use meraki_builder.SerialRx.Base64.RoundTrip.{encode, decode_base64-encode, decode_base64-bounds}
use meraki_builder.SerialRx.Invariant.{IsSane}
use meraki_builder.SerialRx.Progress.{Due, after_chunk, object_data-due}
use meraki_builder.SerialRx.Frame.{
  Options, fgets, turn, after_begin, after_data, after_done, after_end, begin_command, command,
  data_command, done_command, end_command, ends_line, frame, object_for_kind,
}
use meraki_builder.SerialRx.End.{install, metadata_text, metadata_write, object_end, sha256_file}
use meraki_builder.SerialRx.Safety.{Delivered, transfer-Delivered}
use meraki_builder.SerialRx.Session.{
  Poll, input, timed_out, Exit, waiting, exits, start, transfer, cleanup_all, leave, receive, serve,
  unlink_outputs, unlink_part,
}

abbrev hash_text : Bytes
hash_text = replicate 64 b'a'

abbrev one_hash : Bytes → Bytes
one_hash content = hash_text

abbrev options : Options
options = record {
  firmware_path = codes "/fw";
  manifest_path = codes "/mf";
  metadata_path = codes "/md";
  idle_timeout = 120;
  max_firmware = 100;
  max_manifest = 100;
}

abbrev all_well : Calls
all_well = record {
  open_ok = true;
  writes = wrote 3 ∷ wrote 4000 ∷ [];
  fsync_ok = true;
  close_ok = true;
  hash_ok = true;
  rename_ok = true;
}

abbrev line : Bytes → Bytes
line text = codes "PMOSUART/1 " ++ text ++ 10 ∷ []

abbrev session : Bytes
session =
    line (codes "BEGIN firmware 5 " ++ hash_text ++ codes " fw.bin")
    ++ line (codes "DATA firmware 0 9de04653 Zm9vYmE=")
    ++ line (codes "DATA firmware 0 9de04653 Zm9vYmE=")
    ++ line (codes "END firmware 1")
    ++ line (codes "DONE")

abbrev event : Poll × Calls
event = (input, all_well)

abbrev outcome : Exit
outcome = transfer one_hash options (replicate 6 event) session no_files

abbrev receiver_of : Exit → Receiver
receiver_of (waiting r) = r
receiver_of (exits r result) = r

abbrev delivered : Receiver
delivered = receiver_of outcome

-- The sender stops before the end of the object.
abbrev broken_off : Exit
broken_off =
    transfer one_hash options ((input, all_well) ∷ (timed_out, all_well) ∷ []) session no_files

abbrev failed_receiver : Receiver
failed_receiver = receiver_of broken_off

-- All that a whole run computes with.
abbrev runs : Bool
unfolding transfer fgets turn c_string tokens trim_newline bytes_eq object_begin parse_u64 strtoul
    start valid_hash valid_name object_data parse_u32 parse_hex_u32 decode_base64 crc32_bytes
    tolower decimal append_file put_file rename unlink base64_value install metadata_text
    metadata_write object_end sha256_file lowercase_hash after_begin after_data after_done after_end
    begin_command command data_command done_command end_command ends_line frame object_for_kind
    begin_file next_data numbered_data store_data write_all cleanup_all leave receive serve
    unlink_outputs unlink_part no_files
runs = true

options-IsSane : IsSane options
unfolding bytes_eq
options-IsSane = record {
  f_m = ne_of_bytes_eq _ _ refl;
  f_fp = ne_of_bytes_eq _ _ refl;
  f_mp = ne_of_bytes_eq _ _ refl;
  m_fp = ne_of_bytes_eq _ _ refl;
  m_mp = ne_of_bytes_eq _ _ refl;
  fp_mp = ne_of_bytes_eq _ _ refl;
  t_f = ne_of_bytes_eq _ _ refl;
  t_m = ne_of_bytes_eq _ _ refl;
  t_fp = ne_of_bytes_eq _ _ refl;
  t_mp = ne_of_bytes_eq _ _ refl;
  tt_f = ne_of_bytes_eq _ _ refl;
  tt_m = ne_of_bytes_eq _ _ refl;
  tt_fp = ne_of_bytes_eq _ _ refl;
  tt_mp = ne_of_bytes_eq _ _ refl;
  firmware_room = omega arith;
  manifest_room = omega arith;
}

-- The image arrives.
image_arrives : delivered.files (codes "/fw") ≡ some (codes "fooba")
unfolding runs
image_arrives = refl

transfer-Delivered_example : Delivered one_hash options session delivered
unfolding runs
transfer-Delivered_example =
    transfer-Delivered one_hash options (replicate 6 event) session no_files delivered
      options-IsSane refl

decode_base64-encode_example : decode_base64 5 (encode (codes "fooba")) ≡ some (codes "fooba")
decode_base64-encode_example =
    decode_base64-encode 5 (codes "fooba") (cc) (omega arith) (omega arith)

decode_base64-bounds_example :
    All IsByte (codes "fooba")
    × (5 ≤ 3072)
    × (length (codes "Zm9vYmE=") % 4 ≡ 0)
    × (0 < length (codes "Zm9vYmE="))
unfolding decode_base64
decode_base64-bounds_example = decode_base64-bounds 3072 (codes "Zm9vYmE=") (codes "fooba") refl

-- The receiver behind the first line of the session.
abbrev begun : Receiver
begun =
    (object_begin all_well (start options no_files) firmware (codes "5") hash_text (codes "fw.bin")
      100).0

due : Due all_well begun firmware (codes "0") (codes "9de04653") (codes "fooba")
unfolding runs
due = record {
  active = refl;
  is_open = refl;
  sequence = refl;
  crc = refl;
  some_bytes = λ e. cc;
  bytes = omega arith;
  short = omega arith;
  fits = omega arith;
  room = omega arith;
  written = refl;
}

object_data-due_example :
    object_data all_well begun firmware (codes "0") (codes "9de04653") (encode (codes "fooba"))
    ≡ (after_chunk begun firmware (codes "fooba"), stored)
object_data-due_example =
    object_data-due all_well begun firmware (codes "0") (codes "9de04653") (codes "fooba") due
