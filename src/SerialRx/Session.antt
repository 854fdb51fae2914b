-- ===== src/SerialRx/Session.antt =====
-- `parse_options`, the start of `main`, its loop over the serial line, and the clean-up behind it.
use meraki_builder.Prelude.{
  ℕ, ◌*◌, ◌-◌, Bytes, Bool, true, false, List, [], ◌∷◌, Option, none, some, ◌==◌, ltb,
  if◌then◌else◌, ◌||◌, length, bytes_eq, codes,
}
use meraki_builder.Posix.{Files, unlink}
use meraki_builder.SerialRx.Fields.{parse_u64}
use meraki_builder.SerialRx.Object.{Object, Receiver, Calls, ready, error, say, with_files}
use meraki_builder.SerialRx.Frame.{Options, Turn, more, broken, finished, fgets, turn}

pub data Parsed : Type 0 where
  help bad : Parsed
  good : Options → Parsed

-- A path that was not given is a null pointer.
record Draft : Type 0 where
  firmware : Option Bytes
  manifest : Option Bytes
  metadata : Option Bytes
  idle : ℕ
  max_f : ℕ
  max_m : ℕ

abbrev defaults : Draft
defaults = record {
  firmware = none;
  manifest = none;
  metadata = none;
  idle = 120;
  max_f = 16 * 1024 * 1024;
  max_m = 1024 * 1024;
}

option_number : (ℕ → Draft) → Bytes → Option Draft
option_number store value = elim (parse_u64 value) [ none ↦ none | some n ↦ some (store n) ]

option_value : Draft → Bytes → Bytes → Option Draft
unfolding option_number
option_value d argument value =
    if bytes_eq argument (codes "--firmware")
    then some (record d { firmware = some value })
    else if bytes_eq argument (codes "--manifest")
    then some (record d { manifest = some value })
    else if bytes_eq argument (codes "--metadata")
    then some (record d { metadata = some value })
    else if bytes_eq argument (codes "--idle-timeout")
    then elim (parse_u64 value) [
      | none ↦ none
      | some n ↦ if ltb 3600 n then none else some (record d { idle = n })
    ]
    else if bytes_eq argument (codes "--max-firmware")
    then option_number (λ n. record d { max_f = n }) value
    else if bytes_eq argument (codes "--max-manifest")
    then option_number (λ n. record d { max_m = n }) value
    else none

abbrev required : Draft → Option Bytes → Option Bytes → Option Bytes → Parsed
required d (some f) (some m) (some t) = good (record {
  firmware_path = f;
  manifest_path = m;
  metadata_path = t;
  idle_timeout = d.idle;
  max_firmware = d.max_f;
  max_manifest = d.max_m;
})
required d _ _ _ = bad

abbrev is_help : Bytes → Bool
is_help argument = bytes_eq argument (codes "--help") || bytes_eq argument (codes "-h")

options_loop : List Bytes → Draft → Parsed
unfolding option_value
options_loop [] d = required d d.firmware d.manifest d.metadata
options_loop (argument ∷ []) d = if is_help argument then help else bad
options_loop (argument ∷ value ∷ rest) d =
    if is_help argument
    then help
    else elim (option_value d argument value) [ none ↦ bad | some d' ↦ options_loop rest d' ]

unfoldable pub parse_options : List Bytes → Parsed
unfolding options_loop
parse_options arguments = options_loop arguments defaults

abbrev fresh : Bytes → Object
fresh destination = record {
  destination = destination;
  part_path = [];
  name = [];
  expected_hash = [];
  expected_size = 0;
  received = 0;
  next_sequence = 0;
  last_sequence = 0;
  last_crc = 0;
  fd_open = false;
  started = false;
  complete = false;
}

-- The three output files are removed before and, after a failure, behind the transfer.
unfoldable pub unlink_outputs : Options → Files → Files
unlink_outputs options fs =
    unlink options.metadata_path (unlink options.manifest_path (unlink options.firmware_path fs))

unfoldable pub start : Options → Files → Receiver
unfolding unlink_outputs
start options fs = record {
  firmware_object = fresh options.firmware_path;
  manifest_object = fresh options.manifest_path;
  active_object = none;
  files = unlink_outputs options fs;
  replies = ready options.max_firmware options.max_manifest ∷ [];
}

abbrev pub is_nil : Bytes → Bool
is_nil [] = true
is_nil (c ∷ s) = false

unfoldable pub unlink_part : Object → Files → Files
unlink_part o fs = if is_nil o.part_path then fs else unlink o.part_path fs

-- `cleanup_all`: open files are closed and partial files removed.
unfoldable pub cleanup_all : Receiver → Receiver
unfolding unlink_part
cleanup_all r = record r {
  firmware_object = record r.firmware_object { fd_open = false };
  manifest_object = record r.manifest_object { fd_open = false };
  files = unlink_part r.manifest_object (unlink_part r.firmware_object r.files);
}

-- The end of `main`, with its result.
unfoldable pub leave : Options → Receiver → Bool → Receiver × ℕ
unfolding unlink_outputs cleanup_all
leave options r true = (cleanup_all r, 0)
leave options r false = (cleanup_all (with_files (unlink_outputs options r.files) r), 1)

-- What `poll` gives, interruptions aside: input, no input for the idle timeout, or an error.
pub data Poll : Type 0 where
  input timed_out poll_failed : Poll

-- The transfer ends with a result, or it still waits for the next event.
pub data Exit : Type 0 where
  waiting : Receiver → Exit
  exits : Receiver → ℕ → Exit

abbrev pub exit_with : Receiver × ℕ → Exit
exit_with (r, result) = exits r result

abbrev pub line_max : ℕ
line_max = 8192

module _ (sha256sum : Bytes → Bytes) (options : Options) where
  -- One event: the state behind it, the input left, and what the loop does next.
  unfoldable pub serve : Poll → Calls → Bytes → Receiver → Receiver × Bytes × Turn
  serve timed_out calls stdin r = (say (error (codes "timeout")) r, stdin, broken)
  serve poll_failed calls stdin r = (say (error (codes "io")) r, stdin, broken)
  serve input calls stdin r =
      let (buffer, left, ended) = fgets (line_max - 1) stdin in
      let (r', next) = turn sha256sum options calls r buffer ended in
      if length buffer == 0 then (say (error (codes "eof")) r, left, broken) else (r', left, next)

  unfoldable pub receive : List (Poll × Calls) → Bytes → Receiver → Exit
  unfolding serve
  receive [] stdin r = waiting r
  receive ((poll, calls) ∷ events) stdin r =
      let (r', left, next) = serve poll calls stdin r in
      elim next [
        | more ↦ receive events left r'
        | broken ↦ exit_with (leave options r' false)
        | finished ↦ exit_with (leave options r' true)
      ]

  unfoldable pub transfer : List (Poll × Calls) → Bytes → Files → Exit
  unfolding receive
  transfer events stdin fs = receive events stdin (start options fs)
