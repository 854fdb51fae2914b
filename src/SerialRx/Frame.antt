-- ===== src/SerialRx/Frame.antt =====
-- One turn of the loop of `main`: a line is read with `fgets`, checked and cut into fields, and
-- its command is carried out.
use meraki_builder.Prelude.{
  ℕ, zero, suc, Bytes, Bool, true, false, not, List, [], ◌∷◌, Option, none, some, ◌==◌,
  if◌then◌else◌, ◌&&◌, ◌||◌, length, bytes_eq, codes,
}
use meraki_builder.Libc.{tokens, trim_newline, c_string}
use meraki_builder.SerialRx.Object.{
  Kind, firmware, manifest, Receiver, Calls, error, begin_ack, completed, Status, rejected, stored,
  duplicate, say, any_active, object_begin, object_data,
}
use meraki_builder.SerialRx.End.{object_end, metadata_write}

pub record Options : Type 0 where
  pub firmware_path : Bytes
  pub manifest_path : Bytes
  pub metadata_path : Bytes
  pub idle_timeout : ℕ
  pub max_firmware : ℕ
  pub max_manifest : ℕ

-- What a turn does to the loop: it goes on, breaks with a result of 1, or with 0.
pub data Turn : Type 0 where
  more broken finished : Turn

unfoldable pub object_for_kind : Bytes → Option Kind
object_for_kind kind =
    if bytes_eq kind (codes "firmware")
    then some firmware
    else if bytes_eq kind (codes "manifest")
    then some manifest
    else none

abbrev pub fail : Bytes → Receiver → Receiver × Turn
fail code r = (say (error code) r, broken)

abbrev pub maximum_of : Options → Kind → ℕ
maximum_of options firmware = options.max_firmware
maximum_of options manifest = options.max_manifest

unfoldable pub after_begin : Kind → Receiver × Bool → Receiver × Turn
after_begin kind (r, true) = (say (begin_ack kind) r, more)
after_begin kind (r, false) = fail (codes "begin") r

unfoldable pub after_data : Receiver × Status → Receiver × Turn
after_data (r, rejected) = fail (codes "data") r
after_data (r, stored) = (r, more)
after_data (r, duplicate) = (r, more)

unfoldable pub after_end : Receiver × Bool → Receiver × Turn
after_end (r, true) = (r, more)
after_end (r, false) = fail (codes "end") r

unfoldable pub after_done : Receiver × Bool → Receiver × Turn
after_done (r, false) = fail (codes "done") r
after_done (r, true) = (
  say
      (completed r.firmware_object.name
        (if r.manifest_object.complete then r.manifest_object.name else codes "none"))
      r,
  finished,
)

-- `BEGIN kind size hash name`.
unfoldable pub begin_command : Options → Calls → Receiver → List Bytes → Receiver × Turn
unfolding object_for_kind after_begin
begin_command options calls r (kind ∷ size ∷ hash ∷ name ∷ []) = elim (object_for_kind kind) [
  | none ↦ fail (codes "begin") r
  | some k ↦ after_begin k (object_begin calls r k size hash name (maximum_of options k))
]
begin_command options calls r _ = fail (codes "begin") r

-- `DATA kind sequence crc payload`.
unfoldable pub data_command : Calls → Receiver → List Bytes → Receiver × Turn
unfolding object_for_kind after_data
data_command calls r (kind ∷ sequence ∷ crc ∷ payload ∷ []) = elim (object_for_kind kind) [
  | none ↦ fail (codes "data") r
  | some k ↦ after_data (object_data calls r k sequence crc payload)
]
data_command calls r _ = fail (codes "data") r

module _ (sha256sum : Bytes → Bytes) where
  -- `END kind frames`.
  unfoldable pub end_command : Calls → Receiver → List Bytes → Receiver × Turn
  unfolding object_for_kind after_end
  end_command calls r (kind ∷ frames ∷ []) = elim (object_for_kind kind) [
    | none ↦ fail (codes "end") r
    | some k ↦ after_end (object_end sha256sum calls r k frames)
  ]
  end_command calls r _ = fail (codes "end") r

-- `DONE`, once the firmware is complete and no object is open.
unfoldable pub done_command : Options → Calls → Receiver → List Bytes → Receiver × Turn
unfolding after_done
done_command options calls r [] =
    if any_active r || not r.firmware_object.complete
    then fail (codes "done") r
    else after_done (metadata_write calls options.metadata_path r)
done_command options calls r _ = fail (codes "done") r

module _ (sha256sum : Bytes → Bytes) where
  unfoldable pub command : Options → Calls → Receiver → Bytes → List Bytes → Receiver × Turn
  unfolding begin_command data_command end_command done_command
  command options calls r name fields =
      if bytes_eq name (codes "ABORT")
      then fail (codes "aborted") r
      else if bytes_eq name (codes "BEGIN")
      then begin_command options calls r fields
      else if bytes_eq name (codes "DATA")
      then data_command calls r fields
      else if bytes_eq name (codes "END")
      then end_command sha256sum calls r fields
      else if bytes_eq name (codes "DONE")
      then done_command options calls r fields
      else fail (codes "command") r

  unfoldable pub frame : Options → Calls → Receiver → List Bytes → Receiver × Turn
  unfolding command
  frame options calls r (protocol ∷ name ∷ fields) =
      if bytes_eq protocol (codes "PMOSUART/1")
      then command options calls r name fields
      else fail (codes "protocol") r
  frame options calls r _ = fail (codes "protocol") r

-- `fgets`: at most `n` bytes, up to a newline; the line, the input left, and whether the end of the input was met.
unfoldable pub fgets : ℕ → Bytes → Bytes × Bytes × Bool
fgets zero s = ([], s, false)
fgets (suc n) [] = ([], [], true)
fgets (suc n) (c ∷ s) =
    let (line, left, ended) = fgets n s in
    if c == 10 then (c ∷ [], s, false) else (c ∷ line, left, ended)

-- Whether the text ends in a newline.
unfoldable pub ends_line : Bytes → Bool
ends_line [] = false
ends_line (c ∷ []) = c == 10
ends_line (c ∷ d ∷ s) = ends_line (d ∷ s)

module _ (sha256sum : Bytes → Bytes) where
  -- The buffer is read as a C string; a line that does not end is refused, but for the last.
  unfoldable pub turn : Options → Calls → Receiver → Bytes → Bool → Receiver × Turn
  unfolding frame ends_line
  turn options calls r buffer ended =
      let line = c_string buffer in
      if length line == 0 || (not (ends_line line) && not ended)
      then fail (codes "line") r
      else frame sha256sum options calls r (tokens b' ' (trim_newline line))
