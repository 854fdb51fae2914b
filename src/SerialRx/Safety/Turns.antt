-- ===== src/SerialRx/Safety/Turns.antt =====
-- Where the fields of an object come from, through one turn of the loop.
use meraki_builder.Prelude.{
  ◌-◌, ◌&&◌, Bytes, Bool, true, false, not, List, [], ◌∷◌, ◌≡◌, refl, length, if_both, option_both,
  ◌==◌, ◌||◌, codes, bytes_eq, bytes_eq→eq, ◌∙◌, ap,
}
use meraki_builder.Libc.{tokens, trim_newline, c_string}
use meraki_builder.SerialRx.Object.{
  Kind, Receiver, Calls, Status, rejected, stored, duplicate, any_active,
}
use meraki_builder.SerialRx.Frame.{
  Options, Turn, fgets, turn, frame, command, object_for_kind, maximum_of, after_begin, after_data,
  after_end, after_done, ends_line, begin_command, data_command, end_command, done_command,
}
use meraki_builder.SerialRx.Session.{line_max}
use meraki_builder.SerialRx.Safety.Announced.{
  Rest, Told, After, kept-After, object_begin-After, object_data-After, object_end-After,
  metadata_write-After,
}

module _ (stdin : Bytes) (options : Options) (sha256sum : Bytes → Bytes) (place : Bytes)
    (in_input : Rest stdin place) (calls : Calls) (r : Receiver) (v : Told stdin r) where
  abbrev words : List Bytes
  words = tokens b' ' (trim_newline (c_string (fgets (line_max - 1) place).0))

  stays :
      {X : Type 0} (s : Receiver × X)
      → r.firmware_object ≡ s.0.firmware_object
      → r.manifest_object ≡ s.0.manifest_object
      → After stdin s
  stays s f m = kept-After stdin r s f m v

  after_begin-After :
      (k : Kind) (s : Receiver × Bool) → After stdin s → After stdin (after_begin k s)
  unfolding after_begin
  after_begin-After k (q, true) a = kept-After stdin q _ refl refl a.told
  after_begin-After k (q, false) a = kept-After stdin q _ refl refl a.told

  begin_command-After :
      (fields : List Bytes)
      → words ≡ codes "PMOSUART/1" ∷ codes "BEGIN" ∷ fields
      → After stdin (begin_command options calls r fields)
  unfolding begin_command
  begin_command-After (kind ∷ size ∷ hash ∷ name ∷ []) line =
      option_both (After stdin) (object_for_kind kind) _ _ (stays _ refl refl) (λ k its_kind.
        after_begin-After k _ (
          object_begin-After stdin calls r v k size hash name (maximum_of options k) (λ n its_size.
            record {
              place = place;
              in_input = in_input;
              kind_text = kind;
              size_text = size;
              hash_text = hash;
              line = line;
              its_kind = its_kind;
              its_size = its_size;
              its_hash = refl;
            })))
  begin_command-After _ line = stays _ refl refl

  after_data-After : (s : Receiver × Status) → After stdin s → After stdin (after_data s)
  unfolding after_data
  after_data-After (q, rejected) a = kept-After stdin q _ refl refl a.told
  after_data-After (q, stored) a = kept-After stdin q _ refl refl a.told
  after_data-After (q, duplicate) a = kept-After stdin q _ refl refl a.told

  data_command-After : (fields : List Bytes) → After stdin (data_command calls r fields)
  unfolding data_command
  data_command-After (kind ∷ sequence ∷ crc ∷ payload ∷ []) =
      option_both (After stdin) (object_for_kind kind) _ _ (stays _ refl refl)
        (λ k _. after_data-After _ (object_data-After stdin calls r v k sequence crc payload))
  data_command-After _ = stays _ refl refl

  after_end-After : (s : Receiver × Bool) → After stdin s → After stdin (after_end s)
  unfolding after_end
  after_end-After (q, true) a = kept-After stdin q _ refl refl a.told
  after_end-After (q, false) a = kept-After stdin q _ refl refl a.told

  end_command-After : (fields : List Bytes) → After stdin (end_command sha256sum calls r fields)
  unfolding end_command
  end_command-After (kind ∷ frames ∷ []) =
      option_both (After stdin) (object_for_kind kind) _ _ (stays _ refl refl)
        (λ k _. after_end-After _ (object_end-After stdin calls r v sha256sum k frames))
  end_command-After _ = stays _ refl refl

  after_done-After : (s : Receiver × Bool) → After stdin s → After stdin (after_done s)
  unfolding after_done
  after_done-After (q, true) a = kept-After stdin q _ refl refl a.told
  after_done-After (q, false) a = kept-After stdin q _ refl refl a.told

  done_command-After : (fields : List Bytes) → After stdin (done_command options calls r fields)
  unfolding done_command
  done_command-After [] =
      if_both (After stdin) (any_active r || not r.firmware_object.complete) _ _
        (λ _. stays _ refl refl)
        (λ _. after_done-After _ (metadata_write-After stdin calls r v options.metadata_path))
  done_command-After _ = stays _ refl refl

  command-After :
      (name : Bytes) (fields : List Bytes)
      → words ≡ codes "PMOSUART/1" ∷ name ∷ fields
      → After stdin (command sha256sum options calls r name fields)
  unfolding command
  command-After name fields line =
      let P : Receiver × Turn → Type 0 = After stdin in
      if_both P (bytes_eq name (codes "ABORT")) _ _ (λ _. stays _ refl refl)
        (λ _.
          if_both P (bytes_eq name (codes "BEGIN")) _ _
            (λ e. begin_command-After fields (
              line
              ∙ ap (λ (n : Bytes). codes "PMOSUART/1" ∷ n ∷ fields)
                  (bytes_eq→eq name (codes "BEGIN") e)))
            (λ _.
              if_both P (bytes_eq name (codes "DATA")) _ _ (λ _. data_command-After fields)
                (λ _.
                  if_both P (bytes_eq name (codes "END")) _ _ (λ _. end_command-After fields)
                    (λ _.
                      if_both P (bytes_eq name (codes "DONE")) _ _ (λ _. done_command-After fields)
                        (λ _. stays _ refl refl)))))

  frame-After :
      (fields : List Bytes) → words ≡ fields → After stdin (frame sha256sum options calls r fields)
  unfolding frame
  frame-After (protocol ∷ name ∷ fields) line =
      let P : Receiver × Turn → Type 0 = After stdin in
      if_both P (bytes_eq protocol (codes "PMOSUART/1")) _ _
        (λ e. command-After name fields (
          line
          ∙ ap (λ (p : Bytes). p ∷ name ∷ fields) (bytes_eq→eq protocol (codes "PMOSUART/1") e)))
        (λ _. stays _ refl refl)
  frame-After _ line = stays _ refl refl

  -- A turn that reads the line at this place.
  pub turn-After :
      (ended : Bool)
      → After stdin (turn sha256sum options calls r (fgets (line_max - 1) place).0 ended)
  unfolding turn
  turn-After ended =
      let P : Receiver × Turn → Type 0 = After stdin in
      let line = c_string (fgets (line_max - 1) place).0 in
      if_both P (length line == 0 || (not (ends_line line) && not ended)) _ _
        (λ _. stays _ refl refl) (λ _. frame-After words refl)
