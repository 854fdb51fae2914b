-- ===== src/SerialRx/Safety/Commands.antt =====
-- One turn of the loop: the invariant goes through, and a transfer is finished only when the
-- firmware is complete and the metadata is written.
use meraki_builder.Prelude.{
  Bytes, Bool, true, false, not, List, [], ◌∷◌, some, ◌≡◌, ◌≢◌, refl, sym, ◌∙◌, arith, ap, length,
  leb, if_both, option_both, ◌==◌, ◌||◌, ◌&&◌, codes, bytes_eq,
}
use meraki_builder.Libc.{tokens, trim_newline, c_string}
use meraki_builder.Posix.{put_file_self, put_file_ne, rename_to, rename_ne}
use meraki_builder.SerialRx.Object.{
  Kind, Receiver, Calls, Status, rejected, stored, duplicate, with_files, any_active, write_all,
}
use meraki_builder.SerialRx.End.{temporary_of, metadata_text, metadata_write}
use meraki_builder.SerialRx.Frame.{
  Options, Turn, more, broken, finished, turn, frame, command, object_for_kind, after_begin,
  after_data, after_end, after_done, begin_command, ends_line, data_command, end_command,
  done_command,
}
use meraki_builder.SerialRx.Invariant.{IsSane, ObjectInv-files, Inv, Keeps}
use meraki_builder.SerialRx.Invariant.Begin.{object_begin-Inv}
use meraki_builder.SerialRx.Invariant.Data.{Accepts, object_data-Accepts, write_all-done}
use meraki_builder.SerialRx.Invariant.End.{object_end-Keeps}

-- The metadata file that a success leaves; the other files stay.
record Recorded (calls : Calls) (path : Bytes) (r : Receiver) (s : Receiver × Bool) : Type 0 where
  same : s.1 ≡ true → s.0 ≡ with_files s.0.files r
  written : s.1 ≡ true → s.0.files path ≡ some (metadata_text r)
  others : s.1 ≡ true → (p : Bytes) → path ≢ p → temporary_of path ≢ p → s.0.files p ≡ r.files p

write_guard : (a b c d : Bool) → (not a || not b || not c || not d) ≡ false → a ≡ true
write_guard a b c d h = ground arith

metadata_write-Recorded :
    (calls : Calls) (path : Bytes) (r : Receiver)
    → Recorded calls path r (metadata_write calls path r)
unfolding metadata_write
metadata_write-Recorded calls path r =
    let text = metadata_text r in
    let temporary = temporary_of path in
    let result = write_all calls.writes text [] in
    let refused : (s : Receiver) → Recorded calls path r (s, false) =
      λ s. record { same = λ e. cc; written = λ e. cc; others = λ e. cc } in
    if_both (Recorded calls path r) (leb 512 (length temporary) || not calls.open_ok) _ _
      (λ _. refused r)
      (λ _.
        if_both (Recorded calls path r) (leb 1024 (length text)) _ _ (λ _. refused _)
          (λ _.
            if_both (Recorded calls path r)
              (not result.1 || not calls.fsync_ok || not calls.close_ok || not calls.rename_ok) _ _
              (λ _. refused _)
              (λ guard. record {
                same = λ _. refl;
                written = λ _. rename_to temporary path text _ (
                    put_file_self temporary result.0 r.files
                    ∙ ap some (
                        write_all-done calls.writes text [] (
                          write_guard result.1 calls.fsync_ok calls.close_ok calls.rename_ok
                            guard)));
                others = λ _ p h k.
                    rename_ne temporary path _ p k h ∙ put_file_ne temporary result.0 r.files p k;
              })))

whole_guard : (a b : Bool) → (a || not b) ≡ false → b ≡ true
whole_guard a b h = ground arith

module _ (sha256sum : Bytes → Bytes) (options : Options) (sane : IsSane options) where
  pub record Good (s : Receiver × Turn) : Type 0 where
    pub inv : s.1 ≢ broken → Inv sha256sum options s.0
    pub complete : s.1 ≡ finished → s.0.firmware_object.complete ≡ true
    pub recorded : s.1 ≡ finished → s.0.files options.metadata_path ≡ some (metadata_text s.0)

  pub fails : (r : Receiver) → Good (r, broken)
  fails r = record { inv = λ ne. absurd (ne refl); complete = λ e. cc; recorded = λ e. cc }

  goes_on : (r : Receiver) → Inv sha256sum options r → Good (r, more)
  goes_on r v = record { inv = λ _. v; complete = λ e. cc; recorded = λ e. cc }

  after_begin-Good :
      (k : Kind) (s : Receiver × Bool) → Keeps sha256sum options sane s → Good (after_begin k s)
  unfolding after_begin
  after_begin-Good k (q, true) kept =
      let v = kept.inv refl in
      record {
        inv = λ _. record { firmware_inv = v.firmware_inv; manifest_inv = v.manifest_inv };
        complete = λ e. cc;
        recorded = λ e. cc;
      }
  after_begin-Good k (q, false) kept = fails _

  begin_command-Good :
      (calls : Calls) (r : Receiver) (fields : List Bytes)
      → Inv sha256sum options r
      → Good (begin_command options calls r fields)
  unfolding begin_command
  begin_command-Good calls r (kind ∷ size ∷ hash ∷ name ∷ []) v =
      option_both Good (object_for_kind kind) _ _ (fails _) (λ k _.
        after_begin-Good k _ (object_begin-Inv sha256sum options sane calls r k size hash name v))
  begin_command-Good calls r _ v = fails _

  after_data-Good : (s : Receiver × Status) → Accepts sha256sum options sane s → Good (after_data s)
  unfolding after_data
  after_data-Good (q, rejected) kept = fails _
  after_data-Good (q, stored) kept = goes_on q (kept.inv (λ e. cc))
  after_data-Good (q, duplicate) kept = goes_on q (kept.inv (λ e. cc))

  data_command-Good :
      (calls : Calls) (r : Receiver) (fields : List Bytes)
      → Inv sha256sum options r
      → Good (data_command calls r fields)
  unfolding data_command
  data_command-Good calls r (kind ∷ sequence ∷ crc ∷ payload ∷ []) v =
      option_both Good (object_for_kind kind) _ _ (fails _) (λ k _.
        after_data-Good _
          (object_data-Accepts sha256sum options sane calls r k sequence crc payload v))
  data_command-Good calls r _ v = fails _

  after_end-Good : (s : Receiver × Bool) → Keeps sha256sum options sane s → Good (after_end s)
  unfolding after_end
  after_end-Good (q, true) kept = goes_on q (kept.inv refl)
  after_end-Good (q, false) kept = fails _

  end_command-Good :
      (calls : Calls) (r : Receiver) (fields : List Bytes)
      → Inv sha256sum options r
      → Good (end_command sha256sum calls r fields)
  unfolding end_command
  end_command-Good calls r (kind ∷ frames ∷ []) v =
      option_both Good (object_for_kind kind) _ _ (fails _)
        (λ k _. after_end-Good _ (object_end-Keeps sha256sum options sane calls r k frames v))
  end_command-Good calls r _ v = fails _

  after_done-Good :
      (calls : Calls) (r : Receiver) (s : Receiver × Bool)
      → r.firmware_object.complete ≡ true
      → Inv sha256sum options r
      → Recorded calls options.metadata_path r s
      → Good (after_done s)
  unfolding after_done metadata_text
  after_done-Good calls r (q, false) whole v record_of = fails _
  after_done-Good calls r (q, true) whole v record_of =
      let same = record_of.same refl in
      let files = record_of.others refl in
      record {
        inv = λ _. record {
          firmware_inv = rw same (
              ObjectInv-files sha256sum r.files q.files options.firmware_path r.firmware_object
                (files _ sane.t_f sane.tt_f) (files _ sane.t_fp sane.tt_fp) v.firmware_inv);
          manifest_inv = rw same (
              ObjectInv-files sha256sum r.files q.files options.manifest_path r.manifest_object
                (files _ sane.t_m sane.tt_m) (files _ sane.t_mp sane.tt_mp) v.manifest_inv);
        };
        complete = λ _. ap (λ (t : Receiver). t.firmware_object.complete) same ∙ whole;
        recorded = λ _. record_of.written refl ∙ ap some (sym (ap metadata_text same));
      }

  done_command-Good :
      (calls : Calls) (r : Receiver) (fields : List Bytes)
      → Inv sha256sum options r
      → Good (done_command options calls r fields)
  unfolding done_command
  done_command-Good calls r [] v =
      if_both Good (any_active r || not r.firmware_object.complete) _ _ (λ _. fails _)
        (λ guard.
          after_done-Good calls r _ (whole_guard (any_active r) _ guard) v
            (metadata_write-Recorded calls options.metadata_path r))
  done_command-Good calls r _ v = fails _

  command-Good :
      (calls : Calls) (r : Receiver) (name : Bytes) (fields : List Bytes)
      → Inv sha256sum options r
      → Good (command sha256sum options calls r name fields)
  unfolding command
  command-Good calls r name fields v =
      if_both Good (bytes_eq name (codes "ABORT")) _ _ (λ _. fails _)
        (λ _.
          if_both Good (bytes_eq name (codes "BEGIN")) _ _
            (λ _. begin_command-Good calls r fields v)
            (λ _.
              if_both Good (bytes_eq name (codes "DATA")) _ _
                (λ _. data_command-Good calls r fields v)
                (λ _.
                  if_both Good (bytes_eq name (codes "END")) _ _
                    (λ _. end_command-Good calls r fields v)
                    (λ _.
                      if_both Good (bytes_eq name (codes "DONE")) _ _
                        (λ _. done_command-Good calls r fields v) (λ _. fails _)))))

  frame-Good :
      (calls : Calls) (r : Receiver) (fields : List Bytes)
      → Inv sha256sum options r
      → Good (frame sha256sum options calls r fields)
  unfolding frame
  frame-Good calls r (protocol ∷ name ∷ fields) v =
      if_both Good (bytes_eq protocol (codes "PMOSUART/1")) _ _
        (λ _. command-Good calls r name fields v) (λ _. fails _)
  frame-Good calls r _ v = fails _

  pub turn-Good :
      (calls : Calls) (r : Receiver) (buffer : Bytes) (ended : Bool)
      → Inv sha256sum options r
      → Good (turn sha256sum options calls r buffer ended)
  unfolding turn
  turn-Good calls r buffer ended v =
      if_both Good
        (length (c_string buffer) == 0 || (not (ends_line (c_string buffer)) && not ended)) _ _
        (λ _. fails _) (λ _. frame-Good calls r (tokens b' ' (trim_newline (c_string buffer))) v)
