-- ===== src/SerialRx/Safety.antt =====
-- What a transfer leaves behind: after a success the installed files, after a failure none.
pub mod Commands
pub mod Announced
pub mod Turns
use meraki_builder.Prelude.{
  ℕ, Bytes, Bool, true, false, List, [], ◌∷◌, ◌++◌, Option, none, some, ◌≡◌, ◌≢◌, refl, sym, subst,
  ◌∙◌, ◌⊎◌, inl, inr, Bool-cases, arith, length, if◌then◌else◌, if_both, option_both, ◌==◌, ◌||◌,
  not, ◌-◌, codes,
}
use meraki_builder.Libc.{tokens, trim_newline, c_string}
use meraki_builder.Posix.{Files, unlink, unlink_self, unlink_ne, unlink-none}
use meraki_builder.SerialRx.Object.{
  say, error, Kind, firmware, manifest, Object, Receiver, Calls, with_files, part_of,
}
use meraki_builder.SerialRx.End.{metadata_text}
use meraki_builder.SerialRx.Frame.{Options, Turn, more, broken, finished, fgets, turn}
use meraki_builder.SerialRx.Session.{
  Poll, input, timed_out, poll_failed, Exit, waiting, exits, exit_with, start, unlink_outputs,
  line_max, unlink_part, is_nil, cleanup_all, leave, serve, receive, transfer,
}
use meraki_builder.SerialRx.Invariant.{IsSane, Installed, ObjectInv, Inv}
use Commands.{Good, fails, turn-Good}
use Announced.{Rest, all_of_it, behind_line, Begun, Told, kept-Told}
use Turns.{turn-After}

fresh-ObjectInv :
    (sha256sum : Bytes → Bytes) (fs : Files) (d : Bytes) (o : Object)
    → o.destination ≡ d
    → o.part_path ≡ []
    → o.fd_open ≡ false
    → o.complete ≡ false
    → ObjectInv sha256sum fs d o
fresh-ObjectInv sha256sum fs d o dest part closed incomplete = record {
  dest = dest;
  part = inl part;
  room = λ e. cc;
  begun = λ e. cc;
  opened = λ e. cc;
  finished = λ e. cc;
}

start-Inv :
    (sha256sum : Bytes → Bytes) (options : Options) (fs : Files)
    → Inv sha256sum options (start options fs)
unfolding start
start-Inv sha256sum options fs = record {
  firmware_inv = fresh-ObjectInv sha256sum _ _ _ refl refl refl refl;
  manifest_inv = fresh-ObjectInv sha256sum _ _ _ refl refl refl refl;
}

-- The clean-up removes no file but the partial one.
unlink_part_ne :
    (o : Object) (d : Bytes) (fs : Files) (p : Bytes)
    → (o.part_path ≡ []) ⊎ (o.part_path ≡ part_of d)
    → part_of d ≢ p
    → unlink_part o fs p ≡ fs p
unfolding unlink_part
unlink_part_ne o d fs p (inl e) h = rw e
unlink_part_ne o d fs p (inr e) h =
    if_both (λ (gs : Files). gs p ≡ fs p) (is_nil o.part_path) _ _ (λ _. refl)
      (λ _. unlink_ne o.part_path fs p (λ q. h (sym e ∙ q)))

-- A removed file is not brought back by the clean-up.
unlink_part-none : (o : Object) (fs : Files) (p : Bytes) → fs p ≡ none → unlink_part o fs p ≡ none
unfolding unlink_part
unlink_part-none o fs p h =
    if_both (λ (gs : Files). gs p ≡ none) (is_nil o.part_path) _ _ (λ _. h)
      (λ _. unlink-none o.part_path fs p h)

cleanup_none : (r : Receiver) (p : Bytes) → r.files p ≡ none → (cleanup_all r).files p ≡ none
unfolding cleanup_all
cleanup_none r p h =
    unlink_part-none r.manifest_object (unlink_part r.firmware_object r.files) p
      (unlink_part-none r.firmware_object r.files p h)

module _ (options : Options) where
  -- None of the three output files is there.
  pub record NoOutputs (fs : Files) : Type 0 where
    pub no_firmware : fs options.firmware_path ≡ none
    pub no_manifest : fs options.manifest_path ≡ none
    pub no_metadata : fs options.metadata_path ≡ none

  unlink_outputs-NoOutputs : (fs : Files) → NoOutputs (unlink_outputs options fs)
  unfolding unlink_outputs
  unlink_outputs-NoOutputs fs = record {
    no_firmware =
        unlink-none options.metadata_path _ _
          (unlink-none options.manifest_path _ _ (unlink_self options.firmware_path fs));
    no_manifest = unlink-none options.metadata_path _ _ (unlink_self options.manifest_path _);
    no_metadata = unlink_self options.metadata_path _;
  }

  leave-NoOutputs : (r : Receiver) → NoOutputs (leave options r false).0.files
  unfolding leave
  leave-NoOutputs r =
      let v = unlink_outputs-NoOutputs r.files in
      let q = with_files (unlink_outputs options r.files) r in
      record {
        no_firmware = cleanup_none q options.firmware_path v.no_firmware;
        no_manifest = cleanup_none q options.manifest_path v.no_manifest;
        no_metadata = cleanup_none q options.metadata_path v.no_metadata;
      }

Turn-cases : (t : Turn) → (t ≡ more) ⊎ ((t ≡ broken) ⊎ (t ≡ finished))
Turn-cases more = inl refl
Turn-cases broken = inr (inl refl)
Turn-cases finished = inr (inr refl)

exits-inj : {r s : Receiver} {m n : ℕ} → exits r m ≡ exits s n → (r ≡ s) × (m ≡ n)
exits-inj h = (cc, cc)

more-ne-broken : more ≢ broken
more-ne-broken e = cc

finished-ne-broken : finished ≢ broken
finished-ne-broken e = cc

one-ne-zero : ◌≢◌ {A = ℕ} 1 0
one-ne-zero e = omega arith

module _ (sha256sum : Bytes → Bytes) (options : Options) where
  exit_broken :
      (r : Receiver) → exits (leave options r false).0 1 ≡ exit_with (leave options r false)
  unfolding leave
  exit_broken r = refl

  exit_finished : (r : Receiver) → exits (cleanup_all r) 0 ≡ exit_with (leave options r true)
  unfolding leave
  exit_finished r = refl

  receive-fails :
      (events : List (Poll × Calls)) (stdin : Bytes) (r s : Receiver) (result : ℕ)
      → receive sha256sum options events stdin r ≡ exits s result
      → result ≢ 0
      → NoOutputs options s.files
  unfolding receive
  receive-fails [] stdin r s result e ne = cc
  receive-fails ((poll, calls) ∷ events) stdin r s result e ne =
      let next = serve sha256sum options poll calls stdin r in
      elim (Turn-cases next.2) [
        | inl t ↦ receive-fails events next.1 next.0 s result (rw (t, receive) at e) ne
        | inr (inl t) ↦
            subst (λ (q : Receiver). NoOutputs options q.files)
              (exits-inj (exit_broken next.0 ∙ rw (t, receive) at e)).0
              (leave-NoOutputs options next.0)
        | inr (inr t) ↦
            absurd (ne (sym (exits-inj (exit_finished next.0 ∙ rw (t, receive) at e)).1))
      ]

  start-Told : (stdin : Bytes) (fs : Files) → Told stdin (start options fs)
  unfolding start
  start-Told stdin fs = record {
    of_firmware = record { while_open = λ e. cc; when_complete = λ e. cc };
    of_manifest = record { while_open = λ e. cc; when_complete = λ e. cc };
  }

  cleanup-Told : (stdin : Bytes) (r : Receiver) → Told stdin r → Told stdin (cleanup_all r)
  unfolding cleanup_all
  cleanup-Told stdin r v = record {
    of_firmware = record { while_open = λ e. cc; when_complete = v.of_firmware.when_complete };
    of_manifest = record { while_open = λ e. cc; when_complete = v.of_manifest.when_complete };
  }

  serve-Rest :
      (poll : Poll) (calls : Calls) (stdin left : Bytes) (r : Receiver)
      → Rest stdin left
      → Rest stdin (serve sha256sum options poll calls left r).1
  unfolding serve
  serve-Rest timed_out calls stdin left r at = at
  serve-Rest poll_failed calls stdin left r at = at
  serve-Rest input calls stdin left r at =
      if_both (λ (t : Receiver × Bytes × Turn). Rest stdin t.1)
        (length (fgets (line_max - 1) left).0 == 0) _ _ (λ _. behind_line left at)
        (λ _. behind_line left at)

  serve-Told :
      (poll : Poll) (calls : Calls) (stdin left : Bytes) (r : Receiver)
      → Rest stdin left
      → Told stdin r
      → Told stdin (serve sha256sum options poll calls left r).0
  unfolding serve
  serve-Told timed_out calls stdin left r at v = kept-Told stdin r _ refl refl v
  serve-Told poll_failed calls stdin left r at v = kept-Told stdin r _ refl refl v
  serve-Told input calls stdin left r at v =
      let result = fgets (line_max - 1) left in
      let next = turn sha256sum options calls r result.0 result.2 in
      if_both (λ (t : Receiver × Bytes × Turn). Told stdin t.0) (length result.0 == 0)
        (say (error (codes "eof")) r, result.1, broken) (next.0, result.1, next.1)
        (λ _. kept-Told stdin r (say (error (codes "eof")) r) refl refl v)
        (λ _. (turn-After stdin options sha256sum left at calls r v result.2).told)

  receive-Told :
      (events : List (Poll × Calls)) (stdin left : Bytes) (r s : Receiver)
      → Rest stdin left
      → Told stdin r
      → receive sha256sum options events left r ≡ exits s 0
      → Told stdin s
  unfolding receive
  receive-Told [] stdin left r s at v e = cc
  receive-Told ((poll, calls) ∷ events) stdin left r s at v e =
      let next = serve sha256sum options poll calls left r in
      let told = serve-Told poll calls stdin left r at v in
      elim (Turn-cases next.2) [
        | inl t ↦
            receive-Told events stdin next.1 next.0 s (serve-Rest poll calls stdin left r at) told
              (rw (t, receive) at e)
        | inr (inl t) ↦
            absurd (one-ne-zero (exits-inj (exit_broken next.0 ∙ rw (t, receive) at e)).1)
        | inr (inr t) ↦
            subst (Told stdin) (exits-inj (exit_finished next.0 ∙ rw (t, receive) at e)).0
              (cleanup-Told stdin next.0 told)
      ]

  -- The three output files, as the objects say.
  pub record Outputs (r : Receiver) : Type 0 where
    pub whole : r.firmware_object.complete ≡ true
    pub firmware_file : Installed sha256sum r.files options.firmware_path r.firmware_object
    pub manifest_file :
        r.manifest_object.complete ≡ true
        → Installed sha256sum r.files options.manifest_path r.manifest_object
    pub metadata_file : r.files options.metadata_path ≡ some (metadata_text r)

  -- The three output files, as the objects say, and the objects as lines of the input say.
  pub record Delivered (stdin : Bytes) (r : Receiver) : Type 0 where
    pub outputs : Outputs r
    pub firmware_said :
        Begun stdin firmware r.firmware_object.name r.firmware_object.expected_size
          r.firmware_object.expected_hash
    pub manifest_said :
        r.manifest_object.complete ≡ true
        → Begun stdin manifest r.manifest_object.name r.manifest_object.expected_size
            r.manifest_object.expected_hash

  module _ (sane : IsSane options) where
    cleanup_ne :
        (r : Receiver) (p : Bytes)
        → Inv sha256sum options r
        → part_of options.firmware_path ≢ p
        → part_of options.manifest_path ≢ p
        → (cleanup_all r).files p ≡ r.files p
    unfolding cleanup_all
    cleanup_ne r p v h k =
        unlink_part_ne r.manifest_object options.manifest_path
          (unlink_part r.firmware_object r.files) p v.manifest_inv.part k
        ∙ unlink_part_ne r.firmware_object options.firmware_path r.files p v.firmware_inv.part h

    cleanup-Outputs :
        (r : Receiver)
        → Inv sha256sum options r
        → r.firmware_object.complete ≡ true
        → r.files options.metadata_path ≡ some (metadata_text r)
        → Outputs (cleanup_all r)
    unfolding metadata_text cleanup_all
    cleanup-Outputs r v whole recorded =
        let kept = cleanup_ne r in
        let (image, there, size, hash) = v.firmware_inv.finished whole in
        record {
          whole = whole;
          firmware_file = (
            image,
            kept options.firmware_path v (λ e. sane.f_fp (sym e)) (λ e. sane.f_mp (sym e)) ∙ there,
            size,
            hash,
          );
          manifest_file = λ c.
              (let (image', there', size', hash') = v.manifest_inv.finished c in
                (
                  image',
                  kept options.manifest_path v (λ e. sane.m_fp (sym e)) (λ e. sane.m_mp (sym e))
                      ∙ there',
                  size',
                  hash',
                ));
          metadata_file =
              kept options.metadata_path v (λ e. sane.t_fp (sym e)) (λ e. sane.t_mp (sym e))
              ∙ recorded;
        }

    serve-Good :
        (poll : Poll) (calls : Calls) (stdin : Bytes) (r : Receiver)
        → Inv sha256sum options r
        → Good sha256sum options sane (
          (serve sha256sum options poll calls stdin r).0,
          (serve sha256sum options poll calls stdin r).2,
        )
    unfolding serve
    serve-Good timed_out calls stdin r v = fails sha256sum options sane _
    serve-Good poll_failed calls stdin r v = fails sha256sum options sane _
    serve-Good input calls stdin r v =
        let result = fgets (line_max - 1) stdin in
        let next = turn sha256sum options calls r result.0 result.2 in
        if_both (λ (t : Receiver × Bytes × Turn). Good sha256sum options sane (t.0, t.2))
          (length result.0 == 0) (say (error (codes "eof")) r, result.1, broken)
          (next.0, result.1, next.1) (λ _. fails sha256sum options sane _)
          (λ _. turn-Good sha256sum options sane calls r result.0 result.2 v)

    receive-Outputs :
        (events : List (Poll × Calls)) (stdin : Bytes) (r s : Receiver)
        → Inv sha256sum options r
        → receive sha256sum options events stdin r ≡ exits s 0
        → Outputs s
    unfolding receive
    receive-Outputs [] stdin r s v e = cc
    receive-Outputs ((poll, calls) ∷ events) stdin r s v e =
        let next = serve sha256sum options poll calls stdin r in
        let good = serve-Good poll calls stdin r v in
        elim (Turn-cases next.2) [
          | inl t ↦
              receive-Outputs events next.1 next.0 s (good.inv (λ b. more-ne-broken (sym t ∙ b)))
                (rw (t, receive) at e)
          | inr (inl t) ↦
              absurd (one-ne-zero (exits-inj (exit_broken next.0 ∙ rw (t, receive) at e)).1)
          | inr (inr t) ↦
              subst Outputs (exits-inj (exit_finished next.0 ∙ rw (t, receive) at e)).0 (
                cleanup-Outputs next.0 (good.inv (λ b. finished-ne-broken (sym t ∙ b)))
                  (good.complete t) (good.recorded t))
        ]

-- When the receiver exits with 0, whatever the sender sent and whichever of the calls that it checks
-- failed on the way: a line of the input was `PMOSUART/1 BEGIN firmware size hash name`, the firmware
-- file has this size and, by `sha256sum`, this hash in lower case; where a manifest was completed,
-- the same holds of it and its own line; and the metadata file is the text with the names, sizes and
-- hashes of both. The paths of the output files and of the files beside them differ, and the size
-- limits are at most 2^63. Removing files is taken to succeed.
pub transfer-Delivered :
    (sha256sum : Bytes → Bytes) (options : Options) (events : List (Poll × Calls)) (stdin : Bytes)
    (fs : Files) (r : Receiver)
    → IsSane options
    → transfer sha256sum options events stdin fs ≡ exits r 0
    → Delivered sha256sum options stdin r
unfolding transfer
transfer-Delivered sha256sum options events stdin fs r sane e =
    let begun = start options fs in
    let outputs =
      receive-Outputs sha256sum options sane events stdin begun r (start-Inv sha256sum options fs)
        e in
    let told =
      receive-Told sha256sum options events stdin stdin begun r all_of_it
        (start-Told sha256sum options stdin fs) e in
    record {
      outputs = outputs;
      firmware_said = told.of_firmware.when_complete outputs.whole;
      manifest_said = told.of_manifest.when_complete;
    }

-- When the receiver exits with another result, and removing files succeeds, none of the three output files is there, also not
-- one from before the transfer.
pub transfer-NoOutputs :
    (sha256sum : Bytes → Bytes) (options : Options) (events : List (Poll × Calls)) (stdin : Bytes)
    (fs : Files) (r : Receiver) (result : ℕ)
    → transfer sha256sum options events stdin fs ≡ exits r result
    → result ≢ 0
    → NoOutputs options r.files
unfolding transfer
transfer-NoOutputs sha256sum options events stdin fs r result e ne =
    receive-fails sha256sum options events stdin (start options fs) r result e ne
