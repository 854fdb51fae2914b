-- ===== src/Web/Sound/Input.antt =====
-- The invariant is kept by the bytes of an image.
use meraki_builder.Prelude.{
  ℕ, zero, suc, ◌+◌, ◌<◌, ◌≤◌, ◌^◌, ◌%◌, Bytes, true, false, not, List, [], ◌∷◌, ◌++◌, some, ◌==◌,
  ltb, ◌||◌, ◌≡◌, sym, ap, ◌∙◌, subst, arith, if_both, ==_iff, bytes_eq_refl, length, length-append,
  length-take, length-drop, take, drop,
}
use meraki_builder.Web.State.{
  Client, Call, wrote, Server, put_client, call, owned_by, max_firmware_upload,
}
use meraki_builder.Web.Upload.{
  Write, written, write_interrupted, write_error, received_more, write_loop, receive_binary,
}
use meraki_builder.Web.Log.{content, forked_before, passed_before, Cleared}
use meraki_builder.Web.Sound.{Active, Good, put_self}
use meraki_builder.Web.Sound.Start.{abandon_Good}
use meraki_builder.Web.Sound.Upload.{one_owner, owned_none}

pub more_content :
    (path piece : Bytes) (log : List Call)
    → content path (wrote path piece ∷ log) ≡ content path log ++ piece
unfolding content
more_content path piece log = rw (bytes_eq_refl path)

wrote_Good :
    (who : ℕ) (piece : Bytes) (s : Server)
    → Active s.upload_owner s.log who (s.clients who)
    → (s.clients who).upload_received + length piece ≤ (s.clients who).upload_expected
    → Good s
    → Good (
        put_client who
          (received_more piece (s.clients who))
          (call (wrote (s.clients who).upload_path piece) s))
unfolding Cleared
wrote_Good who piece s a room g =
    let c = s.clients who in
    let log = wrote c.upload_path piece ∷ s.log in
    let P = λ (n : ℕ) (d : Client). d.upload_active ≡ true → Active s.upload_owner log n d in
    record {
      uploads = λ n.
          if_both (P n) (n == who) (received_more piece c) (s.clients n)
            (λ e f. record {
              owns = a.owns ∙ ap some (sym ((==_iff n who).0 e));
              some_bytes = a.some_bytes;
              fits = a.fits;
              within = room;
              on_disk =
                  ap length (more_content c.upload_path piece s.log)
                  ∙ length-append (content c.upload_path s.log) piece
                  ∙ ap (λ m. m + length piece) a.on_disk;
            })
            (λ e f. absurd (one_owner s.upload_owner who n a.owns (g.uploads n f).owns e));
      job_sound = record {
        handed = λ e. absurd (owned_none s.upload_owner who a.owns (g.job_sound.handed e).unowned);
        running_it = λ e. forked_before (g.job_sound.running_it e);
        passed = λ e. passed_before (g.job_sound.passed e);
      };
      cleared = g.cleared;
    }

-- A connection that uploads, with room for so many bytes.
record Room (who n : ℕ) (s : Server) : Type 0 where
  good : Good s
  active : (s.clients who).upload_active ≡ true
  room : (s.clients who).upload_received + n ≤ (s.clients who).upload_expected

after_write :
    (who : ℕ) (piece rest : Bytes) (s : Server)
    → Room who (length piece + length rest) s
    → Room who (length rest) (
        put_client who
          (received_more piece (s.clients who))
          (call (wrote (s.clients who).upload_path piece) s))
after_write who piece rest s r =
    let c = s.clients who in
    let d = received_more piece c in
    let s1 = call (wrote c.upload_path piece) s in
    let same : (put_client who d s1).clients who ≡ d = put_self who d s1 in
    let a = r.good.uploads who r.active in
    let room = r.room in
    record {
      good = wrote_Good who piece s a (omega (arith, room)) r.good;
      active = ap (λ (x : Client). x.upload_active) same ∙ r.active;
      room =
          subst (λ (x : Client). x.upload_received + length rest ≤ x.upload_expected) (sym same)
            (omega (arith, room));
    }

pub split_length : (n : ℕ) (xs : Bytes) → length xs ≡ length (take n xs) + length (drop n xs)
split_length n xs = omega (arith, length-take n xs, length-drop n xs)

write_loop_Good :
    (who : ℕ) (rest : Bytes) (answers : List Write) (s : Server)
    → Room who (length rest) s
    → Good (write_loop who rest answers s)
unfolding write_loop
write_loop_Good who [] answers s r = r.good
write_loop_Good who (b ∷ rest) [] s r = abandon_Good who 500 s r.good
write_loop_Good who (b ∷ rest) (write_interrupted ∷ answers) s r =
    write_loop_Good who (b ∷ rest) answers s r
write_loop_Good who (b ∷ rest) (write_error ∷ answers) s r = abandon_Good who 500 s r.good
write_loop_Good who (b ∷ rest) (written zero ∷ answers) s r = abandon_Good who 500 s r.good
write_loop_Good who (b ∷ rest) (written (suc n) ∷ answers) s r =
    let piece = take (suc n) (b ∷ rest) in
    let left = drop (suc n) (b ∷ rest) in
    write_loop_Good who left answers
      (put_client who (received_more piece (s.clients who))
        (call (wrote (s.clients who).upload_path piece) s))
      (after_write who piece left s (subst (λ m. Room who m s) (split_length (suc n) (b ∷ rest)) r))

no_wrap :
    (received len expected : ℕ)
    → received ≤ expected
    → expected ≤ max_firmware_upload
    → len < 2 ^ 31
    → ltb expected ((received + len) % 2 ^ 32) ≡ false
    → received + len ≤ expected
no_wrap received len expected w f l h = ground arith

pub binary_Good :
    (who : ℕ) (input : Bytes) (answers : List Write) (s : Server)
    → length input < 2 ^ 31
    → Good s
    → Good (receive_binary who input answers s)
unfolding receive_binary
binary_Good who input answers s short g =
    let c = s.clients who in
    if_both Good
      (not c.authenticated
        || not c.upload_active
        || not c.upload_fd
        || not (owned_by s.upload_owner who))
      _ _ (λ e. g)
      (λ e.
        let active : c.upload_active ≡ true = ground arith in
        let a = g.uploads who active in
        if_both Good (ltb c.upload_expected ((c.upload_received + length input) % 2 ^ 32)) _ _
          (λ f. abandon_Good who 400 s g)
          (λ f. write_loop_Good who input answers s (record {
            good = g;
            active = active;
            room =
                no_wrap c.upload_received (length input) c.upload_expected a.within a.fits short f;
          })))
