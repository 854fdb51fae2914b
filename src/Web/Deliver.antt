-- ===== src/Web/Deliver.antt =====
-- The bytes of a message reach the file of the upload, however the kernel splits them.
use meraki_builder.Prelude.{
  ℕ, zero, suc, ◌+◌, ◌≤◌, ◌<◌, ◌^◌, ◌%◌, Bytes, true, false, not, List, [], ◌∷◌, ◌++◌, ◌||◌, ltb,
  ◌≡◌, refl, sym, ap, ◌∙◌, arith, if_both, append_assoc, append-nil, length, length-drop, take,
  drop, take-append-drop, All,
}
use meraki_builder.Web.State.{Client, wrote, Server, put_client, call, owned_by}
use meraki_builder.Web.Upload.{
  Write, written, write_interrupted, write_error, received_more, write_loop, receive_binary,
}
use meraki_builder.Web.Log.{content}
use meraki_builder.Web.Sound.{put_self}
use meraki_builder.Web.Sound.Validation.{clash}
use meraki_builder.Web.Sound.Input.{more_content, split_length}

-- An answer that writes something, or an interruption.
unfoldable pub GoesOn : Write → Type 0
GoesOn (written zero) = ⊥
GoesOn (written (suc n)) = Unit
GoesOn write_interrupted = Unit
GoesOn write_error = ⊥

-- How many of the answers write something.
unfoldable pub progress : List Write → ℕ
progress [] = 0
progress (written n ∷ answers) = suc (progress answers)
progress (write_interrupted ∷ answers) = progress answers
progress (write_error ∷ answers) = progress answers

-- From one state to another, the file of the connection's upload and the count of its bytes have
-- grown by the input, and the path is the same.
pub record Delivered (who : ℕ) (input : Bytes) (s t : Server) : Type 0 where
  pub on_disk :
      content (s.clients who).upload_path t.log ≡ content (s.clients who).upload_path s.log ++ input
  pub counted : (t.clients who).upload_received ≡ (s.clients who).upload_received + length input
  pub same_path : (t.clients who).upload_path ≡ (s.clients who).upload_path

Delivered-none : (who : ℕ) (s : Server) → Delivered who [] s s
Delivered-none who s = record {
  on_disk = sym (append-nil (content (s.clients who).upload_path s.log));
  counted = omega arith;
  same_path = refl;
}

-- A write of a piece, and then of what is left.
Delivered-piece :
    (who : ℕ) (n : ℕ) (rest : Bytes) (s t : Server)
    → Delivered who
        (drop n rest)
        (put_client who
          (received_more (take n rest) (s.clients who))
          (call (wrote (s.clients who).upload_path (take n rest)) s))
        t
    → Delivered who rest s t
Delivered-piece who n rest s t d =
    let c = s.clients who in
    let piece = take n rest in
    let left = drop n rest in
    let s1 = call (wrote c.upload_path piece) s in
    let same = put_self who (received_more piece c) s1 in
    let path = ap (λ (x : Client). x.upload_path) same in
    record {
      on_disk =
          ap (λ p. content p t.log) (sym path)
          ∙ d.on_disk
          ∙ ap (λ p. content p s1.log ++ left) path
          ∙ ap (λ x. x ++ left) (more_content c.upload_path piece s.log)
          ∙ append_assoc (content c.upload_path s.log) piece left
          ∙ ap (λ x. content c.upload_path s.log ++ x) (take-append-drop n rest);
      counted =
          let received = ap (λ (x : Client). x.upload_received) same in
          omega (arith, d.counted, received, split_length n rest);
      same_path = d.same_path ∙ path;
    }

left_over :
    (n : ℕ) (b : ℕ) (rest : Bytes) (m : ℕ)
    → length (b ∷ rest) ≤ suc m
    → length (drop (suc n) (b ∷ rest)) ≤ m
left_over n b rest m h = omega (arith, length-drop n rest)

write_loop-Delivered :
    (who : ℕ) (rest : Bytes) (answers : List Write) (s : Server)
    → All GoesOn answers
    → length rest ≤ progress answers
    → Delivered who rest s (write_loop who rest answers s)
unfolding write_loop GoesOn progress
write_loop-Delivered who [] answers s a h = Delivered-none who s
write_loop-Delivered who (b ∷ rest) [] s a h = absurd (omega arith)
write_loop-Delivered who (b ∷ rest) (write_interrupted ∷ answers) s (a, more) h =
    write_loop-Delivered who (b ∷ rest) answers s more h
write_loop-Delivered who (b ∷ rest) (write_error ∷ answers) s (a, more) h = absurd a
write_loop-Delivered who (b ∷ rest) (written zero ∷ answers) s (a, more) h = absurd a
write_loop-Delivered who (b ∷ rest) (written (suc n) ∷ answers) s (a, more) h =
    let piece = take (suc n) (b ∷ rest) in
    let left = drop (suc n) (b ∷ rest) in
    let s1 =
      put_client who (received_more piece (s.clients who))
        (call (wrote (s.clients who).upload_path piece) s) in
    Delivered-piece who (suc n) (b ∷ rest) s (write_loop who left answers s1)
      (write_loop-Delivered who left answers s1 more (left_over n b rest (progress answers) h))

in_bounds :
    (sum expected : ℕ) → sum ≤ expected → expected < 2 ^ 32 → ltb expected (sum % 2 ^ 32) ≡ false
in_bounds sum expected h k = ground arith

-- The connection may send so many bytes more.
pub record Open (who n : ℕ) (s : Server) : Type 0 where
  pub authenticated : (s.clients who).authenticated ≡ true
  pub active : (s.clients who).upload_active ≡ true
  pub has_file : (s.clients who).upload_fd ≡ true
  pub owns : owned_by s.upload_owner who ≡ true
  pub room : (s.clients who).upload_received + n ≤ (s.clients who).upload_expected
  pub in_range : (s.clients who).upload_expected < 2 ^ 32

-- A message of bytes from a connection that is logged in, has an open upload and stays within what it
-- announced is appended as a whole to the file of the upload and counted, in whatever pieces the
-- kernel writes it and however often it interrupts, if no write fails and there are as many writes
-- as bytes.
pub receive_binary-Delivered :
    (who : ℕ) (input : Bytes) (answers : List Write) (s : Server)
    → Open who (length input) s
    → All GoesOn answers
    → length input ≤ progress answers
    → Delivered who input s (receive_binary who input answers s)
unfolding receive_binary
receive_binary-Delivered who input answers s o a h =
    let c = s.clients who in
    let P = λ (t : Server). Delivered who input s t in
    let sum = c.upload_received + length input in
    let closed =
      not c.authenticated
      || not c.upload_active
      || not c.upload_fd
      || not (owned_by s.upload_owner who) in
    let too_long = ltb c.upload_expected (sum % 2 ^ 32) in
    let is_open : closed ≡ false = ground (arith, o.authenticated, o.active, o.has_file, o.owns) in
    if_both P closed _ _ (λ e. absurd (clash closed e is_open))
      (λ e.
        if_both P too_long _ _
          (λ f. absurd (clash too_long f (in_bounds sum c.upload_expected o.room o.in_range)))
          (λ f. write_loop-Delivered who input answers s a h))
