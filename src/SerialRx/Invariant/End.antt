-- ===== src/SerialRx/Invariant/End.antt =====
-- `object_end` keeps the invariant.
use meraki_builder.Prelude.{
  ℕ, Bytes, Bool, true, false, not, [], some, ◌≡◌, refl, sym, ◌∙◌, arith, ◌||◌, if_both,
  option_both, inl, ◌==◌, bytes_eq, bytes_eq→eq,
}
use meraki_builder.Posix.{rename, rename_to, rename_ne}
use meraki_builder.SerialRx.Object.{Kind, Receiver, Calls, is_active, object, part_of}
use meraki_builder.SerialRx.Fields.{parse_u32}
use meraki_builder.SerialRx.End.{sha256_file, object_end, install}
use meraki_builder.SerialRx.Frame.{Options}
use meraki_builder.SerialRx.Invariant.{destination_of, IsSane, Inv, Inv-of, Inv-change, Keeps}

-- A hash that was found is the hash of the content.
hash_found :
    (sha256sum : Bytes → Bytes) (hash_ok : Bool) (content actual : Bytes)
    → sha256_file sha256sum hash_ok (some content) ≡ some actual
    → sha256_file sha256sum true (some content) ≡ some actual
unfolding sha256_file
hash_found sha256sum true content actual h = h
hash_found sha256sum false content actual h = cc

not_or : (a b : Bool) → (not a || not b) ≡ false → a ≡ true
not_or a b h = ground arith

hash_guard : (a b : Bytes) (c : Bool) → (not (bytes_eq a b) || not c) ≡ false → a ≡ b
hash_guard a b c h = bytes_eq→eq a b (not_or (bytes_eq a b) c h)

end_guard :
    (frames next received size : ℕ) (a b : Bool)
    → (not (frames == next) || not (received == size) || not a || not b) ≡ false
    → received ≡ size
end_guard frames next received size a b h = ground arith

active_guard : (a b : Bool) → (not a || not b) ≡ false → b ≡ true
active_guard a b h = ground arith

module _ (sha256sum : Bytes → Bytes) (options : Options) (sane : IsSane options) where
  install-Keeps :
      (calls : Calls) (r : Receiver) (k : Kind)
      → (object r k).fd_open ≡ true
      → (object r k).received ≡ (object r k).expected_size
      → Inv sha256sum options r
      → Keeps sha256sum options sane (install sha256sum calls r k)
  unfolding install
  install-Keeps calls r k is_open whole v =
      let o = object r k in
      let old = Inv-of sha256sum options sane r k v in
      let (content, path, at, count, within) = old.opened is_open in
      let d = destination_of options k in
      option_both (Keeps sha256sum options sane)
        (sha256_file sha256sum calls.hash_ok (r.files o.part_path)) _ _ (record { inv = λ e. cc })
        (λ actual e.
          if_both (Keeps sha256sum options sane)
            (not (bytes_eq actual o.expected_hash) || not calls.rename_ok) _ _
            (λ _. record { inv = λ e. cc })
            (λ guard. record {
              inv = λ _.
                  Inv-change sha256sum options sane r k
                    (record o { fd_open = false; part_path = []; complete = true })
                    (rename o.part_path o.destination r.files) _ _
                    (λ p hd hp.
                      rename_ne _ _ r.files p (λ q. hp (sym path ∙ q)) (λ q. hd (sym old.dest ∙ q)))
                    (record {
                      dest = old.dest;
                      part = inl refl;
                      room = λ c. cc;
                      begun = λ c. cc;
                      opened = λ c. cc;
                      finished = λ _. (
                        content,
                        rw (path, old.dest) (rename_to (part_of d) d content r.files at),
                        count ∙ whole,
                        hash_found sha256sum calls.hash_ok content _ (
                            rw (path, at, hash_guard actual o.expected_hash calls.rename_ok guard)
                              at e),
                      );
                    })
                    v;
            }))

  pub object_end-Keeps :
      (calls : Calls) (r : Receiver) (k : Kind) (frames_text : Bytes)
      → Inv sha256sum options r
      → Keeps sha256sum options sane (object_end sha256sum calls r k frames_text)
  unfolding object_end
  object_end-Keeps calls r k frames_text v =
      let o = object r k in
      if_both (Keeps sha256sum options sane) (not (is_active r k) || not o.fd_open) _ _
        (λ _. record { inv = λ e. cc })
        (λ active.
          option_both (Keeps sha256sum options sane) (parse_u32 frames_text) _ _
            (record { inv = λ e. cc })
            (λ frames _.
              if_both (Keeps sha256sum options sane)
                (not (frames == o.next_sequence)
                  || not (o.received == o.expected_size)
                  || not calls.fsync_ok
                  || not calls.close_ok)
                _ _ (λ _. record { inv = λ e. cc })
                (λ guard.
                  install-Keeps calls r k (active_guard (is_active r k) o.fd_open active)
                    (end_guard frames o.next_sequence o.received o.expected_size calls.fsync_ok
                      calls.close_ok guard)
                    v)))
