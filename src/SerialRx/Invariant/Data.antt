-- ===== src/SerialRx/Invariant/Data.antt =====
-- `object_data` keeps the invariant, unless it is refused.
use meraki_builder.Prelude.{
  ℕ, ◌+◌, ◌%◌, ◌^◌, ◌≤◌, Bytes, Bool, true, false, not, List, [], ◌∷◌, ◌++◌, ◌≡◌, ◌≢◌, refl, sym,
  ◌∙◌, arith, ltb, take, ◌||◌, length, length-append, if_both, option_both, append-nil,
  append_assoc, take-append-drop, drop, ◌==◌, ◌&&◌,
}
use meraki_builder.Posix.{append_file, append_file_self, append_file_ne}
use meraki_builder.SerialRx.Object.{
  Kind, Receiver, Calls, Status, rejected, is_active, object, write_all, Written, wrote,
  interrupted, failed, part_of, counted_object, object_data, numbered_data, next_data, store_data,
}
use meraki_builder.SerialRx.Fields.{parse_u32, parse_hex_u32}
use meraki_builder.SerialRx.Crc.{crc32_bytes}
use meraki_builder.SerialRx.Base64.{decode_base64}
use meraki_builder.SerialRx.Base64.RoundTrip.{decode_base64-bounds}
use meraki_builder.SerialRx.Frame.{Options}
use meraki_builder.SerialRx.Invariant.{destination_of, IsSane, Inv, Inv-of, Inv-change, part-ne}

-- What a run of writes that succeeds has written.
pub write_all-done :
    (ws : List Written) (s out : Bytes)
    → (write_all ws s out).1 ≡ true
    → (write_all ws s out).0 ≡ out ++ s
unfolding write_all
write_all-done [] [] out h = sym (append-nil out)
write_all-done [] (b ∷ s) out h = cc
write_all-done (w ∷ ws) [] out h = sym (append-nil out)
write_all-done (interrupted ∷ ws) (b ∷ s) out h = write_all-done ws (b ∷ s) out h
write_all-done (failed ∷ ws) (b ∷ s) out h = cc
write_all-done (wrote n ∷ ws) (b ∷ s) out h = ground (
  arith,
  write_all-done ws (drop n (b ∷ s)) (out ++ take n (b ∷ s)),
  append_assoc out (take n (b ∷ s)) (drop n (b ∷ s)),
  take-append-drop n (b ∷ s),
)

-- The count of an accepted frame does not wrap around.
no_wrap :
    (received count size : ℕ)
    → received ≤ size
    → size ≤ 2 ^ 63
    → count ≤ 3072
    → (received + count) % 2 ^ 64 ≡ received + count
no_wrap received count size h k l = omega arith

not-false : (b : Bool) → not b ≡ false → b ≡ true
not-false b h = ground arith

size_guard : (n m k : ℕ) (c : Bool) → (n == 0 || ltb k m || not c) ≡ false → m ≤ k
size_guard n m k c h = ground arith

active_guard : (a b : Bool) → (not a || not b) ≡ false → b ≡ true
active_guard a b h = ground arith

module _ (sha256sum : Bytes → Bytes) (options : Options) (sane : IsSane options) where
  -- The invariant of the state behind a frame that is not refused.
  pub record Accepts (s : Receiver × Status) : Type 0 where
    pub inv : s.1 ≢ rejected → Inv sha256sum options s.0

  store_data-Accepts :
      (calls : Calls) (r : Receiver) (k : Kind) (sequence crc : ℕ) (decoded : Bytes)
      → (object r k).fd_open ≡ true
      → length decoded ≤ 3072
      → ((object r k).received + length decoded) % 2 ^ 64 ≤ (object r k).expected_size
      → Inv sha256sum options r
      → Accepts (store_data calls r k sequence crc decoded)
  unfolding store_data
  store_data-Accepts calls r k sequence crc decoded is_open short fits v =
      let o = object r k in
      let old = Inv-of sha256sum options sane r k v in
      let (content, path, at, count, within) = old.opened is_open in
      let part = part_of (destination_of options k) in
      if_both Accepts (not (write_all calls.writes decoded []).1) _ _
        (λ _. record { inv = λ ne. absurd (ne refl) })
        (λ done. record {
          inv = λ _.
              let all : (write_all calls.writes decoded []).0 ≡ decoded =
                write_all-done calls.writes decoded [] (not-false _ done) in
              let wrap =
                no_wrap o.received (length decoded) o.expected_size within (old.room is_open)
                  short in
              Inv-change sha256sum options sane r k (counted_object o sequence crc (length decoded))
                (append_file o.part_path (write_all calls.writes decoded []).0 r.files) _ _
                (λ p hd hp. append_file_ne _ _ r.files p (λ e. hp (sym path ∙ e)))
                (record {
                  dest = old.dest;
                  part = old.part;
                  room = old.room;
                  begun = old.begun;
                  opened = λ _. (
                    content ++ decoded,
                    path,
                    rw (path, all) (append_file_self part content decoded r.files at),
                    omega (arith, length-append content decoded, wrap),
                    fits,
                  );
                  finished = λ c.
                      (let (image, there, size, hash) = old.finished c in
                        (
                          image,
                          append_file_ne _ _ r.files (destination_of options k)
                                (λ e. part-ne sha256sum options sane k (sym e ∙ path))
                              ∙ there,
                          size,
                          hash,
                        ));
                })
                v;
        })

  next_data-Accepts :
      (calls : Calls) (r : Receiver) (k : Kind) (sequence crc : ℕ) (payload : Bytes)
      → (object r k).fd_open ≡ true
      → Inv sha256sum options r
      → Accepts (next_data calls r k sequence crc payload)
  unfolding next_data
  next_data-Accepts calls r k sequence crc payload is_open v =
      if_both Accepts (length payload == 0 || ltb 4096 (length payload)) _ _
        (λ _. record { inv = λ ne. absurd (ne refl) })
        (λ _.
          option_both Accepts (decode_base64 3072 payload) _ _
            (record { inv = λ ne. absurd (ne refl) })
            (λ decoded e.
              if_both Accepts
                (length decoded == 0
                  || ltb (object r k).expected_size
                      (((object r k).received + length decoded) % 2 ^ 64)
                  || not (crc32_bytes decoded == crc))
                _ _ (λ _. record { inv = λ ne. absurd (ne refl) })
                (λ guard.
                  store_data-Accepts calls r k sequence crc decoded is_open
                    (decode_base64-bounds 3072 payload decoded e).1
                    (size_guard (length decoded) _ _ (crc32_bytes decoded == crc) guard) v)))

  numbered_data-Accepts :
      (calls : Calls) (r : Receiver) (k : Kind) (sequence crc : ℕ) (payload : Bytes)
      → (object r k).fd_open ≡ true
      → Inv sha256sum options r
      → Accepts (numbered_data calls r k sequence crc payload)
  unfolding numbered_data
  numbered_data-Accepts calls r k sequence crc payload is_open v =
      let o = object r k in
      if_both Accepts
        ((sequence + 1) % 2 ^ 32 == o.next_sequence
          && o.last_sequence == sequence
          && o.last_crc == crc)
        _ _
        (λ _. record {
          inv = λ _. record { firmware_inv = v.firmware_inv; manifest_inv = v.manifest_inv };
        })
        (λ _.
          if_both Accepts (not (sequence == o.next_sequence)) _ _
            (λ _. record { inv = λ ne. absurd (ne refl) })
            (λ _. next_data-Accepts calls r k sequence crc payload is_open v))

  pub object_data-Accepts :
      (calls : Calls) (r : Receiver) (k : Kind) (sequence_text crc_text payload : Bytes)
      → Inv sha256sum options r
      → Accepts (object_data calls r k sequence_text crc_text payload)
  unfolding object_data
  object_data-Accepts calls r k sequence_text crc_text payload v =
      if_both Accepts (not (is_active r k) || not (object r k).fd_open) _ _
        (λ _. record { inv = λ ne. absurd (ne refl) })
        (λ guard.
          option_both Accepts (parse_u32 sequence_text) _ _
            (record { inv = λ ne. absurd (ne refl) })
            (λ sequence _.
              option_both Accepts (parse_hex_u32 crc_text) _ _
                (record { inv = λ ne. absurd (ne refl) })
                (λ crc _.
                  numbered_data-Accepts calls r k sequence crc payload
                    (active_guard (is_active r k) _ guard) v)))
