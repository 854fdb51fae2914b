-- ===== src/SerialRx/Progress.antt =====
-- A well-formed data frame is accepted, and sending it again changes nothing.
use meraki_builder.Prelude.{
  ℕ, ◌+◌, ◌*◌, ◌%◌, ◌^◌, ◌≤◌, ◌<◌, Bytes, IsByte, All, Bool, true, false, not, [], ◌∷◌, some, ◌≡◌,
  ◌≢◌, refl, ◌∙◌, ap, arith, ltb, length, ◌==◌, ◌||◌, ◌&&◌, if_true_eq, if_false_eq,
}
use meraki_builder.Posix.{append_file}
use meraki_builder.SerialRx.Fields.{parse_u32, parse_hex_u32}
use meraki_builder.SerialRx.Crc.{crc32_bytes}
use meraki_builder.SerialRx.Base64.RoundTrip.{
  encode, length-encode, length-encode-pos, decode_base64-encode,
}
use meraki_builder.SerialRx.Object.{
  Kind, firmware, manifest, Object, Receiver, Calls, stored, duplicate, object, set_object,
  with_files, say, ack, is_active, write_all, counted_object, object_data, numbered_data, next_data,
  store_data,
}

-- The text of a frame that fits is at most 4096 symbols.
length-encode-le : (s : Bytes) → 3 * length (encode s) ≤ 4 * length s + 8
unfolding encode
length-encode-le [] = omega arith
length-encode-le (x ∷ []) = omega arith
length-encode-le (x ∷ y ∷ []) = omega arith
length-encode-le (x ∷ y ∷ z ∷ rest) = omega (arith, length-encode-le rest)

-- A frame whose number is due, and whose chunk fits.
pub record Due (calls : Calls) (r : Receiver) (k : Kind) (sequence_text crc_text chunk : Bytes)
    : Type 0 where
  pub active : is_active r k ≡ true
  pub is_open : (object r k).fd_open ≡ true
  pub sequence : parse_u32 sequence_text ≡ some (object r k).next_sequence
  pub crc : parse_hex_u32 crc_text ≡ some (crc32_bytes chunk)
  pub some_bytes : chunk ≢ []
  pub bytes : All IsByte chunk
  pub short : length chunk ≤ 3072
  pub fits : (object r k).received + length chunk ≤ (object r k).expected_size
  pub room : (object r k).expected_size < 2 ^ 64
  pub written : write_all calls.writes chunk [] ≡ (chunk, true)

-- An object behind an accepted chunk: the chunk's bytes are added to those received, its number and
-- its CRC-32 are the last ones, and the number that follows is due.
abbrev pub chunk_counted : Object → Bytes → Object
chunk_counted o chunk = record o {
  received = o.received + length chunk;
  last_sequence = o.next_sequence;
  last_crc = crc32_bytes chunk;
  next_sequence = (o.next_sequence + 1) % 2 ^ 32;
}

-- The state behind an accepted chunk.
abbrev pub after_chunk : Receiver → Kind → Bytes → Receiver
after_chunk r k chunk =
    let o = object r k in
    say (ack k o.next_sequence)
      (with_files (append_file o.part_path chunk r.files) (set_object r k (chunk_counted o chunk)))

no_overflow :
    (received n size : ℕ)
    → received + n ≤ size
    → size < 2 ^ 64
    → (received + n) % 2 ^ 64 ≡ received + n
no_overflow received n size h k = ground arith

counted-chunk :
    (o : Object) (chunk : Bytes)
    → o.received + length chunk ≤ o.expected_size
    → o.expected_size < 2 ^ 64
    → counted_object o o.next_sequence (crc32_bytes chunk) (length chunk) ≡ chunk_counted o chunk
counted-chunk o chunk h k =
    ap
      (λ n. record o {
        received = n;
        last_sequence = o.next_sequence;
        last_crc = crc32_bytes chunk;
        next_sequence = (o.next_sequence + 1) % 2 ^ 32;
      })
      (no_overflow o.received (length chunk) o.expected_size h k)

payload_guard : (n : ℕ) → 0 < n → n ≤ 4096 → (n == 0 || ltb 4096 n) ≡ false
payload_guard n h k = ground arith

chunk_guard :
    (n received size crc : ℕ)
    → 0 < n
    → received + n ≤ size
    → size < 2 ^ 64
    → (n == 0 || ltb size ((received + n) % 2 ^ 64) || not (crc == crc)) ≡ false
chunk_guard n received size crc h k l = ground arith

number_guard :
    (next last last_crc crc : ℕ)
    → ((next + 1) % 2 ^ 32 == next && last == next && last_crc == crc) ≡ false
number_guard next last last_crc crc = ground arith

same_guard : (n : ℕ) → not (n == n) ≡ false
same_guard n = ground arith

open_guard : (a b : Bool) → a ≡ true → b ≡ true → (not a || not b) ≡ false
open_guard a b h k = ground arith

length-pos : (s : Bytes) → s ≢ [] → 0 < length s
length-pos [] h = absurd (h refl)
length-pos (c ∷ s) h = omega arith

module _ (calls : Calls) (r : Receiver) (k : Kind) (sequence_text crc_text chunk : Bytes)
    (due : Due calls r k sequence_text crc_text chunk) where
  store_data-due :
      store_data calls r k (object r k).next_sequence (crc32_bytes chunk) chunk
      ≡ (after_chunk r k chunk, stored)
  unfolding store_data
  store_data-due = rw due.written (
      ap
        (λ (o : Object). (
          say (ack k (object r k).next_sequence)
              (with_files (append_file (object r k).part_path chunk r.files) (set_object r k o)),
          stored,
        ))
        (counted-chunk (object r k) chunk due.fits due.room))

  next_data-due :
      next_data calls r k (object r k).next_sequence (crc32_bytes chunk) (encode chunk)
      ≡ (after_chunk r k chunk, stored)
  unfolding next_data
  next_data-due =
      if_false_eq (length (encode chunk) == 0 || ltb 4096 (length (encode chunk))) _ _ (
        payload_guard _ (length-encode-pos chunk due.some_bytes)
          (omega (arith, length-encode-le chunk, length-encode chunk, due.short)))
      ∙ rw (decode_base64-encode 3072 chunk due.some_bytes due.bytes due.short) (
          if_false_eq
            (length chunk == 0
              || ltb (object r k).expected_size (((object r k).received + length chunk) % 2 ^ 64)
              || not (crc32_bytes chunk == crc32_bytes chunk))
            _ _
            (chunk_guard (length chunk) _ _ (crc32_bytes chunk) (length-pos chunk due.some_bytes)
              due.fits due.room)
          ∙ store_data-due)

  -- The number that is due is never taken for that of a repeated frame.
  numbered_data-due :
      numbered_data calls r k (object r k).next_sequence (crc32_bytes chunk) (encode chunk)
      ≡ (after_chunk r k chunk, stored)
  unfolding numbered_data
  numbered_data-due =
      let o = object r k in
      if_false_eq
        ((o.next_sequence + 1) % 2 ^ 32 == o.next_sequence
          && o.last_sequence == o.next_sequence
          && o.last_crc == crc32_bytes chunk)
        _ _ (number_guard o.next_sequence o.last_sequence o.last_crc (crc32_bytes chunk))
      ∙ if_false_eq (not (o.next_sequence == o.next_sequence)) _ _ (same_guard o.next_sequence)
      ∙ next_data-due

  -- A data frame for the open object, with the number that is due, the chunk's CRC-32 and its
  -- Base64 text, is stored when the chunk fits and the writes succeed: the chunk is appended to the
  -- partial file, counted, and acknowledged.
  pub object_data-due :
      object_data calls r k sequence_text crc_text (encode chunk) ≡ (after_chunk r k chunk, stored)
  unfolding object_data
  object_data-due =
      if_false_eq (not (is_active r k) || not (object r k).fd_open) _ _
        (open_guard (is_active r k) _ due.active due.is_open)
      ∙ rw due.sequence (rw due.crc numbered_data-due)

repeated :
    (calls : Calls) (r : Receiver) (k : Kind) (sequence crc : ℕ) (payload : Bytes)
    → (object r k).next_sequence ≡ (sequence + 1) % 2 ^ 32
    → (object r k).last_sequence ≡ sequence
    → (object r k).last_crc ≡ crc
    → numbered_data calls r k sequence crc payload ≡ (say (ack k sequence) r, duplicate)
unfolding numbered_data
repeated calls r k sequence crc payload next last sum =
    if_true_eq
      ((sequence + 1) % 2 ^ 32 == (object r k).next_sequence
        && (object r k).last_sequence == sequence
        && (object r k).last_crc == crc)
      _ _ (ground (arith, next, last, sum))

resent :
    (calls : Calls) (r : Receiver) (k : Kind) (sequence_text crc_text payload : Bytes)
    (sequence crc : ℕ)
    → is_active r k ≡ true
    → (object r k).fd_open ≡ true
    → parse_u32 sequence_text ≡ some sequence
    → parse_hex_u32 crc_text ≡ some crc
    → (object r k).next_sequence ≡ (sequence + 1) % 2 ^ 32
    → (object r k).last_sequence ≡ sequence
    → (object r k).last_crc ≡ crc
    → object_data calls r k sequence_text crc_text payload ≡ (say (ack k sequence) r, duplicate)
unfolding object_data
resent calls r k sequence_text crc_text payload sequence crc active is_open number sum next last
      last_sum =
    if_false_eq (not (is_active r k) || not (object r k).fd_open) _ _
      (open_guard (is_active r k) _ active is_open)
    ∙ rw number (rw sum (repeated calls r k sequence crc payload next last last_sum))

active_after :
    (r : Receiver) (k : Kind) (chunk : Bytes) → is_active (after_chunk r k chunk) k ≡ is_active r k
active_after r firmware chunk = refl
active_after r manifest chunk = refl

object_after :
    (r : Receiver) (k : Kind) (chunk : Bytes)
    → object (after_chunk r k chunk) k ≡ chunk_counted (object r k) chunk
object_after r firmware chunk = refl
object_after r manifest chunk = refl

-- A frame that was stored, sent again with any payload, is acknowledged again, and changes neither
-- the objects nor the files.
pub object_data_again :
    (calls again : Calls) (r : Receiver) (k : Kind) (sequence_text crc_text chunk payload : Bytes)
    → Due calls r k sequence_text crc_text chunk
    → object_data again
        (object_data calls r k sequence_text crc_text (encode chunk)).0
        k
        sequence_text
        crc_text
        payload
      ≡ (say (ack k (object r k).next_sequence) (after_chunk r k chunk), duplicate)
object_data_again calls again r k sequence_text crc_text chunk payload due =
    rw (object_data-due calls r k sequence_text crc_text chunk due) (
      resent again (after_chunk r k chunk) k sequence_text crc_text payload _ _
        (active_after r k chunk ∙ due.active)
        (ap (λ (o : Object). o.fd_open) (object_after r k chunk) ∙ due.is_open) due.sequence due.crc
        (ap (λ (o : Object). o.next_sequence) (object_after r k chunk))
        (ap (λ (o : Object). o.last_sequence) (object_after r k chunk))
        (ap (λ (o : Object). o.last_crc) (object_after r k chunk)))
