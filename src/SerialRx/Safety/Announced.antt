-- ===== src/SerialRx/Safety/Announced.antt =====
-- Where the size, the hash and the name of an object come from: a line of the input.
use meraki_builder.Prelude.{
  ℕ, ◌-◌, ◌+◌, ◌%◌, ◌^◌, ◌&&◌, Bytes, Bool, true, false, not, [], ◌∷◌, some, ◌≡◌, refl, arith,
  length, if_both, option_both, ◌==◌, ltb, leb, ◌||◌, codes, bytes_eq, take, subst,
}
use meraki_builder.Libc.{tokens, trim_newline, c_string}
use meraki_builder.SerialRx.Fields.{
  parse_u64, parse_u32, parse_hex_u32, lowercase_hash, valid_hash, valid_name,
}
use meraki_builder.SerialRx.Crc.{crc32_bytes}
use meraki_builder.SerialRx.Base64.{decode_base64}
use meraki_builder.SerialRx.Object.{
  Kind, firmware, manifest, Object, Receiver, Calls, Status, object, set_object, any_active,
  is_active, part_of, opened_object, counted_object, begin_file, object_begin, store_data,
  next_data, numbered_data, object_data, write_all,
}
use meraki_builder.SerialRx.End.{
  install, object_end, sha256_file, metadata_write, temporary_of, metadata_text,
}
use meraki_builder.SerialRx.Frame.{fgets, object_for_kind}
use meraki_builder.SerialRx.Session.{line_max}

-- What is left of the input behind some of its lines, as `fgets` cuts it.
pub data Rest (stdin : Bytes) : Bytes → Type 0 where
  all_of_it : Rest stdin stdin
  behind_line : (s : Bytes) → Rest stdin s → Rest stdin (fgets (line_max - 1) s).1

-- A line of the input is `PMOSUART/1 BEGIN kind size hash name` for this object.
pub record Begun (stdin : Bytes) (k : Kind) (name : Bytes) (size : ℕ) (hash : Bytes) : Type 0 where
  pub place : Bytes
  pub in_input : Rest stdin place
  pub kind_text : Bytes
  pub size_text : Bytes
  pub hash_text : Bytes
  pub line :
      tokens b' ' (trim_newline (c_string (fgets (line_max - 1) place).0))
      ≡ codes "PMOSUART/1" ∷ codes "BEGIN" ∷ kind_text ∷ size_text ∷ hash_text ∷ name ∷ []
  pub its_kind : object_for_kind kind_text ≡ some k
  pub its_size : parse_u64 size_text ≡ some size
  pub its_hash : lowercase_hash hash_text ≡ hash

-- An object that is open or complete was announced as it is.
pub record Said (stdin : Bytes) (k : Kind) (o : Object) : Type 0 where
  pub while_open : o.fd_open ≡ true → Begun stdin k o.name o.expected_size o.expected_hash
  pub when_complete : o.complete ≡ true → Begun stdin k o.name o.expected_size o.expected_hash

pub record Told (stdin : Bytes) (r : Receiver) : Type 0 where
  pub of_firmware : Said stdin firmware r.firmware_object
  pub of_manifest : Said stdin manifest r.manifest_object

-- Only the objects matter.
pub kept-Told :
    (stdin : Bytes) (r q : Receiver)
    → r.firmware_object ≡ q.firmware_object
    → r.manifest_object ≡ q.manifest_object
    → Told stdin r
    → Told stdin q
kept-Told stdin r q f m v = record {
  of_firmware = subst (Said stdin firmware) f v.of_firmware;
  of_manifest = subst (Said stdin manifest) m v.of_manifest;
}

-- What holds behind an operation, whatever else it gives.
pub record After {X : Type 0} (stdin : Bytes) (s : Receiver × X) : Type 0 where
  pub told : Told stdin s.0

pub kept-After :
    {X : Type 0} (stdin : Bytes) (r : Receiver) (s : Receiver × X)
    → r.firmware_object ≡ s.0.firmware_object
    → r.manifest_object ≡ s.0.manifest_object
    → Told stdin r
    → After stdin s
kept-After stdin r s f m v = record { told = kept-Told stdin r s.0 f m v }

Said-of : (stdin : Bytes) (r : Receiver) (k : Kind) → Told stdin r → Said stdin k (object r k)
Said-of stdin r firmware v = v.of_firmware
Said-of stdin r manifest v = v.of_manifest

set_object-Told :
    (stdin : Bytes) (r : Receiver) (k : Kind) (o : Object)
    → Told stdin r
    → Said stdin k o
    → Told stdin (set_object r k o)
set_object-Told stdin r firmware o v s = record { of_firmware = s; of_manifest = v.of_manifest }
set_object-Told stdin r manifest o v s = record { of_firmware = v.of_firmware; of_manifest = s }

module _ (stdin : Bytes) (calls : Calls) (r : Receiver) (v : Told stdin r) where
  pub object_begin-After :
      (k : Kind) (size_text hash name : Bytes) (maximum : ℕ)
      → ((n : ℕ) → parse_u64 size_text ≡ some n → Begun stdin k name n (lowercase_hash hash))
      → After stdin (object_begin calls r k size_text hash name maximum)
  unfolding object_begin begin_file
  object_begin-After k size_text hash name maximum announced =
      let o = object r k in
      let s = Said-of stdin r k v in
      let part = part_of o.destination in
      let P = λ (q : Receiver × Bool). After stdin q in
      option_both P (parse_u64 size_text) _ _ (kept-After stdin r _ refl refl v) (λ n e.
        if_both P
          (o.started
            || o.complete
            || any_active r
            || ltb maximum n
            || not (valid_hash hash)
            || not (valid_name name))
          _ _ (λ _. kept-After stdin r _ refl refl v)
          (λ _.
            if_both P (leb 512 (length part)) _ _
              (λ _. kept-After stdin _ _ refl refl (
                set_object-Told stdin r k (record o { part_path = take (512 - 1) part }) v
                  (record { while_open = s.while_open; when_complete = s.when_complete })))
              (λ _.
                if_both P (not calls.open_ok) _ _
                  (λ _. kept-After stdin _ _ refl refl (
                    set_object-Told stdin r k (record o { part_path = part; fd_open = false }) v
                      (record { while_open = λ x. cc; when_complete = s.when_complete })))
                  (λ _. kept-After stdin _ _ refl refl (
                    set_object-Told stdin r k (opened_object o part n hash name) v (record {
                      while_open = λ _. announced n e;
                      when_complete = λ _. announced n e;
                    }))))))

  pub object_data-After :
      (k : Kind) (sequence_text crc_text payload : Bytes)
      → After stdin (object_data calls r k sequence_text crc_text payload)
  unfolding object_data numbered_data next_data store_data
  object_data-After k sequence_text crc_text payload =
      let o = object r k in
      let s = Said-of stdin r k v in
      let P = λ (q : Receiver × Status). After stdin q in
      if_both P (not (is_active r k) || not o.fd_open) _ _ (λ _. kept-After stdin r _ refl refl v)
        (λ _. option_both P (parse_u32 sequence_text) _ _ (kept-After stdin r _ refl refl v) (λ n _.
          option_both P (parse_hex_u32 crc_text) _ _ (kept-After stdin r _ refl refl v) (λ crc _.
            if_both P
              ((n + 1) % 2 ^ 32 == o.next_sequence && o.last_sequence == n && o.last_crc == crc) _ _
              (λ _. kept-After stdin r _ refl refl v)
              (λ _.
                if_both P (not (n == o.next_sequence)) _ _ (λ _. kept-After stdin r _ refl refl v)
                  (λ _.
                    if_both P (length payload == 0 || ltb 4096 (length payload)) _ _
                      (λ _. kept-After stdin r _ refl refl v)
                      (λ _.
                        option_both P (decode_base64 3072 payload) _ _
                          (kept-After stdin r _ refl refl v)
                          (λ d _.
                            if_both P
                              (length d == 0
                                || ltb o.expected_size ((o.received + length d) % 2 ^ 64)
                                || not (crc32_bytes d == crc))
                              _ _ (λ _. kept-After stdin r _ refl refl v)
                              (λ _.
                                if_both P (not (write_all calls.writes d []).1) _ _
                                  (λ _. kept-After stdin r _ refl refl v)
                                  (λ _. kept-After stdin _ _ refl refl (
                                    set_object-Told stdin r k (counted_object o n crc (length d)) v
                                      (record {
                                        while_open = s.while_open;
                                        when_complete = s.when_complete;
                                      })))))))))))

  pub object_end-After :
      (sha256sum : Bytes → Bytes) (k : Kind) (frames_text : Bytes)
      → After stdin (object_end sha256sum calls r k frames_text)
  unfolding object_end install
  object_end-After sha256sum k frames_text =
      let o = object r k in
      let s = Said-of stdin r k v in
      let P = λ (q : Receiver × Bool). After stdin q in
      let closed =
        (set_object-Told stdin r k (record o { fd_open = false }) v
          (record { while_open = λ e. cc; when_complete = s.when_complete })) in
      if_both P (not (is_active r k) || not o.fd_open) _ _ (λ _. kept-After stdin r _ refl refl v)
        (λ guard.
          option_both P (parse_u32 frames_text) _ _ (kept-After stdin r _ refl refl v) (λ frames _.
            if_both P
              (not (frames == o.next_sequence)
                || not (o.received == o.expected_size)
                || not calls.fsync_ok
                || not calls.close_ok)
              _ _ (λ _. kept-After stdin r _ refl refl v)
              (λ _.
                option_both P (sha256_file sha256sum calls.hash_ok (r.files o.part_path)) _ _
                  (kept-After stdin _ _ refl refl closed)
                  (λ actual _.
                    if_both P (not (bytes_eq actual o.expected_hash) || not calls.rename_ok) _ _
                      (λ _. kept-After stdin _ _ refl refl closed)
                      (λ _. kept-After stdin _ _ refl refl (
                        set_object-Told stdin r k
                          (record o { fd_open = false; part_path = []; complete = true }) v
                          (record {
                            while_open = λ e. cc;
                            when_complete = λ _. s.while_open (ground arith);
                          })))))))

  pub metadata_write-After : (path : Bytes) → After stdin (metadata_write calls path r)
  unfolding metadata_write
  metadata_write-After path =
      let P = λ (q : Receiver × Bool). After stdin q in
      let kept : (q : Receiver × Bool)
          → r.firmware_object ≡ q.0.firmware_object
          → r.manifest_object ≡ q.0.manifest_object
          → After stdin q =
        λ q f m. kept-After stdin r q f m v in
      let text = metadata_text r in
      let result = write_all calls.writes text [] in
      if_both P (leb 512 (length (temporary_of path)) || not calls.open_ok) _ _
        (λ _. kept _ refl refl)
        (λ _.
          if_both P (leb 1024 (length text)) _ _ (λ _. kept _ refl refl)
            (λ _.
              if_both P
                (not result.1 || not calls.fsync_ok || not calls.close_ok || not calls.rename_ok) _
                _ (λ _. kept _ refl refl) (λ _. kept _ refl refl)))
