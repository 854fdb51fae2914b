-- ===== src/SerialRx/Invariant.antt =====
-- What holds between the commands of a transfer: the bytes of the open file are those counted,
-- and a complete object lies at its destination with the announced size and hash.
pub mod Begin
pub mod Data
pub mod End
use meraki_builder.Prelude.{
  ℕ, ◌+◌, ◌%◌, ◌^◌, ◌≤◌, ◌<◌, Bytes, Bool, true, false, not, List, [], ◌∷◌, ◌++◌, Option, none,
  some, ◌≡◌, ◌≢◌, refl, sym, ◌⊎◌, ◌∙◌, ap, subst, arith, ltb, leb, take, if◌then◌else◌, ◌||◌,
  length, length-append, if_both, option_both, inl, inr, Bool-cases, append-nil,
}
use meraki_builder.Posix.{
  Files, put_file, unlink, rename, append_file, put_file_self, put_file_ne, unlink_ne,
  append_file_self, append_file_ne, rename_to, rename_ne,
}
use meraki_builder.SerialRx.Object.{
  Kind, firmware, manifest, Object, any_active, Receiver, Calls, Status, object, set_object,
  with_files, write_all, part_of, object_begin, begin_file, opened_object, counted_object, Reply,
  object_data, numbered_data, next_data, store_data,
}
use meraki_builder.SerialRx.Fields.{parse_u64, valid_hash, valid_name}
use Prim.Native.Nat.{zero-le}
use native.Mathlib.Nat.{le_trans}
use meraki_builder.SerialRx.End.{temporary_of, sha256_file, object_end, install}
use meraki_builder.SerialRx.Frame.{Options, maximum_of}

abbrev pub destination_of : Options → Kind → Bytes
destination_of options firmware = options.firmware_path
destination_of options manifest = options.manifest_path

-- The paths that the receiver uses differ, and the sizes leave room below 64 bits.
pub record IsSane (options : Options) : Type 0 where
  pub f_m : options.firmware_path ≢ options.manifest_path
  pub f_fp : options.firmware_path ≢ part_of options.firmware_path
  pub f_mp : options.firmware_path ≢ part_of options.manifest_path
  pub m_fp : options.manifest_path ≢ part_of options.firmware_path
  pub m_mp : options.manifest_path ≢ part_of options.manifest_path
  pub fp_mp : part_of options.firmware_path ≢ part_of options.manifest_path
  pub t_f : options.metadata_path ≢ options.firmware_path
  pub t_m : options.metadata_path ≢ options.manifest_path
  pub t_fp : options.metadata_path ≢ part_of options.firmware_path
  pub t_mp : options.metadata_path ≢ part_of options.manifest_path
  pub tt_f : temporary_of options.metadata_path ≢ options.firmware_path
  pub tt_m : temporary_of options.metadata_path ≢ options.manifest_path
  pub tt_fp : temporary_of options.metadata_path ≢ part_of options.firmware_path
  pub tt_mp : temporary_of options.metadata_path ≢ part_of options.manifest_path
  pub firmware_room : options.max_firmware ≤ 2 ^ 63
  pub manifest_room : options.max_manifest ≤ 2 ^ 63

-- The open file holds as many bytes as are counted, and no more than announced.
abbrev pub Open : Files → Bytes → Object → Type 0
Open fs d o =
    (content : Bytes) × (o.part_path ≡ part_of d)
    × (fs (part_of d) ≡ some content)
    × (length content ≡ o.received)
    × (o.received ≤ o.expected_size)

module _ (sha256sum : Bytes → Bytes) where
  -- The file at the destination has the announced size, and the announced hash by `sha256sum`.
  abbrev pub Installed : Files → Bytes → Object → Type 0
  Installed fs d o =
      (content : Bytes) × (fs d ≡ some content)
      × (length content ≡ o.expected_size)
      × (sha256_file sha256sum true (some content) ≡ some o.expected_hash)

  -- A path of a partial file is that of the object, if there is one.
  pub record ObjectInv (fs : Files) (d : Bytes) (o : Object) : Type 0 where
    pub dest : o.destination ≡ d
    pub part : (o.part_path ≡ []) ⊎ (o.part_path ≡ part_of d)
    pub room : o.fd_open ≡ true → o.expected_size ≤ 2 ^ 63
    pub begun : o.fd_open ≡ true → o.started ≡ true
    pub opened : o.fd_open ≡ true → Open fs d o
    pub finished : o.complete ≡ true → Installed fs d o

  -- Only the files at the two paths of an object matter to it.
  pub ObjectInv-files :
      (fs gs : Files) (d : Bytes) (o : Object)
      → gs d ≡ fs d
      → gs (part_of d) ≡ fs (part_of d)
      → ObjectInv fs d o
      → ObjectInv gs d o
  ObjectInv-files fs gs d o hd hp v = record {
    dest = v.dest;
    part = v.part;
    room = v.room;
    begun = v.begun;
    opened =
        λ e. let (content, p, at, count, fits) = v.opened e in (content, p, hp ∙ at, count, fits);
    finished = λ e. let (content, at, size, hash) = v.finished e in (content, hd ∙ at, size, hash);
  }

  -- The invariant of the whole receiver.
  pub record Inv (options : Options) (r : Receiver) : Type 0 where
    pub firmware_inv : ObjectInv r.files options.firmware_path r.firmware_object
    pub manifest_inv : ObjectInv r.files options.manifest_path r.manifest_object

  module _ (options : Options) (sane : IsSane options) where
    pub Inv-of :
        (r : Receiver) (k : Kind)
        → Inv options r
        → ObjectInv r.files (destination_of options k) (object r k)
    Inv-of r firmware v = v.firmware_inv
    Inv-of r manifest v = v.manifest_inv

    -- An operation on one object changes no file but those at that object's two paths.
    pub Inv-change :
        (r : Receiver) (k : Kind) (o : Object) (fs : Files) (active : Option Kind)
        (replies : List Reply)
        → ((p : Bytes)
            → destination_of options k ≢ p
            → part_of (destination_of options k) ≢ p
            → fs p ≡ r.files p)
        → ObjectInv fs (destination_of options k) o
        → Inv options r
        → Inv options
            (record (set_object r k o) { files = fs; active_object = active; replies = replies })
    Inv-change r firmware o fs active replies same new v = record {
      firmware_inv = new;
      manifest_inv =
          ObjectInv-files r.files fs _ r.manifest_object (same _ sane.f_m (λ e. sane.m_fp (sym e)))
            (same _ sane.f_mp sane.fp_mp) v.manifest_inv;
    }
    Inv-change r manifest o fs active replies same new v = record {
      firmware_inv =
          ObjectInv-files r.files fs _ r.firmware_object
            (same _ (λ e. sane.f_m (sym e)) (λ e. sane.f_mp (sym e)))
            (same _ sane.m_fp (λ e. sane.fp_mp (sym e))) v.firmware_inv;
      manifest_inv = new;
    }

    pub Inv-set :
        (r : Receiver) (k : Kind) (o : Object)
        → ObjectInv r.files (destination_of options k) o
        → Inv options r
        → Inv options (set_object r k o)
    Inv-set r firmware o new v = record { firmware_inv = new; manifest_inv = v.manifest_inv }
    Inv-set r manifest o new v = record { firmware_inv = v.firmware_inv; manifest_inv = new }

    pub part-ne : (k : Kind) → destination_of options k ≢ part_of (destination_of options k)
    part-ne firmware = sane.f_fp
    part-ne manifest = sane.m_mp

    pub room_of : (k : Kind) → maximum_of options k ≤ 2 ^ 63
    room_of firmware = sane.firmware_room
    room_of manifest = sane.manifest_room

    -- The invariant of the state behind an operation that succeeds.
    pub record Keeps (s : Receiver × Bool) : Type 0 where
      pub inv : s.1 ≡ true → Inv options s.0

    pub part_dest :
        (r : Receiver) (k : Kind)
        → Inv options r
        → part_of (object r k).destination ≡ part_of (destination_of options k)
    part_dest r k v = ap part_of (Inv-of r k v).dest
