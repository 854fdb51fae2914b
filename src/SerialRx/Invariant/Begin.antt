-- ===== src/SerialRx/Invariant/Begin.antt =====
-- `object_begin` keeps the invariant.
use meraki_builder.Prelude.{
  ℕ, ◌^◌, ◌≤◌, Bytes, Bool, false, not, [], ◌≡◌, refl, sym, ◌∙◌, arith, ltb, leb, ◌||◌, length,
  if_both, option_both, inl, inr, Bool-cases,
}
use meraki_builder.Posix.{put_file, unlink, put_file_self, put_file_ne, unlink_ne}
use meraki_builder.SerialRx.Object.{
  Kind, any_active, Receiver, Calls, object, part_of, object_begin, begin_file, opened_object,
}
use meraki_builder.SerialRx.Fields.{parse_u64, valid_hash, valid_name}
use Prim.Native.Nat.{zero-le}
use native.Mathlib.Nat.{le_trans}
use meraki_builder.SerialRx.Frame.{Options, maximum_of}
use meraki_builder.SerialRx.Invariant.{IsSane, Inv, Inv-of, Inv-change, room_of, Keeps, part_dest}

begin_guard :
    (a b c d e f : Bool)
    → (a || b || c || d || not e || not f) ≡ false
    → (a ≡ false) × (b ≡ false) × (d ≡ false)
begin_guard a b c d e f h = ground arith

ltb-false : (a b : ℕ) → ltb a b ≡ false → b ≤ a
ltb-false a b h = ground arith

module _ (sha256sum : Bytes → Bytes) (options : Options) (sane : IsSane options) where
  begin_file-Inv :
      (calls : Calls) (r : Receiver) (k : Kind) (size : ℕ) (hash name : Bytes)
      → (object r k).fd_open ≡ false
      → (object r k).complete ≡ false
      → size ≤ 2 ^ 63
      → Inv sha256sum options r
      → Keeps sha256sum options sane (begin_file calls r k size hash name)
  unfolding begin_file
  begin_file-Inv calls r k size hash name closed fresh fits v =
      let o = object r k in
      let part = part_of o.destination in
      let dest = (Inv-of sha256sum options sane r k v).dest in
      let e = part_dest sha256sum options sane r k v in
      if_both (Keeps sha256sum options sane) (leb 512 (length part)) _ _
        (λ _. record { inv = λ e. cc })
        (λ _.
          if_both (Keeps sha256sum options sane) (not calls.open_ok) _ _
            (λ _. record { inv = λ e. cc })
            (λ _. record {
              inv = λ _.
                  Inv-change sha256sum options sane r k (opened_object o part size hash name)
                    (put_file part [] (unlink part r.files)) _ _
                    (λ p h h'.
                      put_file_ne part [] _ p (λ d. h' (sym e ∙ d))
                      ∙ unlink_ne part r.files p (λ d. h' (sym e ∙ d)))
                    (record {
                      dest = dest;
                      part = inr e;
                      room = λ _. fits;
                      begun = λ _. refl;
                      opened = λ _. ([], e, rw (← e) (put_file_self part [] _), refl, zero-le);
                      finished = λ done. cc (done, fresh);
                    })
                    v;
            }))

  -- An object that has not been started has no open file.
  closed_of :
      (r : Receiver) (k : Kind)
      → Inv sha256sum options r
      → (object r k).started ≡ false
      → (object r k).fd_open ≡ false
  closed_of r k v h = elim (Bool-cases (object r k).fd_open) [
    | inl e ↦ cc (h, (Inv-of sha256sum options sane r k v).begun e)
    | inr e ↦ e
  ]

  pub object_begin-Inv :
      (calls : Calls) (r : Receiver) (k : Kind) (size hash name : Bytes)
      → Inv sha256sum options r
      → Keeps sha256sum options sane (object_begin calls r k size hash name (maximum_of options k))
  unfolding object_begin
  object_begin-Inv calls r k size hash name v =
      option_both (Keeps sha256sum options sane) (parse_u64 size) _ _ (record { inv = λ e. cc })
        (λ n e.
          if_both (Keeps sha256sum options sane) _ _ _ (λ _. record { inv = λ e. cc })
            (λ guard.
              let (unstarted, fresh, fits) =
                begin_guard (object r k).started (object r k).complete (any_active r)
                  (ltb (maximum_of options k) n) (valid_hash hash) (valid_name name) guard in
              begin_file-Inv calls r k n hash name (closed_of r k v unstarted) fresh
                (le_trans (ltb-false _ n fits) (room_of sha256sum options sane k)) v))
