-- ===== src/Portstats/Fuel.antt =====
-- The bounds of the decoder's loops: a turn passes at least one byte.
use meraki_builder.Prelude.{
  ℕ, zero, suc, ◌+◌, ◌-◌, ◌<◌, ◌≤◌, Bytes, [], ◌∷◌, Option, none, some, ◌≡◌, refl, ◌==◌, ltb, leb,
  ◌&&◌, length, drop, take, length-drop, arith, Ensures, Ensures-some, if_both, option_both,
  elim_both, bit_and,
}
use meraki_builder.Portstats.Varint.{varint_loop, read_varint, skip_value}
use meraki_builder.Portstats.Decode.{
  Snapshot, Values, port_field, port_fields, submessage, parse_port_submsg, top_field, top_fields,
  field_of, wire_of,
}

varint_moves : (i acc : ℕ) (b : Bytes) → Ensures (λ (r : ℕ × ℕ). i < r.0) (varint_loop i acc b)
unfolding varint_loop
varint_moves i acc [] = tt
varint_moves i acc (x ∷ b) =
    let P = Ensures (λ (r : ℕ × ℕ). i < r.0) in
    elim_both P (leb 10 i) none _ (λ _. tt)
      (λ _.
        elim_both P (bit_and x 0x80 == 0) _ _ (λ _. omega arith)
          (λ _. later _ (varint_moves (i + 1) _ b)))
  where
    later :
        (o : Option (ℕ × ℕ))
        → Ensures (λ (r : ℕ × ℕ). i + 1 < r.0) o
        → Ensures (λ (r : ℕ × ℕ). i < r.0) o
    later none h = tt
    later (some r) h = omega arith

read_moves : (b : Bytes) (r : ℕ × ℕ) → read_varint b ≡ some r → 0 < r.0
unfolding read_varint
read_moves b r e = Ensures-some (λ (r : ℕ × ℕ). 0 < r.0) (varint_loop 0 0 b) (varint_moves 0 0 b) e

module _ {A : Type 0} where
  -- What is left is no longer than `b`.
  abbrev Left : Bytes → Option (A × Bytes) → Type 0
  Left b = Ensures (λ (p : A × Bytes). length p.1 ≤ length b)

dropped : (n : ℕ) (b : Bytes) → length (drop n b) ≤ length b
dropped n b = omega (arith, length-drop n b)

port_field-Left : (key : ℕ) (b : Bytes) (vs : Values) → Left b (port_field key b vs)
unfolding port_field
port_field-Left key b vs =
    if_both (Left b) (wire_of key == 0) _ _
      (λ _. option_both (Left b) (read_varint b) none _ tt (λ r _. dropped r.0 b))
      (λ _.
        if_both (Left b) (skip_value b (wire_of key) == 0) none _ (λ _. tt)
          (λ _. dropped (skip_value b (wire_of key)) b))

submessage-Left :
    (b : Bytes) (n : ℕ) (plen : ℕ) (snap : Snapshot) → Left b (submessage (drop n b) plen snap)
submessage-Left b n plen snap =
    option_both (Left b) (parse_port_submsg (take plen (drop n b)) snap) none _ tt
      (λ s _. omega (arith, dropped n b, dropped plen (drop n b)))

top_field-Left : (key : ℕ) (b : Bytes) (snap : Snapshot) → Left b (top_field key b snap)
unfolding top_field
top_field-Left key b snap =
    if_both (Left b) (field_of key == 2 && wire_of key == 0) _ _
      (λ _. option_both (Left b) (read_varint b) none _ tt (λ r _. dropped r.0 b))
      (λ _.
        if_both (Left b) (field_of key == 3 && wire_of key == 2) _ _
          (λ _. option_both (Left b) (read_varint b) none _ tt (λ r _.
            if_both (Left b) (ltb (length b - r.0) r.1) none _ (λ _. tt)
              (λ _. submessage-Left b r.0 r.1 snap)))
          (λ _.
            if_both (Left b) (skip_value b (wire_of key) == 0) none _ (λ _. tt)
              (λ _. dropped (skip_value b (wire_of key)) b)))

option_same {ℓ κ} :
    {A : Type ℓ} {B : Type κ} (o : Option A) (f g : A → Option B)
    → ((a : A) → o ≡ some a → f a ≡ g a)
    → elim o as (λ _. Option B) [ none ↦ none | some a ↦ f a ]
      ≡ elim o as (λ _. Option B) [ none ↦ none | some a ↦ g a ]
option_same none f g h = refl
option_same (some a) f g h = h a refl

-- The loop over the fields of a message gives one result for every bound of at least its bytes.
pub top_fields-enough :
    (f g : ℕ) (b : Bytes) (snap : Snapshot)
    → length b ≤ f
    → length b ≤ g
    → top_fields f b snap ≡ top_fields g b snap
unfolding top_fields
top_fields-enough f g [] snap h k = refl
top_fields-enough zero g (x ∷ b) snap h k = absurd (omega arith)
top_fields-enough (suc f) zero (x ∷ b) snap h k = absurd (omega arith)
top_fields-enough (suc f) (suc g) (x ∷ b) snap h k = option_same (read_varint (x ∷ b)) _ _ (λ r e.
    option_same (top_field r.1 (drop r.0 (x ∷ b)) snap) _ _ (λ s e'.
      let moved = read_moves (x ∷ b) r e in
      let left =
        Ensures-some (λ (p : Snapshot × Bytes). length p.1 ≤ length (drop r.0 (x ∷ b)))
          (top_field r.1 (drop r.0 (x ∷ b)) snap) (top_field-Left r.1 (drop r.0 (x ∷ b)) snap) e' in
      let shorter = length-drop r.0 (x ∷ b) in
      top_fields-enough f g s.1 s.0 (omega (arith, left, shorter, moved))
        (omega (arith, left, shorter, moved))))

-- The loop over the fields of a submessage gives one result for every bound of at least its bytes.
pub port_fields-enough :
    (f g : ℕ) (b : Bytes) (vs : Values)
    → length b ≤ f
    → length b ≤ g
    → port_fields f b vs ≡ port_fields g b vs
unfolding port_fields
port_fields-enough f g [] vs h k = refl
port_fields-enough zero g (x ∷ b) vs h k = absurd (omega arith)
port_fields-enough (suc f) zero (x ∷ b) vs h k = absurd (omega arith)
port_fields-enough (suc f) (suc g) (x ∷ b) vs h k = option_same (read_varint (x ∷ b)) _ _ (λ r e.
    option_same (port_field r.1 (drop r.0 (x ∷ b)) vs) _ _ (λ s e'.
      let moved = read_moves (x ∷ b) r e in
      let left =
        Ensures-some (λ (p : Values × Bytes). length p.1 ≤ length (drop r.0 (x ∷ b)))
          (port_field r.1 (drop r.0 (x ∷ b)) vs) (port_field-Left r.1 (drop r.0 (x ∷ b)) vs) e' in
      let shorter = length-drop r.0 (x ∷ b) in
      port_fields-enough f g s.1 s.0 (omega (arith, left, shorter, moved))
        (omega (arith, left, shorter, moved))))
