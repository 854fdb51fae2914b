-- ===== src/Portstats/Counted.antt =====
-- The count of a decoded snapshot.
use meraki_builder.Prelude.{
  ℕ, zero, suc, ◌+◌, ◌-◌, ◌<◌, Bytes, Bool, true, false, List, [], ◌∷◌, none, ◌≡◌, refl, sym, ◌∙◌,
  arith, ◌==◌, ltb, ◌||◌, ◌&&◌, if◌then◌else◌, length, length-set, length-replicate, get_or, set,
  replicate, Ensures, Ensures-some, ◌⊎◌, inl, inr, if_both, option_both, drop, take,
}
use meraki_builder.Portstats.Varint.{read_varint, skip_value}
use meraki_builder.Portstats.Decode.{
  Counters, Snapshot, Values, max_ports, no_counters, counters_of, cleared, store_port,
  parse_port_submsg, port_fields, submessage, top_field, top_fields, portstats_decode, field_of,
  wire_of,
}

abbrev one_if : Bool → ℕ
one_if b = if b then 1 else 0

unfoldable pub count_present : List Counters → ℕ
count_present [] = 0
count_present (p ∷ ps) = one_if p.present + count_present ps

-- There is a slot for each of the 52 ports, and the count is that of the ports that are present.
pub record IsCounted (snap : Snapshot) : Type 0 where
  pub slots : length snap.ports ≡ 52
  pub counted : snap.count ≡ count_present snap.ports

present_set :
    (ps : List Counters) (i : ℕ) (p : Counters)
    → i < length ps
    → p.present ≡ true
    → count_present (set ps i p) + one_if (get_or ps i no_counters).present ≡ count_present ps + 1
unfolding count_present
present_set [] i p h e = absurd (omega arith)
present_set (q ∷ ps) zero p h e = ground arith
present_set (q ∷ ps) (suc i) p h e = omega (arith, present_set ps i p (omega arith) e)

none_present : (n : ℕ) → count_present (replicate n no_counters) ≡ 0
unfolding count_present
none_present zero = refl
none_present (suc n) = omega (arith, none_present n)

cleared-IsCounted : IsCounted cleared
unfolding cleared
cleared-IsCounted = record {
  slots = length-replicate 52 no_counters;
  counted = sym (none_present 52);
}

counted_step :
    (seen : Bool) (count before now : ℕ)
    → count ≡ before
    → now + one_if seen ≡ before + 1
    → (if seen then count else count + 1) ≡ now
counted_step true count before now e h = omega arith
counted_step false count before now e h = omega arith

store_port-IsCounted :
    (v : Values) (snap : Snapshot) → IsCounted snap → IsCounted (store_port v snap)
unfolding store_port
store_port-IsCounted v snap c =
    if_both IsCounted (v.port == 0 || ltb max_ports v.port) _ _ (λ _. c)
      (λ e.
        let i = v.port - 1 in
        let seen = (get_or snap.ports i no_counters).present in
        let low : i < length snap.ports = ground (arith, c.slots) in
        record {
          slots = length-set snap.ports i (counters_of v) ∙ c.slots;
          counted =
              counted_step seen snap.count (count_present snap.ports)
                (count_present (set snap.ports i (counters_of v))) c.counted
                (present_set snap.ports i (counters_of v) low refl);
        })

parse_port_submsg-IsCounted :
    (b : Bytes) (snap : Snapshot) → IsCounted snap → Ensures IsCounted (parse_port_submsg b snap)
unfolding parse_port_submsg
parse_port_submsg-IsCounted b snap c =
    option_both (Ensures IsCounted)
      (port_fields (length b) b (record { port = 0; rxo = 0; rxp = 0; txo = 0; txp = 0 })) none _ tt
      (λ vs _. store_port-IsCounted vs snap c)

submessage-IsCounted :
    (b : Bytes) (n : ℕ) (snap : Snapshot)
    → IsCounted snap
    → Ensures (λ (p : Snapshot × Bytes). IsCounted p.0) (submessage b n snap)
submessage-IsCounted b n snap c =
    option_both (Ensures (λ (p : Snapshot × Bytes). IsCounted p.0))
      (parse_port_submsg (take n b) snap) none _ tt
      (λ snap' e.
        Ensures-some IsCounted (parse_port_submsg (take n b) snap)
          (parse_port_submsg-IsCounted (take n b) snap c) e)

top_field-IsCounted :
    (key : ℕ) (b : Bytes) (snap : Snapshot)
    → IsCounted snap
    → Ensures (λ (p : Snapshot × Bytes). IsCounted p.0) (top_field key b snap)
unfolding top_field
top_field-IsCounted key b snap c =
    let P = Ensures (λ (p : Snapshot × Bytes). IsCounted p.0) in
    if_both P (field_of key == 2 && wire_of key == 0) _ _
      (λ _.
        option_both P (read_varint b) none _ tt
          (λ r _. record { slots = c.slots; counted = c.counted }))
      (λ _.
        if_both P (field_of key == 3 && wire_of key == 2) _ _
          (λ _. option_both P (read_varint b) none _ tt (λ r _.
            if_both P (ltb (length b - r.0) r.1) none _ (λ _. tt)
              (λ _. submessage-IsCounted (drop r.0 b) r.1 snap c)))
          (λ _. if_both P (skip_value b (wire_of key) == 0) none _ (λ _. tt) (λ _. c)))

top_fields-IsCounted :
    (fuel : ℕ) (b : Bytes) (snap : Snapshot)
    → IsCounted snap
    → Ensures IsCounted (top_fields fuel b snap)
unfolding top_fields
top_fields-IsCounted fuel [] snap c = c
top_fields-IsCounted zero (x ∷ b) snap c = tt
top_fields-IsCounted (suc fuel) (x ∷ b) snap c =
    let P = Ensures IsCounted in
    option_both P (read_varint (x ∷ b)) none _ tt (λ r _.
      option_both P (top_field r.1 (drop r.0 (x ∷ b)) snap) none _ tt (λ s e.
        top_fields-IsCounted fuel s.1 s.0 (
          Ensures-some (λ (p : Snapshot × Bytes). IsCounted p.0)
            (top_field r.1 (drop r.0 (x ∷ b)) snap)
            (top_field-IsCounted r.1 (drop r.0 (x ∷ b)) snap c) e)))

-- Whatever bytes are decoded, and whether that succeeds or not: the snapshot has a slot for each
-- of the 52 ports, and its count is the number of ports marked as present.
pub portstats_decode-IsCounted : (b : Bytes) → IsCounted (portstats_decode b).0
unfolding portstats_decode
portstats_decode-IsCounted [] = cleared-IsCounted
portstats_decode-IsCounted (x ∷ b) =
    option_both (λ (r : Snapshot × Bool). IsCounted r.0)
      (top_fields (length (x ∷ b)) (x ∷ b) cleared) _ _ cleared-IsCounted
      (λ snap e.
        let c =
          Ensures-some IsCounted (top_fields (length (x ∷ b)) (x ∷ b) cleared)
            (top_fields-IsCounted (length (x ∷ b)) (x ∷ b) cleared cleared-IsCounted) e in
        record { slots = c.slots; counted = c.counted })

-- A decoding that fails gives the snapshot with nothing in it, which is not valid; one that
-- succeeds gives a snapshot that is marked valid.
pub portstats_decode_result :
    (b : Bytes)
    → (((portstats_decode b).1 ≡ false) × ((portstats_decode b).0 ≡ cleared))
      ⊎ (((portstats_decode b).1 ≡ true) × ((portstats_decode b).0.valid ≡ true))
unfolding portstats_decode
portstats_decode_result [] = inl (refl, refl)
portstats_decode_result (x ∷ b) =
    option_both
      (λ (r : Snapshot × Bool).
        ((r.1 ≡ false) × (r.0 ≡ cleared)) ⊎ ((r.1 ≡ true) × (r.0.valid ≡ true)))
      (top_fields (length (x ∷ b)) (x ∷ b) cleared) _ _ (inl (refl, refl))
      (λ snap e. inr (refl, refl))
