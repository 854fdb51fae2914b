-- ===== src/Portstats/Decode.antt =====
-- `store_port`, `parse_port_submsg` and `portstats_decode`. Of the counters, those that the decoder
-- fills; the others stay 0.
use meraki_builder.Prelude.{
  ℕ, zero, suc, ◌+◌, ◌-◌, ◌/◌, ◌%◌, ◌^◌, Bytes, Bool, true, false, List, [], ◌∷◌, Option, none,
  some, ◌==◌, ltb, ◌&&◌, ◌||◌, if◌then◌else◌, length, drop, take, get_or, set, replicate,
}
use meraki_builder.Portstats.Varint.{read_varint, skip_value}

pub record Counters : Type 0 where
  pub port : ℕ
  pub present : Bool
  pub rx_octets : ℕ
  pub rx_packets : ℕ
  pub tx_octets : ℕ
  pub tx_packets : ℕ

pub record Snapshot : Type 0 where
  pub timestamp : ℕ
  pub count : ℕ
  pub valid : Bool
  pub ports : List Counters

abbrev pub max_ports : ℕ
max_ports = 52

abbrev pub no_counters : Counters
no_counters = record {
  port = 0;
  present = false;
  rx_octets = 0;
  rx_packets = 0;
  tx_octets = 0;
  tx_packets = 0;
}

-- `memset(snap, 0, sizeof(*snap))`.
unfoldable pub cleared : Snapshot
cleared = record {
  timestamp = 0;
  count = 0;
  valid = false;
  ports = replicate max_ports no_counters;
}

-- The values of a submessage: the port and its four counters.
pub record Values : Type 0 where
  pub port : ℕ
  pub rxo : ℕ
  pub rxp : ℕ
  pub txo : ℕ
  pub txp : ℕ

abbrev pub counters_of : Values → Counters
counters_of v = record {
  port = v.port;
  present = true;
  rx_octets = v.rxo;
  rx_packets = v.rxp;
  tx_octets = v.txo;
  tx_packets = v.txp;
}

-- A port that does not exist is ignored; a port is counted once.
unfoldable pub store_port : Values → Snapshot → Snapshot
store_port v snap =
    if v.port == 0 || ltb max_ports v.port
    then snap
    else let seen = (get_or snap.ports (v.port - 1) no_counters).present in
      record snap {
        count = if seen then snap.count else snap.count + 1;
        ports = set snap.ports (v.port - 1) (counters_of v);
      }

-- The field's number is an `int`.
abbrev pub field_of : ℕ → ℕ
field_of key = key / 8 % 2 ^ 32

abbrev pub wire_of : ℕ → ℕ
wire_of key = key % 8

unfoldable pub take_value : ℕ → ℕ → Values → Values
take_value field v vs =
    if field == 1
    then record vs { port = if ltb max_ports v then 0 else v }
    else if field == 3
    then record vs { rxo = v }
    else if field == 4
    then record vs { rxp = v }
    else if field == 13
    then record vs { txo = v }
    else if field == 14
    then record vs { txp = v }
    else vs

-- One field of a submessage behind its key: the values, and the bytes left.
unfoldable pub port_field : ℕ → Bytes → Values → Option (Values × Bytes)
unfolding take_value
port_field key b vs =
    if wire_of key == 0
    then elim (read_varint b) [
      | none ↦ none
      | some (n, v) ↦ some (take_value (field_of key) v vs, drop n b)
    ]
    else let n = skip_value b (wire_of key) in if n == 0 then none else some (vs, drop n b)

-- The loop over the fields; a turn passes at least one byte.
unfoldable pub port_fields : ℕ → Bytes → Values → Option Values
unfolding port_field
port_fields fuel [] vs = some vs
port_fields zero (c ∷ b) vs = none
port_fields (suc fuel) (c ∷ b) vs = elim (read_varint (c ∷ b)) [
  | none ↦ none
  | some (n, key) ↦ elim (port_field key (drop n (c ∷ b)) vs) [
    | none ↦ none
    | some (vs', rest) ↦ port_fields fuel rest vs'
  ]
]

unfoldable pub parse_port_submsg : Bytes → Snapshot → Option Snapshot
unfolding port_fields store_port
parse_port_submsg b snap =
    elim (port_fields (length b) b (record { port = 0; rxo = 0; rxp = 0; txo = 0; txp = 0 })) [
      | none ↦ none
      | some vs ↦ some (store_port vs snap)
    ]

abbrev pub submessage : Bytes → ℕ → Snapshot → Option (Snapshot × Bytes)
submessage b plen snap = elim (parse_port_submsg (take plen b) snap) [
  | none ↦ none
  | some snap' ↦ some (snap', drop plen b)
]

-- One field at the top, behind its key. `timestamp` is a `long` of 32 bits.
unfoldable pub top_field : ℕ → Bytes → Snapshot → Option (Snapshot × Bytes)
unfolding parse_port_submsg
top_field key b snap =
    if field_of key == 2 && wire_of key == 0
    then elim (read_varint b) [
      | none ↦ none
      | some (n, v) ↦ some (record snap { timestamp = v % 2 ^ 32 }, drop n b)
    ]
    else if field_of key == 3 && wire_of key == 2
    then elim (read_varint b) [
      | none ↦ none
      | some (n, plen) ↦ if ltb (length b - n) plen then none else submessage (drop n b) plen snap
    ]
    else let n = skip_value b (wire_of key) in if n == 0 then none else some (snap, drop n b)

unfoldable pub top_fields : ℕ → Bytes → Snapshot → Option Snapshot
unfolding top_field
top_fields fuel [] snap = some snap
top_fields zero (c ∷ b) snap = none
top_fields (suc fuel) (c ∷ b) snap = elim (read_varint (c ∷ b)) [
  | none ↦ none
  | some (n, key) ↦ elim (top_field key (drop n (c ∷ b)) snap) [
    | none ↦ none
    | some (snap', rest) ↦ top_fields fuel rest snap'
  ]
]

-- The snapshot, and whether the result is 0.
unfoldable pub portstats_decode : Bytes → Snapshot × Bool
unfolding cleared top_fields
portstats_decode [] = (cleared, false)
portstats_decode (c ∷ b) = elim (top_fields (length (c ∷ b)) (c ∷ b) cleared) [
  | none ↦ (cleared, false)
  | some snap ↦ (record snap { valid = true }, true)
]
