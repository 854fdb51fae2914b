-- ===== src/Portstats/Tests.antt =====
-- A port's counters as Click prints them.
use meraki_builder.Prelude.{Bytes, [], ◌∷◌, ◌++◌, some, ◌≡◌, refl, length, arith}
use meraki_builder.Portstats.Varint.{read_varint, skip_value}
use meraki_builder.Portstats.Decode.{Values, cleared, portstats_decode}
use meraki_builder.Portstats.Counted.{IsCounted, portstats_decode-IsCounted}
use meraki_builder.Portstats.RoundTrip.{write_varint, read_varint-write_varint}

-- Port 2, with 300 octets received.
abbrev two : Bytes
two = 0x10 ∷ 0x05 ∷ 0x1a ∷ 0x05 ∷ 0x08 ∷ 0x02 ∷ 0x18 ∷ 0xac ∷ 0x02 ∷ []

abbrev none_yet : Values
none_yet = record { port = 0; rxo = 0; rxp = 0; txo = 0; txp = 0 }

decodes_two : (portstats_decode two).0.count ≡ 1
unfolding portstats_decode read_varint skip_value cleared
decodes_two = refl

portstats_decode-IsCounted_example : IsCounted (portstats_decode two).0
portstats_decode-IsCounted_example = portstats_decode-IsCounted two

read_varint-write_varint_example :
    read_varint (write_varint 10 300 ++ two) ≡ some (length (write_varint 10 300), 300)
read_varint-write_varint_example = read_varint-write_varint 300 two (omega arith)
