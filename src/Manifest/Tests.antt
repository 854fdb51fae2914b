-- ===== src/Manifest/Tests.antt =====
-- Version texts compared.
use meraki_builder.Prelude.{◌≡◌, refl, codes, arith}
use meraki_builder.Libc.{tolower}
use meraki_builder.Manifest.Version.{
  greater, same, skip_separators, skip_zeros, digits_of, skip_digits, compare_bytes, compare_digits,
  compare_numeric, compare_alpha, turn, version_loop, version_compare,
}
use meraki_builder.Manifest.Antisymmetry.{flip, version_compare-flip}
use meraki_builder.Manifest.Fuel.{version_loop-enough}

newer : version_compare (codes "v2024.10") (codes "V2024.9") ≡ greater
unfolding version_compare version_loop turn skip_separators skip_zeros digits_of skip_digits
    compare_bytes compare_digits compare_numeric compare_alpha tolower
newer = refl

equal : version_compare (codes "1.02-rc1") (codes "1 2rc01") ≡ same
unfolding version_compare version_loop turn skip_separators skip_zeros digits_of skip_digits
    compare_bytes compare_digits compare_numeric compare_alpha tolower
equal = refl

version_compare-flip_example :
    version_compare (codes "1.9") (codes "1.10")
    ≡ flip (version_compare (codes "1.10") (codes "1.9"))
version_compare-flip_example = version_compare-flip (codes "1.10") (codes "1.9")

version_loop-enough_example :
    version_loop 8 (codes "1.9") (codes "1.10") ≡ version_loop 50 (codes "1.9") (codes "1.10")
version_loop-enough_example =
    version_loop-enough 8 50 (codes "1.9") (codes "1.10") (omega arith) (omega arith)
