-- ===== src/FindHdr/Tests.antt =====
-- The gzip header, and a file of which the footer is missed.
use meraki_builder.Prelude.{Bytes, true, false, [], ◌∷◌, none, some, ◌≡◌, refl}
use meraki_builder.FindHdr.Find.{le_find}
use meraki_builder.FindHdr.Sound.{At, le_find-At, le_find_misses}

abbrev footer_bytes : Bytes
footer_bytes = 0x01 ∷ 0x59 ∷ 0x5a ∷ []

abbrev image : Bytes
image = 7 ∷ 0x01 ∷ 0x59 ∷ 0x5a ∷ 9 ∷ []

finds : le_find footer_bytes (λ i. 0) false image ≡ some 1
unfolding le_find
finds = refl

le_find-At_example : At footer_bytes image 1
le_find-At_example = le_find-At footer_bytes (λ i. 0) image 1 finds

le_find_misses_example :
    (le_find footer_bytes (λ i. 0) true (0x01 ∷ 0x01 ∷ 0x59 ∷ 0x5a ∷ []) ≡ none)
    × At footer_bytes (0x01 ∷ 0x01 ∷ 0x59 ∷ 0x5a ∷ []) 1
le_find_misses_example = le_find_misses 0x01 0x59 0x5a (λ i. 0) true (λ e. cc)
