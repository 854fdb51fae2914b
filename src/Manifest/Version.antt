-- ===== src/Manifest/Version.antt =====
-- `version_compare` of fwmanifest.c, with `skip_separators`, `compare_numeric` and `compare_alpha`.
-- Pointers into a text are the texts that they point to.
use meraki_builder.Prelude.{
  ◌||◌, ℕ, zero, suc, ◌+◌, Bytes, Bool, true, false, [], ◌∷◌, ◌==◌, ltb, ◌&&◌, if◌then◌else◌,
  length,
}
use meraki_builder.Libc.{isdigit, isalpha, isalnum, tolower}

-- The results -1, 0 and 1.
pub data Result : Type 0 where
  less same greater : Result

unfoldable pub skip_separators : Bytes → Bytes
skip_separators [] = []
skip_separators (c ∷ s) = elim (isalnum c) [ true ↦ c ∷ s | false ↦ skip_separators s ]

unfoldable pub skip_zeros : Bytes → Bytes
skip_zeros [] = []
skip_zeros (c ∷ s) = elim (c == b'0') [ true ↦ skip_zeros s | false ↦ c ∷ s ]

unfoldable pub digits_of : Bytes → Bytes
digits_of [] = []
digits_of (c ∷ s) = elim (isdigit c) [ true ↦ c ∷ digits_of s | false ↦ [] ]

unfoldable pub skip_digits : Bytes → Bytes
skip_digits [] = []
skip_digits (c ∷ s) = elim (isdigit c) [ true ↦ skip_digits s | false ↦ c ∷ s ]

-- `strncmp` on as many bytes as both have.
unfoldable pub compare_bytes : Bytes → Bytes → Result
compare_bytes (x ∷ a) (y ∷ b) =
    if ltb x y then less else if ltb y x then greater else compare_bytes a b
compare_bytes _ _ = same

unfoldable pub compare_digits : Bytes → Bytes → Result
unfolding compare_bytes
compare_digits a b =
    if ltb (length a) (length b)
    then less
    else if ltb (length b) (length a)
    then greater
    else compare_bytes a b

unfoldable pub compare_numeric : Bytes → Bytes → Result
unfolding compare_digits skip_zeros digits_of
compare_numeric left right =
    compare_digits (digits_of (skip_zeros left)) (digits_of (skip_zeros right))

abbrev pub starts_alpha : Bytes → Bool
starts_alpha [] = false
starts_alpha (c ∷ s) = isalpha c

abbrev pub starts_digit : Bytes → Bool
starts_digit [] = false
starts_digit (c ∷ s) = isdigit c

abbrev pub longer_alpha : Bool → Bool → Result
longer_alpha true true = same
longer_alpha false false = same
longer_alpha true false = greater
longer_alpha false true = less

-- The result, and where both texts are then read on.
unfoldable pub compare_alpha : Bytes → Bytes → Result × Bytes × Bytes
compare_alpha [] b = (longer_alpha false (starts_alpha b), [], b)
compare_alpha (x ∷ a) [] = (longer_alpha (isalpha x) false, x ∷ a, [])
compare_alpha (x ∷ a) (y ∷ b) = elim (isalpha x && isalpha y) [
  | false ↦ (longer_alpha (isalpha x) (isalpha y), x ∷ a, y ∷ b)
  | true ↦ elim (ltb (tolower x) (tolower y)) [
    | true ↦ (less, x ∷ a, y ∷ b)
    | false ↦ elim (ltb (tolower y) (tolower x)) [
      | true ↦ (greater, x ∷ a, y ∷ b)
      | false ↦ compare_alpha a b
    ]
  ]
]

abbrev pub ended : Bytes → Bytes → Result
ended [] [] = same
ended (c ∷ a) b = greater
ended [] (c ∷ b) = less

-- `!*a`.
abbrev pub at_end : Bytes → Bool
at_end [] = true
at_end (c ∷ s) = false

-- One turn of the loop between texts that start with a letter or a digit: a result that is final,
-- or where to go on.
pub data Turn : Type 0 where
  final : Result → Turn
  further : Bytes → Bytes → Turn

abbrev pub unless_same : Result → Bytes → Bytes → Turn
unless_same less a b = final less
unless_same greater a b = final greater
unless_same same a b = further a b

abbrev pub decided : Result × Bytes × Bytes → Turn
decided (r, a, b) = unless_same r a b

unfoldable pub turn : Bytes → Bytes → Turn
unfolding compare_numeric skip_digits compare_alpha
turn a b =
    if starts_digit a && starts_digit b
    then unless_same (compare_numeric a b) (skip_digits a) (skip_digits b)
    else if starts_alpha a && starts_alpha b
    then decided (compare_alpha a b)
    else final (if starts_digit a then greater else less)

-- `n` bounds the number of turns.
unfoldable pub version_loop : ℕ → Bytes → Bytes → Result
unfolding skip_separators turn
version_loop zero a b = same
version_loop (suc n) a b =
    let a' = skip_separators a in
    let b' = skip_separators b in
    elim (at_end a' || at_end b') [
      | true ↦ ended (skip_separators a') (skip_separators b')
      | false ↦ elim (turn a' b') [ final r ↦ r | further c d ↦ version_loop n c d ]
    ]

-- The bound is one above the bytes of both texts.
unfoldable pub version_compare : Bytes → Bytes → Result
unfolding version_loop
version_compare left right = version_loop (suc (length left + length right)) left right
