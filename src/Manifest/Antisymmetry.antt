-- ===== src/Manifest/Antisymmetry.antt =====
-- Swapped texts compare the other way round.
use meraki_builder.Prelude.{
  elim_both, ◌||◌, ℕ, zero, suc, ◌+◌, Bytes, Bool, true, false, [], ◌∷◌, ◌≡◌, refl, ap, ◌∙◌, ltb,
  ◌&&◌, if◌then◌else◌, length, arith,
}
use meraki_builder.Libc.{isalnum, isdigit, isalpha, tolower}
use meraki_builder.Manifest.Version.{
  Result, less, same, greater, compare_bytes, compare_digits, compare_numeric, compare_alpha,
  longer_alpha, starts_alpha, starts_digit, ended, at_end, Turn, final, further, unless_same,
  decided, turn, skip_separators, skip_zeros, digits_of, skip_digits, version_loop, version_compare,
}

abbrev pub flip : Result → Result
flip less = greater
flip same = same
flip greater = less

three_way :
    (m n : ℕ) (r s : Result)
    → s ≡ flip r
    → (if ltb n m then less else if ltb m n then greater else s)
      ≡ flip (if ltb m n then less else if ltb n m then greater else r)
three_way m n r s h = ground (arith, h)

compare_bytes-flip : (a b : Bytes) → compare_bytes b a ≡ flip (compare_bytes a b)
unfolding compare_bytes
compare_bytes-flip [] [] = refl
compare_bytes-flip [] (y ∷ b) = refl
compare_bytes-flip (x ∷ a) [] = refl
compare_bytes-flip (x ∷ a) (y ∷ b) =
    three_way x y (compare_bytes a b) (compare_bytes b a) (compare_bytes-flip a b)

compare_numeric-flip : (a b : Bytes) → compare_numeric b a ≡ flip (compare_numeric a b)
unfolding compare_numeric compare_digits
compare_numeric-flip a b =
    three_way (length (digits_of (skip_zeros a))) (length (digits_of (skip_zeros b))) _ _
      (compare_bytes-flip (digits_of (skip_zeros a)) (digits_of (skip_zeros b)))

abbrev swapped : Result × Bytes × Bytes → Result × Bytes × Bytes
swapped (r, a, b) = (flip r, b, a)

longer_alpha-flip : (a b : Bool) → longer_alpha b a ≡ flip (longer_alpha a b)
longer_alpha-flip true true = refl
longer_alpha-flip true false = refl
longer_alpha-flip false true = refl
longer_alpha-flip false false = refl

abbrev Triple : Type 0
Triple = Result × Bytes × Bytes

-- The letters of one place, compared both ways.
letter :
    (p q : Bool) (m n : ℕ) (a b : Bytes) (r s : Triple)
    → s ≡ swapped r
    → (elim (q && p) as (λ _. Triple) [
      | false ↦ (longer_alpha q p, b, a)
      | true ↦ elim (ltb n m) as (λ _. Triple) [
        | true ↦ (less, b, a)
        | false ↦ elim (ltb m n) as (λ _. Triple) [ true ↦ (greater, b, a) | false ↦ s ]
      ]
    ])
      ≡ swapped (elim (p && q) as (λ _. Triple) [
        | false ↦ (longer_alpha p q, a, b)
        | true ↦ elim (ltb m n) as (λ _. Triple) [
          | true ↦ (less, a, b)
          | false ↦ elim (ltb n m) as (λ _. Triple) [ true ↦ (greater, a, b) | false ↦ r ]
        ]
      ])
letter true true m n a b r s h = ground (arith, h)
letter true false m n a b r s h = refl
letter false true m n a b r s h = refl
letter false false m n a b r s h = refl

compare_alpha-flip : (a b : Bytes) → compare_alpha b a ≡ swapped (compare_alpha a b)
unfolding compare_alpha
compare_alpha-flip [] [] = refl
compare_alpha-flip [] (y ∷ b) = ap (λ r. (r, y ∷ b, [])) (longer_alpha-flip false (isalpha y))
compare_alpha-flip (x ∷ a) [] = ap (λ r. (r, [], x ∷ a)) (longer_alpha-flip (isalpha x) false)
compare_alpha-flip (x ∷ a) (y ∷ b) =
    letter (isalpha x) (isalpha y) (tolower x) (tolower y) (x ∷ a) (y ∷ b) _ _
      (compare_alpha-flip a b)

abbrev turned : Turn → Turn
turned (final r) = final (flip r)
turned (further a b) = further b a

unless_same-turned :
    (r : Result) (a b : Bytes) → unless_same (flip r) b a ≡ turned (unless_same r a b)
unless_same-turned less a b = refl
unless_same-turned same a b = refl
unless_same-turned greater a b = refl

decided-turned : (t : Triple) → decided (swapped t) ≡ turned (decided t)
decided-turned (r, a, b) = unless_same-turned r a b

kinds :
    (da la db lb : Bool) (x y x' y' : Turn)
    → (la || da) ≡ true
    → (lb || db) ≡ true
    → (la && da) ≡ false
    → (lb && db) ≡ false
    → x' ≡ turned x
    → y' ≡ turned y
    → (if db && da then x' else if lb && la then y' else final (if db then greater else less))
      ≡ turned
          (if da && db then x else if la && lb then y else final (if da then greater else less))
kinds true true db lb x y x' y' p q r s h k = cc
kinds false false db lb x y x' y' p q r s h k = cc
kinds true false true true x y x' y' p q r s h k = cc
kinds true false true false x y x' y' p q r s h k = h
kinds true false false true x y x' y' p q r s h k = refl
kinds true false false false x y x' y' p q r s h k = cc
kinds false true true true x y x' y' p q r s h k = cc
kinds false true true false x y x' y' p q r s h k = refl
kinds false true false true x y x' y' p q r s h k = k
kinds false true false false x y x' y' p q r s h k = cc

-- The text starts with a letter or a digit, or is over.
record Starts (s : Bytes) : Type 0 where
  starts : at_end s ≡ false → (starts_alpha s || starts_digit s) ≡ true

skip_separators-Starts : (s : Bytes) → Starts (skip_separators s)
unfolding skip_separators
skip_separators-Starts [] = record { starts = λ e. cc }
skip_separators-Starts (c ∷ s) =
    elim_both Starts (isalnum c) (c ∷ s) (skip_separators s) (λ e. record { starts = λ _. e })
      (λ _. skip_separators-Starts s)

letter_or_digit : (c : ℕ) → (isalpha c && isdigit c) ≡ false
letter_or_digit c = ground arith

one_kind : (s : Bytes) → (starts_alpha s && starts_digit s) ≡ false
one_kind [] = refl
one_kind (c ∷ s) = letter_or_digit c

turn-turned :
    (a b : Bytes)
    → (starts_alpha a || starts_digit a) ≡ true
    → (starts_alpha b || starts_digit b) ≡ true
    → turn b a ≡ turned (turn a b)
unfolding turn
turn-turned a b p q =
    kinds (starts_digit a) (starts_alpha a) (starts_digit b) (starts_alpha b) _ _ _ _ p q
      (one_kind a) (one_kind b)
      (ap (λ r. unless_same r (skip_digits b) (skip_digits a)) (compare_numeric-flip a b)
        ∙ unless_same-turned (compare_numeric a b) (skip_digits a) (skip_digits b))
      (ap decided (compare_alpha-flip a b) ∙ decided-turned (compare_alpha a b))

either_way :
    (p q : Bool) (x y x' y' : Result)
    → ((p || q) ≡ true → x' ≡ flip x)
    → (p ≡ false → q ≡ false → y' ≡ flip y)
    → elim (q || p) as (λ _. Result) [ true ↦ x' | false ↦ y' ]
      ≡ flip (elim (p || q) as (λ _. Result) [ true ↦ x | false ↦ y ])
either_way true true x y x' y' h k = h refl
either_way true false x y x' y' h k = h refl
either_way false true x y x' y' h k = h refl
either_way false false x y x' y' h k = k refl refl

ended-flip : (s : Bytes) → ended s [] ≡ flip (ended [] s)
ended-flip [] = refl
ended-flip (c ∷ s) = refl

unended : (s : Bytes) → ended [] s ≡ flip (ended s [])
unended [] = refl
unended (c ∷ s) = refl

over :
    (a b : Bytes)
    → (at_end a || at_end b) ≡ true
    → ended (skip_separators b) (skip_separators a)
      ≡ flip (ended (skip_separators a) (skip_separators b))
unfolding skip_separators
over [] b h = ended-flip (skip_separators b)
over (c ∷ a) [] h = unended (skip_separators (c ∷ a))
over (c ∷ a) (d ∷ b) h = cc

follow :
    (t : Turn) (f : Bytes → Bytes → Result)
    → ((c d : Bytes) → f d c ≡ flip (f c d))
    → elim (turned t) as (λ _. Result) [ final r ↦ r | further c d ↦ f c d ]
      ≡ flip (elim t as (λ _. Result) [ final r ↦ r | further c d ↦ f c d ])
follow (final r) f h = refl
follow (further c d) f h = h c d

version_loop-flip : (n : ℕ) (a b : Bytes) → version_loop n b a ≡ flip (version_loop n a b)
unfolding version_loop
version_loop-flip zero a b = refl
version_loop-flip (suc n) a b =
    let a' = skip_separators a in
    let b' = skip_separators b in
    either_way (at_end a') (at_end b') _ _ _ _ (over a' b') (λ p q.
      ap (λ (t : Turn). elim t as (λ _. Result) [ final r ↦ r | further c d ↦ version_loop n c d ])
        (turn-turned a' b' ((skip_separators-Starts a).starts p)
          ((skip_separators-Starts b).starts q))
      ∙ follow (turn a' b') (version_loop n) (version_loop-flip n))

-- Swapped version texts compare the other way round.
pub version_compare-flip :
    (left right : Bytes) → version_compare right left ≡ flip (version_compare left right)
unfolding version_compare
version_compare-flip left right =
    ap (λ n. version_loop (suc n) right left) (omega arith)
    ∙ version_loop-flip (suc (length left + length right)) left right
