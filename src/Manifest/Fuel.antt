-- ===== src/Manifest/Fuel.antt =====
-- `version_compare` is given turns enough: more of them change nothing.
use meraki_builder.Prelude.{
  if_both, elim_both, elim_true, ◌||◌, ℕ, zero, suc, ◌+◌, ◌≤◌, ◌<◌, Bytes, Bool, true, false, [],
  ◌∷◌, ◌≡◌, refl, ap, ltb, ◌&&◌, &&-split, if◌then◌else◌, length, arith,
}
use meraki_builder.Libc.{isalnum, isdigit, isalpha, tolower}
use meraki_builder.Manifest.Version.{
  Result, less, same, greater, compare_numeric, compare_alpha, starts_alpha, starts_digit, at_end,
  Turn, final, further, unless_same, decided, turn, skip_separators, skip_digits, version_loop,
}

abbrev Triple : Type 0
Triple = Result × Bytes × Bytes

skip_digits_le : (s : Bytes) → length (skip_digits s) ≤ length s
unfolding skip_digits
skip_digits_le [] = omega arith
skip_digits_le (c ∷ s) =
    elim_both (λ (t : Bytes). length t ≤ suc (length s)) (isdigit c) (skip_digits s) (c ∷ s)
      (λ _. omega (arith, skip_digits_le s)) (λ _. omega arith)

skip_digits_lt : (s : Bytes) → starts_digit s ≡ true → length (skip_digits s) < length s
unfolding skip_digits
skip_digits_lt [] h = cc
skip_digits_lt (c ∷ s) h =
    elim_true (λ (t : Bytes). length t < suc (length s)) (isdigit c) (skip_digits s) (c ∷ s) h
      (omega (arith, skip_digits_le s))

skip_separators_le : (s : Bytes) → length (skip_separators s) ≤ length s
unfolding skip_separators
skip_separators_le [] = omega arith
skip_separators_le (c ∷ s) =
    elim_both (λ (t : Bytes). length t ≤ suc (length s)) (isalnum c) (c ∷ s) (skip_separators s)
      (λ _. omega arith) (λ _. omega (arith, skip_separators_le s))

record AtMost (k : ℕ) (t : Triple) : Type 0 where
  at_most : length t.1 + length t.2 ≤ k

compare_alpha-AtMost : (a b : Bytes) → AtMost (length a + length b) (compare_alpha a b)
unfolding compare_alpha
compare_alpha-AtMost [] b = record { at_most = omega arith }
compare_alpha-AtMost (x ∷ a) [] = record { at_most = omega arith }
compare_alpha-AtMost (x ∷ a) (y ∷ b) =
    let P = AtMost (suc (length a) + suc (length b)) in
    elim_both P (isalpha x && isalpha y) _ _
      (λ _.
        elim_both P (ltb (tolower x) (tolower y)) (less, x ∷ a, y ∷ b) _
          (λ _. record { at_most = omega arith })
          (λ _.
            elim_both P (ltb (tolower y) (tolower x)) (greater, x ∷ a, y ∷ b) (compare_alpha a b)
              (λ _. record { at_most = omega arith })
              (λ _. record { at_most = omega (arith, (compare_alpha-AtMost a b).at_most) })))
      (λ _. record { at_most = omega arith })

-- A turn that goes on leaves less than `k` bytes.
record Shrinks (k : ℕ) (t : Turn) : Type 0 where
  shrinks : (c d : Bytes) → t ≡ further c d → length c + length d < k

sizes :
    (c d e f : Bytes) (k : ℕ)
    → further c d ≡ further e f
    → length c + length d < k
    → length e + length f < k
sizes c d e f k h l = omega (arith, l, ap total h)
  where
    total : Turn → ℕ
    total (final r) = 0
    total (further x y) = length x + length y

unless_same-Shrinks :
    (r : Result) (c d : Bytes) (k : ℕ) → length c + length d < k → Shrinks k (unless_same r c d)
unless_same-Shrinks less c d k h = record { shrinks = λ e f q. cc }
unless_same-Shrinks same c d k h = record { shrinks = λ e f q. sizes c d e f k q h }
unless_same-Shrinks greater c d k h = record { shrinks = λ e f q. cc }

no_letters : (p : Bool) → (p && false) ≡ true → ⊥
no_letters p h = ground arith

decided-Shrinks : (k : ℕ) (t : Triple) → AtMost k t → Shrinks (suc k) (decided t)
decided-Shrinks k (r, c, d) h = unless_same-Shrinks r c d (suc k) (omega (arith, h.at_most))

wider : (k m : ℕ) (t : Turn) → k ≤ m → Shrinks k t → Shrinks m t
wider k m t h s = record { shrinks = λ c d e. omega (arith, s.shrinks c d e) }

-- Letters in both places: equal ones are passed, others decide.
letters-Shrinks :
    (a b : Bytes)
    → (starts_alpha a && starts_alpha b) ≡ true
    → Shrinks (length a + length b) (decided (compare_alpha a b))
unfolding compare_alpha
letters-Shrinks [] b h = cc
letters-Shrinks (x ∷ a) [] h = absurd (no_letters (isalpha x) h)
letters-Shrinks (x ∷ a) (y ∷ b) h =
    let k = suc (length a) + suc (length b) in
    let P = λ (t : Triple). Shrinks k (decided t) in
    elim_true P (isalpha x && isalpha y) _ _ h (
      elim_both P (ltb (tolower x) (tolower y)) (less, x ∷ a, y ∷ b) _
        (λ _. record { shrinks = λ e f q. cc })
        (λ _.
          elim_both P (ltb (tolower y) (tolower x)) (greater, x ∷ a, y ∷ b) (compare_alpha a b)
            (λ _. record { shrinks = λ e f q. cc })
            (λ _. wider (suc (length a + length b)) k _ (omega arith) (
              decided-Shrinks (length a + length b) (compare_alpha a b)
                (compare_alpha-AtMost a b)))))

turn-Shrinks : (a b : Bytes) → Shrinks (length a + length b) (turn a b)
unfolding turn
turn-Shrinks a b =
    let P = Shrinks (length a + length b) in
    if_both P (starts_digit a && starts_digit b) _ _
      (λ e.
        let (p, q) = &&-split (starts_digit a) (starts_digit b) e in
        unless_same-Shrinks (compare_numeric a b) (skip_digits a) (skip_digits b) _
          (omega (arith, skip_digits_lt a p, skip_digits_lt b q)))
      (λ _.
        if_both P (starts_alpha a && starts_alpha b) _
          (final (if starts_digit a then greater else less)) (λ e. letters-Shrinks a b e)
          (λ _. record { shrinks = λ e f q. cc }))

same_branches :
    (b : Bool) (x y z : Result)
    → y ≡ z
    → elim b as (λ _. Result) [ true ↦ x | false ↦ y ]
      ≡ elim b as (λ _. Result) [ true ↦ x | false ↦ z ]
same_branches true x y z h = refl
same_branches false x y z h = h

same_follow :
    (t : Turn) (f g : Bytes → Bytes → Result)
    → ((c d : Bytes) → t ≡ further c d → f c d ≡ g c d)
    → elim t as (λ _. Result) [ final r ↦ r | further c d ↦ f c d ]
      ≡ elim t as (λ _. Result) [ final r ↦ r | further c d ↦ g c d ]
same_follow (final r) f g h = refl
same_follow (further c d) f g h = h c d refl

-- The loop of `version_compare` gives one result for every bound above the bytes of both texts, so
-- the bound that the model starts it with never cuts it short.
pub version_loop-enough :
    (n m : ℕ) (a b : Bytes)
    → length a + length b < n
    → length a + length b < m
    → version_loop n a b ≡ version_loop m a b
unfolding version_loop
version_loop-enough zero m a b h k = absurd (omega arith)
version_loop-enough (suc n) zero a b h k = absurd (omega arith)
version_loop-enough (suc n) (suc m) a b h k =
    let a' = skip_separators a in
    let b' = skip_separators b in
    same_branches (at_end a' || at_end b') _ _ _ (
      same_follow (turn a' b') (version_loop n) (version_loop m) (λ c d e.
        let less_left = (turn-Shrinks a' b').shrinks c d e in
        version_loop-enough n m c d
          (omega (arith, less_left, skip_separators_le a, skip_separators_le b))
          (omega (arith, less_left, skip_separators_le a, skip_separators_le b))))
