-- ===== src/Auth/Equal.antt =====
-- `constant_time_equal` compares as `strcmp` does.
use Prim.Native.Nat.{bit_xor, bit_or}
use meraki_builder.Prelude.{
  ℕ, Bytes, true, [], ◌∷◌, ◌≡◌, ◌↔◌, refl, ap, length, arith, bit_or-nothing, bit_xor-nothing,
  bit_xor_self, ==_iff,
}
use meraki_builder.Auth.Verify.{equal_loop, constant_time_equal}

equal_loop-one :
    (left right : Bytes) (difference : ℕ) → equal_loop left right difference ≡ 0 → difference ≡ 0
unfolding equal_loop
equal_loop-one (a ∷ left) (b ∷ right) d e =
    (bit_or-nothing d (bit_xor a b) (equal_loop-one left right (bit_or d (bit_xor a b)) e)).0
equal_loop-one (a ∷ left) [] d e =
    (bit_or-nothing d (bit_xor a 0) (equal_loop-one left [] (bit_or d (bit_xor a 0)) e)).0
equal_loop-one [] (b ∷ right) d e =
    (bit_or-nothing d (bit_xor 0 b) (equal_loop-one [] right (bit_or d (bit_xor 0 b)) e)).0
equal_loop-one [] [] d e = e

equal_loop-nothing :
    (left right : Bytes) (difference : ℕ)
    → length left ≡ length right
    → equal_loop left right difference ≡ 0
    → left ≡ right
unfolding equal_loop
equal_loop-nothing (a ∷ left) (b ∷ right) d l e =
    let next = bit_or d (bit_xor a b) in
    let rest = equal_loop-nothing left right next (omega arith) e in
    let same = (bit_or-nothing d (bit_xor a b) (equal_loop-one left right next e)).1 in
    rw (bit_xor-nothing a b same) (ap (◌∷◌ b) rest)
equal_loop-nothing (a ∷ left) [] d l e = absurd (omega arith)
equal_loop-nothing [] (b ∷ right) d l e = absurd (omega arith)
equal_loop-nothing [] [] d l e = refl

equal_loop_self : (s : Bytes) → equal_loop s s 0 ≡ 0
unfolding equal_loop
equal_loop_self [] = refl
equal_loop_self (c ∷ s) = rw (bit_xor_self c) (equal_loop_self s)

-- The comparison says that two texts are the same exactly when they are.
pub constant_time_equal_iff :
    (left right : Bytes) → (constant_time_equal left right ≡ true) ↔ (left ≡ right)
unfolding constant_time_equal
constant_time_equal_iff left right = (
  λ e.
      let start = bit_xor (length left) (length right) in
      let zeros = (==_iff (equal_loop left right start) 0).0 e in
      equal_loop-nothing left right start
        (bit_xor-nothing (length left) (length right) (equal_loop-one left right start zeros))
        zeros,
  λ e. rw e (rw (bit_xor_self (length right)) (rw (equal_loop_self right) refl)),
)
