-- ===== src/Session/Compare.antt =====
-- `ct_equal` compares as `strcmp` does.
use Prim.Native.Nat.{bit_xor, bit_or}
use meraki_builder.Prelude.{
  ℕ, Bytes, true, [], ◌∷◌, ◌≡◌, ◌↔◌, refl, ap, length, arith, bit_or-nothing, bit_xor-nothing,
  bit_xor_self, ==_iff,
}
use meraki_builder.Session.Table.{ct_loop, ct_equal, nonzero}

ct_loop-nothing :
    (a b : Bytes) (diff : ℕ) → length a ≡ length b → ct_loop a b diff ≡ 0 → (diff ≡ 0) × (a ≡ b)
unfolding ct_loop
ct_loop-nothing [] [] diff l e = (e, refl)
ct_loop-nothing [] (y ∷ b) diff l e = absurd (omega arith)
ct_loop-nothing (x ∷ a) [] diff l e = absurd (omega arith)
ct_loop-nothing (x ∷ a) (y ∷ b) diff l e =
    let (now, rest) = ct_loop-nothing a b (bit_or diff (bit_xor x y)) (omega arith) e in
    let (before, same) = bit_or-nothing diff (bit_xor x y) now in
    (before, rw (bit_xor-nothing x y same) (ap (◌∷◌ y) rest))

ct_loop_self : (a : Bytes) → ct_loop a a 0 ≡ 0
unfolding ct_loop
ct_loop_self [] = refl
ct_loop_self (x ∷ a) = rw (bit_xor_self x) (ct_loop_self a)

ct_loop-one : (a b : Bytes) (diff : ℕ) → ct_loop a b diff ≡ 0 → diff ≡ 0
unfolding ct_loop
ct_loop-one [] b diff e = e
ct_loop-one (x ∷ a) [] diff e = e
ct_loop-one (x ∷ a) (y ∷ b) diff e =
    (bit_or-nothing diff (bit_xor x y) (ct_loop-one a b (bit_or diff (bit_xor x y)) e)).0

starts_at : (n : ℕ) → nonzero n ≡ 0 → n ≡ 0
starts_at n h = ground arith

-- The comparison in constant time says that two strings are the same exactly when they are.
pub ct_equal_iff : (a b : Bytes) → (ct_equal a b ≡ true) ↔ (a ≡ b)
unfolding ct_equal
ct_equal_iff a b = (
  λ e.
      let start = nonzero (bit_xor (length a) (length b)) in
      let zeros = (==_iff (ct_loop a b start) 0).0 e in
      (ct_loop-nothing a b start
        (bit_xor-nothing (length a) (length b)
          (starts_at (bit_xor (length a) (length b)) (ct_loop-one a b start zeros)))
        zeros).1,
  λ e. rw e (rw (bit_xor_self (length b)) (rw (ct_loop_self b) refl)),
)
