-- ===== src/Flash/Fuel.antt =====
-- The bounds on the loops of `write_image` are large enough: more turns change nothing.
use meraki_builder.Prelude.{
  ℕ, zero, suc, ◌+◌, ◌-◌, ◌≤◌, min, Bytes, Bool, true, false, not, [], ◌∷◌, ◌==◌, ◌≡◌, refl, leb,
  ◌||◌, length, drop, length-drop, arith,
}
use meraki_builder.Flash.System.{System, MtdInfo}
use meraki_builder.Flash.Device.{Job, Flash, in_world, copy_buffer, write_chunk, write_loop}

-- Two results of a test that agree on each branch where it can go.
same_branches :
    {A : Type 0} (b : Bool) (x y z : A)
    → (b ≡ false → y ≡ z)
    → elim b as (λ _. A) [ true ↦ x | false ↦ y ] ≡ elim b as (λ _. A) [ true ↦ x | false ↦ z ]
same_branches true x y z h = refl
same_branches false x y z h = h refl

read_some : (n : ℕ) (b : Bool) → (n == 0 || b) ≡ false → 1 ≤ n
read_some n b h = ground arith

short_of : (size at : ℕ) → leb size at ≡ false → 1 ≤ size - at
short_of size at h = ground arith

is_done : (size at : ℕ) → size - at ≤ 0 → leb size at ≡ true
is_done size at h = ground arith

is_some : (n : ℕ) → (n == 0) ≡ false → 1 ≤ n
is_some n h = ground arith

shorter :
    (n count b : ℕ) (s : Bytes)
    → (count == 0) ≡ false
    → length (b ∷ s) ≤ suc n
    → length (drop count (b ∷ s)) ≤ n
shorter n count b s e h = omega (arith, is_some count e, length-drop count (b ∷ s))

module _ {World : Type 0} (sys : System World) (mtd : MtdInfo) (job : Job) where
  pub write_chunk-enough :
      (n m position : ℕ) (s : Bytes) (w : World)
      → length s ≤ n
      → length s ≤ m
      → write_chunk sys mtd job n position s w ≡ write_chunk sys mtd job m position s w
  unfolding write_chunk
  write_chunk-enough zero zero position s w h k = refl
  write_chunk-enough zero (suc m) position [] w h k = refl
  write_chunk-enough zero (suc m) position (b ∷ s) w h k = absurd (omega arith)
  write_chunk-enough (suc n) zero position [] w h k = refl
  write_chunk-enough (suc n) zero position (b ∷ s) w h k = absurd (omega arith)
  write_chunk-enough (suc n) (suc m) position [] w h k = refl
  write_chunk-enough (suc n) (suc m) position (b ∷ s) w h k =
      let r = sys.write_device job.device position (b ∷ s) w in
      same_branches (r.1 == 0) (r.0, false) _ _
        (λ e.
          write_chunk-enough n m (position + r.1) (drop r.1 (b ∷ s)) r.0 (shorter n r.1 b s e h)
            (shorter m r.1 b s e k))

  -- The loop of `write_image` gives one result for every bound of at least the bytes that are left,
  -- so the bound `size` that the model starts it with never cuts it short.
  pub write_loop-enough :
      (n m size at : ℕ) (s : Flash World)
      → size - at ≤ n
      → size - at ≤ m
      → write_loop sys mtd job n size at s ≡ write_loop sys mtd job m size at s
  unfolding write_loop
  write_loop-enough zero zero size at s h k = refl
  write_loop-enough zero (suc m) size at s h k = rw (is_done size at h, write_loop)
  write_loop-enough (suc n) zero size at s h k = rw (is_done size at k, write_loop)
  write_loop-enough (suc n) (suc m) size at s h k =
      let buffer = sys.read_file s.world job.image at (min copy_buffer (size - at)) in
      let r = write_chunk sys mtd job (length buffer) at buffer s.world in
      same_branches (leb size at) (s, true) _ _
        (λ e.
          same_branches (length buffer == 0 || not r.1) (in_world r.0 s, false) _ _
            (λ f.
              write_loop-enough n m size (at + length buffer) _
                (omega (arith, read_some (length buffer) (not r.1) f, short_of size at e))
                (omega (arith, read_some (length buffer) (not r.1) f, short_of size at e))))
