-- ===== src/Flash/Verified.antt =====
-- What a comparison that succeeds shows: the partition holds the image and an erased tail.
use meraki_builder.Prelude.{
  ℕ, zero, suc, ◌+◌, ◌-◌, ◌*◌, ◌≤◌, min, Bytes, Bool, true, false, not, ◌++◌, some, ◌==◌, ◌≡◌, refl,
  sym, ◌∙◌, ap, subst, ◌&&◌, length, take, drop, replicate, bytes_eq, bytes_eq→eq, elim_both,
  if_both, take-add, drop-add, replicate-add, take-length_le, &&-split, ==_iff, arith,
}
use meraki_builder.Flash.System.{System, MtdInfo, Laws}
use meraki_builder.Flash.Device.{
  Job, Flash, copy_buffer, turns, compare_chunks, tail_chunks, compare_image, both_seek,
}

-- The partition of a job holds its image, and 0xff behind it up to the expected size.
pub record Programmed {World : Type 0} (sys : System World) (job : Job) (w : World) : Type 0 where
  pub content : Bytes
  pub image : sys.file w job.image ≡ some content
  pub fits : length content ≤ job.expected_size
  pub holds :
      take job.expected_size (sys.contents w job.device)
      ≡ content ++ replicate (job.expected_size - length content) 0xff

chunk_checks :
    (m n want : ℕ) (a b : Bytes)
    → (m == want && n == want && bytes_eq a b) ≡ true
    → (m ≡ want) × (n ≡ want) × (a ≡ b)
chunk_checks m n want a b h =
    let (sizes, third) = &&-split (m == want && n == want) (bytes_eq a b) h in
    let (first, second) = &&-split (m == want) (n == want) sizes in
    ((==_iff m want).0 first, (==_iff n want).0 second, bytes_eq→eq a b third)

-- One more turn of a comparison of two sequences from `at` on.
extend :
    (want rest at : ℕ) (xs ys : Bytes)
    → take want (drop at xs) ≡ take want (drop at ys)
    → take rest (drop (at + want) xs) ≡ take rest (drop (at + want) ys)
    → take (want + rest) (drop at xs) ≡ take (want + rest) (drop at ys)
extend want rest at xs ys h k =
    take-add want rest (drop at xs)
    ∙ ap (◌++◌ (take want (drop at xs)))
        (ap (take rest) (sym (drop-add at want xs)) ∙ k ∙ ap (take rest) (drop-add at want ys))
    ∙ ap (λ s. s ++ take rest (drop want (drop at ys))) h
    ∙ sym (take-add want rest (drop at ys))

none_left : (xs ys : Bytes) (n : ℕ) → n ≡ 0 → take n xs ≡ take n ys
none_left xs ys n h = rw h refl

nothing_left : (xs : Bytes) (n : ℕ) → n ≡ 0 → take n xs ≡ replicate n 0xff
nothing_left xs n h = rw h refl

-- A test and what follows it both succeeded.
true_of : (b c : Bool) → elim b [ false ↦ false | true ↦ c ] ≡ true → (b ≡ true) × (c ≡ true)
true_of true c h = (refl, h)
true_of false c h = cc

turn_rest :
    (size at : ℕ)
    → min copy_buffer (size - at) + (size - (at + min copy_buffer (size - at))) ≡ size - at
turn_rest size at = omega arith

turns_enough : (n m : ℕ) → m ≤ n → m ≤ turns n * copy_buffer
turns_enough n m h = omega arith

front_is :
    (n : ℕ) (content xs : Bytes)
    → length content ≤ n
    → take (n - 0) content ≡ take (n - 0) xs
    → take n xs ≡ content
front_is n content xs h e =
    let step : take n content ≡ take n xs =
      subst (λ k. take k content ≡ take k xs) (omega arith) e in
    sym step ∙ take-length_le n content h

-- The compared front and the erased tail make up the partition.
join :
    (content xs : Bytes) (size : ℕ)
    → length content ≤ size
    → take (length content - 0) content ≡ take (length content - 0) xs
    → take (size - length content) (drop (length content) xs)
      ≡ replicate (size - length content) 0xff
    → take size xs ≡ content ++ replicate (size - length content) 0xff
join content xs size fits front back =
    let n = length content in
    sym (ap (λ k. take k xs) (omega arith))
    ∙ take-add n (size - n) xs
    ∙ ap (◌++◌ (take n xs)) back
    ∙ ap (λ s. s ++ replicate (size - n) 0xff) (front_is n content xs (omega arith) front)

module _ {World : Type 0} (sys : System World) (laws : Laws sys) (mtd : MtdInfo) (job : Job)
    (content : Bytes) where
  -- A comparison that succeeds, in the world `w`.
  record Compared (w : World) (size at : ℕ) (r : Flash World × Bool) : Type 0 where
    same_world : r.0.world ≡ w
    agrees :
        r.1 ≡ true
        → take (size - at) (drop at content)
          ≡ take (size - at) (drop at (sys.contents w job.device))

  compare_chunks-Compared :
      (n size at : ℕ) (s : Flash World)
      → sys.file s.world job.image ≡ some content
      → size - at ≤ n * copy_buffer
      → Compared s.world size at (compare_chunks sys mtd job n size at s)
  unfolding compare_chunks
  compare_chunks-Compared zero size at s image enough = record {
    same_world = refl;
    agrees = λ ok.
        none_left (drop at content) (drop at (sys.contents s.world job.device)) (size - at)
          (omega arith);
  }
  compare_chunks-Compared (suc n) size at s image enough =
      let want = min copy_buffer (size - at) in
      let a = sys.read_file s.world job.image at want in
      let b = sys.read_device s.world job.device at want in
      elim_both (Compared s.world size at) (length a == want && length b == want && bytes_eq a b)
        (compare_chunks sys mtd job n size (at + want) _) (s, false)
        (λ e.
          let (first, second, equal) = chunk_checks (length a) (length b) want a b e in
          let rest = compare_chunks-Compared n size (at + want) _ image (omega arith) in
          record {
            same_world = rest.same_world;
            agrees = λ ok.
                let step : take want (drop at content)
                    ≡ take want (drop at (sys.contents s.world job.device)) =
                  ap (λ k. take k (drop at content)) (sym first)
                  ∙ sym (laws.reads_file s.world job.image content at want image)
                  ∙ equal
                  ∙ laws.reads_device s.world job.device at want
                  ∙ ap (λ k. take k (drop at (sys.contents s.world job.device))) second in
                subst
                  (λ k.
                    take k (drop at content) ≡ take k (drop at (sys.contents s.world job.device)))
                  (turn_rest size at)
                  (extend want (size - (at + want)) at content (sys.contents s.world job.device)
                    step (rest.agrees ok));
          })
        (λ _. record { same_world = refl; agrees = λ ok. cc })

  -- The same for the tail.
  tail_chunks-erased :
      (n at : ℕ) (w : World)
      → mtd.size - at ≤ n * copy_buffer
      → tail_chunks sys mtd job n at w ≡ true
      → take (mtd.size - at) (drop at (sys.contents w job.device)) ≡ replicate (mtd.size - at) 0xff
  unfolding tail_chunks
  tail_chunks-erased zero at w enough ok =
      nothing_left (drop at (sys.contents w job.device)) (mtd.size - at) (omega arith)
  tail_chunks-erased (suc n) at w enough ok =
      let want = min copy_buffer (mtd.size - at) in
      let rest = mtd.size - (at + want) in
      let b = sys.read_device w job.device at want in
      let (e, ok') = true_of (length b == want && bytes_eq b (replicate want 0xff)) _ ok in
      let (second, equal) = &&-split (length b == want) (bytes_eq b (replicate want 0xff)) e in
      let step : take want (drop at (sys.contents w job.device)) ≡ replicate want 0xff =
        ap (λ k. take k (drop at (sys.contents w job.device)))
          (sym ((==_iff (length b) want).0 second))
        ∙ sym (laws.reads_device w job.device at want)
        ∙ bytes_eq→eq b (replicate want 0xff) equal in
      subst (λ k. take k (drop at (sys.contents w job.device)) ≡ replicate k 0xff)
        (turn_rest mtd.size at)
        (take-add want rest (drop at (sys.contents w job.device))
          ∙ ap (◌++◌ (take want (drop at (sys.contents w job.device)))) (
              ap (take rest) (sym (drop-add at want (sys.contents w job.device)))
              ∙ tail_chunks-erased n (at + want) w (omega arith) ok')
          ∙ ap (λ s. s ++ replicate rest 0xff) step
          ∙ sym (replicate-add want rest 0xff))

  abbrev Holds : World → ℕ → Type 0
  Holds w size =
      take mtd.size (sys.contents w job.device) ≡ content ++ replicate (mtd.size - size) 0xff

  -- What `compare_image` shows when it succeeds.
  pub record Matched (w : World) (r : Flash World × Bool) : Type 0 where
    pub agrees : r.1 ≡ true → Holds r.0.world (length content)

  pub compare_image-Matched :
      (s : Flash World)
      → sys.file s.world job.image ≡ some content
      → length content ≤ mtd.size
      → Matched s.world (compare_image sys mtd job (length content) s)
  unfolding compare_image
  compare_image-Matched s image fits =
      let size = length content in
      let t = compare_chunks sys mtd job (turns size) size 0 s in
      let compared =
        compare_chunks-Compared (turns size) size 0 s image
          (turns_enough size (size - 0) (omega arith)) in
      if_both (Matched s.world) (not (both_seek sys mtd job s)) (s, false)
        (t.0, t.1 && tail_chunks sys mtd job (turns (mtd.size - size)) size t.0.world)
        (λ _. record { agrees = λ ok. cc })
        (λ _. record {
          agrees = λ ok.
              let (front, back) = &&-split t.1 _ ok in
              let tail =
                tail_chunks-erased (turns (mtd.size - size)) size t.0.world
                  (turns_enough (mtd.size - size) (mtd.size - size) (omega arith)) back in
              subst (λ w. Holds w size) (sym compared.same_world)
                (join content (sys.contents s.world job.device) mtd.size fits
                  (compared.agrees front)
                  (subst
                    (λ w.
                      take (mtd.size - size) (drop size (sys.contents w job.device))
                      ≡ replicate (mtd.size - size) 0xff)
                    compared.same_world tail));
        })
