-- ===== src/Flash/Writing.antt =====
-- On a flash that works, `write_image` stores the image in an erased partition.
use meraki_builder.Prelude.{
  ℕ, zero, suc, ◌+◌, ◌-◌, ◌≤◌, min, Bytes, Bool, true, false, not, ◌++◌, append_assoc, some, ◌==◌,
  ◌≡◌, refl, sym, ap, subst, ◌∙◌, leb, ◌||◌, ◌&&◌, if_both, length, take, drop, replicate,
  length-drop, length-take, take-add, take-length_le, arith, elim_false, elim_both,
}
use meraki_builder.Flash.System.{System, MtdInfo, Laws}
use meraki_builder.Flash.Device.{
  Job, Flash, in_world, copy_buffer, both_seek, write_chunk, write_loop, write_image,
}
use meraki_builder.Flash.Only.{write_chunk-Only}
use meraki_builder.Flash.Working.{Working, Leaves, Wrote, write_chunk-Wrote}

ended : (size at : ℕ) → size - at ≤ 0 → leb size at ≡ true
ended size at h = ground arith

reached : (size at : ℕ) → at ≤ size → leb size at ≡ true → at ≡ size
reached size at h e = ground arith

missing : (size at : ℕ) → leb size at ≡ false → 1 ≤ size - at
missing size at h = ground arith

goes_on : (n : ℕ) (ok : Bool) → 1 ≤ n → ok ≡ true → (n == 0 || not ok) ≡ false
goes_on n ok h e = ground arith

advanced :
    (content buffer : Bytes) (at want size : ℕ)
    → buffer ≡ take want (drop at content)
    → length buffer ≡ want
    → take at content ++ (buffer ++ replicate (size - at - length buffer) 0xff)
      ≡ take (at + length buffer) content ++ replicate (size - (at + length buffer)) 0xff
advanced content buffer at want size read long =
    sym (append_assoc (take at content) buffer (replicate (size - at - length buffer) 0xff))
    ∙ ap (λ s. s ++ replicate (size - at - length buffer) 0xff)
        (ap (◌++◌ (take at content)) read
          ∙ sym (take-add at want content)
          ∙ ap (λ k. take (at + k) content) (sym long))
    ∙ ap (λ j. take (at + length buffer) content ++ replicate j 0xff) (omega arith)

pub both_seeks : (a b : Bool) → a ≡ true → b ≡ true → not (a && b) ≡ true → ⊥
both_seeks a b h k e = ground arith

pub went_on : (a : Bool) → a ≡ true → not a ≡ true → ⊥
went_on a h e = ground arith

module _ {World : Type 0} (sys : System World) (laws : Laws sys) (mtd : MtdInfo) (job : Job)
    (works : Working sys mtd job) (content : Bytes) (fits : length content ≤ mtd.size) where
  -- The partition when the image is written up to `at`.
  abbrev partly : ℕ → Bytes
  partly at = take at content ++ replicate (mtd.size - at) 0xff

  abbrev whole : Bytes
  whole = content ++ replicate (mtd.size - length content) 0xff

  partly-whole : (at : ℕ) → at ≡ length content → partly at ≡ whole
  partly-whole at e =
      ap partly e
      ∙ ap (λ s. s ++ replicate (mtd.size - length content) 0xff)
          (take-length_le (length content) content (omega arith))

  write_loop-Leaves :
      (n at : ℕ) (s : Flash World)
      → sys.file s.world job.image ≡ some content
      → at ≤ length content
      → length content - at ≤ n
      → sys.contents s.world job.device ≡ partly at
      → Leaves sys mtd job works whole (write_loop sys mtd job n (length content) at s)
  unfolding write_loop
  write_loop-Leaves zero at s image h k c = record {
    went = ended (length content) at k;
    holds = c ∙ partly-whole at (omega arith);
  }
  write_loop-Leaves (suc n) at s image h k c =
      let size = length content in
      let P = Leaves sys mtd job works whole in
      let want = min copy_buffer (size - at) in
      let buffer = sys.read_file s.world job.image at want in
      let read : buffer ≡ take want (drop at content) =
        works.reads_file s.world content at want image in
      let long : length buffer ≡ want =
        ap length read
        ∙ omega (arith, length-take want (drop at content), length-drop at content) in
      let r = write_chunk sys mtd job (length buffer) at buffer s.world in
      let wrote : Wrote sys mtd job works
          (take at content ++ (buffer ++ replicate (mtd.size - at - length buffer) 0xff)) r =
        subst
          (λ q.
            Wrote sys mtd job works
              (take at content ++ (buffer ++ replicate (mtd.size - at - length buffer) 0xff))
              (write_chunk sys mtd job (length buffer) q buffer s.world))
          (omega (arith, length-take at content))
          (write_chunk-Wrote sys mtd job works (length buffer) buffer (take at content)
            (mtd.size - at) s.world (omega arith) (omega (arith, long)) c) in
      elim_both P (leb size at) (s, true) _
        (λ e. record { went = refl; holds = c ∙ partly-whole at (reached size at h e) })
        (λ e.
          elim_false P (length buffer == 0 || not r.1) (in_world r.0 s, false) _
            (goes_on (length buffer) r.1 (omega (arith, long, missing size at e)) wrote.went)
            (write_loop-Leaves n (at + length buffer) _
              ((write_chunk-Only sys laws mtd job (length buffer) at buffer s.world).images
                  job.image
                ∙ image)
              (omega (arith, long)) (omega (arith, long, missing size at e))
              (wrote.holds ∙ advanced content buffer at want mtd.size read long)))

  pub write_image-Leaves :
      (s : Flash World)
      → sys.file s.world job.image ≡ some content
      → sys.contents s.world job.device ≡ replicate mtd.size 0xff
      → Leaves sys mtd job works whole (write_image sys mtd job (length content) s)
  unfolding write_image
  write_image-Leaves s image erased =
      let size = length content in
      let P = Leaves sys mtd job works whole in
      let t = write_loop sys mtd job size size 0 s in
      let v = sys.sync_device job.device t.0.world in
      let loop =
        write_loop-Leaves size 0 s image (omega arith) (omega arith)
          (erased ∙ ap (λ j. replicate j 0xff) (omega arith)) in
      if_both P (not (both_seek sys mtd job s)) (s, false) _
        (λ e.
          absurd
            (both_seeks _ _ (works.seeks s.world job.device) (works.seeks s.world job.image) e))
        (λ _.
          if_both P (not t.1) (t.0, false) (in_world v.0 t.0, v.1)
            (λ e. absurd (went_on t.1 loop.went e))
            (λ _. record {
              went = works.syncs t.0.world;
              holds = works.synced t.0.world ∙ loop.holds;
            }))
