-- ===== src/Flash/Only.antt =====
-- Each operation on a partition leaves the others and the image files alone.
use meraki_builder.Prelude.{
  ℕ, zero, suc, ◌+◌, ◌-◌, ◌*◌, ◌%◌, ◌^◌, min, Bytes, Bool, true, false, not, [], ◌∷◌, ◌==◌, refl,
  ◌∙◌, leb, ◌&&◌, ◌||◌, length, drop, if_both, bytes_eq, elim_both,
}
use meraki_builder.Flash.System.{System, MtdInfo, Only, Laws}
use meraki_builder.Flash.Device.{
  Job, Flash, in_world, copy_buffer, turns, blocks, erase_status, erase_blocks, erase_partition,
  write_chunk, write_loop, write_image, compare_chunks, compare_image, both_seek,
}
use meraki_builder.Flash.Program.{erase_write_compare}

module _ {World : Type 0} (sys : System World) (path : Bytes) where
  pub Only-refl : (w : World) → Only sys path w w
  Only-refl w = record { others = λ q ne. refl; images = λ q. refl }

  pub Only-trans : (u v w : World) → Only sys path u v → Only sys path v w → Only sys path u w
  Only-trans u v w a b = record {
    others = λ q ne. b.others q ne ∙ a.others q ne;
    images = λ q. b.images q ∙ a.images q;
  }

module _ {World : Type 0} (sys : System World) (laws : Laws sys) (mtd : MtdInfo) (job : Job) where
  -- The world behind an operation, seen from that before it.
  pub record Kept (w : World) (r : Flash World × Bool) : Type 0 where
    pub only : Only sys job.device w r.0.world

  kept : (w v : World) (r : Flash World × Bool) → Only sys job.device w v → Kept v r → Kept w r
  kept w v r a b = record { only = Only-trans sys job.device w v r.0.world a b.only }

  unchanged : (s : Flash World) (ok : Bool) → Kept s.world (s, ok)
  unchanged s ok = record { only = Only-refl sys job.device s.world }

  erase_blocks-Kept : (n i : ℕ) (s : Flash World) → Kept s.world (erase_blocks sys mtd job n i s)
  unfolding erase_blocks
  erase_blocks-Kept zero i s = unchanged s true
  erase_blocks-Kept (suc n) i s =
      let start = i * mtd.erasesize % 2 ^ 32 in
      let step = laws.erases job.device start mtd.erasesize s.world in
      let r = sys.mem_erase job.device start mtd.erasesize s.world in
      let t = in_world r.0 s in
      elim_both (Kept s.world) r.1
        (erase_blocks sys mtd job n (suc i) (erase_status sys mtd job i t)) (t, false)
        (λ _. kept s.world r.0 _ step (erase_blocks-Kept n (suc i) (erase_status sys mtd job i t)))
        (λ _. record { only = step })

  pub write_chunk-Only :
      (n position : ℕ) (s : Bytes) (w : World)
      → Only sys job.device w (write_chunk sys mtd job n position s w).0
  unfolding write_chunk
  write_chunk-Only n position [] w = Only-refl sys job.device w
  write_chunk-Only zero position (b ∷ s) w = Only-refl sys job.device w
  write_chunk-Only (suc n) position (b ∷ s) w =
      let r = sys.write_device job.device position (b ∷ s) w in
      let step = laws.writes job.device position (b ∷ s) w in
      elim_both (λ (x : World × Bool). Only sys job.device w x.0) (r.1 == 0) (r.0, false)
        (write_chunk sys mtd job n (position + r.1) (drop r.1 (b ∷ s)) r.0) (λ _. step)
        (λ _.
          Only-trans sys job.device w r.0 _ step
            (write_chunk-Only n (position + r.1) (drop r.1 (b ∷ s)) r.0))

  write_loop-Kept :
      (n size at : ℕ) (s : Flash World) → Kept s.world (write_loop sys mtd job n size at s)
  unfolding write_loop
  write_loop-Kept zero size at s = unchanged s (leb size at)
  write_loop-Kept (suc n) size at s =
      let buffer = sys.read_file s.world job.image at (min copy_buffer (size - at)) in
      let r = write_chunk sys mtd job (length buffer) at buffer s.world in
      let step = write_chunk-Only (length buffer) at buffer s.world in
      elim_both (Kept s.world) (leb size at) (s, true) _ (λ _. unchanged s true)
        (λ _.
          elim_both (Kept s.world) (length buffer == 0 || not r.1) (in_world r.0 s, false)
            (write_loop sys mtd job n size (at + length buffer) _) (λ _. record { only = step })
            (λ _. kept s.world r.0 _ step (write_loop-Kept n size (at + length buffer) _)))

  pub write_image-Kept :
      (size : ℕ) (s : Flash World) → Kept s.world (write_image sys mtd job size s)
  unfolding write_image
  write_image-Kept size s =
      let t = write_loop sys mtd job size size 0 s in
      let v = sys.sync_device job.device t.0.world in
      let loop = write_loop-Kept size size 0 s in
      if_both (Kept s.world) (not (both_seek sys mtd job s)) (s, false) _ (λ _. unchanged s false)
        (λ _.
          if_both (Kept s.world) (not t.1) (t.0, false) (in_world v.0 t.0, v.1)
            (λ _. record { only = loop.only })
            (λ _. record {
              only =
                  Only-trans sys job.device s.world t.0.world v.0 loop.only
                    (laws.syncs job.device t.0.world);
            }))

  compare_chunks-Kept :
      (n size at : ℕ) (s : Flash World) → Kept s.world (compare_chunks sys mtd job n size at s)
  unfolding compare_chunks
  compare_chunks-Kept zero size at s = unchanged s true
  compare_chunks-Kept (suc n) size at s =
      let want = min copy_buffer (size - at) in
      let a = sys.read_file s.world job.image at want in
      let b = sys.read_device s.world job.device at want in
      elim_both (Kept s.world) (length a == want && length b == want && bytes_eq a b)
        (compare_chunks sys mtd job n size (at + want) _) (s, false)
        (λ _. compare_chunks-Kept n size (at + want) _) (λ _. unchanged s false)

  compare_image-Kept :
      (size : ℕ) (s : Flash World) → Kept s.world (compare_image sys mtd job size s)
  unfolding compare_image
  compare_image-Kept size s =
      if_both (Kept s.world) (not (both_seek sys mtd job s)) (s, false) _ (λ _. unchanged s false)
        (λ _. record { only = (compare_chunks-Kept (turns size) size 0 s).only })

  pub erase_partition-Kept : (s : Flash World) → Kept s.world (erase_partition sys mtd job s)
  unfolding erase_partition
  erase_partition-Kept s = erase_blocks-Kept (blocks sys mtd job) 0 s

  pub erase_write_compare-Kept :
      (size : ℕ) (s : Flash World) → Kept s.world (erase_write_compare sys mtd job size s)
  unfolding erase_write_compare
  erase_write_compare-Kept size s =
      let erased = erase_partition sys mtd job s in
      let written = write_image sys mtd job size erased.0 in
      let first = erase_partition-Kept s in
      if_both (Kept s.world) (not erased.1) (erased.0, false) _ (λ _. record { only = first.only })
        (λ _. kept s.world erased.0.world _ first.only (
          if_both (Kept erased.0.world) (not written.1) (written.0, false)
            (compare_image sys mtd job size written.0)
            (λ _. record { only = (write_image-Kept size erased.0).only })
            (λ _.
              kept erased.0.world written.0.world _ (write_image-Kept size erased.0).only
                (compare_image-Kept size written.0))))
