-- ===== src/Flash/Device.antt =====
-- One partition: `progress_between`, `erase_partition`, `write_image` and `compare_image`.
use meraki_builder.Prelude.{
  ℕ, zero, suc, ◌+◌, ◌-◌, ◌*◌, ◌/◌, ◌%◌, ◌^◌, min, Bytes, Bool, true, false, not, List, [], ◌∷◌,
  ◌++◌, Option, ◌==◌, leb, if◌then◌else◌, ◌&&◌, ◌||◌, length, drop, replicate, bytes_eq, codes,
}
use meraki_builder.Flash.System.{System, MtdInfo}

-- `struct image_job` with its image and device given.
pub record Job : Type 0 where
  pub image : Bytes
  pub device : Bytes
  pub rollback : Option Bytes
  pub expected_size : ℕ
  pub progress_start : ℕ
  pub progress_end : ℕ

-- What `write_status` tells, its message aside.
pub record Status : Type 0 where
  pub state : Bytes
  pub stage : Bytes
  pub progress : ℕ

pub record Flash (World : Type 0) : Type 0 where
  pub world : World
  pub log : List Status

abbrev pub copy_buffer : ℕ
copy_buffer = 64 * 1024

-- The number of turns of a loop over `n` bytes in steps of the buffer.
abbrev pub turns : ℕ → ℕ
turns n = (n + (copy_buffer - 1)) / copy_buffer

unfoldable pub progress_between : Job → ℕ → ℕ → ℕ
progress_between job done total =
    if total == 0
    then job.progress_start
    else job.progress_start + (job.progress_end - job.progress_start) * done / total

module _ {World : Type 0} where
  abbrev pub write_status : Bytes → Bytes → ℕ → Flash World → Flash World
  write_status state stage progress s = record s {
    log = s.log ++ record { state = state; stage = stage; progress = progress } ∷ [];
  }

  abbrev pub in_world : World → Flash World → Flash World
  in_world w s = record s { world = w }

module _ {World : Type 0} (sys : System World) (mtd : MtdInfo) (job : Job) where
  abbrev pub blocks : ℕ
  blocks = mtd.size / mtd.erasesize

  abbrev pub erase_status : ℕ → Flash World → Flash World
  erase_status i s = record s {
    log =
        if i % 8 == 0 || suc i == blocks
        then (write_status (codes "flashing") (codes "erase")
            (progress_between job (suc i) (blocks * 3)) s).log
        else s.log;
  }

  -- `n` blocks from block `i` on.
  unfoldable pub erase_blocks : ℕ → ℕ → Flash World → Flash World × Bool
  erase_blocks zero i s = (s, true)
  erase_blocks (suc n) i s =
      let (w, ok) = sys.mem_erase job.device (i * mtd.erasesize % 2 ^ 32) mtd.erasesize s.world in
      elim ok [
        | false ↦ (in_world w s, false)
        | true ↦ erase_blocks n (suc i) (erase_status i (in_world w s))
      ]

  unfoldable pub erase_partition : Flash World → Flash World × Bool
  unfolding erase_blocks
  erase_partition s = erase_blocks blocks 0 s

  -- The bytes of one read, written from `position` on; `n` bounds the number of writes.
  unfoldable pub write_chunk : ℕ → ℕ → Bytes → World → World × Bool
  write_chunk n position [] w = (w, true)
  write_chunk zero position (b ∷ s) w = (w, false)
  write_chunk (suc n) position (b ∷ s) w =
      let (v, count) = sys.write_device job.device position (b ∷ s) w in
      elim (count == 0) [
        | true ↦ (v, false)
        | false ↦ write_chunk n (position + count) (drop count (b ∷ s)) v
      ]

  -- The loop over the image, whose reads may be short; `n` bounds their number.
  unfoldable pub write_loop : ℕ → ℕ → ℕ → Flash World → Flash World × Bool
  unfolding write_chunk
  write_loop zero size done s = (s, leb size done)
  write_loop (suc n) size done s = elim (leb size done) [
    | true ↦ (s, true)
    | false ↦
        let buffer = sys.read_file s.world job.image done (min copy_buffer (size - done)) in
        let (w, ok) = write_chunk (length buffer) done buffer s.world in
        elim (length buffer == 0 || not ok) [
          | true ↦ (in_world w s, false)
          | false ↦ write_loop n size (done + length buffer) (
              write_status (codes "flashing") (codes "write")
                (progress_between job (mtd.size + (done + length buffer)) (mtd.size * 3))
                (in_world w s))
        ]
  ]

  abbrev pub both_seek : Flash World → Bool
  both_seek s = sys.seeks s.world job.device && sys.seeks s.world job.image

  unfoldable pub write_image : ℕ → Flash World → Flash World × Bool
  unfolding write_loop
  write_image size s =
      let (t, written) = write_loop size size 0 s in
      let (w, synced) = sys.sync_device job.device t.world in
      if not (both_seek s)
      then (s, false)
      else if not written
      then (t, false)
      else (in_world w t, synced)

  -- The comparison of the image, in `n` turns from `done` on.
  unfoldable pub compare_chunks : ℕ → ℕ → ℕ → Flash World → Flash World × Bool
  compare_chunks zero size done s = (s, true)
  compare_chunks (suc n) size done s =
      let want = min copy_buffer (size - done) in
      let a = sys.read_file s.world job.image done want in
      let b = sys.read_device s.world job.device done want in
      elim (length a == want && length b == want && bytes_eq a b) [
        | false ↦ (s, false)
        | true ↦ compare_chunks n size (done + want) (
            write_status (codes "flashing") (codes "verify")
              (progress_between job (mtd.size * 2 + (done + want)) (mtd.size * 3)) s)
      ]

  -- The erased tail of the partition, in `n` turns from `tail` on.
  unfoldable pub tail_chunks : ℕ → ℕ → World → Bool
  tail_chunks zero tail w = true
  tail_chunks (suc n) tail w =
      let want = min copy_buffer (mtd.size - tail) in
      let b = sys.read_device w job.device tail want in
      elim (length b == want && bytes_eq b (replicate want 0xff)) [
        | false ↦ false
        | true ↦ tail_chunks n (tail + want) w
      ]

  unfoldable pub compare_image : ℕ → Flash World → Flash World × Bool
  unfolding compare_chunks tail_chunks
  compare_image size s =
      let (t, same) = compare_chunks (turns size) size 0 s in
      if not (both_seek s)
      then (s, false)
      else (t, same && tail_chunks (turns (mtd.size - size)) size t.world)
