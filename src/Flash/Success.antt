-- ===== src/Flash/Success.antt =====
-- On a flash that works, the image is written, compared, and found to be there.
use meraki_builder.Prelude.{
  ℕ, zero, suc, ◌+◌, ◌-◌, ◌*◌, ◌≤◌, ◌<◌, ◌%◌, ◌^◌, min, Bytes, Bool, true, false, not, ◌++◌, some,
  ◌==◌, ◌≡◌, refl, sym, ap, ◌∙◌, ◌||◌, ◌&&◌, if_both, length, take, drop, replicate, length-drop,
  length-take, length-replicate, codes, take_front, drop_front, drop_past, take-replicate,
  drop-replicate, arith, elim_true, bytes_eq, bytes_eq_iff, ==_iff,
}
use native.Mathlib.Nat.{div-add-mod'}
use meraki_builder.Flash.System.{System, MtdInfo, Laws}
use meraki_builder.Flash.Device.{
  Job, Flash, write_status, copy_buffer, turns, blocks, both_seek, erase_partition, write_image,
  compare_chunks, tail_chunks, compare_image,
}
use meraki_builder.Flash.Program.{
  Notes, Attempt, done, fatal, bad_geometry, erase_write_compare, program_device, program_once,
  program_job, attempt, attempted, twice, noted, unless_done,
}
use meraki_builder.Flash.Only.{erase_partition-Kept, write_image-Kept}
use meraki_builder.Flash.Working.{Working, Leaves, erase_blocks-Leaves}
use meraki_builder.Flash.Writing.{both_seeks, went_on, write_image-Leaves}

no_blocks : (n : ℕ) → 0 * n ≡ 0
no_blocks n = omega arith

all_true : (a b : Bool) → a ≡ true → b ≡ true → (a && b) ≡ true
all_true a b h k = ground arith

agree :
    (a b c : Bytes) (n : ℕ)
    → a ≡ c
    → b ≡ c
    → length c ≡ n
    → (length a == n && length b == n && bytes_eq a b) ≡ true
agree a b c n h k l =
    all_true _ _
      (all_true _ _ ((==_iff (length a) n).1 (ap length h ∙ l))
        ((==_iff (length b) n).1 (ap length k ∙ l)))
      ((bytes_eq_iff a b).1 (h ∙ sym k))

blank :
    (b : Bytes) (n : ℕ)
    → b ≡ replicate n 0xff
    → (length b == n && bytes_eq b (replicate n 0xff)) ≡ true
blank b n h =
    all_true _ _ ((==_iff (length b) n).1 (ap length h ∙ length-replicate n 0xff))
      ((bytes_eq_iff b (replicate n 0xff)).1 h)

module _ {World : Type 0} (sys : System World) (laws : Laws sys) (mtd : MtdInfo) (job : Job)
    (works : Working sys mtd job) (content : Bytes) (fits : length content ≤ mtd.size) where
  abbrev whole : Bytes
  whole = content ++ replicate (mtd.size - length content) 0xff

  record Passes (w : World) (r : Flash World × Bool) : Type 0 where
    passes : r.1 ≡ true
    same : r.0.world ≡ w

  compare_chunks-Passes :
      (n at : ℕ) (s : Flash World)
      → sys.file s.world job.image ≡ some content
      → at ≤ length content
      → sys.contents s.world job.device ≡ whole
      → Passes s.world (compare_chunks sys mtd job n (length content) at s)
  unfolding compare_chunks
  compare_chunks-Passes zero at s image h c = record { passes = refl; same = refl }
  compare_chunks-Passes (suc n) at s image h c =
      let want = min copy_buffer (length content - at) in
      let a = sys.read_file s.world job.image at want in
      let b = sys.read_device s.world job.device at want in
      let first : a ≡ take want (drop at content) =
        works.reads_file s.world content at want image in
      let second : b ≡ take want (drop at content) =
        works.reads_device s.world at want
        ∙ ap (λ x. take want (drop at x)) c
        ∙ ap (take want) (drop_front at content _ h)
        ∙ take_front want (drop at content) _ (omega (arith, length-drop at content)) in
      elim_true (Passes s.world) (length a == want && length b == want && bytes_eq a b) _ (s, false)
        (agree a b (take want (drop at content)) want first second
          (omega (arith, length-take want (drop at content), length-drop at content)))
        (compare_chunks-Passes n (at + want) _ image (omega arith) c)

  tail_chunks-passes :
      (n tail : ℕ) (w : World)
      → length content ≤ tail
      → sys.contents w job.device ≡ whole
      → tail_chunks sys mtd job n tail w ≡ true
  unfolding tail_chunks
  tail_chunks-passes zero tail w h c = refl
  tail_chunks-passes (suc n) tail w h c =
      let want = min copy_buffer (mtd.size - tail) in
      let b = sys.read_device w job.device tail want in
      let read : b ≡ replicate want 0xff =
        works.reads_device w tail want
        ∙ ap (λ x. take want (drop tail x)) c
        ∙ ap (take want) (
            drop_past tail content _ h
            ∙ drop-replicate (tail - length content) (mtd.size - length content) 0xff)
        ∙ take-replicate want (mtd.size - length content - (tail - length content)) 0xff
            (omega arith) in
      elim_true (λ (x : Bool). x ≡ true) (length b == want && bytes_eq b (replicate want 0xff)) _
        false (blank b want read) (tail_chunks-passes n (tail + want) w (omega arith) c)

  compare_image-Leaves :
      (s : Flash World)
      → sys.file s.world job.image ≡ some content
      → sys.contents s.world job.device ≡ whole
      → Leaves sys mtd job works whole (compare_image sys mtd job (length content) s)
  unfolding compare_image
  compare_image-Leaves s image c =
      let size = length content in
      let P = Leaves sys mtd job works whole in
      let t = compare_chunks sys mtd job (turns size) size 0 s in
      let front = compare_chunks-Passes (turns size) 0 s image (omega arith) c in
      let holds : sys.contents t.0.world job.device ≡ whole =
        ap (λ w. sys.contents w job.device) front.same ∙ c in
      if_both P (not (both_seek sys mtd job s)) (s, false) _
        (λ e.
          absurd
            (both_seeks _ _ (works.seeks s.world job.device) (works.seeks s.world job.image) e))
        (λ _. record {
          went =
              all_true t.1 _ front.passes
                (tail_chunks-passes (turns (mtd.size - size)) size t.0.world (omega arith) holds);
          holds = holds;
        })

  module _ (divides : mtd.size % mtd.erasesize ≡ 0) (small : mtd.size < 2 ^ 32) where
    erase_partition-Leaves :
        (s : Flash World)
        → Leaves sys mtd job works (replicate mtd.size 0xff) (erase_partition sys mtd job s)
    unfolding erase_partition
    erase_partition-Leaves s =
        erase_blocks-Leaves sys mtd job works (blocks sys mtd job) 0 s
          (omega (arith, div-add-mod' mtd.size mtd.erasesize, divides, no_blocks mtd.erasesize))
          small
          (record {
            rest = sys.contents s.world job.device;
            is =
                ap (λ k. replicate k 0xff ++ sys.contents s.world job.device)
                  (sym (no_blocks mtd.erasesize));
          })

    pub erase_write_compare-Leaves :
        (s : Flash World)
        → sys.file s.world job.image ≡ some content
        → Leaves sys mtd job works whole (erase_write_compare sys mtd job (length content) s)
    unfolding erase_write_compare
    erase_write_compare-Leaves s image =
        let P = Leaves sys mtd job works whole in
        let erased = erase_partition sys mtd job s in
        let written = write_image sys mtd job (length content) erased.0 in
        let first = erase_partition-Leaves s in
        let image' = (erase_partition-Kept sys laws mtd job s).only.images job.image ∙ image in
        let second =
          write_image-Leaves sys laws mtd job works content fits erased.0 image' first.holds in
        if_both P (not erased.1) (erased.0, false) _ (λ e. absurd (went_on erased.1 first.went e))
          (λ _.
            if_both P (not written.1) (written.0, false)
              (compare_image sys mtd job (length content) written.0)
              (λ e. absurd (went_on written.1 second.went e))
              (λ _.
                compare_image-Leaves written.0
                  ((write_image-Kept sys laws mtd job (length content) erased.0).only.images
                      job.image
                    ∙ image')
                  second.holds))

-- An attempt that succeeded with this content of the partition.
pub record Succeeds {World : Type 0} (sys : System World) (device content : Bytes)
    (r : Flash World × Attempt) : Type 0 where
  pub succeeded : r.1 ≡ done true
  pub holds : sys.contents r.0.world device ≡ content

noted-Succeeds :
    {World : Type 0} (sys : System World) (device content : Bytes) (n : Notes)
    (r : Flash World × Attempt)
    → Succeeds sys device content r
    → Succeeds sys device content (noted n r)
noted-Succeeds sys device content n (s, done true) h = record { succeeded = refl; holds = h.holds }
noted-Succeeds sys device content n (s, done false) h = absurd (cc)
noted-Succeeds sys device content n (s, fatal) h = absurd (cc)

once_is_enough :
    {World : Type 0} (sys : System World) (device content : Bytes)
    (again : Flash World → Flash World × Attempt) (r : Flash World × Attempt)
    → Succeeds sys device content r
    → Succeeds sys device content (unless_done again r)
once_is_enough sys device content again (s, done true) h = h
once_is_enough sys device content again (s, done false) h = absurd (cc)
once_is_enough sys device content again (s, fatal) h = absurd (cc)

first_is_last :
    {World : Type 0} (again : Flash World → Flash World × Attempt) (r : Flash World × Attempt)
    → r.1 ≡ done true
    → unless_done again r ≡ r
first_is_last again (s, done true) h = refl
first_is_last again (s, done false) h = absurd (cc)
first_is_last again (s, fatal) h = absurd (cc)

-- The statuses that the programming of a job is wrapped in.
abbrev pub flash_notes : Job → Notes
flash_notes job = record {
  state = codes "flashing";
  first = codes "start";
  low = job.progress_start;
  high = job.progress_end;
}

geometry_checks :
    (mtd : MtdInfo) (job : Job) (size : ℕ)
    → bad_geometry mtd job size ≡ false
    → (size ≤ mtd.size) × (mtd.size % mtd.erasesize ≡ 0)
geometry_checks mtd job size h = ground arith

opened : (a b : Bool) → a ≡ true → b ≡ true → (not a || not b) ≡ true → ⊥
opened a b h k e = ground arith

module _ {World : Type 0} (sys : System World) (laws : Laws sys) (mtd : MtdInfo) (job : Job)
    (works : Working sys mtd job) (content : Bytes) where
  abbrev programmed : Bytes
  programmed = content ++ replicate (mtd.size - length content) 0xff

  program_once-Succeeds :
      (s : Flash World)
      → sys.file s.world job.image ≡ some content
      → bad_geometry mtd job (length content) ≡ false
      → mtd.size < 2 ^ 32
      → Succeeds sys job.device programmed (program_once sys job s)
  unfolding program_once program_device
  program_once-Succeeds s image good small =
      let size = length content in
      let (fits, divides) = geometry_checks mtd job size good in
      let P = Succeeds sys job.device programmed in
      let r = erase_write_compare sys mtd job size s in
      let leaves =
        erase_write_compare-Leaves sys laws mtd job works content fits divides small s image in
      rw (image, program_once)
        (if_both P (not (sys.opens s.world job.image) || not (sys.opens s.world job.device))
          (s, done false) _
          (λ e.
            absurd (opened _ _ (works.opens s.world job.image) (works.opens s.world job.device) e))
          (λ _.
            rw (works.info s.world, program_device)
              (if_both (λ (x : Flash World × Bool). P (attempted x)) (bad_geometry mtd job size)
                (s, false) r (λ e. absurd (cc))
                (λ _. record { succeeded = ap done leaves.went; holds = leaves.holds }))))

  attempt-Succeeds :
      (n : Notes) (s : Flash World)
      → sys.file s.world job.image ≡ some content
      → bad_geometry mtd job (length content) ≡ false
      → mtd.size < 2 ^ 32
      → Succeeds sys job.device programmed (attempt sys n job s)
  unfolding attempt
  attempt-Succeeds n s image good small =
      let started = write_status n.state n.first n.low s in
      noted-Succeeds sys job.device programmed n (program_once sys job started)
        (program_once-Succeeds started image good small)

  -- On a flash that works, a job whose image fits and whose partition has the expected geometry is
  -- programmed by its first attempt alone: the result of the job is that of one attempt, which
  -- succeeds, and the partition then holds the image and 0xff behind it.
  pub program_job-Succeeds :
      (s : Flash World)
      → sys.file s.world job.image ≡ some content
      → bad_geometry mtd job (length content) ≡ false
      → mtd.size < 2 ^ 32
      → (program_job sys job s ≡ attempt sys (flash_notes job) job s)
        × Succeeds sys job.device programmed (program_job sys job s)
  unfolding program_job twice
  program_job-Succeeds s image good small =
      let a = attempt-Succeeds (flash_notes job) s image good small in
      let r = attempt sys (flash_notes job) job s in
      let again = attempt sys (flash_notes job) job in
      (first_is_last again r a.succeeded, once_is_enough sys job.device programmed again r a)
