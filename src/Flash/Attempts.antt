-- ===== src/Flash/Attempts.antt =====
-- One attempt, two attempts and a restoration: what they change, and what their success means.
use meraki_builder.Prelude.{
  ℕ, ◌≤◌, Bytes, Bool, true, false, not, some, ◌≡◌, ◌∙◌, subst, ◌||◌, ◌++◌, length, take, replicate,
  ◌-◌, if_both, option_both, arith, codes,
}
use meraki_builder.Flash.System.{System, MtdInfo, Only, Laws}
use meraki_builder.Flash.Device.{
  Job, Flash, write_status, erase_partition, write_image, compare_image,
}
use meraki_builder.Flash.Program.{
  Attempt, done, fatal, bad_geometry, erase_write_compare, program_device, program_once, Notes,
  noted, attempt, unless_done, twice, program_job, attempted, die, backup_job, restore_backup,
}
use meraki_builder.Flash.Only.{
  Only-refl, Only-trans, erase_write_compare-Kept, write_image-Kept, erase_partition-Kept,
}
use meraki_builder.Flash.Verified.{Programmed, Matched, compare_image-Matched}

-- An operation on the partition of `job`: nothing else changes, and success means that the
-- partition holds the image.
pub record Step {World : Type 0} (sys : System World) (job : Job) (w : World)
    (r : Flash World × Attempt) : Type 0 where
  pub only : Only sys job.device w r.0.world
  pub verified : r.1 ≡ done true → Programmed sys job r.0.world

good_geometry :
    (mtd : MtdInfo) (job : Job) (size : ℕ)
    → bad_geometry mtd job size ≡ false
    → (mtd.size ≡ job.expected_size) × (size ≤ mtd.size)
good_geometry mtd job size h = ground arith

-- The partition of a job holds its backup.
pub record Restored {World : Type 0} (sys : System World) (job : Job) (w : World) : Type 0 where
  pub backup : Bytes
  pub named : job.rollback ≡ some backup
  pub programmed : Programmed sys (backup_job job backup) w

pub record Restoration {World : Type 0} (sys : System World) (job : Job) (w : World)
    (r : Flash World × Attempt) : Type 0 where
  pub only : Only sys job.device w r.0.world
  pub restored : r.1 ≡ done true → Restored sys job r.0.world

module _ {World : Type 0} (sys : System World) (job : Job) where
  idle : (s : Flash World) → Step sys job s.world (s, done false)
  idle s = record { only = Only-refl sys job.device s.world; verified = λ e. cc }

  died : (stage : Bytes) (s : Flash World) → Step sys job s.world (die stage s)
  died stage s = record { only = Only-refl sys job.device s.world; verified = λ e. cc }

  noted-Step :
      (n : Notes) (w : World) (r : Flash World × Attempt)
      → Step sys job w r
      → Step sys job w (noted n r)
  noted-Step n w (s, done true) h = record { only = h.only; verified = h.verified }
  noted-Step n w (s, done false) h = record { only = h.only; verified = λ e. cc }
  noted-Step n w (s, fatal) h = h

  unless_done-Step :
      (again : Flash World → Flash World × Attempt) (w : World) (r : Flash World × Attempt)
      → ((s : Flash World) → Step sys job s.world (again s))
      → Step sys job w r
      → Step sys job w (unless_done again r)
  unless_done-Step again w (s, done true) f h = h
  unless_done-Step again w (s, done false) f h = record {
    only = Only-trans sys job.device w s.world (again s).0.world h.only (f s).only;
    verified = (f s).verified;
  }
  unless_done-Step again w (s, fatal) f h = h

module _ {World : Type 0} (sys : System World) (laws : Laws sys) where
  -- The three phases, when the image fits.
  erase_write_compare-Matched :
      (mtd : MtdInfo) (job : Job) (content : Bytes) (s : Flash World)
      → sys.file s.world job.image ≡ some content
      → length content ≤ mtd.size
      → Matched sys laws mtd job content s.world
          (erase_write_compare sys mtd job (length content) s)
  unfolding erase_write_compare
  erase_write_compare-Matched mtd job content s image fits =
      let size = length content in
      let erased = erase_partition sys mtd job s in
      let written = write_image sys mtd job size erased.0 in
      let first = (erase_partition-Kept sys laws mtd job s).only in
      let second = (write_image-Kept sys laws mtd job size erased.0).only in
      let P = Matched sys laws mtd job content s.world in
      if_both P (not erased.1) (erased.0, false) _ (λ _. record { agrees = λ ok. cc })
        (λ _.
          if_both P (not written.1) (written.0, false) (compare_image sys mtd job size written.0)
            (λ _. record { agrees = λ ok. cc })
            (λ _. record {
              agrees =
                  (compare_image-Matched sys laws mtd job content written.0
                    (second.images job.image ∙ first.images job.image ∙ image) fits).agrees;
            }))

  program_device-Step :
      (job : Job) (content : Bytes) (s : Flash World)
      → sys.file s.world job.image ≡ some content
      → Step sys job s.world (attempted (program_device sys job (length content) s))
  unfolding program_device
  program_device-Step job content s image =
      let size = length content in
      let P = λ (r : Flash World × Bool). Step sys job s.world (attempted r) in
      option_both P (sys.mtd_info s.world job.device) (s, false) _ (idle sys job s)
        (λ mtd _.
          if_both P (bad_geometry mtd job size) (s, false) (erase_write_compare sys mtd job size s)
            (λ _. idle sys job s)
            (λ e.
              let (same_size, fits) = good_geometry mtd job size e in
              let r = erase_write_compare sys mtd job size s in
              let kept = (erase_write_compare-Kept sys laws mtd job size s).only in
              record {
                only = kept;
                verified = λ ok. record {
                  content = content;
                  image = kept.images job.image ∙ image;
                  fits = subst (λ n. size ≤ n) same_size fits;
                  holds =
                      subst
                        (λ n.
                          take n (sys.contents r.0.world job.device)
                          ≡ content ++ replicate (n - size) 0xff)
                        same_size
                        ((erase_write_compare-Matched mtd job content s image fits).agrees (cc));
                };
              }))

  program_once-Step : (job : Job) (s : Flash World) → Step sys job s.world (program_once sys job s)
  unfolding program_once
  program_once-Step job s =
      let P = Step sys job s.world in
      option_both P (sys.file s.world job.image) (die (codes "preflight") s) _
        (died sys job (codes "preflight") s)
        (λ content image.
          if_both P (not (sys.opens s.world job.image) || not (sys.opens s.world job.device))
            (s, done false) (attempted (program_device sys job (length content) s))
            (λ _. idle sys job s) (λ _. program_device-Step job content s image))

  attempt-Step :
      (n : Notes) (job : Job) (s : Flash World) → Step sys job s.world (attempt sys n job s)
  unfolding attempt
  attempt-Step n job s =
      noted-Step sys job n s.world _ (program_once-Step job (write_status n.state n.first n.low s))

  twice-Step : (n : Notes) (job : Job) (s : Flash World) → Step sys job s.world (twice sys n job s)
  unfolding twice
  twice-Step n job s =
      unless_done-Step sys job (attempt sys n job) s.world _ (attempt-Step n job)
        (attempt-Step n job s)

  -- Programming a job changes no other partition, and its success means that the partition holds
  -- the image with an erased tail, whatever the erasures and writes did.
  pub program_job-Step :
      (job : Job) (s : Flash World) → Step sys job s.world (program_job sys job s)
  unfolding program_job
  program_job-Step job s = twice-Step _ job s

  pub restore_backup-Restoration :
      (job : Job) (s : Flash World) → Restoration sys job s.world (restore_backup sys job s)
  unfolding restore_backup
  restore_backup-Restoration job s =
      option_both (Restoration sys job s.world) job.rollback (s, done false) _
        (record { only = Only-refl sys job.device s.world; restored = λ e. cc })
        (λ backup named.
          let step = twice-Step _ (backup_job job backup) s in
          record {
            only = step.only;
            restored = λ e. record { backup = backup; named = named; programmed = step.verified e };
          })
