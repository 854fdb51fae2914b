-- ===== src/Flash/Program.antt =====
-- `program_once`, `program_job`, `restore_backup` and `rollback_and_reboot`.
use meraki_builder.Prelude.{
  ℕ, ◌%◌, Bytes, Bool, true, false, not, Option, none, some, ◌==◌, ltb, if◌then◌else◌, ◌&&◌, ◌||◌,
  length, codes,
}
use meraki_builder.Flash.System.{System, MtdInfo}
use meraki_builder.Flash.Device.{
  Job, Flash, write_status, erase_partition, write_image, compare_image,
}

-- A call returns whether it succeeded, or `fatal` ends the process.
pub data Attempt : Type 0 where
  done : Bool → Attempt
  fatal : Attempt

-- How the process ends: the work is verified, the changed partitions are restored, a restoration
-- failed, or `fatal` was called.
pub data Ending : Type 0 where
  complete restored recovery_required aborted : Ending

-- The size checks and the erase geometry.
abbrev pub bad_geometry : MtdInfo → Job → ℕ → Bool
bad_geometry mtd job size =
    not mtd.is_nor
    || not (mtd.size == job.expected_size)
    || (size == 0 || ltb mtd.size size)
    || (mtd.erasesize == 0 || not (mtd.size % mtd.erasesize == 0))

-- The statuses that an attempt is wrapped in: its state, first stage and progress values.
pub record Notes : Type 0 where
  pub state : Bytes
  pub first : Bytes
  pub low : ℕ
  pub high : ℕ

abbrev pub backup_job : Job → Bytes → Job
backup_job job rollback = record job { image = rollback; progress_start = 1; progress_end = 99 }

module _ {World : Type 0} where
  abbrev pub attempted : Flash World × Bool → Flash World × Attempt
  attempted (s, ok) = (s, done ok)

  abbrev pub die : Bytes → Flash World → Flash World × Attempt
  die stage s = (write_status (codes "error") stage 100 s, fatal)

  abbrev pub noted : Notes → Flash World × Attempt → Flash World × Attempt
  noted n (s, fatal) = (s, fatal)
  noted n (s, done true) = (write_status n.state (codes "verified") n.high s, done true)
  noted n (s, done false) = (write_status n.state (codes "retry") n.low s, done false)

  abbrev pub unless_done :
      (Flash World → Flash World × Attempt) → Flash World × Attempt → Flash World × Attempt
  unless_done again (s, done false) = again s
  unless_done again (s, done true) = (s, done true)
  unless_done again (s, fatal) = (s, fatal)

  abbrev pub and_also : Bool → Flash World × Attempt → Flash World × Attempt
  and_also ok (s, fatal) = (s, fatal)
  and_also ok (s, done ok') = (s, done (ok && ok'))

  abbrev pub rolled_back : Flash World × Attempt → Flash World × Ending
  rolled_back (s, fatal) = (s, aborted)
  rolled_back (s, done true) = (write_status (codes "rollback") (codes "reboot") 100 s, restored)
  rolled_back (s, done false) =
      (write_status (codes "error") (codes "recovery_required") 100 s, recovery_required)

module _ {World : Type 0} (sys : System World) where
  unfoldable pub erase_write_compare : MtdInfo → Job → ℕ → Flash World → Flash World × Bool
  erase_write_compare mtd job size s =
      let (erased, ok) = erase_partition sys mtd job s in
      let (written, ok') = write_image sys mtd job size erased in
      if not ok
      then (erased, false)
      else if not ok'
      then (written, false)
      else compare_image sys mtd job size written

  -- The device is open, and its geometry is asked for.
  unfoldable pub program_device : Job → ℕ → Flash World → Flash World × Bool
  unfolding erase_write_compare
  program_device job size s = elim (sys.mtd_info s.world job.device) [
    | none ↦ (s, false)
    | some mtd ↦
        if bad_geometry mtd job size then (s, false) else erase_write_compare mtd job size s
  ]

  unfoldable pub program_once : Job → Flash World → Flash World × Attempt
  unfolding program_device
  program_once job s = elim (sys.file s.world job.image) [
    | none ↦ die (codes "preflight") s
    | some content ↦
        if not (sys.opens s.world job.image) || not (sys.opens s.world job.device)
        then (s, done false)
        else attempted (program_device job (length content) s)
  ]

  unfoldable pub attempt : Notes → Job → Flash World → Flash World × Attempt
  unfolding program_once
  attempt n job s = noted n (program_once job (write_status n.state n.first n.low s))

  unfoldable pub twice : Notes → Job → Flash World → Flash World × Attempt
  unfolding attempt
  twice n job s = unless_done (attempt n job) (attempt n job s)

  unfoldable pub program_job : Job → Flash World → Flash World × Attempt
  unfolding twice
  program_job job s =
      twice
        (record {
          state = codes "flashing";
          first = codes "start";
          low = job.progress_start;
          high = job.progress_end;
        })
        job s

  unfoldable pub restore_backup : Job → Flash World → Flash World × Attempt
  unfolding twice
  restore_backup job s = elim job.rollback [
    | none ↦ (s, done false)
    | some rollback ↦
        twice (record { state = codes "rollback"; first = codes "restore"; low = 1; high = 99 })
          (backup_job job rollback) s
  ]

  -- A partition is restored if it is named; whether all went well so far is passed on.
  unfoldable pub restore_if : Option Job → Flash World × Attempt → Flash World × Attempt
  unfolding restore_backup
  restore_if none r = r
  restore_if (some job) (s, fatal) = (s, fatal)
  restore_if (some job) (s, done ok) = and_also ok (restore_backup job s)

  unfoldable pub rollback_and_reboot :
      Option Job → Option Job → Option Job → Option Job → Flash World → Flash World × Ending
  unfolding restore_if
  rollback_and_reboot loader kernel root overlay s = rolled_back (
      restore_if overlay (
        restore_if root (
          restore_if kernel
            (restore_if loader (write_status (codes "rollback") (codes "begin") 1 s, done true)))))
