-- ===== src/Flash/Plan.antt =====
-- `main` of fwflash.c: the sets of images that the options may name, the preflight checks, and the
-- order in which partitions are programmed.
use meraki_builder.Prelude.{
  ℕ, ◌*◌, Bytes, Bool, true, false, not, List, [], ◌∷◌, Option, none, some, ◌==◌, if◌then◌else◌,
  ◌&&◌, ◌||◌, length, bytes_eq, codes,
}
use meraki_builder.Flash.System.{System}
use meraki_builder.Flash.Device.{Job, Flash, write_status}
use meraki_builder.Flash.Program.{
  Attempt, done, fatal, Ending, complete, aborted, bad_geometry, program_job, rollback_and_reboot,
}

-- The three options of one partition.
pub record Draft : Type 0 where
  pub image : Option Bytes
  pub device : Option Bytes
  pub rollback : Option Bytes

pub record Request : Type 0 where
  pub loader : Draft
  pub kernel : Draft
  pub root : Draft
  pub overlay : Draft
  pub overlay_only_operation : Bool
  pub reboot_after : Bool

-- What is programmed: the overlay alone, the root filesystem with or without the overlay, or all
-- of loader, kernel, root filesystem and overlay.
pub data Plan : Type 0 where
  overlay_only : Job → Plan
  system : Job → Option Job → Plan
  full : Job → Job → Job → Job → Plan

abbrev pub given : Option Bytes → Bool
given none = false
given (some s) = true

abbrev pub have : Draft → Bool
have d = given d.image || given d.device || given d.rollback

-- A complete set of image, device and backup.
unfoldable pub job_of : ℕ → ℕ → ℕ → Option Bytes → Option Bytes → Option Bytes → Option Job
job_of size low high (some image) (some device) (some rollback) = some (record {
  image = image;
  device = device;
  rollback = some rollback;
  expected_size = size;
  progress_start = low;
  progress_end = high;
})
job_of size low high _ _ _ = none

abbrev pub complete_job : Draft → ℕ → ℕ → ℕ → Option Job
unfolding job_of
complete_job d size low high = job_of size low high d.image d.device d.rollback

abbrev pub loader_size : ℕ
loader_size = 256 * 1024

abbrev pub kernel_size : ℕ
kernel_size = 2816 * 1024

abbrev pub rootfs_size : ℕ
rootfs_size = 8 * 1024 * 1024

abbrev pub overlay_size : ℕ
overlay_size = 5 * 1024 * 1024

abbrev pub full_plan : Option Job → Option Job → Option Job → Option Job → Option Plan
full_plan (some loader) (some kernel) (some root) (some overlay) =
    some (full loader kernel root overlay)
full_plan _ _ _ _ = none

-- The plan of a request, or nothing for a usage error.
unfoldable pub plan : Request → Option Plan
unfolding job_of
plan q =
    let overlay_job = complete_job q.overlay overlay_size in
    let root_job = complete_job q.root rootfs_size in
    if q.overlay_only_operation
    then if not (have q.overlay) || have q.root || have q.loader || have q.kernel
      then none
      else elim (overlay_job 5 95) [ none ↦ none | some overlay ↦ some (overlay_only overlay) ]
    else if not (have q.root)
    then none
    else if have q.loader || have q.kernel
    then full_plan (complete_job q.loader loader_size 88 98)
        (complete_job q.kernel kernel_size 68 85) (root_job 28 65) (overlay_job 5 25)
    else elim (root_job 45 95) [
      | none ↦ none
      | some root ↦
          if have q.overlay
          then elim (overlay_job 5 40) [
            | none ↦ none
            | some overlay ↦ some (system root (some overlay))
          ]
          else some (system root none)
    ]

-- The jobs of a plan, in the order of the array `jobs`.
abbrev pub jobs : Plan → List Job
jobs (overlay_only overlay) = overlay ∷ []
jobs (system root none) = root ∷ []
jobs (system root (some overlay)) = root ∷ overlay ∷ []
jobs (full loader kernel root overlay) = loader ∷ kernel ∷ root ∷ overlay ∷ []

unfoldable pub same_device : Job → List Job → Bool
same_device job [] = false
same_device job (other ∷ rest) = bytes_eq job.device other.device || same_device job rest

unfoldable pub identical_devices : List Job → Bool
unfolding same_device
identical_devices [] = false
identical_devices (job ∷ rest) = same_device job rest || identical_devices rest

unfoldable pub still_mounted : List Bytes → Bool
still_mounted [] = false
still_mounted (target ∷ rest) =
    bytes_eq target (codes "/etc")
    || bytes_eq target (codes "/root")
    || bytes_eq target (codes "/overlay")
    || still_mounted rest

module _ {World : Type 0} where
  abbrev pub succeed : Bool → Flash World → Flash World × Ending
  succeed reboot_after s = (
    write_status (codes "success") (if reboot_after then codes "reboot" else codes "complete") 100
        s,
    complete,
  )

  abbrev pub continue :
      (Flash World → Flash World × Ending)
      → (Flash World → Flash World × Ending)
      → Flash World × Attempt
      → Flash World × Ending
  continue next undo (s, done true) = next s
  continue next undo (s, done false) = undo s
  continue next undo (s, fatal) = (s, aborted)

  abbrev pub refuse : Flash World → Flash World × Ending
  refuse s = (write_status (codes "error") (codes "preflight") 100 s, aborted)

module _ {World : Type 0} (sys : System World) where
  bad_backup : World → Job → ℕ → Bool
  bad_backup w job size = elim job.rollback [
    | none ↦ false
    | some rollback ↦ elim (sys.file w rollback) [
      | none ↦ true
      | some backup ↦ not (length backup == size)
    ]
  ]

  -- Whether `preflight_job` passes.
  unfoldable pub preflight_job : World → Job → Bool
  unfolding bad_backup
  preflight_job w job = elim (sys.file w job.image) [
    | none ↦ false
    | some content ↦ elim (sys.mtd_info w job.device) [
      | none ↦ false
      | some mtd ↦
          sys.opens w job.device
          && not (bad_geometry mtd job (length content))
          && not (bad_backup w job mtd.size)
    ]
  ]

  unfoldable pub preflight_all : World → List Job → Bool
  unfolding preflight_job
  preflight_all w [] = true
  preflight_all w (job ∷ rest) = preflight_job w job && preflight_all w rest

  -- A job, then what follows its success or its failure.
  unfoldable pub program_then :
      Job
      → (Flash World → Flash World × Ending)
      → (Flash World → Flash World × Ending)
      → Flash World
      → Flash World × Ending
  program_then job next undo s = continue next undo (program_job sys job s)

  unfoldable pub flash_loader : Bool → Job → Job → Job → Job → Flash World → Flash World × Ending
  unfolding program_then
  flash_loader reboot_after loader kernel root overlay =
      program_then loader (succeed reboot_after)
        (rollback_and_reboot sys (some loader) (some kernel) (some root) (some overlay))

  unfoldable pub flash_kernel : Bool → Job → Job → Job → Job → Flash World → Flash World × Ending
  unfolding flash_loader
  flash_kernel reboot_after loader kernel root overlay =
      program_then kernel (flash_loader reboot_after loader kernel root overlay)
        (rollback_and_reboot sys none (some kernel) (some root) (some overlay))

  abbrev pub flash_root :
      Job → Option Job → (Flash World → Flash World × Ending) → Flash World → Flash World × Ending
  unfolding program_then
  flash_root root overlay next =
      program_then root next (rollback_and_reboot sys none none (some root) overlay)

  abbrev pub flash_overlay :
      Job → (Flash World → Flash World × Ending) → Flash World → Flash World × Ending
  unfolding program_then
  flash_overlay overlay next =
      program_then overlay next (rollback_and_reboot sys none none none (some overlay))

  unfoldable pub flash_plan : Bool → Plan → Flash World → Flash World × Ending
  unfolding flash_kernel program_then
  flash_plan reboot_after (overlay_only overlay) = flash_overlay overlay (succeed reboot_after)
  flash_plan reboot_after (system root none) = flash_root root none (succeed reboot_after)
  flash_plan reboot_after (system root (some overlay)) =
      flash_overlay overlay (flash_root root (some overlay) (succeed reboot_after))
  flash_plan reboot_after (full loader kernel root overlay) =
      flash_overlay overlay
        (flash_root root (some overlay) (flash_kernel reboot_after loader kernel root overlay))

  -- The work behind the options. `mounts` are the targets in /proc/mounts, or nothing when it
  -- cannot be read.
  unfoldable pub flash : Bool → Option (List Bytes) → Plan → Flash World → Flash World × Ending
  unfolding flash_plan identical_devices preflight_all still_mounted
  flash reboot_after mounts p s =
      let begun = write_status (codes "flashing") (codes "begin") 1 s in
      if identical_devices (jobs p) || not (preflight_all begun.world (jobs p))
      then refuse begun
      else elim mounts [
        | none ↦ refuse begun
        | some targets ↦
            if still_mounted targets then refuse begun else flash_plan reboot_after p begun
      ]
