-- ===== src/Flash/Tests.antt =====
-- A small flash: a run that succeeds, and one whose root filesystem cannot be written and is restored.
use meraki_builder.Prelude.{
  ℕ, zero, suc, ◌+◌, Bytes, Bool, true, false, [], ◌∷◌, ◌++◌, Option, none, some, ◌≡◌, refl, ◌==◌,
  ap, All, length, take, drop, replicate, get_or, codes, bytes_eq, if◌then◌else◌,
}
use meraki_builder.Posix.{bytes_ne}
use meraki_builder.Flash.System.{System, Only, Laws}
use meraki_builder.Flash.Device.{
  Job, Flash, erase_partition, erase_blocks, write_image, write_loop, write_chunk, compare_image,
  compare_chunks, tail_chunks, progress_between,
}
use meraki_builder.Flash.Program.{
  program_job, program_once, program_device, erase_write_compare, attempt, twice, restore_backup,
  restore_if, rollback_and_reboot,
}
use meraki_builder.Flash.Plan.{
  Plan, system, jobs, flash, flash_plan, program_then, preflight_all, preflight_job,
  identical_devices, same_device, still_mounted,
}
use meraki_builder.Flash.Verified.{Programmed}
use meraki_builder.Flash.Rollback.{Undone}
use meraki_builder.Flash.Safety.{flash-Programmed, flash-Undone}

abbrev World : Type 0
World = Bytes → Bytes

abbrev put : Bytes → Bytes → World → World
put p s w q = if bytes_eq p q then s else w q

abbrev splice : ℕ → Bytes → Bytes → Bytes
splice offset s old = take offset old ++ s ++ drop (offset + length s) old

-- The new images and the backups.
abbrev images : Bytes → Option Bytes
images p =
    if bytes_eq p (codes "root.img")
    then some (1 ∷ 2 ∷ 3 ∷ [])
    else if bytes_eq p (codes "bad.img")
    then some (0 ∷ 2 ∷ 3 ∷ [])
    else if bytes_eq p (codes "overlay.img")
    then some (7 ∷ [])
    else if bytes_eq p (codes "backup")
    then some (9 ∷ 9 ∷ 9 ∷ 9 ∷ [])
    else none

abbrev read_from : Option Bytes → ℕ → ℕ → Bytes
read_from none offset n = []
read_from (some s) offset n = take n (drop offset s)

abbrev stored_unless : Bool → Bytes → Bytes → ℕ → World → World × ℕ
stored_unless true p s n w = (w, 0)
stored_unless false p s n w = (put p s w, n)

-- A write of a chunk that starts with 0 fails.
abbrev small : System World
small = record {
  file = λ w p. images p;
  contents = λ w p. w p;
  opens = λ w p. true;
  seeks = λ w p. true;
  mtd_info = λ w p. some (record { is_nor = true; size = 4; erasesize = 2 });
  mem_erase = λ p start n w. (put p (splice start (replicate n 0xff) (w p)) w, true);
  read_file = λ w p offset n. read_from (images p) offset n;
  read_device = λ w p offset n. take n (drop offset (w p));
  write_device =
      λ p offset s w. stored_unless (get_or s 0 0 == 0) p (splice offset s (w p)) (length s) w;
  sync_device = λ p w. (w, true);
}

taken : (n : ℕ) (xs : Bytes) → take n xs ≡ take (length (take n xs)) xs
taken zero xs = refl
taken (suc n) [] = refl
taken (suc n) (x ∷ xs) = ap (◌∷◌ x) (taken n xs)

reads :
    (o : Option Bytes) (content : Bytes) (offset n : ℕ)
    → o ≡ some content
    → read_from o offset n ≡ take (length (read_from o offset n)) (drop offset content)
reads o content offset n e = rw e (taken n (drop offset content))

put-Only : (p s : Bytes) (w : World) → Only small p w (put p s w)
put-Only p s w = record { others = λ q ne. rw (bytes_ne p q ne) refl; images = λ q. refl }

same-Only : (p : Bytes) (w : World) → Only small p w w
same-Only p w = record { others = λ q ne. refl; images = λ q. refl }

write-Only :
    (b : Bool) (p s : Bytes) (n : ℕ) (w : World) → Only small p w (stored_unless b p s n w).0
write-Only true p s n w = same-Only p w
write-Only false p s n w = put-Only p s w

small-Laws : Laws small
small-Laws = record {
  reads_file = λ w p content offset n e. reads (images p) content offset n e;
  reads_device = λ w p offset n. taken n (drop offset (w p));
  erases = λ p start n w. put-Only p _ w;
  writes = λ p offset s w. write-Only (get_or s 0 0 == 0) p _ _ w;
  syncs = λ p w. same-Only p w;
}

abbrev job : Bytes → Bytes → Job
job image device = record {
  image = image;
  device = device;
  rollback = some (codes "backup");
  expected_size = 4;
  progress_start = 5;
  progress_end = 40;
}

abbrev good_plan : Plan
good_plan =
    system (job (codes "root.img") (codes "/dev/mtd1"))
      (some (job (codes "overlay.img") (codes "/dev/mtd2")))

abbrev bad_plan : Plan
bad_plan =
    system (job (codes "bad.img") (codes "/dev/mtd1"))
      (some (job (codes "overlay.img") (codes "/dev/mtd2")))

abbrev before : Flash World
before = record { world = λ p. 8 ∷ 8 ∷ 8 ∷ 8 ∷ []; log = [] }

abbrev runs : Bool
unfolding flash flash_plan program_then preflight_all preflight_job identical_devices same_device
    still_mounted program_job program_once program_device erase_write_compare attempt twice
    restore_backup restore_if rollback_and_reboot erase_partition erase_blocks write_image
    write_loop write_chunk compare_image compare_chunks tail_chunks progress_between bytes_eq
runs = true

abbrev after : Plan → Flash World
after p = (flash small true (some (codes "/" ∷ [])) p before).0

flash-Programmed_example :
    All (λ (j : Job). Programmed small j (after good_plan).world) (jobs good_plan)
unfolding runs
flash-Programmed_example =
    flash-Programmed small true (some (codes "/" ∷ [])) good_plan before (after good_plan)
      small-Laws refl

flash-Undone_example : All (Undone small before.world (after bad_plan).world) (jobs bad_plan)
unfolding runs
flash-Undone_example =
    flash-Undone small true (some (codes "/" ∷ [])) bad_plan before (after bad_plan) small-Laws refl

holds_root : (after good_plan).world (codes "/dev/mtd1") ≡ 1 ∷ 2 ∷ 3 ∷ 255 ∷ []
unfolding runs
holds_root = refl
