-- ===== src/Flash/Cell.antt =====
-- Tests on a flash of one byte that works.
use meraki_builder.Flash.Plan.{Draft, Request, system, plan, job_of}
use meraki_builder.Flash.Ready.{IsReady, plan-IsReady}
use meraki_builder.Prelude.{
  ◌*◌, All, ℕ, zero, suc, ◌+◌, ◌-◌, ◌≤◌, Bytes, Bool, true, false, [], ◌∷◌, ◌++◌, some, ◌≡◌, ◌≢◌,
  refl, sym, ap, ◌∙◌, arith, length, take, drop, replicate, codes, bytes_eq, bytes_eq→eq, none,
}
use meraki_builder.Posix.{bytes_ne}
use meraki_builder.Flash.System.{System, MtdInfo, Only, Laws}
use meraki_builder.Flash.Device.{Job, Flash, write_loop}
use meraki_builder.Flash.Program.{program_job, attempt}
use meraki_builder.Flash.Working.{Working}
use meraki_builder.Flash.Success.{Succeeds, flash_notes, program_job-Succeeds}
use meraki_builder.Flash.Fuel.{write_loop-enough}

abbrev seven : Bytes
seven = 7 ∷ []

abbrev device : Bytes
device = codes "d"

abbrev cell : Bool → ℕ → Bytes
cell true w = w ∷ []
cell false w = []

abbrev put : Bool → ℕ → ℕ → ℕ
put true v w = v
put false v w = w

abbrev erase : Bool → ℕ → ℕ → ℕ → ℕ
erase b zero zero w = w
erase b zero (suc n) w = put b 0xff w
erase b (suc start) n w = w

abbrev store : Bool → ℕ → Bytes → ℕ → ℕ × ℕ
store b offset [] w = (w, 0)
store b zero (x ∷ s) w = (put b x w, 1)
store b (suc offset) (x ∷ s) w = (w, 1)

abbrev info : MtdInfo
info = record { is_nor = true; size = 1; erasesize = 1 }

abbrev one : System ℕ
one = record {
  file = λ w p. some seven;
  contents = λ w p. cell (bytes_eq p device) w;
  opens = λ w p. true;
  seeks = λ w p. true;
  mtd_info = λ w p. some info;
  mem_erase = λ p start n w. (erase (bytes_eq p device) start n w, true);
  read_file = λ w p offset n. take n (drop offset seven);
  read_device = λ w p offset n. take n (drop offset (cell (bytes_eq p device) w));
  write_device = λ p offset s w. store (bytes_eq p device) offset s w;
  sync_device = λ p w. (w, true);
}

abbrev job : Job
job = record {
  image = codes "i";
  device = device;
  rollback = none;
  expected_size = 1;
  progress_start = 5;
  progress_end = 40;
}

taken : (n : ℕ) (xs : Bytes) → take n xs ≡ take (length (take n xs)) xs
taken zero xs = refl
taken (suc n) [] = refl
taken (suc n) (x ∷ xs) = ap (◌∷◌ x) (taken n xs)

same-Only : (p : Bytes) (w : ℕ) → Only one p w w
same-Only p w = record { others = λ q ne. refl; images = λ q. refl }

cell-other :
    (b : Bool) (p q : Bytes) (v w : ℕ)
    → p ≢ q
    → bytes_eq p device ≡ b
    → cell (bytes_eq q device) (put b v w) ≡ cell (bytes_eq q device) w
cell-other false p q v w ne e = refl
cell-other true p q v w ne e =
    let other = bytes_ne q device (λ h. ne (bytes_eq→eq p device e ∙ sym h)) in
    ap (λ b. cell b v) other ∙ sym (ap (λ b. cell b w) other)

put-Only : (p : Bytes) (v w : ℕ) → Only one p w (put (bytes_eq p device) v w)
put-Only p v w = record {
  others = λ q ne. cell-other (bytes_eq p device) p q v w ne refl;
  images = λ q. refl;
}

erase-Only : (p : Bytes) (start n w : ℕ) → Only one p w (erase (bytes_eq p device) start n w)
erase-Only p zero zero w = same-Only p w
erase-Only p zero (suc n) w = put-Only p 0xff w
erase-Only p (suc start) n w = same-Only p w

store-Only :
    (p : Bytes) (offset : ℕ) (s : Bytes) (w : ℕ)
    → Only one p w (store (bytes_eq p device) offset s w).0
store-Only p offset [] w = same-Only p w
store-Only p zero (x ∷ s) w = put-Only p x w
store-Only p (suc offset) (x ∷ s) w = same-Only p w

injected : {a b : Bytes} → some a ≡ some b → a ≡ b
injected h = cc

one-Laws : Laws one
one-Laws = record {
  reads_file = λ w p content offset n e.
      taken n (drop offset seven)
      ∙ ap (λ c. take (length (take n (drop offset seven))) (drop offset c)) (injected e);
  reads_device = λ w p offset n. taken n (drop offset (cell (bytes_eq p device) w));
  erases = λ p start n w. erase-Only p start n w;
  writes = λ p offset s w. store-Only p offset s w;
  syncs = λ p w. same-Only p w;
}

erased :
    (start n w : ℕ)
    → start + n ≤ 1
    → erase true start n w ∷ []
      ≡ take start (w ∷ []) ++ (replicate n 0xff ++ drop (start + n) (w ∷ []))
erased zero zero w h = refl
erased zero (suc zero) w h = refl
erased zero (suc (suc n)) w h = absurd (omega arith)
erased (suc zero) zero w h = refl
erased (suc zero) (suc n) w h = absurd (omega arith)
erased (suc (suc start)) n w h = absurd (omega arith)

stores :
    (offset : ℕ) (s : Bytes) (w : ℕ)
    → s ≢ []
    → (1 ≤ (store true offset s w).1) × ((store true offset s w).1 ≤ length s)
stores offset [] w h = absurd (h refl)
stores zero (x ∷ s) w h = (omega arith, omega arith)
stores (suc offset) (x ∷ s) w h = (omega arith, omega arith)

stored :
    (s front : Bytes) (m w : ℕ)
    → w ∷ [] ≡ front ++ replicate m 0xff
    → length s ≤ m
    → (store true (length front) s w).0 ∷ []
      ≡ front
        ++ (take (store true (length front) s w).1 s
            ++ replicate (m - (store true (length front) s w).1) 0xff)
stored [] front m w c h = c ∙ ap (λ k. front ++ replicate k 0xff) (omega arith)
stored (x ∷ s) [] zero w c h = absurd (omega arith)
stored (x ∷ s) [] (suc zero) w c h = refl
stored (x ∷ s) [] (suc (suc m)) w c h = absurd (omega (arith, ap length c))
stored (x ∷ s) (y ∷ front) zero w c h = absurd (omega arith)
stored (x ∷ s) (y ∷ []) (suc m) w c h = absurd (omega (arith, ap length c))
stored (x ∷ s) (y ∷ z ∷ front) (suc m) w c h = absurd (omega (arith, ap length c))

works : Working one info job
unfolding bytes_eq
works = record {
  opens = λ w p. refl;
  seeks = λ w p. refl;
  info = λ w. refl;
  size = λ w. refl;
  reads_file = λ w content offset n e. ap (λ c. take n (drop offset c)) (injected e);
  reads_device = λ w offset n. refl;
  erases = λ start n w. refl;
  erased = λ start n w h. erased start n w h;
  writes = λ offset s w h. stores offset s w h;
  written = λ s front m w c h. stored s front m w c h;
  syncs = λ w. refl;
  synced = λ w. refl;
}

abbrev before : Flash ℕ
before = record { world = 3; log = [] }

program_job-Succeeds_example :
    (program_job one job before ≡ attempt one (flash_notes job) job before)
    × Succeeds one device seven (program_job one job before)
program_job-Succeeds_example =
    program_job-Succeeds one one-Laws info job works seven before refl refl (omega arith)

write_loop-enough_example :
    write_loop one info job 1 1 0 before ≡ write_loop one info job 5 1 0 before
write_loop-enough_example =
    write_loop-enough one info job 1 5 1 0 before (omega arith) (omega arith)

abbrev set_of : Draft
set_of = record { image = some (codes "i"); device = some (codes "d"); rollback = some (codes "b") }

abbrev unset : Draft
unset = record { image = none; device = none; rollback = none }

abbrev request : Request
request = record {
  loader = unset;
  kernel = unset;
  root = set_of;
  overlay = unset;
  overlay_only_operation = false;
  reboot_after = true;
}

abbrev root_job : Job
root_job = record {
  image = codes "i";
  device = codes "d";
  rollback = some (codes "b");
  expected_size = 8 * 1024 * 1024;
  progress_start = 45;
  progress_end = 95;
}

plan-IsReady_example : All IsReady (root_job ∷ [])
unfolding plan job_of
plan-IsReady_example = plan-IsReady request (system root_job none) refl
