-- ===== src/Flash/Working.antt =====
-- On a flash that works, programming a job succeeds.
use meraki_builder.Prelude.{
  ℕ, zero, suc, ◌+◌, ◌-◌, ◌*◌, ◌≤◌, ◌<◌, ◌%◌, ◌^◌, Bytes, Bool, true, false, [], ◌∷◌, ◌++◌,
  append_assoc, append-nil, some, ◌==◌, ◌≡◌, ◌≢◌, refl, sym, ap, subst, ◌∙◌, length, take, drop,
  replicate, length-drop, length-take, length-append, length-replicate, take-append, replicate-add,
  take-append-drop, arith, elim_true, elim_false,
}
use meraki_builder.Flash.System.{System, MtdInfo}
use meraki_builder.Flash.Device.{Job, Flash, in_world, erase_status, erase_blocks, write_chunk}

-- A NOR flash without failures: erasures set a block to 0xff, writes into an erased area store at
-- least one byte of what they are given, reads give all that was asked for, and the partition of
-- the job has the size and the geometry `mtd`.
pub record Working {World : Type 0} (sys : System World) (mtd : MtdInfo) (job : Job) : Type 0 where
  pub opens : (w : World) (p : Bytes) → sys.opens w p ≡ true
  pub seeks : (w : World) (p : Bytes) → sys.seeks w p ≡ true
  pub info : (w : World) → sys.mtd_info w job.device ≡ some mtd
  pub size : (w : World) → length (sys.contents w job.device) ≡ mtd.size
  pub reads_file :
      (w : World) (content : Bytes) (offset n : ℕ)
      → sys.file w job.image ≡ some content
      → sys.read_file w job.image offset n ≡ take n (drop offset content)
  pub reads_device :
      (w : World) (offset n : ℕ)
      → sys.read_device w job.device offset n ≡ take n (drop offset (sys.contents w job.device))
  pub erases : (start n : ℕ) (w : World) → (sys.mem_erase job.device start n w).1 ≡ true
  pub erased :
      (start n : ℕ) (w : World)
      → start + n ≤ mtd.size
      → sys.contents (sys.mem_erase job.device start n w).0 job.device
        ≡ take start (sys.contents w job.device)
          ++ (replicate n 0xff ++ drop (start + n) (sys.contents w job.device))
  pub writes :
      (offset : ℕ) (s : Bytes) (w : World)
      → s ≢ []
      → (1 ≤ (sys.write_device job.device offset s w).1)
        × ((sys.write_device job.device offset s w).1 ≤ length s)
  pub written :
      (s front : Bytes) (m : ℕ) (w : World)
      → sys.contents w job.device ≡ front ++ replicate m 0xff
      → length s ≤ m
      → let r = sys.write_device job.device (length front) s w in
        sys.contents r.0 job.device ≡ front ++ (take r.1 s ++ replicate (m - r.1) 0xff)
  pub syncs : (w : World) → (sys.sync_device job.device w).1 ≡ true
  pub synced :
      (w : World)
      → sys.contents (sys.sync_device job.device w).0 job.device ≡ sys.contents w job.device

-- The first `a` bytes are erased.
pub record Erased (a : ℕ) (c : Bytes) : Type 0 where
  pub rest : Bytes
  pub is : c ≡ replicate a 0xff ++ rest

front_of : (a : ℕ) (c : Bytes) → Erased a c → take a c ≡ replicate a 0xff
front_of a c e =
    subst (λ s. take a s ≡ replicate a 0xff) (sym e.is)
      (subst (λ k. take k (replicate a 0xff ++ e.rest) ≡ replicate a 0xff) (length-replicate a 0xff)
        (take-append (replicate a 0xff) e.rest))

grown :
    (a n : ℕ) (c d : Bytes)
    → Erased a c
    → d ≡ take a c ++ (replicate n 0xff ++ drop (a + n) c)
    → Erased (a + n) d
grown a n c d e h = record {
  rest = drop (a + n) c;
  is =
      h
      ∙ ap (λ s. s ++ (replicate n 0xff ++ drop (a + n) c)) (front_of a c e)
      ∙ sym (append_assoc (replicate a 0xff) (replicate n 0xff) (drop (a + n) c))
      ∙ ap (λ s. s ++ drop (a + n) c) (sym (replicate-add a n 0xff));
}

no_more : (xs : Bytes) → length xs ≡ 0 → xs ≡ []
no_more [] h = refl
no_more (x ∷ xs) h = absurd (omega arith)

erased_length : (a : ℕ) → length (replicate {A = ℕ} a 0xff) ≡ a
erased_length a = length-replicate a 0xff

all-Erased : (a : ℕ) (c : Bytes) → Erased a c → length c ≡ a → c ≡ replicate a 0xff
all-Erased a c e h =
    e.is
    ∙ ap (◌++◌ (replicate a 0xff)) (
        no_more e.rest (
          omega
            (arith, ap length e.is, length-append (replicate a 0xff) e.rest, erased_length a, h)))
    ∙ append-nil (replicate a 0xff)

mul_suc : (i n : ℕ) → suc i * n ≡ i * n + n
mul_suc i n = omega arith

mul_zero : (n : ℕ) → 0 * n ≡ 0
mul_zero n = omega arith

wrapped : (a n size : ℕ) → a + n ≤ size → size < 2 ^ 32 → a % 2 ^ 32 ≡ a
wrapped a n size h k = omega arith

cons_ne : (b : ℕ) (s : Bytes) → b ∷ s ≢ []
cons_ne b s e = cc

not_none : (n : ℕ) → 1 ≤ n → (n == 0) ≡ false
not_none n h = ground arith

longer : (front s : Bytes) (k : ℕ) → k ≤ length s → length (front ++ take k s) ≡ length front + k
longer front s k h = omega (arith, length-append front (take k s), length-take k s)

regroup :
    (front s : Bytes) (k m : ℕ)
    → k ≤ length s
    → (front ++ take k s) ++ (drop k s ++ replicate (m - k - length (drop k s)) 0xff)
      ≡ front ++ (s ++ replicate (m - length s) 0xff)
regroup front s k m h =
    append_assoc front (take k s) (drop k s ++ replicate (m - k - length (drop k s)) 0xff)
    ∙ ap (◌++◌ front) (
        sym (append_assoc (take k s) (drop k s) (replicate (m - k - length (drop k s)) 0xff))
        ∙ ap (λ x. x ++ replicate (m - k - length (drop k s)) 0xff) (take-append-drop k s)
        ∙ ap (λ j. s ++ replicate j 0xff) (omega (arith, length-drop k s)))

module _ {World : Type 0} (sys : System World) (mtd : MtdInfo) (job : Job)
    (works : Working sys mtd job) where
  -- An operation that succeeds with this content of the partition.
  pub record Leaves (content : Bytes) (r : Flash World × Bool) : Type 0 where
    pub went : r.1 ≡ true
    pub holds : sys.contents r.0.world job.device ≡ content

  pub erase_blocks-Leaves :
      (n i : ℕ) (s : Flash World)
      → i * mtd.erasesize + n * mtd.erasesize ≡ mtd.size
      → mtd.size < 2 ^ 32
      → Erased (i * mtd.erasesize) (sys.contents s.world job.device)
      → Leaves (replicate mtd.size 0xff) (erase_blocks sys mtd job n i s)
  unfolding erase_blocks
  erase_blocks-Leaves zero i s room small e = record {
    went = refl;
    holds =
        all-Erased mtd.size (sys.contents s.world job.device)
          (subst (λ a. Erased a (sys.contents s.world job.device))
            (omega (arith, room, mul_zero mtd.erasesize)) e)
          (works.size s.world);
  }
  erase_blocks-Leaves (suc n) i s room small e =
      let es = mtd.erasesize in
      let start = i * es % 2 ^ 32 in
      let r = sys.mem_erase job.device start es s.world in
      let c = sys.contents s.world job.device in
      let same_start : start ≡ i * es =
        wrapped (i * es) es mtd.size (omega (arith, room, mul_suc n es)) small in
      elim_true (Leaves (replicate mtd.size 0xff)) r.1 _ (in_world r.0 s, false)
        (works.erases start es s.world)
        (erase_blocks-Leaves n (suc i) (erase_status sys mtd job i (in_world r.0 s))
          (omega (arith, room, mul_suc n es, mul_suc i es)) small
          (subst (λ a. Erased a (sys.contents r.0 job.device)) (sym (mul_suc i es))
            (grown (i * es) es c (sys.contents r.0 job.device) e (
              works.erased start es s.world (omega (arith, room, mul_suc n es, same_start))
              ∙ ap (λ a. take a c ++ (replicate es 0xff ++ drop (a + es) c)) same_start))))

  pub record Wrote (content : Bytes) (r : World × Bool) : Type 0 where
    pub went : r.1 ≡ true
    pub holds : sys.contents r.0 job.device ≡ content

  pub write_chunk-Wrote :
      (n : ℕ) (s front : Bytes) (m : ℕ) (w : World)
      → length s ≤ n
      → length s ≤ m
      → sys.contents w job.device ≡ front ++ replicate m 0xff
      → Wrote
          (front ++ (s ++ replicate (m - length s) 0xff))
          (write_chunk sys mtd job n (length front) s w)
  unfolding write_chunk
  write_chunk-Wrote n [] front m w h k c = record {
    went = refl;
    holds = c ∙ ap (λ j. front ++ replicate j 0xff) (omega arith);
  }
  write_chunk-Wrote zero (b ∷ s) front m w h k c = absurd (omega arith)
  write_chunk-Wrote (suc n) (b ∷ s) front m w h k c =
      let all = b ∷ s in
      let r = sys.write_device job.device (length front) all w in
      let count = works.writes (length front) all w (cons_ne b s) in
      let now = works.written all front m w c k in
      elim_false (Wrote (front ++ (all ++ replicate (m - length all) 0xff))) (r.1 == 0) (r.0, false)
        _ (not_none r.1 count.0)
        (subst
          (λ q.
            Wrote (front ++ (all ++ replicate (m - length all) 0xff))
              (write_chunk sys mtd job n q (drop r.1 all) r.0))
          (longer front all r.1 count.1)
          (subst
            (λ x.
              Wrote x
                (write_chunk sys mtd job n (length (front ++ take r.1 all)) (drop r.1 all) r.0))
            (regroup front all r.1 m count.1)
            (write_chunk-Wrote n (drop r.1 all) (front ++ take r.1 all) (m - r.1) r.0
              (omega (arith, length-drop r.1 all, count.0)) (omega (arith, length-drop r.1 all))
              (now ∙ sym (append_assoc front (take r.1 all) (replicate (m - r.1) 0xff))))))
