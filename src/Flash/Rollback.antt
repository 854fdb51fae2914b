-- ===== src/Flash/Rollback.antt =====
-- What is known of every partition behind a rollback.
use meraki_builder.Prelude.{
  Bytes, Bool, true, false, List, [], ◌∷◌, some, ◌≡◌, ◌≢◌, ◌∙◌, sym, subst, All, refl, ◌⊎◌, inl,
  inr, take, ◌++◌, replicate, length, ◌-◌,
}
use meraki_builder.Flash.System.{System, Only, Laws}
use meraki_builder.Flash.Device.{Job, Flash}
use meraki_builder.Flash.Program.{
  Attempt, done, fatal, restore_backup, restore_if, and_also, backup_job,
}
use meraki_builder.Flash.Verified.{Programmed}
use meraki_builder.Flash.Attempts.{Restored, Restoration, restore_backup-Restoration}

module _ {World : Type 0} (sys : System World) where
  -- The partition is as it was in the world `u`.
  abbrev pub Unchanged : World → World → Job → Type 0
  Unchanged u w job = sys.contents w job.device ≡ sys.contents u job.device

  -- It is as it was, or its backup was restored.
  abbrev pub Undone : World → World → Job → Type 0
  Undone u w job = Restored sys job w ⊎ Unchanged u w job

  pub Programmed-kept :
      (path : Bytes) (job : Job) (w v : World)
      → Only sys path w v
      → path ≢ job.device
      → Programmed sys job w
      → Programmed sys job v
  Programmed-kept path job w v only ne p = record {
    content = p.content;
    image = only.images job.image ∙ p.image;
    fits = p.fits;
    holds =
        subst
          (λ s.
            take job.expected_size s
            ≡ p.content ++ replicate (job.expected_size - length p.content) 0xff)
          (sym (only.others job.device ne)) p.holds;
  }

  pub Undone-kept :
      (path : Bytes) (job : Job) (u w v : World)
      → Only sys path w v
      → path ≢ job.device
      → Undone u w job
      → Undone u v job
  Undone-kept path job u w v only ne (inl r) = inl (record {
    backup = r.backup;
    named = r.named;
    programmed = Programmed-kept path (backup_job job r.backup) w v only ne r.programmed;
  })
  Undone-kept path job u w v only ne (inr e) = inr (only.others job.device ne ∙ e)

-- The device of a job is none of those of the others.
abbrev pub Apart : Job → List Job → Type 0
Apart job others = All (λ (j : Job). job.device ≢ j.device) others

module _ {World : Type 0} (sys : System World) where
  -- A property that an operation on another partition leaves alone, for all jobs of a list.
  pub All-kept :
      (P : World → Job → Type 0) (job : Job) (w v : World)
      → ((j : Job) → job.device ≢ j.device → P w j → P v j)
      → (others : List Job) → Apart job others
      → All (P w) others
      → All (P v) others
  All-kept P job w v keep [] ne h = tt
  All-kept P job w v keep (j ∷ rest) (n, ne) (p, h) =
      (keep j n p, All-kept P job w v keep rest ne h)

module _ {World : Type 0} (sys : System World) (laws : Laws sys) (u : World) where
  -- As long as every restoration succeeded, all these jobs are undone.
  pub record Chain (jobs : List Job) (r : Flash World × Attempt) : Type 0 where
    pub holds : r.1 ≡ done true → All (Undone sys u r.0.world) jobs

  and_also-Chain :
      (job : Job) (jobs : List Job) (ok : Bool) (s : Flash World) (r : Flash World × Attempt)
      → Apart job jobs
      → (done ok ≡ done true → All (Undone sys u s.world) jobs)
      → Restoration sys job s.world r
      → Chain (job ∷ jobs) (and_also ok r)
  and_also-Chain job jobs ok s (t, fatal) ne h b = record { holds = λ e. cc }
  and_also-Chain job jobs false s (t, done ok') ne h b = record { holds = λ e. cc }
  and_also-Chain job jobs true s (t, done false) ne h b = record { holds = λ e. cc }
  and_also-Chain job jobs true s (t, done true) ne h b = record {
    holds = λ e. (
      inl (b.restored refl),
      All-kept sys (Undone sys u) job s.world t.world
          (λ j n. Undone-kept sys job.device j u s.world t.world b.only n) jobs ne (h refl),
    );
  }

  pub restore_if-Chain :
      (job : Job) (jobs : List Job) (r : Flash World × Attempt)
      → Apart job jobs
      → Chain jobs r
      → Chain (job ∷ jobs) (restore_if sys (some job) r)
  unfolding restore_if
  restore_if-Chain job jobs (s, fatal) ne c = record { holds = λ e. cc }
  restore_if-Chain job jobs (s, done ok) ne c =
      and_also-Chain job jobs ok s (restore_backup sys job s) ne c.holds
        (restore_backup-Restoration sys laws job s)
