-- ===== src/Web/Sound.antt =====
-- The invariant of the server: at most one connection uploads, it owns the upload and its file has
-- the bytes received so far; while an image is validated or waits, nobody uploads.
pub mod Validation
pub mod Gate
pub mod Start
pub mod Upload
pub mod Input
use meraki_builder.Prelude.{
  ℕ, ◌<◌, ◌≤◌, Bytes, Bool, true, false, List, ◌∷◌, Option, none, some, ◌==◌, ◌||◌, ◌≡◌, refl, sym,
  ap, ◌∙◌, subst, arith, if_both, if_true_eq, ==_iff, length,
}
use meraki_builder.Web.State.{
  Client, Job, JobState, Call, removed, Server, put_client, call, unlink_named, is_empty,
  max_firmware_upload,
}
use meraki_builder.Web.Job.{is_validating, is_ready}
use meraki_builder.Web.Log.{
  content, Forked, forked_before, Validated, passed_before, Cleared, is_quiet, content_quiet,
  cleared_quiet,
}

pub record Active (owner : Option ℕ) (log : List Call) (who : ℕ) (c : Client) : Type 0 where
  pub owns : owner ≡ some who
  pub some_bytes : 0 < c.upload_expected
  pub fits : c.upload_expected ≤ max_firmware_upload
  pub within : c.upload_received ≤ c.upload_expected
  pub on_disk : length (content c.upload_path log) ≡ c.upload_received

abbrev pub is_busy : JobState → Bool
is_busy state = is_validating state || is_ready state

pub record Handed (owner : Option ℕ) (log : List Call) (job : Job) : Type 0 where
  pub unowned : owner ≡ none
  pub some_bytes : 0 < job.expected
  pub fits : job.expected ≤ max_firmware_upload
  pub complete : job.received ≡ job.expected
  pub on_disk : length (content job.order.path log) ≡ job.received

pub same-Handed :
    (owner : Option ℕ) (log : List Call) (job : Job) (state : JobState) (pid : ℕ)
    → Handed owner log job
    → Handed owner log (record job { state = state; pid = pid })
same-Handed owner log job state pid h = record {
  unowned = h.unowned;
  some_bytes = h.some_bytes;
  fits = h.fits;
  complete = h.complete;
  on_disk = h.on_disk;
}

pub record JobSound (owner : Option ℕ) (log : List Call) (job : Job) : Type 0 where
  pub handed : is_busy job.state ≡ true → Handed owner log job
  pub running_it : is_validating job.state ≡ true → Forked job.pid job.order log
  pub passed : is_ready job.state ≡ true → Validated job.order log

pub record Sound (clients : ℕ → Client) (owner : Option ℕ) (log : List Call) (job : Job)
    : Type 0 where
  pub uploads : (n : ℕ) → (clients n).upload_active ≡ true → Active owner log n (clients n)
  pub job_sound : JobSound owner log job
  pub cleared : Cleared log

abbrev pub Good : Server → Type 0
Good s = Sound s.clients s.upload_owner s.log s.job

pub free_job :
    (owner : Option ℕ) (log : List Call) (job : Job)
    → is_busy job.state ≡ false
    → JobSound owner log job
free_job owner log job f = record {
  handed = λ e. absurd (ground arith);
  running_it = λ e. absurd (ground arith);
  passed = λ e. absurd (ground arith);
}

-- A call that is quiet keeps what is said of an upload, of a job and of the server.
pub Active-quiet :
    (owner : Option ℕ) (log : List Call) (who : ℕ) (c : Client) (k : Call)
    → is_quiet k ≡ true
    → Active owner log who c
    → Active owner (k ∷ log) who c
Active-quiet owner log who c k q a = record {
  owns = a.owns;
  some_bytes = a.some_bytes;
  fits = a.fits;
  within = a.within;
  on_disk = ap length (content_quiet c.upload_path k log q) ∙ a.on_disk;
}

Handed-quiet :
    (owner : Option ℕ) (log : List Call) (job : Job) (k : Call)
    → is_quiet k ≡ true
    → Handed owner log job
    → Handed owner (k ∷ log) job
Handed-quiet owner log job k q h = record {
  unowned = h.unowned;
  some_bytes = h.some_bytes;
  fits = h.fits;
  complete = h.complete;
  on_disk = ap length (content_quiet job.order.path k log q) ∙ h.on_disk;
}

pub job_quiet :
    (owner : Option ℕ) (log : List Call) (job : Job) (k : Call)
    → is_quiet k ≡ true
    → JobSound owner log job
    → JobSound owner (k ∷ log) job
job_quiet owner log job k q j = record {
  handed = λ e. Handed-quiet owner log job k q (j.handed e);
  running_it = λ e. forked_before (j.running_it e);
  passed = λ e. passed_before (j.passed e);
}

pub Good_quiet : (k : Call) (s : Server) → is_quiet k ≡ true → Good s → Good (call k s)
Good_quiet k s q g = record {
  uploads = λ n e. Active-quiet s.upload_owner s.log n (s.clients n) k q (g.uploads n e);
  job_sound = job_quiet s.upload_owner s.log s.job k q g.job_sound;
  cleared = cleared_quiet k s.log q g.cleared;
}

-- What quiet calls keep.
pub record Keeps (P : Server → Type 0) : Type 0 where
  pub keeps : (k : Call) (s : Server) → is_quiet k ≡ true → P s → P (call k s)

pub Good-Keeps : Keeps Good
Good-Keeps = record { keeps = λ k s q g. Good_quiet k s q g }

pub keeps_unlink :
    (P : Server → Type 0) (v : Keeps P) (path : Bytes) (s : Server) → P s → P (unlink_named path s)
keeps_unlink P v path s p =
    if_both P (is_empty path) _ _ (λ e. p) (λ e. v.keeps (removed path) s refl p)

-- Another state of a connection.
pub put_self : (who : ℕ) (c : Client) (s : Server) → (put_client who c s).clients who ≡ c
put_self who c s = if_true_eq (who == who) c (s.clients who) ((==_iff who who).1 refl)

abbrev pub Uploading : Server → ℕ → Client → Type 0
Uploading s n c = c.upload_active ≡ true → Active s.upload_owner s.log n c

pub put_Good :
    (who : ℕ) (c : Client) (s : Server) → Uploading s who c → Good s → Good (put_client who c s)
put_Good who c s u g = record {
  uploads = λ n.
      if_both (λ (d : Client). Uploading s n d) (n == who) c (s.clients n)
        (λ e. subst (λ m. Uploading s m c) (sym ((==_iff n who).0 e)) u) (λ e. g.uploads n);
  job_sound = g.job_sound;
  cleared = g.cleared;
}

pub put_inactive :
    (who : ℕ) (c : Client) (s : Server)
    → c.upload_active ≡ false
    → Good s
    → Good (put_client who c s)
put_inactive who c s f = put_Good who c s (λ e. absurd cc)

-- One that says the same of the upload.
pub record Alike (c d : Client) : Type 0 where
  pub same_active : c.upload_active ≡ d.upload_active
  pub same_path : c.upload_path ≡ d.upload_path
  pub same_expected : c.upload_expected ≡ d.upload_expected
  pub same_received : c.upload_received ≡ d.upload_received

Active-Alike :
    (owner : Option ℕ) (log : List Call) (who : ℕ) (c d : Client)
    → Alike c d
    → Active owner log who c
    → Active owner log who d
Active-Alike owner log who c d l a = record {
  owns = a.owns;
  some_bytes = subst (λ n. 0 < n) l.same_expected a.some_bytes;
  fits = subst (λ n. n ≤ max_firmware_upload) l.same_expected a.fits;
  within = omega (arith, a.within, l.same_expected, l.same_received);
  on_disk = ap (λ p. length (content p log)) (sym l.same_path) ∙ a.on_disk ∙ l.same_received;
}

pub put_alike :
    (who : ℕ) (c : Client) (s : Server)
    → Alike (s.clients who) c
    → Good s
    → Good (put_client who c s)
put_alike who c s l g =
    put_Good who c s
      (λ e.
        Active-Alike s.upload_owner s.log who (s.clients who) c l
          (g.uploads who (l.same_active ∙ e)))
      g

-- The owner can go when nobody who uploads is left.
pub unowned_Good :
    (s : Server)
    → ((n : ℕ) → (s.clients n).upload_active ≡ true → ⊥)
    → Good s
    → Good (record s { upload_owner = none })
unowned_Good s u g = record {
  uploads = λ n e. absurd (u n e);
  job_sound = record {
    handed = λ e.
        let h = g.job_sound.handed e in
        record {
          unowned = refl;
          some_bytes = h.some_bytes;
          fits = h.fits;
          complete = h.complete;
          on_disk = h.on_disk;
        };
    running_it = g.job_sound.running_it;
    passed = g.job_sound.passed;
  };
  cleared = g.cleared;
}
