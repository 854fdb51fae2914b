-- ===== src/Web/Sound/Validation.antt =====
-- The invariant is kept by the end of an upload and by the operations on the job.
use meraki_builder.Prelude.{
  ℕ, Bytes, List, [], ◌∷◌, Bool, true, false, not, [], ◌∷◌, Option, none, some, ◌||◌, ◌++◌, codes,
  ◌&&◌, ◌≡◌, refl, sym, ap, ◌∙◌, subst, arith, if◌then◌else◌, if_both, ==_iff,
}
use meraki_builder.Roles.Capability.{role_has_capability}
use meraki_builder.Web.State.{
  Client, Job, JobState, idle, validating, ready, failed, no_job, killed, waited, Server,
  put_client, call, set_job, unlink_named, owned_by, release_owner,
}
use meraki_builder.Web.Job.{
  is_validating, is_failed, running, ended_upload, unlink_upload, cleanup_upload,
  firmware_job_forget, firmware_job_cancel, forget_failed, with_outcome, or_default, settle_failed,
  settle, notify, firmware_job_notify, poll_answer, Waited, not_yet, interrupted, wait_error,
  child_ended, firmware_job_poll,
}
use meraki_builder.Web.Log.{passed_now}
use meraki_builder.Web.Sound.{
  JobSound, Good, is_busy, same-Handed, free_job, Keeps, Good-Keeps, Good_quiet, keeps_unlink,
  put_self, put_inactive, unowned_Good,
}

pub clash : (b : Bool) → b ≡ true → b ≡ false → ⊥
clash b e f = cc

busy_validating : (state : JobState) → is_validating state ≡ true → is_busy state ≡ true
busy_validating state e = ground arith

pub owns_it : (o : Option ℕ) (who : ℕ) → owned_by o who ≡ true → o ≡ some who
owns_it none who e = cc
owns_it (some n) who e = ap some ((==_iff n who).0 e)

release_Good :
    (who : ℕ) (s : Server)
    → (s.clients who).upload_active ≡ false
    → Good s
    → Good (release_owner who s)
release_Good who s f g =
    if_both Good (owned_by s.upload_owner who) _ _
      (λ e.
        unowned_Good s
          (λ n a.
            let other : some n ≡ some who =
              sym (g.uploads n a).owns ∙ owns_it s.upload_owner who e in
            let same : n ≡ who = cc in
            absurd (
              clash (s.clients n).upload_active a (ap (λ m. (s.clients m).upload_active) same ∙ f)))
          g)
      (λ e. g)

pub unlink_upload_keeps :
    (P : Server → Type 0) (v : Keeps P) (c : Client) (s : Server) → P s → P (unlink_upload c s)
unlink_upload_keeps P v c s p =
    if_both P c.upload_handed_off _ _ (λ e. p)
      (λ e.
        keeps_unlink P v c.upload_manifest_path (unlink_named c.upload_path s)
          (keeps_unlink P v c.upload_path s p))

pub cleanup_Good : (who : ℕ) (s : Server) → Good s → Good (cleanup_upload who s)
unfolding cleanup_upload
cleanup_Good who s g =
    let c = ended_upload (s.clients who) in
    let s1 = unlink_upload (s.clients who) s in
    release_Good who (put_client who c s1)
      (ap (λ (d : Client). d.upload_active) (put_self who c s1))
      (put_inactive who c s1 refl (unlink_upload_keeps Good Good-Keeps (s.clients who) s g))

-- A job that is not busy, in place of any other.
pub set_free : (job : Job) (s : Server) → is_busy job.state ≡ false → Good s → Good (set_job job s)
set_free job s f g = record {
  uploads = g.uploads;
  job_sound = free_job s.upload_owner s.log job f;
  cleared = g.cleared;
}

-- What does not depend on the job is kept by forgetting it.
pub forget_keeps :
    (P : Server → Type 0) (v : Keeps P) (files : Bool) (s : Server)
    → ((job : Job) (t : Server) → P t → P (set_job job t))
    → P s
    → P (firmware_job_forget files s)
unfolding firmware_job_forget
forget_keeps P v files s set p =
    let order = s.job.order in
    let s1 = if files then unlink_named order.manifest_path (unlink_named order.path s) else s in
    let p1 : P s1 =
      if_both P files _ _
        (λ e.
          keeps_unlink P v order.manifest_path (unlink_named order.path s)
            (keeps_unlink P v order.path s p))
        (λ e. p) in
    set no_job (unlink_named s.job.error_path s1) (keeps_unlink P v s.job.error_path s1 p1)

-- The invariant but for the job.
abbrev Jobless : Server → Type 0
Jobless s = Good (set_job no_job s)

Jobless-Keeps : Keeps Jobless
Jobless-Keeps = record { keeps = λ k s q g. Good_quiet k (set_job no_job s) q g }

-- Forgetting a job gives the invariant back, whatever the job was.
pub forget-Jobless : (files : Bool) (s : Server) → Jobless s → Jobless (firmware_job_forget files s)
forget-Jobless files s g = forget_keeps Jobless Jobless-Keeps files s (λ job t p. p) g

pub forgotten : (files : Bool) (s : Server) → (firmware_job_forget files s).job ≡ no_job
unfolding firmware_job_forget
forgotten files s = refl

pub forget_any : (files : Bool) (s : Server) → Jobless s → Good (firmware_job_forget files s)
forget_any files s g =
    let t = firmware_job_forget files s in
    let j = forget-Jobless files s g in
    record {
      uploads = j.uploads;
      job_sound = subst (JobSound t.upload_owner t.log) (sym (forgotten files s)) j.job_sound;
      cleared = j.cleared;
    }

pub jobless : (s : Server) → Good s → Jobless s
jobless s g = set_free no_job s refl g

pub cancel_Good : (s : Server) → Good s → Good (firmware_job_cancel s)
unfolding firmware_job_cancel
cancel_Good s g =
    let P = λ (t : Server). Good (firmware_job_forget true t) in
    if_both P (is_validating s.job.state && running s.job.pid) _ _
      (λ e.
        forget_any true (call (killed s.job.pid) s)
          (jobless (call (killed s.job.pid) s) (Good_quiet (killed s.job.pid) s refl g)))
      (λ e. forget_any true s (jobless s g))

pub forget_failed_Good : (s : Server) → Good s → Good (forget_failed s)
unfolding forget_failed
forget_failed_Good s g =
    if_both Good (is_failed s.job.state) _ _ (λ e. forget_any true s (jobless s g)) (λ e. g)

failed_free : (state : JobState) → is_failed state ≡ true → is_busy state ≡ false
failed_free idle e = cc
failed_free validating e = cc
failed_free ready e = cc
failed_free failed e = refl

settle_end : (s : Server) → Good s → Good (if is_failed s.job.state then settle_failed s else s)
settle_end s g =
    let order = s.job.order in
    let s1 = unlink_named order.manifest_path (unlink_named order.path s) in
    let P = λ (t : Server). Good t × (is_busy t.job.state ≡ false) in
    let P-Keeps : Keeps P = record { keeps = λ k t q p. (Good_quiet k t q p.0, p.1) } in
    if_both Good (is_failed s.job.state) _ _
      (λ e.
        let p : P s1 =
          keeps_unlink P P-Keeps order.manifest_path (unlink_named order.path s)
            (keeps_unlink P P-Keeps order.path s (g, failed_free s.job.state e)) in
        set_free (record s1.job { order = record s1.job.order { path = []; manifest_path = [] } })
          s1 p.1 p.0)
      (λ e. g)

notify_Good :
    (type : Bytes) (connected : List ℕ) (s : Server) → Good s → Good (notify type connected s)
unfolding notify
notify_Good type [] s g = g
notify_Good type (who ∷ connected) s g =
    let c = s.clients who in
    notify_Good type connected _ (
      if_both Good
        (not c.authenticated || not (role_has_capability c.role (codes "firmware.update"))) _ _
        (λ e. g) (λ e. g))

job_notify_Good : (s : Server) → Good s → Good (firmware_job_notify s)
unfolding firmware_job_notify
job_notify_Good s g = notify_Good _ s.connected s g

settle_Good : (s : Server) → is_validating s.job.state ≡ false → Good s → Good (settle s)
unfolding settle
settle_Good s f g =
    let s0 = set_job (record s.job { pid = 0 }) s in
    let g0 : Good s0 = record {
      uploads = g.uploads;
      job_sound = record {
        handed = λ e. same-Handed s.upload_owner s.log s.job s.job.state 0 (g.job_sound.handed e);
        running_it = λ e. absurd (clash (is_validating s.job.state) e f);
        passed = g.job_sound.passed;
      };
      cleared = g.cleared;
    } in
    let s1 = unlink_named s.job.error_path s0 in
    job_notify_Good (if is_failed s1.job.state then settle_failed s1 else s1)
      (settle_end s1 (keeps_unlink Good Good-Keeps s.job.error_path s0 g0))

poll_answer_Good :
    (answer : Waited) (s : Server)
    → is_validating s.job.state ≡ true
    → Good s
    → Good (poll_answer answer s)
unfolding poll_answer
poll_answer_Good not_yet s v g = g
poll_answer_Good interrupted s v g = g
poll_answer_Good (wait_error text) s v g =
    let job = with_outcome failed (codes "unable to observe firmware validator: " ++ text) s.job in
    settle_Good (set_job job s) refl (set_free job s refl g)
poll_answer_Good (child_ended false text) s v g =
    let job = with_outcome failed (or_default text) s.job in
    let s1 = set_job job s in
    settle_Good (call (waited s.job.pid false) s1) refl
      (Good_quiet (waited s.job.pid false) s1 refl (set_free job s refl g))
poll_answer_Good (child_ended true text) s v g =
    let log = waited s.job.pid true ∷ s.log in
    let g1 = Good_quiet (waited s.job.pid true) s refl g in
    settle_Good (call (waited s.job.pid true) (set_job (record s.job { state = ready }) s)) refl
      (record {
        uploads = g1.uploads;
        job_sound = record {
          handed = λ e.
              same-Handed s.upload_owner log s.job ready s.job.pid
                (g1.job_sound.handed (busy_validating s.job.state v));
          running_it = λ e. cc;
          passed = λ e. passed_now (g.job_sound.running_it v);
        };
        cleared = g1.cleared;
      })

pub poll_Good : (answer : Waited) (s : Server) → Good s → Good (firmware_job_poll answer s)
unfolding firmware_job_poll
poll_Good answer s g =
    if_both Good (not (is_validating s.job.state) || not (running s.job.pid)) _ _ (λ e. g)
      (λ e. poll_answer_Good answer s (ground arith) g)
