-- ===== src/Web/Sound/Upload.antt =====
-- The invariant is kept by the bytes of an image, by the end of its upload and by its flashing.
use meraki_builder.Prelude.{
  ℕ, Bytes, Bool, true, false, not, ◌∷◌, Option, none, some, ◌==◌, ◌||◌, ◌≡◌, refl, sym, ap, ◌∙◌,
  arith, if◌then◌else◌, if_both, bytes_eq, codes,
}
use meraki_builder.Web.State.{
  Client, JobState, forked, started, Server, put_client, call, set_job, reply, sent, is_empty,
}
use meraki_builder.Web.Job.{
  is_ready, job_of, order_of, fork_validator, firmware_job_start, firmware_job_forget,
  forget_failed, is_failed,
}
use meraki_builder.Web.Upload.{
  abandon, handed_off, start_validation, handle_finish, handle_begin_flash, handle_cancel,
}
use meraki_builder.Web.Log.{content, forked_now, forked_before, passed_before, Cleared}
use meraki_builder.Web.Sound.{
  Active, Active-quiet, Good, Good_quiet, is_busy, Keeps, put_self, put_alike, put_inactive,
  unowned_Good,
}
use meraki_builder.Web.Sound.Validation.{
  clash, jobless, forget_any, forget_keeps, cleanup_Good, cancel_Good,
}
use meraki_builder.Web.Sound.Start.{abandon_Good}

pub handle_cancel_Good : (who : ℕ) (s : Server) → Good s → Good (handle_cancel who s)
unfolding handle_cancel
handle_cancel_Good who s g = cleanup_Good who _ (cancel_Good s g)

pub owned_none : (o : Option ℕ) (n : ℕ) → o ≡ some n → o ≡ none → ⊥
owned_none o n e f = cc

-- Two owners are the same one.
pub one_owner : (o : Option ℕ) (m n : ℕ) → o ≡ some m → o ≡ some n → (n == m) ≡ false → ⊥
one_owner none m n e f h = cc
one_owner (some k) m n e f h =
    let a : k ≡ m = cc in
    let b : k ≡ n = cc in let same : (n == m) ≡ true = ground (arith, a, b) in clash (n == m) same h

-- An upload as a validator takes it over.
record Complete (who : ℕ) (c : Client) (s : Server) : Type 0 where
  good : Good s
  active : Active s.upload_owner s.log who c
  all_there : c.upload_received ≡ c.upload_expected

Complete-Keeps : (who : ℕ) (c : Client) → Keeps (Complete who c)
Complete-Keeps who c = record {
  keeps = λ k s q p. record {
    good = Good_quiet k s q p.good;
    active = Active-quiet s.upload_owner s.log who c k q p.active;
    all_there = p.all_there;
  };
}

abbrev begun_job : Client → ℕ → Server → Server
begun_job c child s =
    call (forked child (order_of c)) (set_job (record (job_of c) { pid = child }) s)

handed_over :
    (who : ℕ) (c : Client) (child : ℕ) (s : Server)
    → Complete who c s
    → Good (record (put_client who (handed_off (s.clients who)) (begun_job c child s)) {
      upload_owner = none;
    })
unfolding content Cleared
handed_over who c child s p =
    let log = forked child (order_of c) ∷ s.log in
    let P = λ (n : ℕ) (d : Client). d.upload_active ≡ true → Active none log n d in
    record {
      uploads = λ n.
          if_both (P n) (n == who) (handed_off (s.clients who)) (s.clients n) (λ e a. cc)
            (λ e a.
              absurd (one_owner s.upload_owner who n p.active.owns (p.good.uploads n a).owns e));
      job_sound = record {
        handed = λ e. record {
          unowned = refl;
          some_bytes = p.active.some_bytes;
          fits = p.active.fits;
          complete = p.all_there;
          on_disk = p.active.on_disk;
        };
        running_it = λ e. forked_now;
        passed = λ e. cc;
      };
      cleared = p.good.cleared;
    }

abbrev validation_begun : ℕ → Bool × Server → Server
validation_begun who (begun, s1) =
    if not begun
    then abandon who 500 s1
    else reply who (sent (codes "firmware_validating"))
        (record (put_client who (handed_off (s1.clients who)) s1) { upload_owner = none })

fork_Good :
    (who : ℕ) (c : Client) (child : Option ℕ) (s : Server)
    → Complete who c s
    → Good (validation_begun who (fork_validator child (set_job (job_of c) s)))
unfolding fork_validator
fork_Good who c none s p =
    let s1 = set_job (job_of c) s in
    abandon_Good who 500 (firmware_job_forget false s1) (forget_any false s1 (jobless s p.good))
fork_Good who c (some child) s p = handed_over who c child s p

forget_Complete :
    (who : ℕ) (c : Client) (s : Server) → Complete who c s → Complete who c (forget_failed s)
unfolding forget_failed
forget_Complete who c s p =
    if_both (Complete who c) (is_failed s.job.state) _ _
      (λ e.
        let t = firmware_job_forget true s in
        let a =
          forget_keeps (λ (u : Server). Active u.upload_owner u.log who c)
            (record { keeps = λ k u q a. Active-quiet u.upload_owner u.log who c k q a }) true s
            (λ job u a. a) p.active in
        record { good = forget_any true s (jobless s p.good); active = a; all_there = p.all_there })
      (λ e. p)

start_validation_Good :
    (who : ℕ) (child : Option ℕ) (s : Server)
    → Complete who (s.clients who) s
    → Good (start_validation who child s)
unfolding start_validation firmware_job_start
start_validation_Good who child s p =
    let c = s.clients who in
    if_both (λ (r : Bool × Server). Good (validation_begun who r)) (is_busy s.job.state) _ _
      (λ e. abandon_Good who 500 s p.good)
      (λ e. fork_Good who c child (forget_failed s) (forget_Complete who c s p))

finish-Complete :
    (who : ℕ) (s : Server)
    → (s.clients who).upload_active ≡ true
    → (s.clients who).upload_received ≡ (s.clients who).upload_expected
    → Good s
    → Complete who (s.clients who) s
finish-Complete who s a r g = record { good = g; active = g.uploads who a; all_there = r }

pub finish_Good :
    (who : ℕ) (synced : Bool) (child : Option ℕ) (s : Server)
    → Good s
    → Good (handle_finish who synced child s)
unfolding handle_finish
finish_Good who synced child s g =
    let c = s.clients who in
    let d = record c { upload_fd = false } in
    let closed = put_client who d s in
    let g1 : Good closed =
      put_alike who d s
        (record {
          same_active = refl;
          same_path = refl;
          same_expected = refl;
          same_received = refl;
        })
        g in
    if_both Good (not c.upload_active || not c.upload_fd) _ _ (λ e. g)
      (λ e.
        if_both Good (not synced) _ _ (λ f. abandon_Good who 500 s g)
          (λ f.
            if_both Good (not (c.upload_received == c.upload_expected)) _ _
              (λ h. abandon_Good who 400 closed g1)
              (λ h.
                let same = put_self who d s in
                let active : c.upload_active ≡ true = ground arith in
                let all : c.upload_received ≡ c.upload_expected = ground arith in
                start_validation_Good who child closed (
                  finish-Complete who closed (ap (λ (x : Client). x.upload_active) same ∙ active)
                    (ap (λ (x : Client). x.upload_received) same
                      ∙ all
                      ∙ sym (ap (λ (x : Client). x.upload_expected) same))
                    g1))))

ready_busy : (state : JobState) → is_ready state ≡ true → is_busy state ≡ true
ready_busy state e = ground arith

-- The updater is started on the order of a job that is ready.
started_Good :
    (s : Server) → is_ready s.job.state ≡ true → Good s → Good (call (started s.job.order) s)
unfolding content Cleared
started_Good s r g =
    let h = g.job_sound.handed (ready_busy s.job.state r) in
    record {
      uploads = λ n a. absurd (owned_none s.upload_owner n (g.uploads n a).owns h.unowned);
      job_sound = record {
        handed = λ e. record {
          unowned = h.unowned;
          some_bytes = h.some_bytes;
          fits = h.fits;
          complete = h.complete;
          on_disk = h.on_disk;
        };
        running_it = λ e. forked_before (g.job_sound.running_it e);
        passed = λ e. passed_before (g.job_sound.passed e);
      };
      cleared = (
        record {
          validated = g.job_sound.passed r;
          some_bytes = omega (arith, h.some_bytes, h.complete, h.on_disk);
          fits = omega (arith, h.fits, h.complete, h.on_disk);
        },
        g.cleared,
      );
    }

pub begin_flash_Good :
    (who : ℕ) (token : Option Bytes) (begun : Bool) (s : Server)
    → Good s
    → Good (handle_begin_flash who token begun s)
unfolding handle_begin_flash
begin_flash_Good who none begun s g = g
begin_flash_Good who (some token) begun s g =
    if_both Good
      (not (is_ready s.job.state) || is_empty s.job.order.path || not (bytes_eq token s.job.token))
      _ _ (λ e. g)
      (λ e.
        let is : is_ready s.job.state ≡ true = ground arith in
        let s1 = call (started s.job.order) s in
        let g1 = started_Good s is g in
        let h = g.job_sound.handed (ready_busy s.job.state is) in
        if_both Good (not begun) _ _ (λ f. g1)
          (λ f.
            let s2 = put_client who (handed_off (s1.clients who)) s1 in
            let g2 = put_inactive who (handed_off (s1.clients who)) s1 refl g1 in
            let s3 = record s2 { upload_owner = none } in
            let g3 =
              unowned_Good s2 (λ n a. owned_none s.upload_owner n (g2.uploads n a).owns h.unowned)
                g2 in
            let s4 = reply who (sent (codes "firmware_starting")) s3 in
            forget_any false s4 (jobless s4 g3)))
