-- ===== src/Web/Sound/Start.antt =====
-- The invariant is kept by the start of an upload.
use meraki_builder.Prelude.{
  ℕ, ◌<◌, ◌≤◌, Bytes, true, false, not, List, [], ◌∷◌, Option, none, some, ◌==◌, ltb, ◌||◌, ◌≡◌,
  refl, sym, ap, ◌∙◌, arith, if_both, ==_iff, Bool-cases, inl, inr, bytes_eq_refl, length,
}
use meraki_builder.Web.State.{
  Client, Job, Call, created, removed, Server, put_client, call, reply, error_reply, owned_by,
  max_firmware_upload,
}
use meraki_builder.Web.Job.{is_failed, ended_upload, unlink_upload, cleanup_upload, forget_failed}
use meraki_builder.Web.Upload.{
  abandon, Start, Manifest, no_manifest, no_object, object, valid_overlay, valid_artifact_name,
  purge_upload_cache, named_upload, with_manifest, begun_upload, manifest_path_of, open_upload,
  store_manifest, prepare_upload, other_owner, handle_start,
}
use meraki_builder.Web.Log.{content, Cleared, cleared_quiet}
use meraki_builder.Web.Sound.{Active, Good, is_busy, free_job, Keeps, put_self}
use meraki_builder.Web.Sound.Validation.{
  clash, forgotten, cleanup_Good, unlink_upload_keeps, forget_failed_Good,
}

-- Nobody else uploads, and no job is busy.
record Vacant (who : ℕ) (s : Server) : Type 0 where
  others : (n : ℕ) → (n == who) ≡ false → (s.clients n).upload_active ≡ false
  no_work : is_busy s.job.state ≡ false
  history : Cleared s.log

Vacant-put : (who : ℕ) (c : Client) (s : Server) → Vacant who s → Vacant who (put_client who c s)
Vacant-put who c s v = record {
  others = λ n e.
      if_both (λ (d : Client). d.upload_active ≡ false) (n == who) c (s.clients n) (λ f. cc)
        (λ f. v.others n e);
  no_work = v.no_work;
  history = v.history;
}

Vacant-Keeps : (who : ℕ) → Keeps (Vacant who)
Vacant-Keeps who = record {
  keeps = λ k s q v. record {
    others = v.others;
    no_work = v.no_work;
    history = cleared_quiet k s.log q v.history;
  };
}

Vacant-created :
    (who : ℕ) (path : Bytes) (s : Server) → Vacant who s → Vacant who (call (created path) s)
unfolding Cleared
Vacant-created who path s v = record { others = v.others; no_work = v.no_work; history = v.history }

-- Everybody is at rest.
rest_Good :
    (s : Server)
    → ((n : ℕ) → (s.clients n).upload_active ≡ false)
    → is_busy s.job.state ≡ false
    → Cleared s.log
    → Good s
rest_Good s f b c = record {
  uploads = λ n e. absurd (clash (s.clients n).upload_active e (f n));
  job_sound = free_job s.upload_owner s.log s.job b;
  cleared = c;
}

Vacant-cleanup :
    (who : ℕ) (s : Server)
    → Vacant who s
    → Vacant who (cleanup_upload who s) × ((cleanup_upload who s).clients who).upload_active ≡ false
unfolding cleanup_upload
Vacant-cleanup who s v =
    let c = ended_upload (s.clients who) in
    let s1 = unlink_upload (s.clients who) s in
    let P = λ (t : Server). Vacant who t × (t.clients who).upload_active ≡ false in
    let v1 : Vacant who (put_client who c s1) =
      Vacant-put who c s1
        (unlink_upload_keeps (Vacant who) (Vacant-Keeps who) (s.clients who) s v) in
    let f1 = ap (λ (d : Client). d.upload_active) (put_self who c s1) in
    if_both P (owned_by s1.upload_owner who) _ _
      (λ e. (record { others = v1.others; no_work = v1.no_work; history = v1.history }, f1))
      (λ e. (v1, f1))

all_rest : (who : ℕ) (s : Server) → Vacant who s → (s.clients who).upload_active ≡ false → Good s
all_rest who s v f =
    rest_Good s
      (λ n. elim (Bool-cases (n == who)) [
        | inl e ↦ ap (λ m. (s.clients m).upload_active) ((==_iff n who).0 e) ∙ f
        | inr e ↦ v.others n e
      ])
      v.no_work v.history

abandon_Vacant : (who code : ℕ) (s : Server) → Vacant who s → Good (abandon who code s)
unfolding abandon
abandon_Vacant who code s v =
    let t = reply who (error_reply code) s in
    let w : Vacant who t = record { others = v.others; no_work = v.no_work; history = v.history } in
    let (v1, f1) = Vacant-cleanup who t w in all_rest who (cleanup_upload who t) v1 f1

pub abandon_Good : (who code : ℕ) (s : Server) → Good s → Good (abandon who code s)
unfolding abandon
abandon_Good who code s g = cleanup_Good who (reply who (error_reply code) s) g

empty_content : (path : Bytes) (log : List Call) → content path (created path ∷ log) ≡ []
unfolding content
empty_content path log = rw (bytes_eq_refl path)

open_upload_Good :
    (who : ℕ) (q : Start) (s : Server)
    → 0 < q.size
    → q.size ≤ max_firmware_upload
    → Vacant who s
    → Good (open_upload who q s)
unfolding open_upload
open_upload_Good who q s some_bytes fits v =
    let c = begun_upload q (s.clients who) in
    let log = created c.upload_path ∷ s.log in
    let P = λ (n : ℕ) (d : Client). d.upload_active ≡ true → Active (some who) log n d in
    if_both Good (not q.opened) _ _ (λ e. abandon_Vacant who 500 s v)
      (λ e. record {
        uploads = λ n.
            if_both (P n) (n == who) c (s.clients n)
              (λ f a. record {
                owns = ap some (sym ((==_iff n who).0 f));
                some_bytes = some_bytes;
                fits = fits;
                within = omega arith;
                on_disk = ap length (empty_content c.upload_path s.log);
              })
              (λ f a. absurd (clash (s.clients n).upload_active a (v.others n f)));
        job_sound = free_job (some who) log s.job v.no_work;
        cleared = (Vacant-created who c.upload_path s v).history;
      })

store_manifest_Good :
    (who : ℕ) (q : Start) (m : Manifest) (s : Server)
    → 0 < q.size
    → q.size ≤ max_firmware_upload
    → Vacant who s
    → Good (store_manifest who q m s)
unfolding store_manifest
store_manifest_Good who q no_manifest s b f v = open_upload_Good who q s b f v
store_manifest_Good who q no_object s b f v = abandon_Vacant who 400 s v
store_manifest_Good who q (object false) s b f v =
    let c = with_manifest q (s.clients who) in
    abandon_Vacant who 500 (put_client who c s) (Vacant-put who c s v)
store_manifest_Good who q (object true) s b f v =
    let c = with_manifest q (s.clients who) in
    let s1 = put_client who c s in
    let path = manifest_path_of q.token in
    open_upload_Good who q (call (created path) s1) b f
      (Vacant-created who path s1 (Vacant-put who c s v))

purge_Vacant :
    (who : ℕ) (paths : List Bytes) (s : Server)
    → Vacant who s
    → Vacant who (purge_upload_cache paths s)
unfolding purge_upload_cache
purge_Vacant who [] s v = v
purge_Vacant who (path ∷ paths) s v =
    purge_Vacant who paths (call (removed path) s)
      ((Vacant-Keeps who).keeps (removed path) s refl v)

prepare_Good :
    (who : ℕ) (q : Start) (s : Server)
    → 0 < q.size
    → q.size ≤ max_firmware_upload
    → Vacant who s
    → Good (prepare_upload who q s)
unfolding prepare_upload
prepare_Good who q s b f v =
    let s1 = purge_upload_cache q.purged (cleanup_upload who s) in
    let v1 = purge_Vacant who q.purged (cleanup_upload who s) (Vacant-cleanup who s v).0 in
    let c = named_upload q (s1.clients who) in
    store_manifest_Good who q q.manifest (put_client who c s1) b f (Vacant-put who c s1 v1)

not_other :
    (o : Option ℕ) (n who : ℕ) → o ≡ some n → other_owner o who ≡ false → (n == who) ≡ false → ⊥
not_other none n who e f h = cc
not_other (some m) n who e f h =
    let same : m ≡ n = cc in
    let kept : (n == who) ≡ true = ground (arith, same) in clash (n == who) kept h

Vacant-for :
    (who : ℕ) (s : Server)
    → is_busy s.job.state ≡ false
    → other_owner s.upload_owner who ≡ false
    → Good s
    → Vacant who s
Vacant-for who s b o g = record {
  others = λ n e. elim (Bool-cases (s.clients n).upload_active) [
    | inl a ↦ absurd (not_other s.upload_owner n who (g.uploads n a).owns o e)
    | inr f ↦ f
  ];
  no_work = b;
  history = g.cleared;
}

-- The job is still not busy once a failed one is forgotten.
forget_failed_free :
    (s : Server) → is_busy s.job.state ≡ false → is_busy (forget_failed s).job.state ≡ false
unfolding forget_failed
forget_failed_free s b =
    if_both (λ (t : Server). is_busy t.job.state ≡ false) (is_failed s.job.state) _ _
      (λ e. ap (λ (j : Job). is_busy j.state) (forgotten true s)) (λ e. b)

pub start_Good : (who : ℕ) (q : Start) (s : Server) → Good s → Good (handle_start who q s)
unfolding handle_start
start_Good who q s g =
    let s1 = forget_failed s in
    if_both Good (not q.sized) _ _ (λ e. g)
      (λ e.
        if_both Good
          (q.size == 0
            || ltb max_firmware_upload q.size
            || not (valid_overlay q.overlay)
            || not (valid_artifact_name q.name))
          _ _ (λ f. g)
          (λ f.
            if_both Good (is_busy s.job.state) _ _ (λ h. g)
              (λ h.
                if_both Good (other_owner s1.upload_owner who) _ _ (λ o. forget_failed_Good s g)
                  (λ o.
                    prepare_Good who q s1 (ground arith) (ground arith)
                      (Vacant-for who s1 (forget_failed_free s h) o (forget_failed_Good s g))))))
