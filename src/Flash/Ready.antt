-- ===== src/Flash/Ready.antt =====
-- What the checks of the options guarantee of a plan.
use meraki_builder.Prelude.{
  ℕ, ◌≤◌, Bytes, not, Option, none, some, ◌≡◌, refl, subst, All, ◌||◌, if_both, option_both,
  some_inj, arith,
}
use meraki_builder.Flash.Device.{Job}
use meraki_builder.Flash.Plan.{
  Draft, Request, Plan, overlay_only, system, full, have, job_of, complete_job, full_plan,
  loader_size, kernel_size, rootfs_size, overlay_size, plan, jobs,
}

-- A job that can be rolled back, with a range of progress values within 0 and 100.
pub record IsReady (job : Job) : Type 0 where
  pub backup : Bytes
  pub named : job.rollback ≡ some backup
  pub rises : job.progress_start ≤ job.progress_end
  pub percent : job.progress_end ≤ 100

record Given (o : Option Job) : Type 0 where
  ready : (job : Job) → o ≡ some job → IsReady job

job_of-Given :
    (size low high : ℕ) (image device rollback : Option Bytes)
    → low ≤ high
    → high ≤ 100
    → Given (job_of size low high image device rollback)
unfolding job_of
job_of-Given size low high (some image) (some device) (some rollback) h k = record {
  ready = λ job e.
      subst IsReady (some_inj e)
        (record { backup = rollback; named = refl; rises = h; percent = k });
}
job_of-Given size low high none device rollback h k = record { ready = λ job e. cc }
job_of-Given size low high (some image) none rollback h k = record { ready = λ job e. cc }
job_of-Given size low high (some image) (some device) none h k = record { ready = λ job e. cc }

record Planned (o : Option Plan) : Type 0 where
  ready : (p : Plan) → o ≡ some p → All IsReady (jobs p)

unplanned : Planned none
unplanned = record { ready = λ p e. cc }

planned : (p : Plan) → All IsReady (jobs p) → Planned (some p)
planned p h = record { ready = λ q e. subst (λ (x : Plan). All IsReady (jobs x)) (some_inj e) h }

full_plan-Planned :
    (l k r o : Option Job) → Given l → Given k → Given r → Given o → Planned (full_plan l k r o)
full_plan-Planned (some l) (some k) (some r) (some o) gl gk gr go =
    planned (full l k r o)
      (gl.ready l refl, (gk.ready k refl, (gr.ready r refl, (go.ready o refl, tt))))
full_plan-Planned none k r o gl gk gr go = unplanned
full_plan-Planned (some l) none r o gl gk gr go = unplanned
full_plan-Planned (some l) (some k) none o gl gk gr go = unplanned
full_plan-Planned (some l) (some k) (some r) none gl gk gr go = unplanned

Given-job :
    (d : Draft) (size low high : ℕ) → low ≤ high → high ≤ 100 → Given (complete_job d size low high)
unfolding job_of
Given-job d size low high h k = job_of-Given size low high d.image d.device d.rollback h k

plan-Planned : (q : Request) → Planned (plan q)
unfolding plan
plan-Planned q =
    if_both Planned q.overlay_only_operation _ _
      (λ _.
        if_both Planned (not (have q.overlay) || have q.root || have q.loader || have q.kernel) none
          _ (λ _. unplanned)
          (λ _.
            option_both Planned (complete_job q.overlay overlay_size 5 95) none _ unplanned (λ o e.
              planned (overlay_only o) (
                (Given-job q.overlay overlay_size 5 95 (omega arith) (omega arith)).ready o e,
                tt,
              ))))
      (λ _.
        if_both Planned (not (have q.root)) none _ (λ _. unplanned)
          (λ _.
            if_both Planned (have q.loader || have q.kernel) _ _
              (λ _.
                full_plan-Planned _ _ _ _
                  (Given-job q.loader loader_size 88 98 (omega arith) (omega arith))
                  (Given-job q.kernel kernel_size 68 85 (omega arith) (omega arith))
                  (Given-job q.root rootfs_size 28 65 (omega arith) (omega arith))
                  (Given-job q.overlay overlay_size 5 25 (omega arith) (omega arith)))
              (λ _.
                option_both Planned (complete_job q.root rootfs_size 45 95) none _ unplanned (λ r e.
                  let root =
                    (Given-job q.root rootfs_size 45 95 (omega arith) (omega arith)).ready r e in
                  if_both Planned (have q.overlay) _ (some (system r none))
                    (λ _.
                      option_both Planned (complete_job q.overlay overlay_size 5 40) none _
                        unplanned
                        (λ o f. planned (system r (some o)) (
                          root,
                          (
                            (Given-job q.overlay overlay_size 5 40 (omega arith)
                                  (omega arith)).ready
                                o f,
                            tt,
                          ),
                        )))
                    (λ _. planned (system r none) (root, tt))))))

-- Every job of an accepted plan names a backup, and its progress values lie within 0 and 100.
pub plan-IsReady : (q : Request) (p : Plan) → plan q ≡ some p → All IsReady (jobs p)
plan-IsReady q p e = (plan-Planned q).ready p e
