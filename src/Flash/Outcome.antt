-- ===== src/Flash/Outcome.antt =====
-- What each ending of the flashing helper says of the partitions of the plan.
use meraki_builder.Prelude.{Bool, true, false, List, [], ◌∷◌, none, some, ◌≡◌, refl, All}
use meraki_builder.Flash.System.{System, Laws}
use meraki_builder.Flash.Device.{Job, Flash}
use meraki_builder.Flash.Program.{
  Attempt, done, fatal, Ending, complete, restored, program_job, restore_if, rolled_back,
  rollback_and_reboot,
}
use meraki_builder.Flash.Plan.{succeed, continue, program_then}
use meraki_builder.Flash.Verified.{Programmed}
use meraki_builder.Flash.Attempts.{Step, program_job-Step}
use meraki_builder.Flash.Rollback.{
  Undone, Undone-kept, Programmed-kept, Apart, All-kept, Chain, restore_if-Chain,
}

module _ {World : Type 0} (sys : System World) (laws : Laws sys) (u : World) where
  abbrev pub AllProgrammed : World → List Job → Type 0
  AllProgrammed w js = All (λ (j : Job). Programmed sys j w) js

  abbrev pub AllUndone : World → List Job → Type 0
  AllUndone w js = All (Undone sys u w) js

  -- `complete` speaks of the jobs `ds`, and `restored` of the jobs `us`.
  pub record Verdict (ds us : List Job) (r : Flash World × Ending) : Type 0 where
    pub programmed : r.1 ≡ complete → AllProgrammed r.0.world ds
    pub undone : r.1 ≡ restored → AllUndone r.0.world us

  rolled_back-Verdict :
      (ds us : List Job) (r : Flash World × Attempt)
      → Chain sys laws u us r
      → Verdict ds us (rolled_back r)
  rolled_back-Verdict ds us (s, fatal) c = record { programmed = λ e. cc; undone = λ e. cc }
  rolled_back-Verdict ds us (s, done true) c = record {
    programmed = λ e. cc;
    undone = λ e. c.holds refl;
  }
  rolled_back-Verdict ds us (s, done false) c = record { programmed = λ e. cc; undone = λ e. cc }

  pub succeed-Verdict :
      (reboot_after : Bool) (ds us : List Job) (s : Flash World)
      → AllProgrammed s.world ds
      → Verdict ds us (succeed reboot_after s)
  succeed-Verdict reboot_after ds us s h = record { programmed = λ e. h; undone = λ e. cc }

  -- A job, behind the jobs `before` and before the jobs `after`.
  continue-Verdict :
      (ds us before after : List Job) (job : Job) (w : World)
      (next undo : Flash World → Flash World × Ending) (r : Flash World × Attempt)
      → Apart job before
      → Apart job after
      → AllProgrammed w before
      → AllUndone w after
      → ((s : Flash World)
          → AllProgrammed s.world (job ∷ before)
          → AllUndone s.world after
          → Verdict ds us (next s))
      → ((s : Flash World) → AllUndone s.world after → Verdict ds us (undo s))
      → Step sys job w r
      → Verdict ds us (continue next undo r)
  continue-Verdict ds us before after job w next undo (s, done true) nb na hb ha f g step =
      f s
        (
          step.verified refl,
          All-kept sys (λ v j. Programmed sys j v) job w s.world
              (λ j n. Programmed-kept sys job.device j w s.world step.only n) before nb hb,
        )
        (All-kept sys (Undone sys u) job w s.world
          (λ j n. Undone-kept sys job.device j u w s.world step.only n) after na ha)
  continue-Verdict ds us before after job w next undo (s, done false) nb na hb ha f g step = g s (
      All-kept sys (Undone sys u) job w s.world
        (λ j n. Undone-kept sys job.device j u w s.world step.only n) after na ha)
  continue-Verdict ds us before after job w next undo (s, fatal) nb na hb ha f g step = record {
    programmed = λ e. cc;
    undone = λ e. cc;
  }

  pub program_then-Verdict :
      (ds us before after : List Job) (job : Job) (next undo : Flash World → Flash World × Ending)
      (s : Flash World)
      → Apart job before
      → Apart job after
      → AllProgrammed s.world before
      → AllUndone s.world after
      → ((t : Flash World)
          → AllProgrammed t.world (job ∷ before)
          → AllUndone t.world after
          → Verdict ds us (next t))
      → ((t : Flash World) → AllUndone t.world after → Verdict ds us (undo t))
      → Verdict ds us (program_then sys job next undo s)
  unfolding program_then
  program_then-Verdict ds us before after job next undo s nb na hb ha f g =
      continue-Verdict ds us before after job s.world next undo (program_job sys job s) nb na hb ha
        f g (program_job-Step sys laws job s)

  -- The restorations in their order, from the state in which the jobs `js` are undone.
  begin :
      (js : List Job) (s : Flash World) → AllUndone s.world js → Chain sys laws u js (s, done true)
  begin js s h = record { holds = λ e. h }

  add :
      (job : Job) (js : List Job) (r : Flash World × Attempt)
      → Apart job js
      → Chain sys laws u js r
      → Chain sys laws u (job ∷ js) (restore_if sys (some job) r)
  add job js r ne c = restore_if-Chain sys laws u job js r ne c

  pub overlay_failed :
      (ds js : List Job) (overlay : Job) (s : Flash World)
      → Apart overlay js
      → AllUndone s.world js
      → Verdict ds (overlay ∷ js) (rollback_and_reboot sys none none none (some overlay) s)
  unfolding rollback_and_reboot restore_if
  overlay_failed ds js overlay s ne h =
      rolled_back-Verdict ds _ _ (add overlay js _ ne (begin js _ h))

  pub alone_failed :
      (ds js : List Job) (root : Job) (s : Flash World)
      → Apart root js
      → AllUndone s.world js
      → Verdict ds (root ∷ js) (rollback_and_reboot sys none none (some root) none s)
  unfolding rollback_and_reboot restore_if
  alone_failed ds js root s ne h = rolled_back-Verdict ds _ _ (add root js _ ne (begin js _ h))

  pub root_failed :
      (ds js : List Job) (root overlay : Job) (s : Flash World)
      → Apart root js
      → Apart overlay (root ∷ js)
      → AllUndone s.world js
      → Verdict ds
          (overlay ∷ root ∷ js)
          (rollback_and_reboot sys none none (some root) (some overlay) s)
  unfolding rollback_and_reboot restore_if
  root_failed ds js root overlay s nr nv h =
      rolled_back-Verdict ds _ _ (add overlay _ _ nv (add root js _ nr (begin js _ h)))

  pub kernel_failed :
      (ds js : List Job) (kernel root overlay : Job) (s : Flash World)
      → Apart kernel js
      → Apart root (kernel ∷ js)
      → Apart overlay (root ∷ kernel ∷ js)
      → AllUndone s.world js
      → Verdict ds
          (overlay ∷ root ∷ kernel ∷ js)
          (rollback_and_reboot sys none (some kernel) (some root) (some overlay) s)
  unfolding rollback_and_reboot restore_if
  kernel_failed ds js kernel root overlay s nk nr nv h =
      rolled_back-Verdict ds _ _
        (add overlay _ _ nv (add root _ _ nr (add kernel js _ nk (begin js _ h))))

  pub loader_failed :
      (ds : List Job) (loader kernel root overlay : Job) (s : Flash World)
      → Apart kernel (loader ∷ [])
      → Apart root (kernel ∷ loader ∷ [])
      → Apart overlay (root ∷ kernel ∷ loader ∷ [])
      → Verdict ds
          (overlay ∷ root ∷ kernel ∷ loader ∷ [])
          (rollback_and_reboot sys (some loader) (some kernel) (some root) (some overlay) s)
  unfolding rollback_and_reboot restore_if
  loader_failed ds loader kernel root overlay s nk nr nv = rolled_back-Verdict ds _ _ (
      add overlay _ _ nv (add root _ _ nr (add kernel _ _ nk (add loader [] _ tt (begin [] _ tt)))))
