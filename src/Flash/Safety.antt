-- ===== src/Flash/Safety.antt =====
-- The whole of fwflash.c: what the partitions hold when it reports success, and when it reports
-- that all changed partitions were restored.
use meraki_builder.Prelude.{
  Bytes, Bool, false, not, List, [], ◌∷◌, Option, none, some, ◌≡◌, ◌≢◌, refl, sym, All, inr, ◌||◌,
  if_both, option_both, bytes_eq, ap, subst, ne_of_bytes_eq, neither,
}
use meraki_builder.Flash.System.{System, Laws}
use meraki_builder.Flash.Device.{Job, Flash}
use meraki_builder.Flash.Program.{Ending, complete, restored}
use meraki_builder.Flash.Plan.{
  Plan, overlay_only, system, full, jobs, identical_devices, same_device, still_mounted,
  preflight_all, refuse, flash_loader, flash_kernel, flash_plan, flash, succeed,
}
use meraki_builder.Flash.Verified.{Programmed}
use meraki_builder.Flash.Rollback.{Undone, Apart}
use meraki_builder.Flash.Outcome.{
  AllProgrammed, AllUndone, Verdict, succeed-Verdict, program_then-Verdict, overlay_failed,
  alone_failed, root_failed, kernel_failed, loader_failed,
}

-- The devices of all the jobs differ.
abbrev Pairwise : List Job → Type 0
Pairwise [] = Unit
Pairwise (job ∷ rest) = Apart job rest × Pairwise rest

same_device-Apart : (job : Job) (rest : List Job) → same_device job rest ≡ false → Apart job rest
unfolding same_device
same_device-Apart job [] h = tt
same_device-Apart job (other ∷ rest) h =
    let (first, more) = neither (bytes_eq job.device other.device) _ h in
    (ne_of_bytes_eq _ _ first, same_device-Apart job rest more)

identical_devices-Pairwise : (js : List Job) → identical_devices js ≡ false → Pairwise js
unfolding identical_devices
identical_devices-Pairwise [] h = tt
identical_devices-Pairwise (job ∷ rest) h =
    let (first, more) = neither (same_device job rest) _ h in
    (same_device-Apart job rest first, identical_devices-Pairwise rest more)

-- The jobs in the order in which a rollback restores them, from the last on.
abbrev rollback_order : Plan → List Job
rollback_order (overlay_only overlay) = overlay ∷ []
rollback_order (system root none) = root ∷ []
rollback_order (system root (some overlay)) = overlay ∷ root ∷ []
rollback_order (full loader kernel root overlay) = overlay ∷ root ∷ kernel ∷ loader ∷ []

turned : {a b : Bytes} → a ≢ b → b ≢ a
turned h e = h (sym e)

in_plan_order :
    {World : Type 0} (sys : System World) (u w : World) (p : Plan)
    → All (Undone sys u w) (rollback_order p)
    → All (Undone sys u w) (jobs p)
in_plan_order sys u w (overlay_only overlay) h = h
in_plan_order sys u w (system root none) h = h
in_plan_order sys u w (system root (some overlay)) (o, (r, _)) = (r, (o, tt))
in_plan_order sys u w (full loader kernel root overlay) (o, (r, (k, (l, _)))) =
    (l, (k, (r, (o, tt))))

module _ {World : Type 0} (sys : System World) (laws : Laws sys) where
  untouched : (u : World) (js : List Job) → AllUndone sys laws u u js
  untouched u [] = tt
  untouched u (job ∷ rest) = (inr refl, untouched u rest)

  flash_loader-Verdict :
      (u : World) (reboot_after : Bool) (loader kernel root overlay : Job) (s : Flash World)
      → Pairwise (loader ∷ kernel ∷ root ∷ overlay ∷ [])
      → AllProgrammed sys laws u s.world (kernel ∷ root ∷ overlay ∷ [])
      → Verdict sys laws u
          (loader ∷ kernel ∷ root ∷ overlay ∷ [])
          (overlay ∷ root ∷ kernel ∷ loader ∷ [])
          (flash_loader sys reboot_after loader kernel root overlay s)
  unfolding flash_loader
  flash_loader-Verdict u reboot_after loader kernel root overlay s
        ((lk, (lr, (lo, _))), ((kr, (ko, _)), ((ro, _), _))) h =
      program_then-Verdict sys laws u _ _ (kernel ∷ root ∷ overlay ∷ []) [] loader
        (succeed reboot_after) _ s (lk, (lr, (lo, tt))) tt h tt
        (λ t programmed _. succeed-Verdict sys laws u reboot_after _ _ t programmed)
        (λ t _.
          loader_failed sys laws u _ loader kernel root overlay t (turned lk, tt)
            (turned kr, (turned lr, tt)) (turned ro, (turned ko, (turned lo, tt))))

  flash_kernel-Verdict :
      (u : World) (reboot_after : Bool) (loader kernel root overlay : Job) (s : Flash World)
      → Pairwise (loader ∷ kernel ∷ root ∷ overlay ∷ [])
      → AllProgrammed sys laws u s.world (root ∷ overlay ∷ [])
      → AllUndone sys laws u s.world (loader ∷ [])
      → Verdict sys laws u
          (loader ∷ kernel ∷ root ∷ overlay ∷ [])
          (overlay ∷ root ∷ kernel ∷ loader ∷ [])
          (flash_kernel sys reboot_after loader kernel root overlay s)
  unfolding flash_kernel
  flash_kernel-Verdict u reboot_after loader kernel root overlay s
        ((lk, (lr, (lo, _))), ((kr, (ko, _)), ((ro, _), _))) h k =
      program_then-Verdict sys laws u _ _ (root ∷ overlay ∷ []) (loader ∷ []) kernel
        (flash_loader sys reboot_after loader kernel root overlay) _ s (kr, (ko, tt))
        (turned lk, tt) h k
        (λ t programmed _.
          flash_loader-Verdict u reboot_after loader kernel root overlay t
            ((lk, (lr, (lo, tt))), ((kr, (ko, tt)), ((ro, tt), (tt, tt)))) programmed)
        (λ t undone.
          kernel_failed sys laws u _ (loader ∷ []) kernel root overlay t (turned lk, tt)
            (turned kr, (turned lr, tt)) (turned ro, (turned ko, (turned lo, tt))) undone)

  flash_plan-Verdict :
      (reboot_after : Bool) (p : Plan) (s : Flash World)
      → Pairwise (jobs p)
      → Verdict sys laws s.world (jobs p) (rollback_order p) (flash_plan sys reboot_after p s)
  unfolding flash_plan
  flash_plan-Verdict reboot_after (overlay_only overlay) s apart =
      program_then-Verdict sys laws s.world _ _ [] [] overlay (succeed reboot_after) _ s tt tt tt tt
        (λ t programmed _. succeed-Verdict sys laws s.world reboot_after _ _ t programmed)
        (λ t undone. overlay_failed sys laws s.world _ [] overlay t tt undone)
  flash_plan-Verdict reboot_after (system root none) s apart =
      program_then-Verdict sys laws s.world _ _ [] [] root (succeed reboot_after) _ s tt tt tt tt
        (λ t programmed _. succeed-Verdict sys laws s.world reboot_after _ _ t programmed)
        (λ t undone. alone_failed sys laws s.world _ [] root t tt undone)
  flash_plan-Verdict reboot_after (system root (some overlay)) s ((ro, _), _) =
      program_then-Verdict sys laws s.world _ _ [] (root ∷ []) overlay _ _ s tt (turned ro, tt) tt
        (untouched s.world (root ∷ []))
        (λ t programmed _.
          program_then-Verdict sys laws s.world _ _ (overlay ∷ []) [] root (succeed reboot_after) _
            t (ro, tt) tt programmed tt
            (λ v programmed' _. succeed-Verdict sys laws s.world reboot_after _ _ v programmed')
            (λ v undone.
              root_failed sys laws s.world _ [] root overlay v tt (turned ro, tt) undone))
        (λ t undone. overlay_failed sys laws s.world _ (root ∷ []) overlay t (turned ro, tt) undone)
  flash_plan-Verdict reboot_after (full loader kernel root overlay) s
        ((lk, (lr, (lo, _))), ((kr, (ko, _)), ((ro, _), _))) =
      program_then-Verdict sys laws s.world _ _ [] (root ∷ kernel ∷ loader ∷ []) overlay _ _ s tt
        (turned ro, (turned ko, (turned lo, tt))) tt
        (untouched s.world (root ∷ kernel ∷ loader ∷ []))
        (λ t programmed pending.
          program_then-Verdict sys laws s.world _ _ (overlay ∷ []) (kernel ∷ loader ∷ []) root
            (flash_kernel sys reboot_after loader kernel root overlay) _ t (ro, tt)
            (turned kr, (turned lr, tt)) programmed pending.1
            (λ v programmed' pending'.
              flash_kernel-Verdict s.world reboot_after loader kernel root overlay v
                ((lk, (lr, (lo, tt))), ((kr, (ko, tt)), ((ro, tt), (tt, tt)))) programmed'
                pending'.1)
            (λ v undone.
              root_failed sys laws s.world _ (kernel ∷ loader ∷ []) root overlay v
                (turned kr, (turned lr, tt)) (turned ro, (turned ko, (turned lo, tt))) undone))
        (λ t undone.
          overlay_failed sys laws s.world _ (root ∷ kernel ∷ loader ∷ []) overlay t
            (turned ro, (turned ko, (turned lo, tt))) undone)

  -- How `flash` ends with another result than by `fatal`: with the work of the plan.
  record Worked (reboot_after : Bool) (p : Plan) (s : Flash World) (r : Flash World × Ending)
      : Type 0 where
    verdict : Verdict sys laws s.world (jobs p) (rollback_order p) r

  refused :
      (reboot_after : Bool) (p : Plan) (s t : Flash World) → Worked reboot_after p s (refuse t)
  refused reboot_after p s t = record {
    verdict = record { programmed = λ e. cc; undone = λ e. cc };
  }

  flash-Worked :
      (reboot_after : Bool) (mounts : Option (List Bytes)) (p : Plan) (s : Flash World)
      → Worked reboot_after p s (flash sys reboot_after mounts p s)
  unfolding flash
  flash-Worked reboot_after mounts p s =
      let P = Worked reboot_after p s in
      if_both P (identical_devices (jobs p) || not (preflight_all sys s.world (jobs p))) _ _
        (λ _. refused reboot_after p s _)
        (λ passed. option_both P mounts _ _ (refused reboot_after p s _) (λ targets _.
          if_both P (still_mounted targets) _ (flash_plan sys reboot_after p _)
            (λ _. refused reboot_after p s _)
            (λ _. record {
              verdict =
                  flash_plan-Verdict reboot_after p _
                    (identical_devices-Pairwise (jobs p) (neither _ _ passed).0);
            })))

-- When the helper reports success, the partition of every job of the plan holds the job's image and
-- 0xff behind it, whatever the erasures and writes did on the way. The kernel is assumed to read
-- what the partitions and the image files hold, and to leave other partitions alone.
pub flash-Programmed :
    {World : Type 0} (sys : System World) (reboot_after : Bool) (mounts : Option (List Bytes))
    (p : Plan) (s t : Flash World)
    → Laws sys
    → flash sys reboot_after mounts p s ≡ (t, complete)
    → All (λ (job : Job). Programmed sys job t.world) (jobs p)
flash-Programmed {World = World} sys reboot_after mounts p s t laws e =
    let verdict = (flash-Worked sys laws reboot_after mounts p s).verdict in
    subst (λ (r : Flash World × Ending). All (λ (job : Job). Programmed sys job r.0.world) (jobs p))
      e (verdict.programmed (ap (λ (r : Flash World × Ending). r.1) e))

-- When the helper reports that the changed partitions were restored, every partition of the plan
-- holds its backup, or what it held before. The same is assumed of the kernel.
pub flash-Undone :
    {World : Type 0} (sys : System World) (reboot_after : Bool) (mounts : Option (List Bytes))
    (p : Plan) (s t : Flash World)
    → Laws sys
    → flash sys reboot_after mounts p s ≡ (t, restored)
    → All (Undone sys s.world t.world) (jobs p)
flash-Undone {World = World} sys reboot_after mounts p s t laws e =
    let verdict = (flash-Worked sys laws reboot_after mounts p s).verdict in
    subst (λ (r : Flash World × Ending). All (Undone sys s.world r.0.world) (jobs p)) e
      (in_plan_order sys s.world _ p (verdict.undone (ap (λ (r : Flash World × Ending). r.1) e)))
