-- ===== src/Runtime/RuntimeManager/Setup.antt =====
-- What Runtime_Manager.cpp has set up after `Start`, and what is left of it after `Stop`.
use devilz_den.Prelude.{
  ℕ, ◌≡◌, ◌≢◌, ◌⊎◌, inl, inr, refl, sym, ap, ◌∙◌, List, [], ◌∷◌, true, false, ◌||◌, ◌==◌, Option,
  none, some, arith, Bool-cases, subst, not, if◌then◌else◌,
}
use devilz_den.Backend.Error.{success}
use devilz_den.Natives.Bootstrap.{Bootstrap, new_bootstrap, reset}
use devilz_den.Targets.Status.{TargetId, run_script_threads, script_threads, same_id, is_validated}
use devilz_den.Targets.Resolver.{Resolution}
use devilz_den.Targets.Coordinator.{Report}
use devilz_den.Runtime.ModuleManager.{ModuleStatus, refresh}
use devilz_den.Runtime.Bridge.{Bridge, Machine, CodeSystem, install, uninstall}
use devilz_den.Runtime.Bridge.Code.{LeavesCode, install-refused, uninstall-install}
use devilz_den.Runtime.RuntimeManager.{
  RuntimeManager, Host, HookTargets, take_target, collect_targets, install_at,
  initialize_game_thread_bridge, initialize_native_manager, set_up, start, stop,
}

-- Some resolution of a list has the property.
abbrev pub Some : (Resolution → Type 0) → List Resolution → Type 0
Some P [] = ⊥
Some P (t ∷ ts) = P t ⊎ Some P ts

-- A validated target of the id.
abbrev pub IsTarget : TargetId → Resolution → Type 0
IsTarget id t = (same_id t.status.id id ≡ true) × (is_validated t.status.state ≡ true)

abbrev pub IsFunction : ℕ → Resolution → Type 0
IsFunction a t = IsTarget run_script_threads t × (t.address ≡ a)

abbrev pub IsStorage : ℕ → ℕ → Resolution → Type 0
IsStorage a d t = IsTarget script_threads t × (t.address ≡ a) × (t.evidence.dominant_address ≡ d)

take_target-function :
    (a : HookTargets) (t : Resolution)
    → ((take_target a t).function ≡ a.function) ⊎ IsFunction (take_target a t).function t
unfolding take_target
take_target-function a t = ground arith

take_target-storage :
    (a : HookTargets) (t : Resolution)
    → (((take_target a t).storage ≡ a.storage) × ((take_target a t).dispatch ≡ a.dispatch))
      ⊎ IsStorage (take_target a t).storage (take_target a t).dispatch t
unfolding take_target
take_target-storage a t = ground arith

collect_targets-function :
    (a : HookTargets) (ts : List Resolution)
    → ((collect_targets a ts).function ≡ a.function)
      ⊎ Some (IsFunction (collect_targets a ts).function) ts
unfolding collect_targets
collect_targets-function a [] = inl refl
collect_targets-function a (t ∷ ts) = elim (collect_targets-function (take_target a t) ts) [
  | inr k ↦ inr (inr k)
  | inl e ↦ elim (take_target-function a t) [
    | inl f ↦ inl (e ∙ f)
    | inr (i, f) ↦ inr (inl (i, f ∙ sym e))
  ]
]

collect_targets-storage :
    (a : HookTargets) (ts : List Resolution)
    → (((collect_targets a ts).storage ≡ a.storage)
        × ((collect_targets a ts).dispatch ≡ a.dispatch))
      ⊎ Some (IsStorage (collect_targets a ts).storage (collect_targets a ts).dispatch) ts
unfolding collect_targets
collect_targets-storage a [] = inl (refl, refl)
collect_targets-storage a (t ∷ ts) = elim (collect_targets-storage (take_target a t) ts) [
  | inr k ↦ inr (inr k)
  | inl (e, g) ↦ elim (take_target-storage a t) [
    | inl (f, h) ↦ inl (e ∙ f, g ∙ h)
    | inr (i, f, h) ↦ inr (inl (i, f ∙ sym e, h ∙ sym g))
  ]
]

abbrev no_targets : HookTargets
no_targets = record { function = 0; storage = 0; dispatch = 0 }

-- What stands behind an installed bridge: a native manager that is ready, and validated targets of
-- the report at the addresses that the bridge was given.
pub record IsHooked (natives : Bootstrap) (reports : Option Report) (a : HookTargets) : Type 0 where
  pub ready : natives.ready ≡ true
  pub report : Report
  pub reported : reports ≡ some report
  pub function_present : a.function ≢ 0
  pub storage_present : a.storage ≢ 0
  pub dispatch_present : a.dispatch ≢ 0
  pub function : Some (IsFunction a.function) report.targets
  pub storage : Some (IsStorage a.storage a.dispatch) report.targets

install_at-cases :
    (h : Host) (natives : Bootstrap) (b : Bridge) (w : Machine) (a : HookTargets)
    → (install_at h natives b w a ≡ (b, w))
      ⊎ ((a.function ≢ 0)
          × (a.storage ≢ 0)
          × (a.dispatch ≢ 0)
          × (install_at h natives b w a
              ≡ (install h.code h.self natives.ready b w a.function a.storage a.dispatch).0))
unfolding install_at
install_at-cases h natives b w a =
    elim (Bool-cases (a.function == 0 || a.storage == 0 || a.dispatch == 0)) [
      | inl e ↦ inl (rw e refl)
      | inr e ↦ inr (ground (arith, e), ground (arith, e), ground (arith, e), rw e refl)
    ]

-- With a native manager that is ready, the loop over the targets decides.
bridge-ready :
    (h : Host) (natives : Bootstrap) (b : Bridge) (w : Machine) (report : Report)
    → natives.ready ≡ true
    → initialize_game_thread_bridge h natives b w (some report)
      ≡ install_at h natives b w (collect_targets no_targets report.targets)
unfolding initialize_game_thread_bridge
bridge-ready h natives b w report n =
    ap
      (λ c.
        if not c
        then (b, w)
        else install_at h natives b w (collect_targets no_targets report.targets))
      n

-- The bridge is left as it is, or its installation is tried with validated targets.
bridge-cases :
    (h : Host) (natives : Bootstrap) (b : Bridge) (w : Machine) (report : Option Report)
    → (initialize_game_thread_bridge h natives b w report ≡ (b, w))
      ⊎ ((a : HookTargets) × IsHooked natives report a
          × (initialize_game_thread_bridge h natives b w report
              ≡ (install h.code h.self natives.ready b w a.function a.storage a.dispatch).0))
unfolding initialize_game_thread_bridge
bridge-cases h natives b w none = inl refl
bridge-cases h natives b w (some report) =
    let a = collect_targets no_targets report.targets in
    elim (Bool-cases natives.ready) [
      | inr n ↦ inl (rw n refl)
      | inl n ↦ elim (install_at-cases h natives b w a) [
        | inl e ↦ inl (bridge-ready h natives b w report n ∙ e)
        | inr (f, s, d, e) ↦ inr (
          a,
          record {
            ready = n;
            report = report;
            reported = refl;
            function_present = f;
            storage_present = s;
            dispatch_present = d;
            function = elim (collect_targets-function no_targets report.targets) [
              | inl z ↦ absurd (f z)
              | inr k ↦ k
            ];
            storage = elim (collect_targets-storage no_targets report.targets) [
              | inl (z, _) ↦ absurd (s z)
              | inr k ↦ k
            ];
          },
          bridge-ready h natives b w report n ∙ e,
        )
      ]
    ]

-- What follows a refresh in `Start`, whatever its status is, for a manager whose bridge was not
-- installed: if the bridge is installed afterwards, then the native manager is ready, and the bridge is
-- what an installation gave at three addresses that are not 0: those of a validated RunScriptThreads
-- and of a validated ScriptThreads of the status's report, and the dominant word of the evidence of
-- the latter.
pub set_up-IsHooked :
    (h : Host) (r : RuntimeManager) (s : ModuleStatus)
    → r.bridge.installed ≡ false
    → (set_up h r (success s)).bridge.installed ≡ true
    → let x = set_up h r (success s) in
      (a : HookTargets) × IsHooked x.natives s.target_report a
      × (x.bridge
          ≡ (install h.code h.self true r.bridge r.machine a.function a.storage a.dispatch).0.0)
unfolding set_up
set_up-IsHooked h r s n i =
    let natives = initialize_native_manager h r.natives s.process s.build s.target_report in
    elim (bridge-cases h natives r.bridge r.machine s.target_report) [
      | inl e ↦ absurd (apart (sym n ∙ sym (ap (λ x. x.0.installed) e) ∙ i))
      | inr (a, k, e) ↦ (
        a,
        k,
        ap (λ x. x.0) e
            ∙ ap
                (λ c.
                  (install h.code h.self c r.bridge r.machine a.function a.storage a.dispatch).0.0)
                k.ready,
      )
    ]
  where
    apart : false ≡ true → ⊥
    apart e = cc

-- `Uninstall` does nothing to a bridge that is not installed.
uninstall-idle :
    (z : CodeSystem) (self : ℕ) (b : Bridge) (w : Machine)
    → b.installed ≡ false
    → uninstall z self b w ≡ (b, w)
unfolding uninstall
uninstall-idle z self b w n = ground (arith, n)

uninstall-LeavesCode :
    (h : Host) (z : CodeSystem) (w : Machine) (x : Bridge × Machine)
    → LeavesCode h.code w x
    → LeavesCode h.code w (uninstall z h.self x.0 x.1)
uninstall-LeavesCode h z w x k =
    subst (LeavesCode h.code w) (sym (uninstall-idle z h.self x.0 x.1 k.0)) k

-- The bridge that was set up, or was not, is taken away again.
uninstall-bridge :
    (h : Host) (z : CodeSystem) (natives : Bootstrap) (b : Bridge) (w : Machine)
    (report : Option Report)
    → b.installed ≡ false
    → (h.code.unlocks ≡ true → h.code.locks ≡ true)
    → z.unlocks ≡ true
    → let (b', w') = initialize_game_thread_bridge h natives b w report in
      LeavesCode h.code w (uninstall z h.self b' w')
uninstall-bridge h z natives b w report n locks u = elim (bridge-cases h natives b w report) [
  | inl e ↦ rw e (uninstall-LeavesCode h z w (b, w) (n, refl, λ x o. refl))
  | inr (a, k, e) ↦
      rw e
        (elim (Bool-cases
          (install h.code h.self natives.ready b w a.function a.storage a.dispatch).1) [
            | inl i ↦
                uninstall-install h.code z h.self natives.ready b w a.function a.storage a.dispatch
                  n i u
            | inr i ↦ uninstall-LeavesCode h z w _ (
                install-refused h.code h.self natives.ready b w a.function a.storage a.dispatch
                  locks i)
          ])
]

-- `Stop` undoes what follows a refresh in `Start`, whatever its status is. If the bridge was not
-- installed before, then after `Stop` the manager is not running, its native manager is empty, the
-- bridge is not installed, the active bridge is the same, and so is the memory outside the block of
-- the trampoline. The hypotheses are that the system locks the code again whenever it has unlocked it
-- during the start, and unlocks it during the stop.
pub stop-set_up :
    (h : Host) (z : CodeSystem) (r : RuntimeManager) (s : ModuleStatus)
    → r.running ≡ true
    → r.bridge.installed ≡ false
    → (h.code.unlocks ≡ true → h.code.locks ≡ true)
    → z.unlocks ≡ true
    → let x = stop (record h { code = z }) (set_up h r (success s)) in
      (x.running ≡ false)
      × (x.natives ≡ new_bootstrap)
      × LeavesCode h.code r.machine (x.bridge, x.machine)
unfolding stop set_up reset
stop-set_up h z r s running n locks u =
    let natives = initialize_native_manager h r.natives s.process s.build s.target_report in
    rw running
      (refl, refl, uninstall-bridge h z natives r.bridge r.machine s.target_report n locks u)

-- The same of `Start` itself.
stop-start :
    (h : Host) (z : CodeSystem) (r : RuntimeManager)
    → r.running ≡ false
    → r.bridge.installed ≡ false
    → (h.code.unlocks ≡ true → h.code.locks ≡ true)
    → z.unlocks ≡ true
    → let x = stop (record h { code = z }) (start h r) in
      (x.running ≡ false)
      × (x.natives ≡ new_bootstrap)
      × LeavesCode h.code r.machine (x.bridge, x.machine)
unfolding start refresh
stop-start h z r stopped n locks u = rw stopped (
    stop-set_up h z (record r { running = true; gta = (refresh r.gta h.world).0 })
      (refresh r.gta h.world).0.status refl n locks u)
