-- ===== src/Preview/Create/Gone.antt =====
-- What a removal leaves in the store of environments.
use mathlib.Core.Path.{subst}
use samohost.Prelude.{passed, ◌≡◌, sym, none, some, List, String, find-remove_by_self}
use samohost.Records.Vm.{VmRecord}
use samohost.Records.App.{AppRecord}
use samohost.Records.Env.{EnvRecord}
use samohost.State.Apps
use samohost.State.Envs
use samohost.Deploy.Run.{SpawnResult, find_vm}
use samohost.Preview.Phases.{EnvOutcome}
use samohost.Preview.Target.{target_from_record}
use samohost.Preview.Create.{EnvExecDeps, as_app_user, outcome_of}
use samohost.Preview.Create.Removal.{EnvDestroyInput, run_env_destroy}
use samohost.Preview.Create.Stages.{run_env_destroy-Removed}

module _ (deps : EnvExecDeps) (input : EnvDestroyInput) (vms : List VmRecord)
    (apps : List AppRecord) (envs : List EnvRecord) where
  -- A removal with the record, the script and the reply of the machine, and the store after it.
  abbrev pub IsGone : List EnvRecord → Type 0
  IsGone next =
      (vm : VmRecord) × (app : AppRecord) × (e : EnvRecord) × (script : String)
      × (raw : SpawnResult) × (find_vm vms input.vm ≡ some vm)
      × (Apps.get vm.id input.app apps ≡ some app)
      × (Envs.get vm.id app.name input.branch envs ≡ some e)
      × (deps.build_env_destroy_script app (target_from_record e) ≡ some script)
      × (deps.remote (as_app_user app vm) script ≡ some raw)
      × (outcome_of raw ≡ EnvOutcome.ok)
      × (Envs.get vm.id app.name input.branch next ≡ none)

  -- A removal that ended well had a record to remove and an `ok` of its script on the machine, and
  -- afterwards no record is found under its machine, app and branch.
  pub run_env_destroy-IsGone :
      {next : List EnvRecord}
      → (run_env_destroy deps input vms apps envs).1 ≡ passed next
      → IsGone next
  run_env_destroy-IsGone {next} h =
      let r = run_env_destroy-Removed deps input vms apps envs h in
      (
        r.vm,
        r.app,
        r.env,
        r.script,
        r.raw,
        r.vm_found,
        r.app_found,
        r.env_found,
        r.built,
        r.replied,
        r.is_ok,
        subst (λ es. Envs.get r.vm.id r.app.name input.branch es ≡ none) (sym r.left)
            (unfold Envs.get in
              find-remove_by_self (Envs.has_identity r.vm.id r.app.name input.branch) envs),
      )
