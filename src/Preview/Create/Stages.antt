-- ===== src/Preview/Create/Stages.antt =====
-- What a creation that recorded an environment, and a removal that ended well, has gone through.
use samohost.Prelude.{
  Result, passed, refused, ◌>>=◌, need, passed-inj, ◌≡◌, refl, sym, Option, none, some, List,
  String, arith,
}
use samohost.Records.Vm.{VmRecord}
use samohost.Records.App.{AppRecord}
use samohost.Records.Env.{EnvRecord}
use samohost.State.Apps
use samohost.State.Envs
use samohost.Deploy.Run.{SpawnResult, find_vm}
use samohost.Preview.Phases.{EnvOutcome}
use samohost.Preview.Target.{target_from_record}
use samohost.Preview.Create.{
  Refusal, EnvCreateInput, EnvExecDeps, EnvCreateReport, CreatePlan, connection_failed, resolve,
  plan, target_for, check_database_url, finish, sent, created, run_env_create, as_app_user,
  outcome_of,
}
use samohost.Preview.Create.Removal.{
  EnvDestroyInput, run_env_destroy, recorded, destroyed, sent_destroy, after_remote, removed_after,
}

pub resolve-passed :
    (vms : List VmRecord) (apps : List AppRecord) (v a : String) {vm : VmRecord} {app : AppRecord}
    → resolve vms apps v a ≡ passed (vm, app)
    → (find_vm vms v ≡ some vm) × (Apps.get vm.id a apps ≡ some app)
unfolding resolve
resolve-passed vms apps v a h = (ground arith, ground arith)

module _ (deps : EnvExecDeps) (input : EnvCreateInput) (vms : List VmRecord) (apps : List AppRecord)
    (envs : List EnvRecord) where
  pub record Planned (p : CreatePlan) : Type 0 where
    pub vm_found : find_vm vms input.vm ≡ some p.vm
    pub app_found : Apps.get p.vm.id input.app apps ≡ some p.app
    pub database_url : check_database_url deps input p.app ≡ passed tt
    pub existing : p.existing ≡ Envs.get p.vm.id p.app.name input.branch envs
    pub target : target_for deps input p.vm p.app envs p.existing ≡ passed p.target

  pub plan-Planned : (p : CreatePlan) → plan deps input vms apps envs ≡ passed p → Planned p
  unfolding plan resolve
  plan-Planned p h = record {
    vm_found = ground arith;
    app_found = ground arith;
    database_url = ground arith;
    existing = ground arith;
    target = ground arith;
  }

  pub record Ran (report : EnvCreateReport) (next : List EnvRecord) : Type 0 where
    pub planned : CreatePlan
    pub script : String
    pub raw : SpawnResult
    pub planned_by : Planned planned
    pub built : deps.build_env_create_script planned.app planned.target ≡ some script
    pub replied : deps.remote (as_app_user planned.app planned.vm) script ≡ some raw
    pub finished : finish deps input planned envs raw ≡ (report, next)

  sent-Ran :
      {report : EnvCreateReport} {next : List EnvRecord} (p : CreatePlan) (s : Option String)
      → plan deps input vms apps envs ≡ passed p
      → deps.build_env_create_script p.app p.target ≡ s
      → (sent deps input p envs s).1 ≡ passed (report, next)
      → Ran report next
  sent-Ran p none planned built h = cc
  sent-Ran {report} {next} p (some script) planned built h =
      replied (deps.remote (as_app_user p.app p.vm) script) refl h
    where
      replied :
          (o : Option SpawnResult)
          → deps.remote (as_app_user p.app p.vm) script ≡ o
          → (need o connection_failed >>= λ raw. passed (finish deps input p envs raw))
            ≡ passed (report, next)
          → Ran report next
      replied none e h = cc
      replied (some raw) e h = record {
        planned = p;
        script = script;
        raw = raw;
        planned_by = plan-Planned p planned;
        built = built;
        replied = e;
        finished = passed-inj h;
      }

  pub run_env_create-Ran :
      {report : EnvCreateReport} {next : List EnvRecord}
      → (run_env_create deps input vms apps envs).1 ≡ passed (report, next)
      → Ran report next
  unfolding run_env_create
  run_env_create-Ran {report} {next} h = split (plan deps input vms apps envs) refl h
    where
      split :
          (r : Result Refusal CreatePlan)
          → plan deps input vms apps envs ≡ r
          → (created deps input envs r).1 ≡ passed (report, next)
          → Ran report next
      split (refused r) e h = cc
      split (passed p) e h = sent-Ran p (deps.build_env_create_script p.app p.target) e refl h

module _ (deps : EnvExecDeps) (input : EnvDestroyInput) (vms : List VmRecord)
    (apps : List AppRecord) (envs : List EnvRecord) where
  pub record Removed (next : List EnvRecord) : Type 0 where
    pub vm : VmRecord
    pub app : AppRecord
    pub env : EnvRecord
    pub raw : SpawnResult
    pub script : String
    pub vm_found : find_vm vms input.vm ≡ some vm
    pub app_found : Apps.get vm.id input.app apps ≡ some app
    pub env_found : Envs.get vm.id app.name input.branch envs ≡ some env
    pub built : deps.build_env_destroy_script app (target_from_record env) ≡ some script
    pub replied : deps.remote (as_app_user app vm) script ≡ some raw
    pub is_ok : outcome_of raw ≡ EnvOutcome.ok
    pub left : next ≡ (Envs.removed vm.id app.name input.branch envs).1

  destroyed-Removed :
      {next : List EnvRecord} (vm : VmRecord) (app : AppRecord) (env : EnvRecord)
      → recorded deps input vms apps envs ≡ passed (vm, app, env)
      → (destroyed deps input envs (passed (vm, app, env))).1 ≡ passed next
      → Removed next
  destroyed-Removed {next} vm app env r h =
      with_script (deps.build_env_destroy_script app (target_from_record env)) refl h
    where
      with_outcome :
          (script : String) (raw : SpawnResult) (o : EnvOutcome)
          → deps.build_env_destroy_script app (target_from_record env) ≡ some script
          → deps.remote (as_app_user app vm) script ≡ some raw
          → outcome_of raw ≡ o
          → (removed_after deps input vm app env envs o).1 ≡ passed next
          → Removed next
      with_outcome script raw EnvOutcome.ok built replied is_ok h = record {
        vm = vm;
        app = app;
        env = env;
        raw = raw;
        script = script;
        vm_found = unfold recorded resolve in ground arith;
        app_found = unfold recorded resolve in ground arith;
        env_found = unfold recorded resolve in ground arith;
        built = built;
        replied = replied;
        is_ok = is_ok;
        left = sym (passed-inj h);
      }
      with_outcome script raw _ built replied is_ok h = cc

      with_reply :
          (script : String) (o : Option SpawnResult)
          → deps.build_env_destroy_script app (target_from_record env) ≡ some script
          → deps.remote (as_app_user app vm) script ≡ o
          → (after_remote deps input vm app env envs o).1 ≡ passed next
          → Removed next
      with_reply script none built e h = cc
      with_reply script (some raw) built e h =
          with_outcome script raw (outcome_of raw) built e refl h

      with_script :
          (s : Option String)
          → deps.build_env_destroy_script app (target_from_record env) ≡ s
          → (sent_destroy deps input vm app env envs s).1 ≡ passed next
          → Removed next
      with_script none e h = cc
      with_script (some script) e h =
          with_reply script (deps.remote (as_app_user app vm) script) e refl h

  pub run_env_destroy-Removed :
      {next : List EnvRecord}
      → (run_env_destroy deps input vms apps envs).1 ≡ passed next
      → Removed next
  unfolding run_env_destroy
  run_env_destroy-Removed {next} h = split (recorded deps input vms apps envs) refl h
    where
      split :
          (r : Result Refusal (VmRecord × AppRecord × EnvRecord))
          → recorded deps input vms apps envs ≡ r
          → (destroyed deps input envs r).1 ≡ passed next
          → Removed next
      split (refused r) e h = cc
      split (passed (vm, app, env)) e h = destroyed-Removed vm app env e h
