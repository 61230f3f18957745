-- ===== src/Trigger/Cycle.antt =====
-- src/commands/trigger.ts, `runTriggerRun`: the deploy loop over the apps, and the report.
pub mod Safety
pub mod Report
pub mod DryRun
use samohost.Prelude.{
  ℕ, ◌+◌, String, Bool, true, false, not, ◌==◌, ◌&&◌, ◌||◌, Option, none, some, List, [], ◌∷◌, ◌++◌,
  find, filter, eqb, leb, length, if◌then◌else◌,
}
use samohost.Records.App.{AppRecord}
use samohost.Records.Vm.{
  VmRecord, LifecycleState, planned, creating, booting, ready, adopted, degraded, destroying,
  destroyed,
}
use samohost.LinuxUser.{UserError}
use samohost.State.Apps
use samohost.Deploy.Run.{AppDeployInput}
use samohost.Trigger.Decide.{
  TriggerDeps, Target, Reply, threw, replied, Decision, errors, skips, is_up_to_date, is_known_bad,
  may_deploy, Reason, vm_not_live, Stage, on, decided, decide, with_cursor,
}

pub record TriggerRunInput : Type 0 where
  pub vm : Option String
  pub app : Option String
  pub dry_run : Bool

pub data TriggerAction : Type 0 where
  deployed up_to_date known_bad skipped would_deploy failed error : TriggerAction

-- A thrown error: a dependency's message, or the refusal of an unsafe service account.
pub data TriggerError : Type 0 where
  message : String → TriggerError
  unsafe_user : UserError → TriggerError

pub record TriggerAppResult : Type 0 where
  pub app : String
  pub vm : String
  pub action : TriggerAction
  pub sha : Option String
  pub reason : Option Reason
  pub error_text : Option TriggerError

-- The loop while it runs, with the requests to the deploy.
pub record Cycle : Type 0 where
  pub apps : List AppRecord
  pub results : List TriggerAppResult
  pub deploys : List AppDeployInput

pub record TriggerRunReport : Type 0 where
  pub results : List TriggerAppResult
  pub deployed_count : ℕ
  pub skipped_count : ℕ
  pub failed_count : ℕ

unfoldable pub is_live : LifecycleState → Bool
is_live ready = true
is_live adopted = true
is_live planned = false
is_live creating = false
is_live booting = false
is_live degraded = false
is_live LifecycleState.failed = false
is_live destroying = false
is_live destroyed = false

-- `runAppDeploy`, on the records of the app store.
abbrev pub TriggerDeploy : Type 0
TriggerDeploy = AppDeployInput → List AppRecord → Reply ℕ × List AppRecord

module _ (input : TriggerRunInput) (deps : TriggerDeps) (deploy : TriggerDeploy) where
  abbrev result :
      AppRecord
      → VmRecord
      → TriggerAction
      → Option String
      → Option Reason
      → Option TriggerError
      → TriggerAppResult
  result app vm action sha reason error_text = record {
    app = app.name;
    vm = vm.name;
    action = action;
    sha = sha;
    reason = reason;
    error_text = error_text;
  }

  abbrev pub push : TriggerAppResult → Cycle → Cycle
  push r s = record s { results = s.results ++ r ∷ [] }

  -- The store is as before where `upsert` throws.
  abbrev pub saved :
      AppRecord
      → VmRecord
      → TriggerAppResult
      → Apps.Upserted × Option (List AppRecord)
      → Cycle
      → Cycle
  saved app vm r (Apps.stored a, none) s = push r s
  saved app vm r (Apps.stored a, some next) s = push r (record s { apps = next })
  saved app vm r (Apps.rejected e, _) s =
      push (result app vm error none none (some (unsafe_user e))) s

  abbrev pub save_then : AppRecord → VmRecord → Option AppRecord → TriggerAppResult → Cycle → Cycle
  save_then app vm none r s = push r s
  save_then app vm (some changed) r s = saved app vm r (Apps.upsert changed s.apps) s

  abbrev pub refuse : AppRecord → VmRecord → Decision → Cycle → Cycle
  refuse app vm (errors text) s = push (result app vm error none none (some (message text))) s
  refuse app vm (skips reason sha save) s =
      save_then app vm save (result app vm skipped sha (some reason) none) s
  refuse app vm (is_up_to_date sha save) s =
      save_then app vm save (result app vm up_to_date (some sha) none none) s
  refuse app vm (is_known_bad sha) s = push (result app vm known_bad (some sha) none none) s
  refuse app vm (may_deploy sha) s = push (result app vm would_deploy (some sha) none none) s

  abbrev pub deploy_input : AppRecord → VmRecord → Target → AppDeployInput
  deploy_input app vm t = record {
    vm = vm.name;
    app = app.name;
    sha = some t.sha;
    ref = none;
    skip_ci_gate = false;
    release_tag = t.tag;
    force = false;
  }

  abbrev or_given : AppRecord → Option AppRecord → AppRecord
  or_given app none = app
  or_given app (some stored) = stored

  -- A deploy that worked moves the cursor of a release channel to its tag.
  abbrev cursor_save : AppRecord → Target → List AppRecord → Option AppRecord
  cursor_save app t apps = elim t.tag [
    | none ↦ none
    | some tag ↦ some (with_cursor (or_given app (Apps.get app.vm_id app.name apps)) tag)
  ]

  abbrev pub after_deploy : AppRecord → VmRecord → Target → Reply ℕ → Cycle → Cycle
  after_deploy app vm t (threw text) s =
      push (result app vm error none none (some (message text))) s
  after_deploy app vm t (replied code) s =
      if eqb code 0
      then save_then app vm (cursor_save app t s.apps)
          (result app vm deployed (some t.sha) none none) s
      else push (result app vm failed (some t.sha) none none) s

  abbrev pub run_deploy : AppRecord → VmRecord → Target → Cycle → Cycle
  run_deploy app vm t s =
      let request = deploy_input app vm t in
      let (reply, apps) = deploy request s.apps in
      after_deploy app vm t reply (record s { apps = apps; deploys = s.deploys ++ request ∷ [] })

  abbrev pub act : AppRecord → VmRecord → Stage Target → Cycle → Cycle
  act app vm (decided d) s = refuse app vm d s
  act app vm (on t) s = run_deploy app vm t s

  -- One round of the loop.
  unfoldable pub round : AppRecord × VmRecord → Cycle → Cycle
  round (app, vm) s =
      if is_live vm.lifecycle_state
      then act app vm (decide input.dry_run deps app) s
      else push (result app vm skipped none (some (vm_not_live vm.lifecycle_state)) none) s

  unfoldable pub rounds : List (AppRecord × VmRecord) → Cycle → Cycle
  rounds [] s = s
  rounds (c ∷ cs) s = rounds cs (round c s)

  abbrev is_named : Option String → String → Bool
  is_named none name = true
  is_named (some wanted) name = wanted == name

  abbrev is_target_vm : VmRecord → Bool
  is_target_vm vm = is_named input.vm vm.name || is_named input.vm vm.id

  abbrev with_vm : AppRecord → Option VmRecord → List (AppRecord × VmRecord)
  with_vm app none = []
  with_vm app (some vm) = if is_target_vm vm then (app, vm) ∷ [] else []

  abbrev candidate : List VmRecord → AppRecord → List (AppRecord × VmRecord)
  candidate vms app =
      if is_named input.app app.name then with_vm app (find (λ v. v.id == app.vm_id) vms) else []

  -- The apps in the scope of the run, each with its machine.
  unfoldable pub candidates : List VmRecord → List AppRecord → List (AppRecord × VmRecord)
  candidates vms [] = []
  candidates vms (app ∷ apps) = candidate vms app ++ candidates vms apps

  abbrev pub started : List AppRecord → Cycle
  started apps = record { apps = apps; results = []; deploys = [] }

  unfoldable pub deploy_loop : List VmRecord → List AppRecord → Cycle
  deploy_loop vms apps = rounds (candidates vms apps) (started apps)

abbrev pub counts_deployed : TriggerAppResult → Bool
counts_deployed r = elim r.action [ deployed ↦ true | _ ↦ false ]

abbrev pub counts_skipped : TriggerAppResult → Bool
counts_skipped r = elim r.action [
  | up_to_date ↦ true
  | known_bad ↦ true
  | skipped ↦ true
  | would_deploy ↦ true
  | _ ↦ false
]

abbrev pub counts_failed : TriggerAppResult → Bool
counts_failed r = elim r.action [ failed ↦ true | error ↦ true | _ ↦ false ]

unfoldable pub report : List TriggerAppResult → TriggerRunReport
report results = record {
  results = results;
  deployed_count = length (filter counts_deployed results);
  skipped_count = length (filter counts_skipped results);
  failed_count = length (filter counts_failed results);
}

unfoldable pub exit_code : TriggerRunReport → ℕ
exit_code r = if leb r.failed_count 0 then 0 else 1
