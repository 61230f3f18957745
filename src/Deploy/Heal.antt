-- ===== src/Deploy/Heal.antt =====
-- src/commands/app.ts: `runAppHeal`, which reconciles the web server's files of apps, and
-- `runAppClearFailed`. The generator of the script and the remote shell are dependencies.
pub mod Seen
pub mod Keeps
use samohost.Prelude.{
  ℕ, String, Bool, true, false, not, ◌==◌, ◌||◌, Option, none, some, List, [], ◌∷◌, ◌++◌, all,
  filter, units, includes, if◌then◌else◌,
}
use Prim.Native.String.{◌++◌ as ◌+++◌}
use samohost.Records.App.{AppRecord}
use samohost.Records.Vm.{VmRecord}
use samohost.LinuxUser.{UserError}
use samohost.State.Apps
use samohost.Deploy.Run.{SpawnResult, find_vm}

pub record AppHealInput : Type 0 where
  pub vm : String
  pub app : Option String
  pub all : Bool
  pub apply : Bool

pub data HealOutcome : Type 0 where
  healed no_drift drift_foreign rolled_back rollback_failed incomplete : HealOutcome

pub record AppHealDeps : Type 0 where
  -- `buildConfigHealScript`, where `none` is a throw.
  pub build_script : AppRecord → Option String
  pub remote : VmRecord → String → Option SpawnResult
  pub now : String
  pub resolve_generator_sha : Option (Option String)

-- The run over the apps: the store, the outcomes in order, and whether an app failed.
pub record HealRun : Type 0 where
  pub apps : List AppRecord
  pub reports : List (String × HealOutcome)
  pub any_failure : Bool

-- The refusal of an unsafe service account by the store is not caught.
pub data Looped : Type 0 where
  on : HealRun → Looped
  threw_unsafe : UserError → HealRun → Looped

pub data Healed : Type 0 where
  no_vm no_app no_selection no_main_host : Healed
  would_heal : List AppRecord → Healed
  ran : ℕ → HealRun → Healed
  threw : UserError → HealRun → Healed

unfoldable pub parse_heal_outcome : String → HealOutcome
parse_heal_outcome combined =
    let has = λ (part : String). includes (units part) (units combined) in
    if has "<<<SAMOHOST_PHASE:no-drift:ok>>>"
    then no_drift
    else if has "<<<SAMOHOST_PHASE:rollback:fail>>>"
    then rollback_failed
    else if has "<<<SAMOHOST_PHASE:rollback:ok>>>"
    then rolled_back
    else if has "<<<SAMOHOST_PHASE:heal:ok>>>"
    then (if has "drift-foreign:" then drift_foreign else healed)
    else incomplete

abbrev pub has_converged : HealOutcome → Bool
has_converged healed = true
has_converged no_drift = true
has_converged _ = false

abbrev pub is_good : HealOutcome → Bool
is_good healed = true
is_good no_drift = true
is_good drift_foreign = true
is_good _ = false

module _ (input : AppHealInput) (deps : AppHealDeps) where
  abbrev ssh_as : Option String → VmRecord → VmRecord
  ssh_as none vm = vm
  ssh_as (some user) vm = record vm { ssh_user = user }

  -- A failed best-effort stamp keeps the old one.
  abbrev stamp_of : Option (Option String) → Option String → Option String
  stamp_of none old = old
  stamp_of (some none) old = old
  stamp_of (some (some sha)) old = some sha

  abbrev pub stamped_app : AppRecord → AppRecord
  stamped_app app = record app {
    last_heal_at = some deps.now;
    generator_sha = stamp_of deps.resolve_generator_sha app.generator_sha;
  }

  -- The record after an outcome: only a convergence is stamped.
  abbrev pub bookkeeping : AppRecord → HealOutcome → AppRecord
  bookkeeping app outcome = if has_converged outcome then stamped_app app else app

  abbrev pub fails : HealRun → HealRun
  fails s = record s { any_failure = true }

  abbrev pub reported : AppRecord → HealOutcome → List AppRecord → HealRun → HealRun
  reported app outcome apps s = record {
    apps = apps;
    reports = s.reports ++ (app.name, outcome) ∷ [];
    any_failure = s.any_failure || not (is_good outcome);
  }

  abbrev pub written :
      AppRecord → HealOutcome → Apps.Upserted × Option (List AppRecord) → HealRun → Looped
  written app outcome (Apps.stored a, none) s = on (reported app outcome s.apps s)
  written app outcome (Apps.stored a, some next) s = on (reported app outcome next s)
  written app outcome (Apps.rejected e, w) s = threw_unsafe e s

  abbrev pub outcome_of : SpawnResult → HealOutcome
  outcome_of raw = parse_heal_outcome (raw.stdout +++ ("\n" +++ raw.stderr))

  abbrev pub on_output : AppRecord → Option SpawnResult → HealRun → Looped
  on_output app none s = on (fails s)
  on_output app (some raw) s =
      let outcome = outcome_of raw in
      written app outcome (Apps.upsert (bookkeeping app outcome) s.apps) s

  abbrev pub on_script : VmRecord → AppRecord → Option String → HealRun → Looped
  on_script vm app none s = on (fails s)
  on_script vm app (some script) s = on_output app (deps.remote (ssh_as app.app_user vm) script) s

  unfoldable pub heal_each : VmRecord → List AppRecord → HealRun → Looped
  heal_each vm [] s = on s
  heal_each vm (app ∷ rest) s = elim (on_script vm app (deps.build_script app) s) [
    | on next ↦ heal_each vm rest next
    | threw_unsafe e next ↦ threw_unsafe e next
  ]

  abbrev pub finished : Looped → Healed
  finished (on s) = ran (if s.any_failure then 1 else 0) s
  finished (threw_unsafe e s) = threw e s

  abbrev pub begun : List AppRecord → HealRun
  begun apps = record { apps = apps; reports = []; any_failure = false }

  abbrev pub has_main_host : AppRecord → Bool
  has_main_host app = elim app.main_host [ none ↦ false | some host ↦ true ]

  abbrev pub run_on : VmRecord → List AppRecord → List AppRecord → Healed
  run_on vm selected apps =
      if all has_main_host selected
      then (if input.apply
          then finished (heal_each vm selected (begun apps))
          else would_heal selected)
      else no_main_host

  abbrev pub run_all : VmRecord → List AppRecord → List AppRecord → Healed
  run_all vm [] apps = no_app
  run_all vm (app ∷ selected) apps = run_on vm (app ∷ selected) apps

  abbrev pub run_one : VmRecord → Option AppRecord → List AppRecord → Healed
  run_one vm none apps = no_app
  run_one vm (some app) apps = run_on vm (app ∷ []) apps

  abbrev pub named : VmRecord → Option String → List AppRecord → Healed
  named vm none apps = no_selection
  named vm (some name) apps = run_one vm (Apps.get vm.id name apps) apps

  abbrev pub on_vm : Option VmRecord → List AppRecord → Healed
  on_vm none apps = no_vm
  on_vm (some vm) apps =
      if input.all
      then run_all vm (filter (λ a. a.vm_id == vm.id) apps) apps
      else named vm input.app apps

  unfoldable pub run_app_heal : List VmRecord → List AppRecord → Healed
  run_app_heal vms apps = on_vm (find_vm vms input.vm) apps
