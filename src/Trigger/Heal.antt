-- ===== src/Trigger/Heal.antt =====
-- src/commands/trigger.ts, `runTriggerRun`: the pass that heals the configuration of apps whose
-- generator is stale. The healing of one app is a dependency, which also changes the app store.
pub mod Candidates
pub mod Safety
use samohost.Prelude.{
  ℕ, suc, ◌+◌, ◌-◌, String, Bool, true, false, not, ◌==◌, ◌&&◌, ◌||◌, Option, none, some, List, [],
  ◌∷◌, ◌++◌, find, any, ltb, leb, eqb, if◌then◌else◌,
}
use samohost.Records.App.{AppRecord}
use samohost.Records.Vm.{VmRecord}
use samohost.State.Apps
use samohost.Trigger.Decide.{Reply, threw, replied, is_at, is_deployed}
use samohost.Trigger.Cycle.{TriggerAppResult, deployed, up_to_date, is_live}

pub data AppHealOutcome : Type 0 where
  healed no_drift drift_foreign rolled_back rollback_failed heal_failed incomplete : AppHealOutcome

pub data AppHealAction : Type 0 where
  healing : AppHealOutcome → AppHealAction
  deferred : AppHealAction

pub record AppHealSummary : Type 0 where
  pub app : String
  pub vm : String
  pub action : AppHealAction

pub record HealInput : Type 0 where
  pub app_heal : Bool
  pub dry_run : Bool
  pub current_generator_sha : Option String
  -- `Number(SAMOHOST_HEAL_VM_CAP ?? 2)`, where `none` is NaN.
  pub heal_vm_cap : Option ℕ
  -- The clock, in milliseconds.
  pub now : ℕ

pub record HealDeps : Type 0 where
  pub app_heal : Option (AppRecord → List AppRecord → Reply AppHealOutcome × List AppRecord)
  -- Whether the filing of alerts is wired; its failure is only logged.
  pub has_alerts : Bool
  -- `Date.parse`, where `none` is NaN.
  pub date_parse : String → Option ℕ

-- The pass while it runs, with the calls of the healing, their replies, and the filed alerts.
pub record Healing : Type 0 where
  pub apps : List AppRecord
  pub summaries : List AppHealSummary
  pub healed_vm_count : ℕ
  pub calls : List (AppRecord × Reply AppHealOutcome)
  pub alerts : List (String × ℕ)

abbrev pub heal_fail_alert_threshold : ℕ
heal_fail_alert_threshold = 3

module _ (input : HealInput) (deps : HealDeps) where
  abbrev pub is_recent : AppRecord → Bool
  is_recent app = elim (deps.date_parse (elim app.last_deploy_at [ none ↦ "0" | some at ↦ at ])) [
    | none ↦ false
    | some ms ↦ ltb input.now (ms + 600000)
  ]

  -- The tests on the record and its machine.
  unfoldable pub wants_heal : String → AppRecord → VmRecord → Bool
  wants_heal generator app vm =
      is_deployed app
      && (is_live vm.lifecycle_state
          && (not (is_at app.generator_sha generator)
              && (not (is_at app.failed_sha generator) && not (is_recent app))))

  abbrev pub is_result_up_to_date : TriggerAppResult → Bool
  is_result_up_to_date r = elim r.action [ up_to_date ↦ true | _ ↦ false ]

  abbrev is_result_deployed : TriggerAppResult → Bool
  is_result_deployed r = elim r.action [ deployed ↦ true | _ ↦ false ]

  -- `deployedThisCycle.has(name)`
  unfoldable pub deployed_this_cycle : List TriggerAppResult → String → Bool
  deployed_this_cycle results name = any (λ r. is_result_deployed r && r.app == name) results

  abbrev pub if_wanted : String → Option (AppRecord × VmRecord) → List (AppRecord × VmRecord)
  if_wanted generator none = []
  if_wanted generator (some (app, vm)) = if wants_heal generator app vm then (app, vm) ∷ [] else []

  -- The app of a result is found by its name only.
  abbrev pub heal_candidate :
      String
      → List (AppRecord × VmRecord)
      → List TriggerAppResult
      → TriggerAppResult
      → List (AppRecord × VmRecord)
  heal_candidate generator scope results r =
      if is_result_up_to_date r && not (deployed_this_cycle results r.app)
      then if_wanted generator (find (λ c. c.0.name == r.app) scope)
      else []

  unfoldable pub heal_candidates :
      String
      → List (AppRecord × VmRecord)
      → List TriggerAppResult
      → List TriggerAppResult
      → List (AppRecord × VmRecord)
  heal_candidates generator scope results [] = []
  heal_candidates generator scope results (r ∷ rs) =
      heal_candidate generator scope results r ++ heal_candidates generator scope results rs

  abbrev pub is_success : AppHealOutcome → Bool
  is_success healed = true
  is_success no_drift = true
  is_success drift_foreign = true
  is_success rolled_back = false
  is_success rollback_failed = false
  is_success heal_failed = false
  is_success incomplete = false

  abbrev pub fail_count : AppRecord → ℕ
  fail_count app = elim app.heal_fail_count [ none ↦ 0 | some n ↦ n ]

  abbrev or_given : AppRecord → Option AppRecord → AppRecord
  or_given app none = app
  or_given app (some stored) = stored

  abbrev pub current : AppRecord → List AppRecord → AppRecord
  current app apps = or_given app (Apps.get app.vm_id app.name apps)

  -- The store after an upsert; `none` where it throws.
  abbrev pub written :
      List AppRecord → Apps.Upserted × Option (List AppRecord) → Option (List AppRecord)
  written apps (Apps.stored a, none) = some apps
  written apps (Apps.stored a, some next) = some next
  written apps (Apps.rejected e, _) = none

  abbrev set_fail_count : AppRecord → ℕ → List AppRecord → Option (List AppRecord)
  set_fail_count app n apps =
      written apps (Apps.upsert (record (current app apps) { heal_fail_count = some n }) apps)

  abbrev pub push : AppRecord → VmRecord → AppHealAction → Healing → Healing
  push app vm action s = record s {
    summaries = s.summaries ++ record { app = app.name; vm = vm.name; action = action } ∷ [];
  }

  abbrev pub alerted : AppRecord → ℕ → Healing → Healing
  alerted app n s =
      if deps.has_alerts && leb heal_fail_alert_threshold n
      then record s { alerts = s.alerts ++ (app.name, n) ∷ [] }
      else s

  -- One failure more; where the write throws, nothing happens and no alert is filed.
  abbrev pub after_bump : AppRecord → ℕ → Option (List AppRecord) → Healing → Healing
  after_bump app n none s = s
  after_bump app n (some apps) s = alerted app n (record s { apps = apps })

  abbrev pub bump : AppRecord → Healing → Healing
  bump app s =
      let n = suc (fail_count (current app s.apps)) in
      after_bump app n (set_fail_count app n s.apps) s

  -- The `catch`.
  abbrev pub on_throw : AppRecord → VmRecord → Healing → Healing
  on_throw app vm s = bump app (push app vm (healing heal_failed) s)

  abbrev pub on_failure :
      AppRecord → VmRecord → AppHealOutcome → ℕ → Option (List AppRecord) → Healing → Healing
  on_failure app vm outcome n none s = on_throw app vm s
  on_failure app vm outcome n (some apps) s =
      push app vm (healing outcome) (alerted app n (record s { apps = apps }))

  abbrev pub on_success :
      AppRecord → VmRecord → AppHealOutcome → Option (List AppRecord) → Healing → Healing
  on_success app vm outcome none s = on_throw app vm s
  on_success app vm outcome (some apps) s = push app vm (healing outcome) (record s { apps = apps })

  abbrev reset : AppRecord → List AppRecord → Option (List AppRecord)
  reset app apps =
      if eqb (fail_count (current app apps)) 0 then some apps else set_fail_count app 0 apps

  abbrev pub on_outcome : AppRecord → VmRecord → AppHealOutcome → Healing → Healing
  on_outcome app vm outcome s =
      let n = suc (fail_count (current app s.apps)) in
      if is_success outcome
      then on_success app vm outcome (reset app s.apps) s
      else on_failure app vm outcome n (set_fail_count app n s.apps) s

  -- Only a healing that did not throw counts against the cap.
  abbrev pub on_reply : AppRecord → VmRecord → Reply AppHealOutcome → Healing → Healing
  on_reply app vm (threw message) s = on_throw app vm s
  on_reply app vm (replied outcome) s =
      on_outcome app vm outcome (record s { healed_vm_count = s.healed_vm_count + 1 })

  abbrev pub at_cap : Healing → Bool
  at_cap s = elim input.heal_vm_cap [ none ↦ false | some cap ↦ leb cap s.healed_vm_count ]

  module _ (heal : AppRecord → List AppRecord → Reply AppHealOutcome × List AppRecord) where
    abbrev pub attempt : AppRecord → VmRecord → Healing → Healing
    attempt app vm s =
        let (reply, apps) = heal app s.apps in
        on_reply app vm reply (record s { apps = apps; calls = s.calls ++ (app, reply) ∷ [] })

    -- One round of the loop.
    unfoldable pub heal_round : AppRecord × VmRecord → Healing → Healing
    heal_round (app, vm) s = if at_cap s then push app vm deferred s else attempt app vm s

    unfoldable pub heal_rounds : List (AppRecord × VmRecord) → Healing → Healing
    heal_rounds [] s = s
    heal_rounds (c ∷ cs) s = heal_rounds cs (heal_round c s)

  abbrev pub started : List AppRecord → Healing
  started apps = record {
    apps = apps;
    summaries = [];
    healed_vm_count = 0;
    calls = [];
    alerts = [];
  }

  abbrev pub run_wired :
      Option (AppRecord → List AppRecord → Reply AppHealOutcome × List AppRecord)
      → Option String
      → List (AppRecord × VmRecord)
      → List TriggerAppResult
      → List AppRecord
      → Healing
  run_wired (some heal) (some generator) scope results apps =
      if input.app_heal && not input.dry_run
      then heal_rounds heal (heal_candidates generator scope results results) (started apps)
      else started apps
  run_wired _ _ scope results apps = started apps

  unfoldable pub app_heal_pass :
      List (AppRecord × VmRecord) → List TriggerAppResult → List AppRecord → Healing
  app_heal_pass scope results apps =
      run_wired deps.app_heal input.current_generator_sha scope results apps
