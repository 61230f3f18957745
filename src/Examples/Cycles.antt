-- ===== src/Examples/Cycles.antt =====
-- Cycles of the trigger at concrete inputs: a release channel with a newer tag, a dry run, and the
-- passes after the deploys.
use samohost.Prelude.{map, ◌≡◌, refl, trim, String, Bool, true, false, none, some, [], ◌∷◌, List}
use samohost.Records.App.{AppRecord}
use samohost.Records.Vm.{VmRecord}
use samohost.State.Apps
use samohost.LinuxUser.{optional_linux_app_user_error, linux_app_user_error}
use samohost.Deploy.CiGate.{
  is_canonical_release_ci_workflow, decide_from, is_empty, is_success, runs, check_ci_green,
}
use samohost.Deploy.CiGate
use samohost.Deploy.ReleaseTag.{is_date_release_tag, is_utc_date, date_release_tag}
use samohost.Deploy.Tags.{
  number, parse_semver, compare_text, compare_identifier, compare_identifiers, compare_prerelease,
  compare_semver, compare_release_tags, outside_classes, allow_prerelease, candidate, latest_from,
  select_latest_tag,
}
use samohost.Deploy.Tags.Latest.{Latest, select_latest_tag-Latest}
use samohost.Trigger.Decide.{
  TriggerDeps, Target, replied, verified, release_target, target_of, check_activation,
  check_up_to_date, check_cursor, check_known_bad, check_ci, decide,
}
use samohost.Deploy.Run.{AppDeployInput}
use samohost.Trigger.Cycle.{
  TriggerRunInput, TriggerDeploy, TriggerAppResult, up_to_date, is_live, round, rounds, candidates,
  deploy_loop,
}
use samohost.Trigger.Cycle.Safety.{MayDeploy, deploy_loop-MayDeploy}
use samohost.Trigger.Passes.{GcSummary, seen_from, live_vm_ids, gc_each, gc_pass}
use samohost.Trigger.Passes.Once.{NoRepeat, AllLive, Covers, gc_pass-once}
use samohost.Trigger.Heal.{
  HealInput, HealDeps, healed, wants_heal, deployed_this_cycle, heal_candidates, heal_round,
  heal_rounds, app_heal_pass,
}
use samohost.Trigger.Heal.Safety.{Asked, app_heal_pass-Asked}
use samohost.Examples.Data.{machine, dead_machine, plain_app, released_app}

abbrev new_sha : String
new_sha = "aaaaaaaaaaaaaaaaaaaaaaaaaaaaaaaaaaaaaaaa"

abbrev old_sha : String
old_sha = "bbbbbbbbbbbbbbbbbbbbbbbbbbbbbbbbbbbbbbbb"

abbrev new_tag : String
new_tag = "v20260201.2"

-- Deployed at an older tag of its channel.
abbrev behind_app : AppRecord
behind_app = record released_app {
  deployed_sha = some old_sha;
  release_tag_cursor = some "v20260201.1";
  release_tag_channel_initialized = some true;
}

abbrev cycle_input : Bool → TriggerRunInput
cycle_input dry_run = record { vm = none; app = some "crm"; dry_run = dry_run }

abbrev cycle_deps : TriggerDeps
cycle_deps = record {
  resolve_ref = λ repo ref. replied old_sha;
  resolve_latest_tag =
      some (λ repo pattern date. replied (some (record { tag = new_tag; sha = new_sha })));
  is_commit_on_branch = some (λ repo sha branch. replied true);
  fetch = λ request.
      runs (some (record { status = some "completed"; conclusion = some "success" } ∷ []));
}

abbrev deploy_works : TriggerDeploy
deploy_works = λ input apps. (replied 0, apps)

abbrev new_target : Target
new_target = record { sha = new_sha; tag = some new_tag }

abbrev deploy_request : AppDeployInput
deploy_request = record {
  vm = machine.name;
  app = behind_app.name;
  sha = some new_sha;
  ref = none;
  skip_ci_gate = false;
  release_tag = some new_tag;
  force = false;
}

deploy_loop-MayDeploy_example :
    MayDeploy
      (cycle_input false)
      cycle_deps
      deploy_works
      ((behind_app, machine) ∷ [])
      deploy_request
    × Unit {0}
unfolding deploy_loop candidates rounds round is_live decide target_of release_target verified
    check_activation check_up_to_date check_cursor check_known_bad check_ci
    is_canonical_release_ci_workflow is_date_release_tag is_utc_date date_release_tag trim
    compare_release_tags parse_semver number compare_semver compare_prerelease compare_identifiers
    compare_identifier compare_text check_ci_green CiGate.decide decide_from is_empty is_success
    Apps.get Apps.upsert optional_linux_app_user_error linux_app_user_error
deploy_loop-MayDeploy_example =
    deploy_loop-MayDeploy (cycle_input false) cycle_deps deploy_works (machine ∷ [])
      (behind_app ∷ [])

abbrev nothing_reaped : GcSummary
nothing_reaped = record { candidates = 0; reaped = 0; pruned = 0 }

abbrev gc_scope : List (AppRecord × VmRecord)
gc_scope = (plain_app, machine) ∷ (released_app, machine) ∷ (plain_app, dead_machine) ∷ []

abbrev gc_calls : List (String × Bool)
gc_calls = ("vm-1", true) ∷ []

gc_pass-once_example :
    (ids : List String) × ((gc_pass true false
        (some (λ id reap. replied nothing_reaped))
        gc_scope).calls
      ≡ map (λ id. (id, true)) ids)
    × NoRepeat ids
    × AllLive gc_scope ids
    × Covers ids gc_scope
unfolding gc_pass live_vm_ids seen_from gc_each is_live
gc_pass-once_example = gc_pass-once false (λ id reap. replied nothing_reaped) gc_scope

select_latest_tag-Latest_example :
    Latest (λ pattern tag. true) "v*" false ("v1.2.0" ∷ "v1.10.0-rc.1" ∷ "v1.9" ∷ []) (some "v1.9")
unfolding select_latest_tag latest_from candidate allow_prerelease outside_classes parse_semver
    number compare_semver compare_prerelease compare_identifiers compare_identifier compare_text
select_latest_tag-Latest_example =
    select_latest_tag-Latest (λ pattern tag. true) "v*" false
      ("v1.2.0" ∷ "v1.10.0-rc.1" ∷ "v1.9" ∷ [])

abbrev heal_input : HealInput
heal_input = record {
  app_heal = true;
  dry_run = false;
  current_generator_sha = some "g2";
  heal_vm_cap = some 1;
  now = 5000000;
}

abbrev heal_deps : HealDeps
heal_deps = record {
  app_heal = some (λ app apps. (replied healed, apps));
  has_alerts = true;
  date_parse = λ text. some 0;
}

abbrev current_result : TriggerAppResult
current_result = record {
  app = "crm";
  vm = "field-record-1";
  action = up_to_date;
  sha = some old_sha;
  reason = none;
  error_text = none;
}

heals_behind :
    (app_heal_pass heal_input heal_deps
      ((behind_app, machine) ∷ [])
      (current_result ∷ [])
      (behind_app ∷ [])).calls
    ≡ (behind_app, replied healed) ∷ []
unfolding app_heal_pass heal_rounds heal_round heal_candidates deployed_this_cycle wants_heal
    is_live Apps.get
heals_behind = refl

app_heal_pass-Asked_example : Asked heal_input heal_deps "g2" ((behind_app, machine) ∷ []) 1 (
    app_heal_pass heal_input heal_deps
      ((behind_app, machine) ∷ [])
      (current_result ∷ [])
      (behind_app ∷ []))
app_heal_pass-Asked_example =
    app_heal_pass-Asked heal_input heal_deps ((behind_app, machine) ∷ []) (current_result ∷ [])
      (behind_app ∷ []) "g2" 1 refl refl
