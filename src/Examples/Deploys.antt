-- ===== src/Examples/Deploys.antt =====
-- Deploys of an app at concrete inputs: one that is rolled back, one of another commit after it, and
-- one of a release.
use samohost.Prelude.{
  ◌≡◌, ◌≢◌, ◌↔◌, upsert_by, trim, inl, refl, ℕ, String, true, false, Option, none, some, [], ◌∷◌,
}
use samohost.Records.App.{AppRecord}
use samohost.State.Apps
use samohost.Deploy.Phases.{
  DeployOutcome, rolled_back, deployed, deploy_outcome, scan_from, scan_event, verdict,
  parse_deploy_outcome, parse_phase_stream, valid_events,
}
use samohost.Deploy.CiGate.{
  success, is_canonical_release_ci_workflow, decide, decide_from, is_empty, is_success, WorkflowRun,
  runs, check_ci_green,
}
use samohost.Deploy.Run.{
  AppDeployInput, AppDeployDeps, AppDeployReport, passed, Plan, run_app_deploy, find_vm,
  workflow_for, finish, bookkeeping, plan, check_channel, target_sha, check_release_tag,
  check_known_bad, ci_gate, report_of,
}
use samohost.Deploy.Run.Gates.{Released, run_app_deploy-Released, run_app_deploy-green}
use samohost.Deploy.Run.Bookkeeping.{Recorded, run_app_deploy-Recorded, no_redeploy_of_known_bad}
use samohost.Deploy.ReleaseTag.{is_date_release_tag, is_utc_date, date_release_tag, sha_re}
use samohost.LinuxUser.{optional_linux_app_user_error, linux_app_user_error}
use samohost.Markers.{markers, markers_from, marker_at, phase_prefix, strip_prefix, span_name}
use samohost.Examples.Data.{machine, plain_app, released_app}

abbrev good_sha : String
good_sha = "aaaaaaaaaaaaaaaaaaaaaaaaaaaaaaaaaaaaaaaa"

abbrev bad_sha : String
bad_sha = "bbbbbbbbbbbbbbbbbbbbbbbbbbbbbbbbbbbbbbbb"

abbrev dated_tag : String
dated_tag = "v20260201.1"

abbrev one : ℕ
one = 1

abbrev green_run : WorkflowRun
green_run = record { status = some "completed"; conclusion = some "success" }

abbrev deps_with : String → AppDeployDeps
deps_with stdout = record {
  resolve_ref = λ repo ref. some good_sha;
  fetch = λ request. runs (some (green_run ∷ []));
  is_commit_on_branch = some (λ repo sha branch. some true);
  remote = λ vm script. some (record { stdout = stdout; stderr = "" });
  now = "2026-02-01T00:00:00.000Z";
  resolve_generator_sha = none;
  tag_matches = λ pattern tag. true;
}

abbrev rolling_back : AppDeployDeps
rolling_back = deps_with "<<<SAMOHOST_PHASE:rollback:ok>>>"

abbrev pub deploying : AppDeployDeps
deploying = deps_with "<<<SAMOHOST_PHASE:health:start>>> <<<SAMOHOST_PHASE:health:ok>>>"

abbrev pub deploy_of : Option String → Option String → AppDeployInput
deploy_of sha tag = record {
  vm = "field-record-1";
  app = "crm";
  sha = sha;
  ref = none;
  skip_ci_gate = false;
  release_tag = tag;
  force = false;
}

abbrev planned_of : AppRecord → String → Plan
planned_of app sha = record { vm = machine; app = app; sha = sha; ci = some success }

-- The app's record after the commit was rolled back.
abbrev rolled_back_app : AppRecord
rolled_back_app = record plain_app {
  last_deploy_at = some "2026-02-01T00:00:00.000Z";
  failed_sha = some bad_sha;
}

abbrev deployed_app : AppRecord → String → AppRecord
deployed_app app sha = record app {
  last_deploy_at = some "2026-02-01T00:00:00.000Z";
  deployed_sha = some sha;
  failed_sha = none;
}

abbrev report : AppRecord → String → DeployOutcome → AppDeployReport
report app sha outcome =
    report_of rolling_back (deploy_of (some sha) none) (planned_of app sha) outcome

found : Apps.get "vm-1" "crm" (plain_app ∷ []) ≡ some plain_app
unfolding Apps.get
found = refl

rolls_back :
    run_app_deploy rolling_back (deploy_of (some bad_sha) none) (machine ∷ []) (plain_app ∷ [])
    ≡ passed (report plain_app bad_sha rolled_back, rolled_back_app ∷ [])
unfolding run_app_deploy plan find_vm Apps.get check_channel target_sha check_release_tag
    check_known_bad ci_gate check_ci_green decide decide_from is_empty is_success finish bookkeeping
    Apps.upsert upsert_by optional_linux_app_user_error linux_app_user_error parse_deploy_outcome
    deploy_outcome scan_from scan_event verdict parse_phase_stream valid_events markers markers_from
    marker_at phase_prefix strip_prefix span_name
rolls_back = refl

deploys_after :
    run_app_deploy deploying (deploy_of (some good_sha) none) (machine ∷ []) (rolled_back_app ∷ [])
    ≡ passed (report rolled_back_app good_sha deployed, deployed_app rolled_back_app good_sha ∷ [])
unfolding run_app_deploy plan find_vm Apps.get check_channel target_sha check_release_tag
    check_known_bad ci_gate check_ci_green decide decide_from is_empty is_success finish bookkeeping
    Apps.upsert upsert_by optional_linux_app_user_error linux_app_user_error parse_deploy_outcome
    deploy_outcome scan_from scan_event verdict parse_phase_stream valid_events markers markers_from
    marker_at phase_prefix strip_prefix span_name
deploys_after = refl

releases :
    run_app_deploy deploying (deploy_of none (some dated_tag)) (machine ∷ []) (released_app ∷ [])
    ≡ passed (report released_app good_sha deployed, deployed_app released_app good_sha ∷ [])
unfolding run_app_deploy plan find_vm Apps.get check_channel target_sha check_release_tag
    check_known_bad ci_gate check_ci_green decide decide_from is_empty is_success
    is_date_release_tag is_utc_date date_release_tag sha_re trim is_canonical_release_ci_workflow
    finish bookkeeping Apps.upsert upsert_by optional_linux_app_user_error linux_app_user_error
    parse_deploy_outcome deploy_outcome scan_from scan_event verdict parse_phase_stream valid_events
    markers markers_from marker_at phase_prefix strip_prefix span_name
releases = refl

run_app_deploy-Released_example :
    Released deploying (deploy_of none (some dated_tag)) released_app "v*" good_sha
unfolding find_vm Apps.get
run_app_deploy-Released_example =
    run_app_deploy-Released deploying (deploy_of none (some dated_tag)) (machine ∷ [])
      (released_app ∷ []) (deployed_app released_app good_sha ∷ [])
      (report released_app good_sha deployed) machine released_app "v*" refl refl refl releases

run_app_deploy-green_example :
    check_ci_green deploying.fetch "acme/crm" good_sha (workflow_for rolled_back_app) ≡ success
unfolding find_vm Apps.get
run_app_deploy-green_example =
    run_app_deploy-green deploying (deploy_of (some good_sha) none) (machine ∷ [])
      (rolled_back_app ∷ []) (deployed_app rolled_back_app good_sha ∷ [])
      (report rolled_back_app good_sha deployed) machine rolled_back_app refl refl refl
      deploys_after

run_app_deploy-Recorded_example :
    ((after : AppRecord) × (Apps.get "vm-1" "crm" (rolled_back_app ∷ []) ≡ some after)
      × Recorded plain_app after bad_sha rolled_back)
    × ((one ≡ 0) ↔ (rolled_back ≡ deployed))
unfolding find_vm
run_app_deploy-Recorded_example =
    run_app_deploy-Recorded rolling_back (deploy_of (some bad_sha) none) (machine ∷ [])
      (plain_app ∷ []) (rolled_back_app ∷ []) (report plain_app bad_sha rolled_back) machine
      plain_app refl found rolls_back

no_redeploy_of_known_bad_example : good_sha ≢ bad_sha
unfolding find_vm
no_redeploy_of_known_bad_example =
    no_redeploy_of_known_bad rolling_back deploying (deploy_of (some bad_sha) none)
      (deploy_of (some good_sha) none) (machine ∷ []) (plain_app ∷ []) (rolled_back_app ∷ [])
      (deployed_app rolled_back_app good_sha ∷ []) (report plain_app bad_sha rolled_back)
      (report rolled_back_app good_sha deployed) machine plain_app refl found rolls_back (inl refl)
      refl refl refl deploys_after
