-- ===== src/Examples/Repairs.antt =====
-- A heal that converges, and a known-bad commit that is cleared.
use samohost.Prelude.{◌≡◌, refl, true, false, none, some, [], ◌∷◌, upsert_by, includes}
use samohost.Records.App.{AppRecord}
use samohost.State.Apps
use samohost.LinuxUser.{optional_linux_app_user_error, linux_app_user_error}
use samohost.Deploy.CiGate.{runs}
use samohost.Deploy.Run.{AppDeployInput, AppDeployDeps, find_vm, passed, check_known_bad}
use samohost.Deploy.Heal.{
  AppHealInput, AppHealDeps, drift_foreign, incomplete, parse_heal_outcome, heal_each, run_app_heal,
}
use samohost.Deploy.Heal.Seen.{seen, unstamped, apps_after}
use samohost.Deploy.Heal.Keeps.{run_app_heal-seen}
use samohost.Deploy.ClearFailed.{without_failed, run_app_clear_failed, clear_failed_unblocks}
use samohost.Examples.Data.{machine, plain_app, spec_with, app_with}

abbrev hosted_app : AppRecord
hosted_app = record plain_app {
  spec = record (spec_with none none none) { main_host = some "crm.example" };
}

abbrev heal_input : AppHealInput
heal_input = record { vm = "field-record-1"; app = none; all = true; apply = true }

abbrev heal_deps : AppHealDeps
heal_deps = record {
  build_script = λ app. some "true";
  remote = λ vm script. some (record { stdout = "<<<SAMOHOST_PHASE:heal:ok>>>"; stderr = "" });
  now = "2026-02-01T00:00:00.000Z";
  resolve_generator_sha = some (some "g2");
}

foreign_drift : parse_heal_outcome "drift-foreign: x <<<SAMOHOST_PHASE:heal:ok>>>" ≡ drift_foreign
unfolding parse_heal_outcome includes
foreign_drift = refl

nothing_said : parse_heal_outcome "heal:ok" ≡ incomplete
unfolding parse_heal_outcome includes
nothing_said = refl

stamped_after :
    (apps_after (run_app_heal heal_input heal_deps (machine ∷ []) (hosted_app ∷ [])) [])
    ≡ record hosted_app {
      last_heal_at = some "2026-02-01T00:00:00.000Z";
      generator_sha = some "g2";
    }
      ∷ []
unfolding run_app_heal find_vm heal_each parse_heal_outcome includes Apps.upsert upsert_by
    optional_linux_app_user_error linux_app_user_error
stamped_after = refl

run_app_heal-seen_example :
    seen "vm-1" "crm" (
      apps_after
        (run_app_heal heal_input heal_deps (machine ∷ []) (hosted_app ∷ []))
        (hosted_app ∷ []))
    ≡ some (unstamped hosted_app)
unfolding Apps.get
run_app_heal-seen_example =
    run_app_heal-seen heal_input heal_deps (machine ∷ []) (hosted_app ∷ []) "vm-1" "crm" (refl, tt)

abbrev bad_app : AppRecord
bad_app = app_with (spec_with none none none) (some "bbbb")

abbrev deploy_deps : AppDeployDeps
deploy_deps = record {
  resolve_ref = λ repo ref. none;
  fetch = λ request. runs none;
  is_commit_on_branch = none;
  remote = λ vm script. none;
  now = "2026-02-01T00:00:00.000Z";
  resolve_generator_sha = none;
  tag_matches = λ pattern tag. true;
}

abbrev deploy_input : AppDeployInput
deploy_input = record {
  vm = "field-record-1";
  app = "crm";
  sha = some "bbbb";
  ref = none;
  skip_ci_gate = false;
  release_tag = none;
  force = false;
}

clear_failed_unblocks_example :
    (bad_app.failed_sha ≡ some "bbbb")
    × (Apps.get "vm-1" "crm" (without_failed bad_app ∷ []) ≡ some (without_failed bad_app))
    × (check_known_bad deploy_deps deploy_input (without_failed bad_app) "bbbb" ≡ passed tt)
unfolding run_app_clear_failed find_vm Apps.get Apps.upsert upsert_by optional_linux_app_user_error
    linux_app_user_error
clear_failed_unblocks_example =
    clear_failed_unblocks deploy_deps deploy_input (machine ∷ []) "field-record-1" "crm"
      (bad_app ∷ []) (without_failed bad_app ∷ []) machine bad_app "bbbb" "bbbb" refl refl refl
