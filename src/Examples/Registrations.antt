-- ===== src/Examples/Registrations.antt =====
-- The registration of an app at concrete inputs: one with two listeners and a release channel, over
-- the app of the same name with a known-bad commit.
use samohost.Prelude.{◌≡◌, refl, String, none, some, [], ◌∷◌, upsert_by, passed, false}
use samohost.Records.App.{AppRecord, AppSpec}
use samohost.State.Apps
use samohost.LinuxUser.{optional_linux_app_user_error, linux_app_user_error}
use samohost.Records.Vm.{VmRecord}
use samohost.Deploy.Run.{find_vm, check_known_bad}
use samohost.Deploy.CiGate.{is_canonical_release_ci_workflow, canonical_release_ci_workflow}
use samohost.Manifest.Topology.{
  validate_services_topology, service_errors, listener_errors, route_errors, routed_map,
}
use samohost.Manifest.StaticNoDb.{validate_static_no_db}
use samohost.Deploy.Register.{
  AppRegisterInput, is_static_root, check_release_policy, check_static_no_db, check_topology,
  checked, spec_of, app_record, run_app_register,
}
use samohost.Deploy.Register.Sound.{IsSound, run_app_register-IsSound}
use samohost.Deploy.Register.Kept.{KeepsBookkeeping, run_app_register-Keeps}
use samohost.Examples.Data.{machine, app_with, spec_with}
use samohost.Examples.Deploys.{deploying, deploy_of}
use samohost.Examples.Environments.{services, route_to}

abbrev registration : AppRegisterInput
registration = record {
  vm = "vm-1";
  name = "crm";
  repo = "acme/crm";
  branch = "main";
  app_dir = "/opt/crm";
  build_cmd = "bun run build";
  health_url = "http://127.0.0.1:3000/healthz";
  service_unit = "crm";
  main_host = none;
  migrate_cmd = none;
  seed_cmd = none;
  env_file = none;
  env_db_vars = none;
  rls_non_superuser = false;
  rls_url_var = none;
  kind = none;
  static_root = none;
  db_backend = none;
  preview_db_backend = none;
  app_user = some "crm-app";
  services = some services;
  routes = some (route_to "web" ∷ []);
  default_listener = some "web";
  main_listen = none;
  release_tag_pattern = some "v*";
  release_tag_format = some "date";
  release_ci_workflow = some ".github/workflows/ci.yml";
  secrets = none;
  database_url_env = none;
}

abbrev known_app : AppRecord
known_app = app_with (spec_with none none none) (some "bbbb")

abbrev registered_spec : AppSpec
registered_spec = record (spec_with (some "v*") (some "date") (some ".github/workflows/ci.yml")) {
  services = some services;
  routes = some (route_to "web" ∷ []);
  default_listener = some "web";
}

abbrev registered_app : AppRecord
registered_app = app_with registered_spec (some "bbbb")

registers :
    run_app_register registration "app-9" (machine ∷ []) (known_app ∷ [])
    ≡ passed (registered_app, registered_app ∷ [])
unfolding run_app_register checked find_vm check_release_policy is_canonical_release_ci_workflow
    is_static_root check_static_no_db validate_static_no_db check_topology
    validate_services_topology service_errors listener_errors route_errors routed_map spec_of
    app_record Apps.get Apps.upsert optional_linux_app_user_error linux_app_user_error upsert_by
    canonical_release_ci_workflow
registers = refl

run_app_register-IsSound_example :
    (vm : VmRecord) × (find_vm (machine ∷ []) "vm-1" ≡ some vm)
    × (Apps.get vm.id "crm" (registered_app ∷ []) ≡ some registered_app)
    × IsSound (λ (text : String). none) registered_spec
run_app_register-IsSound_example =
    run_app_register-IsSound registration (machine ∷ []) (λ text. none) "app-9" (known_app ∷ [])
      registers

run_app_register-Keeps_example :
    KeepsBookkeeping registration known_app registered_app
    × (check_known_bad deploying (deploy_of none none) registered_app "bbbb"
        ≡ check_known_bad deploying (deploy_of none none) known_app "bbbb")
unfolding find_vm Apps.get
run_app_register-Keeps_example =
    run_app_register-Keeps registration (machine ∷ []) "app-9" (known_app ∷ [])
      (registered_app ∷ []) registered_app known_app machine deploying (deploy_of none none) "bbbb"
      refl refl registers
