-- ===== src/Examples/Environments.antt =====
-- The creation and the removal of an environment at concrete inputs: an app of two listeners on a
-- machine where the first port of the pool is bound by something else.
use samohost.Prelude.{
  passed, remove_by, split_on, text_of, trim, upsert_by, ◌≡◌, ◌↔◌, refl, String, Bool, true, false,
  Option, none, some, List, [], ◌∷◌, eqb, All,
}
use samohost.Records.App.{AppRecord, AppSpec, ServiceSpec, ListenerSpec, RouteSpec, dblab}
use samohost.Records.Env.{EnvRecord}
use samohost.State.Envs
use samohost.Preview.Create.{
  plan, resolve, check_database_url, target_for, live_bound, confirmed, env_record, finish,
  probe_from, report_of, EnvCreateInput, EnvExecDeps, EnvCreateReport, run_env_create,
}
use samohost.Preview.Create.Removal.{EnvDestroyInput, run_env_destroy, recorded}
use samohost.Preview.Create.Record.{Recorded, run_env_create-Recorded}
use samohost.Preview.Create.Kept.{Keeps, run_env_create-Keeps}
use samohost.Preview.Create.Gone.{IsGone, run_env_destroy-IsGone}
use samohost.Preview.Target.Fresh.{IsFresh, derive_target-IsFresh}
use samohost.Manifest.Topology.{validate_services_topology}
use samohost.Manifest.Topology.WellFormed.{IsTopology, validate_services_topology-none}
use samohost.Preview.Create.Apart.{HasApartPorts, empty_store, created_env, Stored-HasApartPorts}
use samohost.Deploy.Run.{find_vm}
use samohost.State.Apps
use samohost.Preview.Target.{
  EnvScriptTarget, derive_target, is_valid_preview_domain, are_labels, is_dns_label, ends_plain,
  allocate_ports, all_listener_ports, names_of, set_port, target_from_record, underscored,
}
use samohost.Services.{services_of, port_from_health_url}
use samohost.Preview.Ports.{default_pool, allocate_port, allocate_from}
use samohost.Markers.{marker_at, markers, markers_from, phase_prefix, span_name, strip_prefix}
use samohost.Preview.Names.{
  branch_label, dashed, drop_first, drop_last, env_name, fnv1a, hash_from, hex, with_suffix, xor,
}
use samohost.Preview.Phases.{
  EnvOutcome, env_outcome, outcome_from, parse_env_outcome, parse_env_phase_stream, valid_events,
}
use samohost.Examples.Data.{machine, plain_app, spec_with, env}

abbrev listener : String → String → Option Bool → ListenerSpec
listener name port_env routed = record {
  name = name;
  port = 3000;
  port_env = port_env;
  health_path = none;
  routed = routed;
}

abbrev pub services : List ServiceSpec
services =
    record {
      name = "web";
      unit = "crm";
      exec_start = none;
      listeners = listener "web" "PORT" none ∷ listener "metrics" "METRICS_PORT" (some false) ∷ [];
    }
    ∷ []

abbrev pub route_to : String → RouteSpec
route_to name = record {
  name = none;
  match_path = some "/api/*";
  match_regexp = none;
  to = some name;
  respond = none;
}

abbrev served_spec : AppSpec
served_spec = record (spec_with none none none) {
  services = some services;
  routes = some (route_to "web" ∷ []);
  default_listener = some "web";
  database_url_env = some "DATABASE_URL";
}

abbrev served_app : AppRecord
served_app = record plain_app { spec = served_spec }

abbrev creation : EnvCreateInput
creation = record {
  vm = "vm-1";
  app = "crm";
  branch = "feature";
  db = dblab;
  preview_domain = "samo.cat";
  template_db = none;
  last_deployed_sha = some "bbbb";
}

abbrev removal : EnvDestroyInput
removal = record { vm = "vm-1"; app = "crm"; branch = "feature" }

-- The second attempt of the probe is ok.
abbrev exec_deps : EnvExecDeps
exec_deps = record {
  parse_url = λ text. none;
  now = "2026-02-01T00:00:00.000Z";
  uuid = "env-9";
  in_use_ports = some (λ vm. some (3100 ∷ []));
  has_dns = true;
  build_env_create_script = λ app target. some "create";
  build_env_destroy_script = λ app target. some "destroy";
  remote = λ vm script. some (record { stdout = "<<<SAMOHOST_PHASE:health:ok>>>"; stderr = "" });
  http_probe = some (λ url attempt. some (eqb attempt 1));
}

abbrev fresh_env : EnvRecord
fresh_env = record {
  id = "env-9";
  vm_id = "vm-1";
  app_name = "crm";
  branch = "feature";
  name = "crm-feature";
  port = 3101;
  vhost = "crm-feature.samo.cat";
  db_backend = dblab;
  db_name = some "crm-feature";
  template_db = none;
  created_at = "2026-02-01T00:00:00.000Z";
  last_deployed_sha = some "bbbb";
  pr_number = none;
  last_access = none;
  ports = some (("web", 3101) ∷ ("metrics", 3102) ∷ []);
}

abbrev create_report : EnvCreateReport
create_report = record {
  env = "crm-feature";
  vm = "field-record-1";
  app = "crm";
  branch = "feature";
  port = 3101;
  ports = some (("web", 3101) ∷ ("metrics", 3102) ∷ []);
  vhost = "crm-feature.samo.cat";
  db = dblab;
  outcome = EnvOutcome.ok;
  exit_code = 0;
  stderr = none;
}

abbrev second_creation : EnvCreateInput
second_creation = record creation { branch = "bugfix"; last_deployed_sha = none }

abbrev second_env : EnvRecord
second_env = record fresh_env {
  branch = "bugfix";
  name = "crm-bugfix";
  port = 3103;
  vhost = "crm-bugfix.samo.cat";
  db_name = some "crm-bugfix";
  last_deployed_sha = none;
  ports = some (("web", 3103) ∷ ("metrics", 3104) ∷ []);
}

abbrev second_report : EnvCreateReport
second_report = record create_report {
  env = "crm-bugfix";
  branch = "bugfix";
  port = 3103;
  ports = some (("web", 3103) ∷ ("metrics", 3104) ∷ []);
  vhost = "crm-bugfix.samo.cat";
}

abbrev kept_env : EnvRecord
kept_env = record env { last_deployed_sha = some "bbbb" }

abbrev kept_report : EnvCreateReport
kept_report = record create_report {
  env = "feature";
  port = 3100;
  ports = none;
  vhost = "crm.samo.cat";
}

runs :
    ((run_env_create exec_deps creation (machine ∷ []) (served_app ∷ []) []).1
      ≡ passed (create_report, fresh_env ∷ []))
    × ((run_env_create exec_deps second_creation
          (machine ∷ [])
          (served_app ∷ [])
          (fresh_env ∷ [])).1
        ≡ passed (second_report, fresh_env ∷ second_env ∷ []))
    × ((run_env_create exec_deps creation (machine ∷ []) (served_app ∷ []) (env ∷ [])).1
        ≡ passed (kept_report, kept_env ∷ []))
    × ((run_env_destroy exec_deps removal (machine ∷ []) (served_app ∷ []) (fresh_env ∷ [])).1
        ≡ passed [])
unfolding run_env_create run_env_destroy recorded remove_by plan resolve find_vm Apps.get
    check_database_url target_for Envs.get live_bound derive_target is_valid_preview_domain
    are_labels split_on is_dns_label ends_plain services_of allocate_ports allocate_port marker_at
    markers markers_from phase_prefix span_name strip_prefix text_of trim upsert_by confirmed
    env_record finish probe_from report_of branch_label dashed drop_first drop_last env_name fnv1a
    hash_from hex with_suffix xor env_outcome outcome_from parse_env_outcome parse_env_phase_stream
    valid_events allocate_from all_listener_ports names_of set_port target_from_record underscored
    port_from_health_url Envs.list_for
runs = (refl, refl, refl, refl)

-- The second environment gets ports that the first one does not have.
Stored-HasApartPorts_example : HasApartPorts (fresh_env ∷ second_env ∷ [])
Stored-HasApartPorts_example = Stored-HasApartPorts (
    created_env exec_deps second_creation (machine ∷ []) (served_app ∷ [])
      (created_env exec_deps creation (machine ∷ []) (served_app ∷ []) empty_store runs.0) runs.1)

run_env_create-Recorded_example :
    Recorded exec_deps creation (machine ∷ []) (served_app ∷ []) (create_report, fresh_env ∷ [])
run_env_create-Recorded_example =
    run_env_create-Recorded exec_deps creation (machine ∷ []) (served_app ∷ []) [] runs.0

run_env_create-Keeps_example :
    (e : EnvRecord) × (Envs.get "vm-1" "crm" "feature" (kept_env ∷ []) ≡ some e)
    × Keeps exec_deps creation (machine ∷ []) (served_app ∷ []) (env ∷ []) env e
unfolding Envs.get find_vm Apps.get
run_env_create-Keeps_example =
    run_env_create-Keeps exec_deps creation (machine ∷ []) (served_app ∷ []) (env ∷ []) runs.2 refl
      refl refl

run_env_destroy-IsGone_example :
    IsGone exec_deps removal (machine ∷ []) (served_app ∷ []) (fresh_env ∷ []) []
run_env_destroy-IsGone_example =
    run_env_destroy-IsGone exec_deps removal (machine ∷ []) (served_app ∷ []) (fresh_env ∷ [])
      runs.3

abbrev fresh_target : EnvScriptTarget
fresh_target = record {
  name = "crm-feature";
  branch = "feature";
  port = 3101;
  ports = some (("web", 3101) ∷ ("metrics", 3102) ∷ []);
  vhost = "crm-feature.samo.cat";
  db_backend = dblab;
  db_name = some "crm-feature";
  template_db = none;
}

derive_target-IsFresh_example : All (IsFresh default_pool (3100 ∷ [])) (3101 ∷ 3101 ∷ 3102 ∷ [])
unfolding plan resolve find_vm Apps.get check_database_url target_for Envs.get live_bound
    derive_target is_valid_preview_domain are_labels split_on is_dns_label ends_plain services_of
    allocate_ports allocate_port marker_at markers markers_from phase_prefix span_name strip_prefix
    text_of trim upsert_by confirmed env_record finish probe_from report_of branch_label dashed
    drop_first drop_last env_name fnv1a hash_from hex with_suffix xor env_outcome outcome_from
    parse_env_outcome parse_env_phase_stream valid_events allocate_from all_listener_ports names_of
    set_port target_from_record underscored port_from_health_url Envs.list_for
derive_target-IsFresh_example =
    derive_target-IsFresh (λ text. none) served_app "feature" dblab "samo.cat" [] default_pool none
      (3100 ∷ []) {t = fresh_target} refl

validate_services_topology-none_example :
    (validate_services_topology (some services) (some (route_to "web" ∷ [])) (some "web") ≡ [])
    ↔ IsTopology services (some (route_to "web" ∷ [])) (some "web")
validate_services_topology-none_example =
    validate_services_topology-none services (some (route_to "web" ∷ [])) (some "web")
