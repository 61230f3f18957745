-- ===== src/Examples/Data.antt =====
-- The records that the examples use.
use samohost.Prelude.{String, Option, none, some, []}
use samohost.Records.Vm.{VmRecord, LifecycleState, hetzner, ready, destroyed}
use samohost.Records.App.{AppSpec, AppRecord, dblab}
use samohost.Records.Env.{EnvRecord}

abbrev pub machine_in : LifecycleState → VmRecord
machine_in state = record {
  id = "vm-1";
  provider = hetzner;
  provider_id = "42";
  name = "field-record-1";
  ip = "203.0.113.7";
  ssh_key_path = "/keys/id";
  ssh_port = 2223;
  ssh_user = "samo";
  control_plane_ip = none;
  host_key_fingerprint = "SHA256:abc";
  region = "nbg1";
  kind = "cx22";
  modules = [];
  lifecycle_state = state;
  created_at = "2026-01-01T00:00:00.000Z";
  updated_at = "2026-01-01T00:00:00.000Z";
}

abbrev pub machine : VmRecord
machine = machine_in ready

abbrev pub dead_machine : VmRecord
dead_machine = machine_in destroyed

abbrev pub spec_with : Option String → Option String → Option String → AppSpec
spec_with pattern format workflow = record {
  name = "crm";
  kind = none;
  static_root = none;
  repo = "acme/crm";
  branch = "main";
  app_dir = "/opt/crm";
  build_cmd = "bun run build";
  migrate_cmd = none;
  seed_cmd = none;
  health_url = "http://127.0.0.1:3000/healthz";
  main_host = none;
  service_unit = "crm";
  env_file = none;
  env_db_vars = none;
  rls_url_var = none;
  assertions = none;
  app_user = some "crm-app";
  db_backend = none;
  preview_db_backend = none;
  services = none;
  routes = none;
  default_listener = none;
  main_listen = none;
  release_tag_pattern = pattern;
  release_tag_format = format;
  release_ci_workflow = workflow;
  secrets = none;
  database_url_env = none;
}

abbrev pub app_with : AppSpec → Option String → AppRecord
app_with spec failed_sha = record {
  spec = spec;
  id = "app-1";
  vm_id = "vm-1";
  deployed_sha = none;
  failed_sha = failed_sha;
  last_deploy_at = none;
  generator_sha = none;
  last_heal_at = none;
  release_tag_cursor = none;
  release_tag_channel_initialized = none;
  heal_fail_count = none;
}

abbrev pub plain_app : AppRecord
plain_app = app_with (spec_with none none none) none

abbrev pub released_app : AppRecord
released_app = app_with (spec_with (some "v*") (some "date") (some ".github/workflows/ci.yml")) none

abbrev pub env_of : String → String → Option String → EnvRecord
env_of id branch sha = record {
  id = id;
  vm_id = "vm-1";
  app_name = "crm";
  branch = branch;
  name = branch;
  port = 3100;
  vhost = "crm.samo.cat";
  db_backend = dblab;
  db_name = some branch;
  template_db = none;
  created_at = "2026-01-01T00:00:00.000Z";
  last_deployed_sha = sha;
  pr_number = some 7;
  last_access = none;
  ports = none;
}

abbrev pub env : EnvRecord
env = env_of "env-1" "feature" (some "aaaa")

abbrev pub other_env : EnvRecord
other_env = env_of "env-2" "bugfix" none
