-- ===== src/Deploy/Register.antt =====
-- src/commands/app.ts, `runAppRegister`, and src/app/static-root.ts, `validateStaticRoot`: the checks
-- of a registration, and the record that it stores. A registration anew keeps the bookkeeping.
pub mod Checks
pub mod Sound
pub mod Kept
use samohost.Prelude.{
  ℕ, String, Bool, true, false, not, ◌&&◌, ◌||◌, ◌==◌, Option, none, some, List, [], ◌∷◌, ◌++◌, any,
  all, units, split_on, length, eqb, ltb, is_digit, is_lower, is_upper, if◌then◌else◌, Result,
  passed, refused, ◌>>=◌, ◌>>◌, need, require,
}
use samohost.Records.Vm.{VmRecord}
use samohost.Records.App.{
  AppKind, node, static, EnvDbBackend, MainListen, ServiceSpec, RouteSpec, AppSpec, AppRecord,
}
use samohost.LinuxUser.{UserError, optional_linux_app_user_error}
use samohost.State.Apps
use samohost.Deploy.Run.{find_vm}
use samohost.Deploy.CiGate.{is_canonical_release_ci_workflow}
use samohost.Manifest.Topology.{TopologyError, validate_services_topology}
use samohost.Manifest.StaticNoDb.{StaticNoDbSpec, DbField, validate_static_no_db}
use samohost.Preview.Names.{eq_units}

pub record AppRegisterInput : Type 0 where
  pub vm : String
  pub name : String
  pub repo : String
  pub branch : String
  pub app_dir : String
  pub build_cmd : String
  pub health_url : String
  pub service_unit : String
  pub main_host : Option String
  pub migrate_cmd : Option String
  pub seed_cmd : Option String
  pub env_file : Option String
  pub env_db_vars : Option (List String)
  pub rls_non_superuser : Bool
  pub rls_url_var : Option String
  pub kind : Option AppKind
  pub static_root : Option String
  pub db_backend : Option EnvDbBackend
  pub preview_db_backend : Option EnvDbBackend
  pub app_user : Option String
  pub services : Option (List ServiceSpec)
  pub routes : Option (List RouteSpec)
  pub default_listener : Option String
  pub main_listen : Option MainListen
  pub release_tag_pattern : Option String
  pub release_tag_format : Option String
  pub release_ci_workflow : Option String
  pub secrets : Option (List String)
  pub database_url_env : Option String

pub data RegisterError : Type 0 where
  invalid_app_user unsafe_app_user : UserError → RegisterError
  no_vm incomplete_release_policy unknown_ci_workflow no_main_host bad_static_root : RegisterError
  static_with_db : List DbField → RegisterError
  bad_topology : List TopologyError → RegisterError

abbrev pub is_static : Option AppKind → Bool
is_static none = false
is_static (some node) = false
is_static (some static) = true

-- /^[A-Za-z0-9._-]+$/, and neither "." nor ".."
abbrev is_segment_unit : ℕ → Bool
is_segment_unit c =
    is_lower c || (is_upper c || (is_digit c || (eqb c b'.' || (eqb c b'_' || eqb c b'-'))))

abbrev pub is_segment : List ℕ → Bool
is_segment s =
    not (eqb (length s) 0)
    && (not (eq_units s (b'.' ∷ []))
        && (not (eq_units s (b'.' ∷ b'.' ∷ [])) && all is_segment_unit s))

-- A leading or a trailing slash gives an empty segment, which is none.
unfoldable pub is_static_root : Option AppKind → Option String → Bool
is_static_root kind none = true
is_static_root kind (some root) =
    is_static kind
    && (not (eqb (length (units root)) 0) && all is_segment (split_on b'/' (units root)))

abbrev pub of_user_error : Option UserError → Result RegisterError (Unit {0})
of_user_error none = passed tt
of_user_error (some e) = refused (invalid_app_user e)

abbrev pub is_given {ℓ} : {A : Type ℓ} → Option A → Bool
is_given none = false
is_given (some a) = true

abbrev pub is_date : Option String → Bool
is_date none = false
is_date (some format) = format == "date"

abbrev pub no_fields : List DbField → Result RegisterError (Unit {0})
no_fields [] = passed tt
no_fields (f ∷ fs) = refused (static_with_db (f ∷ fs))

abbrev pub no_errors : List TopologyError → Result RegisterError (Unit {0})
no_errors [] = passed tt
no_errors (e ∷ es) = refused (bad_topology (e ∷ es))

module _ (input : AppRegisterInput) where
  unfoldable pub check_release_policy : Result RegisterError (Unit {0})
  check_release_policy = do
    require
        (not (is_given input.release_tag_pattern)
          || (is_date input.release_tag_format
              && is_canonical_release_ci_workflow input.release_ci_workflow))
        incomplete_release_policy
    require
        (not (is_given input.release_ci_workflow)
          || is_canonical_release_ci_workflow input.release_ci_workflow)
        unknown_ci_workflow
    require
        (not (is_static input.kind && is_given input.release_tag_pattern)
          || is_given input.main_host)
        no_main_host

  abbrev pub fields_of : StaticNoDbSpec
  fields_of = record {
    kind = input.kind;
    migrate_cmd = input.migrate_cmd;
    db_backend = input.db_backend;
    preview_db_backend = input.preview_db_backend;
    database_url_env = input.database_url_env;
    env_db_vars = input.env_db_vars;
  }

  unfoldable pub check_static_no_db : Result RegisterError (Unit {0})
  check_static_no_db = no_fields (validate_static_no_db fields_of)

  unfoldable pub check_topology : Result RegisterError (Unit {0})
  check_topology =
      if is_given input.services || (is_given input.routes || is_given input.default_listener)
      then no_errors (validate_services_topology input.services input.routes input.default_listener)
      else passed tt

  -- The machine, where every check passed.
  unfoldable pub checked : List VmRecord → Result RegisterError VmRecord
  checked vms = do
    of_user_error (optional_linux_app_user_error input.app_user)
    vm ← need (find_vm vms input.vm) no_vm
    check_release_policy
    require (is_static_root input.kind input.static_root) bad_static_root
    check_static_no_db
    check_topology
    passed vm

  abbrev filled : Option (List String) → Option (List String)
  filled none = none
  filled (some vars) = if ltb 0 (length vars) then some vars else none

  unfoldable pub spec_of : AppSpec
  spec_of = record {
    name = input.name;
    kind = input.kind;
    static_root = input.static_root;
    repo = input.repo;
    branch = input.branch;
    app_dir = input.app_dir;
    build_cmd = input.build_cmd;
    migrate_cmd = input.migrate_cmd;
    seed_cmd = input.seed_cmd;
    health_url = input.health_url;
    main_host = input.main_host;
    service_unit = input.service_unit;
    env_file = input.env_file;
    env_db_vars = filled input.env_db_vars;
    rls_url_var = input.rls_url_var;
    assertions =
        if input.rls_non_superuser then some (record { rls_non_superuser = some true }) else none;
    app_user = input.app_user;
    db_backend = input.db_backend;
    preview_db_backend = input.preview_db_backend;
    services = input.services;
    routes = input.routes;
    default_listener = input.default_listener;
    main_listen = input.main_listen;
    release_tag_pattern = input.release_tag_pattern;
    release_tag_format = input.release_tag_format;
    release_ci_workflow = input.release_ci_workflow;
    secrets = input.secrets;
    database_url_env = input.database_url_env;
  }

  abbrev pub same_text : Option String → Option String → Bool
  same_text none none = true
  same_text (some s) (some t) = s == t
  same_text _ _ = false

  abbrev pub same_policy : AppRecord → Bool
  same_policy old =
      same_text old.release_tag_pattern input.release_tag_pattern
      && (same_text old.release_tag_format input.release_tag_format
          && same_text old.release_ci_workflow input.release_ci_workflow)

  abbrev only_true : Option Bool → Option Bool
  only_true none = none
  only_true (some false) = none
  only_true (some true) = some true

  abbrev kept {ℓ} : {A : Type ℓ} → (AppRecord → Option A) → Option AppRecord → Option A
  kept field none = none
  kept field (some old) = field old

  abbrev under_policy {ℓ} : {A : Type ℓ} → (AppRecord → Option A) → Option AppRecord → Option A
  under_policy field none = none
  under_policy field (some old) = if same_policy old then field old else none

  abbrev id_or : String → Option AppRecord → String
  id_or uuid none = uuid
  id_or uuid (some old) = old.id

  -- The time of the last heal and the count of failed heals are not among what is kept.
  unfoldable pub app_record : String → VmRecord → Option AppRecord → AppRecord
  app_record uuid vm existing = record {
    spec = spec_of;
    id = id_or uuid existing;
    vm_id = vm.id;
    deployed_sha = kept (λ a. a.deployed_sha) existing;
    failed_sha = kept (λ a. a.failed_sha) existing;
    last_deploy_at = kept (λ a. a.last_deploy_at) existing;
    generator_sha = kept (λ a. a.generator_sha) existing;
    last_heal_at = none;
    release_tag_cursor = under_policy (λ a. a.release_tag_cursor) existing;
    release_tag_channel_initialized =
        under_policy (λ a. only_true a.release_tag_channel_initialized) existing;
    heal_fail_count = none;
  }

  abbrev pub saved :
      Apps.Upserted × Option (List AppRecord)
      → List AppRecord
      → Result RegisterError (AppRecord × List AppRecord)
  saved (Apps.stored a, none) apps = passed (a, apps)
  saved (Apps.stored a, some next) apps = passed (a, next)
  saved (Apps.rejected e, w) apps = refused (unsafe_app_user e)

  unfoldable pub run_app_register :
      String → List VmRecord → List AppRecord → Result RegisterError (AppRecord × List AppRecord)
  run_app_register uuid vms apps = do
    vm ← checked vms
    saved (Apps.upsert (app_record uuid vm (Apps.get vm.id input.name apps)) apps) apps
