-- ===== src/Records/App.antt =====
-- src/types.ts: the specification and the record of an app. `AppRecord extends AppSpec`: here the
-- record has a field `spec`, opened, so that `a.repo` is `a.spec.repo`.
use samohost.Prelude.{ℕ, String, Bool, Option, List}

pub data EnvDbBackend : Type 0 where
  dblab template no_db : EnvDbBackend

pub data AppKind : Type 0 where
  node static : AppKind

pub data MainListen : Type 0 where
  cp_http80 tls : MainListen

pub record ListenerSpec : Type 0 where
  pub name : String
  pub port : ℕ
  pub port_env : String
  pub health_path : Option String
  pub routed : Option Bool

pub record ServiceSpec : Type 0 where
  pub name : String
  pub unit : String
  pub exec_start : Option String
  pub listeners : List ListenerSpec

pub record RouteRespond : Type 0 where
  pub status : ℕ
  pub body : String

pub record RouteSpec : Type 0 where
  pub name : Option String
  pub match_path : Option String
  pub match_regexp : Option String
  pub to : Option String
  pub respond : Option RouteRespond

pub record AppAssertions : Type 0 where
  pub rls_non_superuser : Option Bool

pub record AppSpec : Type 0 where
  pub name : String
  pub kind : Option AppKind
  pub static_root : Option String
  pub repo : String
  pub branch : String
  pub app_dir : String
  pub build_cmd : String
  pub migrate_cmd : Option String
  pub seed_cmd : Option String
  pub health_url : String
  pub main_host : Option String
  pub service_unit : String
  pub env_file : Option String
  pub env_db_vars : Option (List String)
  pub rls_url_var : Option String
  pub assertions : Option AppAssertions
  pub app_user : Option String
  pub db_backend : Option EnvDbBackend
  pub preview_db_backend : Option EnvDbBackend
  pub services : Option (List ServiceSpec)
  pub routes : Option (List RouteSpec)
  pub default_listener : Option String
  pub main_listen : Option MainListen
  pub release_tag_pattern : Option String
  -- The one literal of the type is "date".
  pub release_tag_format : Option String
  pub release_ci_workflow : Option String
  pub secrets : Option (List String)
  pub database_url_env : Option String

pub record AppRecord : Type 0 where
  pub spec : AppSpec
  pub open spec use *
  pub id : String
  pub vm_id : String
  pub deployed_sha : Option String
  pub failed_sha : Option String
  pub last_deploy_at : Option String
  pub generator_sha : Option String
  pub last_heal_at : Option String
  pub release_tag_cursor : Option String
  pub release_tag_channel_initialized : Option Bool
  pub heal_fail_count : Option ℕ
