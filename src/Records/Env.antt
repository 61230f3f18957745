-- ===== src/Records/Env.antt =====
-- src/types.ts: the record of a preview environment.
use samohost.Prelude.{ℕ, String, Option, List}
use samohost.Records.App.{EnvDbBackend}

pub record EnvRecord : Type 0 where
  pub id : String
  pub vm_id : String
  pub app_name : String
  pub branch : String
  pub name : String
  pub port : ℕ
  pub vhost : String
  pub db_backend : EnvDbBackend
  pub db_name : Option String
  pub template_db : Option String
  pub created_at : String
  pub last_deployed_sha : Option String
  pub pr_number : Option ℕ
  pub last_access : Option String
  pub ports : Option (List (String × ℕ))
