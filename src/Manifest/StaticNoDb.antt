-- ===== src/Manifest/StaticNoDb.antt =====
-- `validateStaticNoDb`: a static app declares no field of a database.
use samohost.Prelude.{String, Option, none, some, List, [], ◌∷◌, ◌++◌, ltb, length, if◌then◌else◌}
use samohost.Records.App.{AppKind, node, static, EnvDbBackend, no_db}

pub record StaticNoDbSpec : Type 0 where
  pub kind : Option AppKind
  pub migrate_cmd : Option String
  pub db_backend : Option EnvDbBackend
  pub preview_db_backend : Option EnvDbBackend
  pub database_url_env : Option String
  pub env_db_vars : Option (List String)

pub data DbField : Type 0 where
  migrate_cmd db_backend preview_db_backend database_url_env env_db_vars : DbField

abbrev pub if_given {ℓ} : {A : Type ℓ} → Option A → DbField → List DbField
if_given none field = []
if_given (some a) field = field ∷ []

-- "none" says that there is no database.
abbrev pub if_backend : Option EnvDbBackend → DbField → List DbField
if_backend none field = []
if_backend (some no_db) field = []
if_backend (some _) field = field ∷ []

abbrev pub if_filled : Option (List String) → DbField → List DbField
if_filled none field = []
if_filled (some vars) field = if ltb 0 (length vars) then field ∷ [] else []

abbrev pub offending : StaticNoDbSpec → List DbField
offending spec =
    if_given spec.migrate_cmd migrate_cmd
    ++ (if_backend spec.db_backend db_backend
        ++ (if_backend spec.preview_db_backend preview_db_backend
            ++ (if_given spec.database_url_env database_url_env
                ++ if_filled spec.env_db_vars env_db_vars)))

-- The offending fields; the error names them all, and there is none where there is no such field.
unfoldable pub validate_static_no_db : StaticNoDbSpec → List DbField
validate_static_no_db spec = elim spec.kind [
  | none ↦ []
  | some node ↦ []
  | some static ↦ offending spec
]
