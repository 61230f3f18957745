-- ===== src/Preview/Target.antt =====
-- src/commands/env.ts, `deriveTarget` and `isValidPreviewDomain`, and src/env/script.ts,
-- `targetFromRecord`: the name, the ports and the host name of an environment.
pub mod Fresh
use Prim.Native.Char.{Char, char, code}
use Prim.Native.String.{◌++◌ as ◌+++◌}
use samohost.Prelude.{
  ℕ, zero, suc, ◌+◌, ◌-◌, String, Bool, true, false, not, ◌&&◌, ◌||◌, ◌==◌, Option, none, some,
  List, [], ◌∷◌, ◌++◌, map, find, all, units, split_on, text_of, length, eqb, ltb, leb, is_digit,
  is_lower, to_lower_case, if◌then◌else◌,
}
use samohost.Records.App.{EnvDbBackend, dblab, template, no_db, ListenerSpec, AppRecord}
use samohost.Records.Env.{EnvRecord}
use samohost.Services.{
  Url, ServicesError, ServicesView, Services, threw, viewed, all_listeners, services_of,
}
use samohost.Preview.Names.{is_plain, eq_units, env_name}
use samohost.Preview.Ports.{PortPool, allocate_port}

pub record EnvScriptTarget : Type 0 where
  pub name : String
  pub branch : String
  pub port : ℕ
  pub ports : Option (List (String × ℕ))
  pub vhost : String
  pub db_backend : EnvDbBackend
  pub db_name : Option String
  pub template_db : Option String

unfoldable pub target_from_record : EnvRecord → EnvScriptTarget
target_from_record e = record {
  name = e.name;
  branch = e.branch;
  port = e.port;
  ports = e.ports;
  vhost = e.vhost;
  db_backend = e.db_backend;
  db_name = e.db_name;
  template_db = e.template_db;
}

abbrev is_inner : ℕ → Bool
is_inner c = is_plain c || eqb c b'-'

-- `[a-z0-9-]*[a-z0-9]`, or nothing.
unfoldable pub ends_plain : List ℕ → Bool
ends_plain [] = true
ends_plain (c ∷ []) = is_plain c
ends_plain (c ∷ d ∷ ds) = is_inner c && ends_plain (d ∷ ds)

-- `[a-z0-9](?:[a-z0-9-]{0,61}[a-z0-9])?`
unfoldable pub is_dns_label : List ℕ → Bool
is_dns_label [] = false
is_dns_label (c ∷ cs) = is_plain c && (ends_plain cs && leb (length cs) 62)

-- `[a-z]{2,63}`
abbrev is_tld : List ℕ → Bool
is_tld cs = all is_lower cs && (leb 2 (length cs) && leb (length cs) 63)

-- The labels up to the last one, and the last one after at least one other.
unfoldable pub are_labels : Bool → List (List ℕ) → Bool
are_labels after [] = false
are_labels after (l ∷ []) = after && is_tld l
are_labels after (l ∷ m ∷ ms) = is_dns_label l && are_labels true (m ∷ ms)

unfoldable pub is_valid_preview_domain : String → Bool
is_valid_preview_domain domain =
    let d = units domain in
    not (eqb (length d) 0)
    && (leb (length d) 253
        && (are_labels false (split_on b'.' (to_lower_case d)) && eq_units d (to_lower_case d)))

abbrev dash_to_underscore : Char → Char
dash_to_underscore c = if eqb (code c) b'-' then char 95 tt else c

-- `name.replace(/-/g, "_")`
unfoldable pub underscored : String → String
underscored String.[] = String.[]
underscored (String.◌∷◌ c s) = String.◌∷◌ (dash_to_underscore c) (underscored s)

-- `ports[name] = port` of an object.
unfoldable pub set_port : String → ℕ → List (String × ℕ) → List (String × ℕ)
set_port name port [] = (name, port) ∷ []
set_port name port ((n, p) ∷ rest) =
    let later = set_port name port rest in if n == name then (n, port) ∷ rest else (n, p) ∷ later

-- One port for each listener, in order; `none` where the pool has no free port left.
unfoldable pub allocate_ports :
    PortPool → List ListenerSpec → List ℕ → List (String × ℕ) → Option (List (String × ℕ))
allocate_ports pool [] used allocated = some allocated
allocate_ports pool (l ∷ ls) used allocated = elim (allocate_port used pool) [
  | none ↦ none
  | some found ↦ allocate_ports pool ls (found ∷ used) (set_port l.name found allocated)
]

abbrev pub port_values : List (String × ℕ) → List ℕ
port_values ports = map (λ e. e.1) ports

abbrev pub listener_ports : EnvRecord → List ℕ
listener_ports e = elim e.ports [ none ↦ [] | some ports ↦ port_values ports ]

unfoldable pub all_listener_ports : List EnvRecord → List ℕ
all_listener_ports [] = []
all_listener_ports (e ∷ es) = listener_ports e ++ all_listener_ports es

abbrev pub all_used : List EnvRecord → List ℕ → List ℕ
all_used existing extra = map (λ e. e.port) existing ++ (all_listener_ports existing ++ extra)

abbrev pub port_for : String → List (String × ℕ) → Option (String × ℕ)
port_for name ports = find (λ e. e.0 == name) ports

-- The names that exist and their branches: of two records with one name, the later one counts.
unfoldable pub names_of : List EnvRecord → List (List ℕ × List ℕ)
names_of [] = []
names_of (e ∷ es) = names_of es ++ (units e.name, units e.branch) ∷ []

pub data TargetError : Type 0 where
  invalid_preview_domain port_pool_exhausted default_listener_without_port : TargetError

pub data Derived : Type 0 where
  derived : EnvScriptTarget → Derived
  underivable : TargetError → Derived
  -- `servicesOf` threw.
  rejected : ServicesError → Derived

module _ (parse_url : String → Option Url) (app : AppRecord) (branch : String) (db : EnvDbBackend)
    (preview_domain : String) (existing : List EnvRecord) (pool : PortPool)
    (template_db : Option String) (extra_used_ports : List ℕ) where
  abbrev pub target_name : String
  target_name = text_of (env_name (units app.name) (units branch) (names_of existing))

  abbrev db_name_for : EnvDbBackend → Option String
  db_name_for dblab = some target_name
  db_name_for template = some (underscored target_name)
  db_name_for no_db = none

  abbrev template_db_for : EnvDbBackend → Option String
  template_db_for template = template_db
  template_db_for _ = none

  abbrev pub target_with : List ListenerSpec → List (String × ℕ) → ℕ → EnvScriptTarget
  target_with ls ports port = record {
    name = target_name;
    branch = branch;
    port = port;
    ports = if ltb 1 (length ls) then some ports else none;
    vhost = target_name +++ "." +++ preview_domain;
    db_backend = db;
    db_name = db_name_for db;
    template_db = template_db_for db;
  }

  abbrev pub with_default : List ListenerSpec → List (String × ℕ) → Option (String × ℕ) → Derived
  with_default ls ports none = underivable default_listener_without_port
  with_default ls ports (some (name, port)) = derived (target_with ls ports port)

  abbrev pub with_ports : ServicesView → Option (List (String × ℕ)) → Derived
  with_ports view none = underivable port_pool_exhausted
  with_ports view (some ports) =
      with_default (all_listeners view.services) ports (port_for view.default_listener ports)

  abbrev pub with_services : Services → Derived
  with_services (threw e) = rejected e
  with_services (viewed view) =
      with_ports view
        (allocate_ports pool (all_listeners view.services) (all_used existing extra_used_ports) [])

  unfoldable pub derive_target : Derived
  derive_target =
      if is_valid_preview_domain preview_domain
      then with_services (services_of parse_url app.spec)
      else underivable invalid_preview_domain
