-- ===== src/Services.antt =====
-- src/app/services.ts: the services, routes and default listener of an app, `servicesOf`, declared or
-- made up for an app of one service. The URL parser is a parameter.
pub mod Laws
use samohost.Prelude.{
  ℕ, String, Bool, true, false, Option, none, some, List, [], ◌∷◌, ◌++◌, any, ◌==◌, if◌then◌else◌,
}
use samohost.Records.App.{ListenerSpec, ServiceSpec, RouteSpec, AppSpec}

-- What `new URL` tells of a text; `port` is `none` where `url.port` is empty.
pub record Url : Type 0 where
  pub port : Option ℕ
  pub protocol : String

pub record ServicesView : Type 0 where
  pub services : List ServiceSpec
  pub routes : List RouteSpec
  pub default_listener : String

-- The three errors that `servicesOf` throws.
pub data ServicesError : Type 0 where
  no_default_listener unknown_default_listener unparseable_health_url : ServicesError

pub data Services : Type 0 where
  threw : ServicesError → Services
  viewed : ServicesView → Services

-- `services.flatMap((svc) => svc.listeners)`
abbrev pub all_listeners : List ServiceSpec → List ListenerSpec
all_listeners [] = []
all_listeners (svc ∷ rest) = svc.listeners ++ all_listeners rest

-- `allListenerNames.has(name)`
abbrev pub is_declared : List ListenerSpec → String → Bool
is_declared ls name = any (λ l. l.name == name) ls

abbrev pub or_empty {ℓ} : {A : Type ℓ} → Option (List A) → List A
or_empty none = []
or_empty (some xs) = xs

module _ (parse_url : String → Option Url) where
  abbrev port_of_url : Url → ℕ
  port_of_url u = elim u.port [
    | none ↦ if u.protocol == "https:" then 443 else 80
    | some port ↦ port
  ]

  unfoldable pub port_from_health_url : String → Option ℕ
  port_from_health_url health_url = elim (parse_url health_url) [
    | none ↦ none
    | some u ↦ some (port_of_url u)
  ]

  abbrev pub declared : AppSpec → List ServiceSpec → Option String → Services
  declared app services none = threw no_default_listener
  declared app services (some name) =
      if is_declared (all_listeners services) name
      then viewed
          (record { services = services; routes = or_empty app.routes; default_listener = name })
      else threw unknown_default_listener

  abbrev web_listener : ℕ → ListenerSpec
  web_listener port = record {
    name = "web";
    port = port;
    port_env = "PORT";
    health_path = some "/";
    routed = none;
  }

  abbrev web_service : AppSpec → ℕ → ServiceSpec
  web_service app port = record {
    name = "web";
    unit = app.service_unit;
    exec_start = none;
    listeners = web_listener port ∷ [];
  }

  abbrev pub legacy : AppSpec → Option ℕ → Services
  legacy app none = threw unparseable_health_url
  legacy app (some port) =
      viewed
        (record { services = web_service app port ∷ []; routes = []; default_listener = "web" })

  unfoldable pub services_of : AppSpec → Services
  services_of app = elim app.services [
    | none ↦ legacy app (port_from_health_url app.health_url)
    | some services ↦ declared app services app.default_listener
  ]
