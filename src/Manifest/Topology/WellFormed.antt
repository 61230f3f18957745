-- ===== src/Manifest/Topology/WellFormed.antt =====
-- Which topologies are accepted, and what `servicesOf` makes of an accepted one.
use samohost.Prelude.{
  ℕ, suc, String, Bool, true, false, not, ◌≡◌, ◌≢◌, ◌↔◌, refl, inl, inr, Option, none, some, List,
  [], ◌∷◌, All, both_nil, units, Bool-cases, arith,
}
use mathlib.Core.Path.{subst}
use samohost.Records.App.{AppSpec, ListenerSpec, ServiceSpec, RouteSpec}
use samohost.Services.{Url, ServicesView, viewed, all_listeners, is_declared, or_empty, services_of}
use samohost.Manifest.Topology.{
  TopologyError, is_route_name, is_port_env, error_unless, listener_errors, service_errors,
  default_errors, routed_map, is_unrouted, target_errors, route_errors, optional_route_errors,
  validate_services_topology,
}

abbrev pub IsListener : ListenerSpec → Type 0
IsListener l = (is_route_name (units l.name) ≡ true) × (is_port_env (units l.port_env) ≡ true)

abbrev pub IsService : ServiceSpec → Type 0
IsService svc = (is_route_name (units svc.name) ≡ true) × All IsListener svc.listeners

abbrev pub IsDefault : List ListenerSpec → Option String → Type 0
IsDefault ls none = ⊥
IsDefault ls (some name) = is_declared ls name ≡ true

-- A declared listener that is not kept from routing.
abbrev pub IsTarget : List ListenerSpec → Option String → Type 0
IsTarget ls none = Unit
IsTarget ls (some to) = (is_declared ls to ≡ true) × (routed_map ls to ≢ some false)

abbrev pub IsTopology : List ServiceSpec → Option (List RouteSpec) → Option String → Type 0
IsTopology services routes default_listener =
    All IsService services
    × (IsDefault (all_listeners services) default_listener
        × All (λ route. IsTarget (all_listeners services) route.to) (or_empty routes))

error_unless-none : (b : Bool) (e : TopologyError) → (error_unless b e ≡ []) ↔ (b ≡ true)
error_unless-none b e = (λ h. ground (arith, h), λ h. ground (arith, h))

listener_errors-none :
    (si li : ℕ) (ls : List ListenerSpec) → (listener_errors si li ls ≡ []) ↔ All IsListener ls
unfolding listener_errors
listener_errors-none si li [] = (λ h. tt, λ h. refl)
listener_errors-none si li (l ∷ ls) =
    let (to, from) = both_nil (error_unless-none (is_route_name (units l.name)) _) (
      both_nil (error_unless-none (is_port_env (units l.port_env)) _)
        (listener_errors-none si (suc li) ls)) in
    (λ h. let (a, (b, c)) = to h in ((a, b), c), λ h. from (h.0.0, (h.0.1, h.1)))

service_errors-none :
    (si : ℕ) (services : List ServiceSpec)
    → (service_errors si services ≡ []) ↔ All IsService services
unfolding service_errors
service_errors-none si [] = (λ h. tt, λ h. refl)
service_errors-none si (svc ∷ rest) =
    let (to, from) =
      both_nil (error_unless-none (is_route_name (units svc.name)) _)
        (both_nil (listener_errors-none si 0 svc.listeners) (service_errors-none (suc si) rest)) in
    (λ h. let (a, (b, c)) = to h in ((a, b), c), λ h. from (h.0.0, (h.0.1, h.1)))

default_errors-none :
    (ls : List ListenerSpec) (name : Option String)
    → (default_errors ls name ≡ []) ↔ IsDefault ls name
default_errors-none ls none = (λ h. absurd (ground (arith, h)), λ h. absurd h)
default_errors-none ls (some name) = error_unless-none (is_declared ls name) _

is_unrouted-false : (o : Option Bool) → (not (is_unrouted o) ≡ true) ↔ (o ≢ some false)
is_unrouted-false none = (λ _. λ h. ground (arith, h), λ _. refl)
is_unrouted-false (some true) = (λ _. λ h. ground (arith, h), λ _. refl)
is_unrouted-false (some false) = (λ h. absurd (ground (arith, h)), λ h. absurd (h refl))

target_errors-none :
    (ls : List ListenerSpec) (ri : ℕ) (to : Option String)
    → (target_errors ls ri to ≡ []) ↔ IsTarget ls to
target_errors-none ls ri none = (λ h. tt, λ h. refl)
target_errors-none ls ri (some to) = elim (Bool-cases (is_declared ls to)) [
  | inl known ↦ rw known (
      let (a, b) = error_unless-none (not (is_unrouted (routed_map ls to))) _ in
      let (c, d) = is_unrouted-false (routed_map ls to) in (λ h. (refl, c (a h)), λ h. b (d h.1)))
  | inr unknown ↦ rw unknown (λ h. absurd (ground (arith, h)), λ h. absurd (ground (arith, h.0)))
]

route_errors-none :
    (ls : List ListenerSpec) (ri : ℕ) (routes : List RouteSpec)
    → (route_errors ls ri routes ≡ []) ↔ All (λ route. IsTarget ls route.to) routes
unfolding route_errors
route_errors-none ls ri [] = (λ h. tt, λ h. refl)
route_errors-none ls ri (route ∷ rest) =
    both_nil (target_errors-none ls ri route.to) (route_errors-none ls (suc ri) rest)

optional_route_errors-none :
    (ls : List ListenerSpec) (routes : Option (List RouteSpec))
    → (optional_route_errors ls routes ≡ []) ↔ All (λ route. IsTarget ls route.to) (or_empty routes)
optional_route_errors-none ls none = (λ h. tt, λ h. refl)
optional_route_errors-none ls (some routes) = route_errors-none ls 0 routes

-- Declared services are accepted exactly if each name of a service and of a listener, and each
-- variable for a port, has its form, the default listener is declared, and each route with a target
-- goes to a declared listener that is not kept from routing.
pub validate_services_topology-none :
    (services : List ServiceSpec) (routes : Option (List RouteSpec))
    (default_listener : Option String)
    → (validate_services_topology (some services) routes default_listener ≡ [])
      ↔ IsTopology services routes default_listener
unfolding validate_services_topology
validate_services_topology-none services routes default_listener =
    both_nil (service_errors-none 0 services) (
      both_nil (default_errors-none (all_listeners services) default_listener)
        (optional_route_errors-none (all_listeners services) routes))

services_of-default :
    (parse_url : String → Option Url) (app : AppSpec) (services : List ServiceSpec)
    (name : Option String)
    → app.services ≡ some services
    → app.default_listener ≡ name
    → IsDefault (all_listeners services) name
    → (view : ServicesView) × (services_of parse_url app ≡ viewed view)
      × (view.services ≡ services)
      × (view.routes ≡ or_empty app.routes)
      × (some view.default_listener ≡ name)
unfolding services_of
services_of-default parse_url app services none s d h = absurd h
services_of-default parse_url app services (some name) s d h = (
  record { services = services; routes = or_empty app.routes; default_listener = name },
  rw (s, d, h) refl,
  refl,
  refl,
  refl,
)

-- An app whose declared topology is accepted has a view of its services, which `servicesOf` gives
-- without an error: it holds the declared services, the declared routes and the declared default
-- listener.
pub services_of-validated :
    (parse_url : String → Option Url) (app : AppSpec) (services : List ServiceSpec)
    → app.services ≡ some services
    → validate_services_topology app.services app.routes app.default_listener ≡ []
    → (view : ServicesView) × (services_of parse_url app ≡ viewed view)
      × (view.services ≡ services)
      × (view.routes ≡ or_empty app.routes)
      × (some view.default_listener ≡ app.default_listener)
services_of-validated parse_url app services s h =
    services_of-default parse_url app services app.default_listener s refl
      ((validate_services_topology-none services app.routes app.default_listener).0
        (subst (λ x. validate_services_topology x app.routes app.default_listener ≡ []) s h)).1.0
