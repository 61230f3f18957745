-- ===== src/Manifest/Topology.antt =====
-- `validateServicesTopology`. An error is a value that says what is wrong
-- and where, in place of its text.
pub mod WellFormed
use samohost.Prelude.{
  ℕ, zero, suc, ◌+◌, String, Bool, true, false, not, ◌&&◌, ◌||◌, ◌==◌, Option, none, some, List, [],
  ◌∷◌, ◌++◌, find, all, units, eqb, ltb, is_digit, is_lower, is_upper, if◌then◌else◌,
}
use samohost.Records.App.{
  AppKind, node, static, EnvDbBackend, no_db, ListenerSpec, ServiceSpec, RouteSpec,
}
use samohost.Services.{all_listeners, is_declared}

-- The index of a service, of a listener in its service, or of a route goes with the error.
pub data TopologyError : Type 0 where
  routes_without_services default_listener_required default_listener_unknown : TopologyError
  bad_service_name route_to_unknown route_to_unrouted : ℕ → TopologyError
  bad_listener_name bad_port_env : ℕ → ℕ → TopologyError

abbrev pub is_name_unit : ℕ → Bool
is_name_unit c = is_lower c || (is_digit c || eqb c b'-')

-- /^[a-z][a-z0-9-]*$/
abbrev pub is_route_name : List ℕ → Bool
is_route_name [] = false
is_route_name (c ∷ cs) = is_lower c && all is_name_unit cs

abbrev pub is_env_unit : ℕ → Bool
is_env_unit c = is_upper c || eqb c b'_'

-- /^[A-Z_][A-Z0-9_]*$/
abbrev pub is_port_env : List ℕ → Bool
is_port_env [] = false
is_port_env (c ∷ cs) = is_env_unit c && all (λ d. is_env_unit d || is_digit d) cs

abbrev pub error_unless : Bool → TopologyError → List TopologyError
error_unless true e = []
error_unless false e = e ∷ []

unfoldable pub listener_errors : ℕ → ℕ → List ListenerSpec → List TopologyError
listener_errors si li [] = []
listener_errors si li (ls ∷ rest) =
    error_unless (is_route_name (units ls.name)) (bad_listener_name si li)
    ++ (error_unless (is_port_env (units ls.port_env)) (bad_port_env si li)
        ++ listener_errors si (suc li) rest)

unfoldable pub service_errors : ℕ → List ServiceSpec → List TopologyError
service_errors si [] = []
service_errors si (svc ∷ rest) =
    error_unless (is_route_name (units svc.name)) (bad_service_name si)
    ++ (listener_errors si 0 svc.listeners ++ service_errors (suc si) rest)

abbrev pub default_errors : List ListenerSpec → Option String → List TopologyError
default_errors ls none = default_listener_required ∷ []
default_errors ls (some name) = error_unless (is_declared ls name) default_listener_unknown

-- `ls.routed !== false`
abbrev pub is_routed : Option Bool → Bool
is_routed none = true
is_routed (some routed) = routed

-- `routedMap.get(name)`: the last listener of a name decides.
unfoldable pub routed_map : List ListenerSpec → String → Option Bool
routed_map [] name = none
routed_map (l ∷ ls) name = elim (routed_map ls name) [
  | none ↦ if l.name == name then some (is_routed l.routed) else none
  | some routed ↦ some routed
]

abbrev pub is_unrouted : Option Bool → Bool
is_unrouted none = false
is_unrouted (some routed) = not routed

abbrev pub target_errors : List ListenerSpec → ℕ → Option String → List TopologyError
target_errors ls ri none = []
target_errors ls ri (some to) =
    if not (is_declared ls to)
    then route_to_unknown ri ∷ []
    else error_unless (not (is_unrouted (routed_map ls to))) (route_to_unrouted ri)

unfoldable pub route_errors : List ListenerSpec → ℕ → List RouteSpec → List TopologyError
route_errors ls ri [] = []
route_errors ls ri (route ∷ rest) = target_errors ls ri route.to ++ route_errors ls (suc ri) rest

abbrev pub optional_route_errors : List ListenerSpec → Option (List RouteSpec) → List TopologyError
optional_route_errors ls none = []
optional_route_errors ls (some routes) = route_errors ls 0 routes

abbrev pub unserved_routes : Option (List RouteSpec) → List TopologyError
unserved_routes none = []
unserved_routes (some []) = []
unserved_routes (some (route ∷ rest)) = routes_without_services ∷ []

unfoldable pub validate_services_topology :
    Option (List ServiceSpec) → Option (List RouteSpec) → Option String → List TopologyError
validate_services_topology none routes default_listener = unserved_routes routes
validate_services_topology (some services) routes default_listener =
    service_errors 0 services
    ++ (default_errors (all_listeners services) default_listener
        ++ optional_route_errors (all_listeners services) routes)
