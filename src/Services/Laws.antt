-- ===== src/Services/Laws.antt =====
-- The default listener of a view is one of its listeners.
use samohost.Prelude.{
  ℕ, String, true, ◌≡◌, refl, inl, inr, Option, none, some, List, Bool-cases, Option-cases,
}
use mathlib.Core.Path.{subst}
use samohost.Records.App.{AppSpec, ServiceSpec}
use samohost.Services.{
  Url, ServicesView, Services, viewed, threw, all_listeners, is_declared, services_of, legacy,
  declared, port_from_health_url,
}

abbrev IsServed : Services → Type 0
IsServed (threw e) = Unit
IsServed (viewed view) = is_declared (all_listeners view.services) view.default_listener ≡ true

module _ (parse_url : String → Option Url) where
  legacy-IsServed : (app : AppSpec) (port : Option ℕ) → IsServed (legacy parse_url app port)
  legacy-IsServed app none = tt
  legacy-IsServed app (some port) = refl

  declared-IsServed :
      (app : AppSpec) (services : List ServiceSpec) (name : Option String)
      → IsServed (declared parse_url app services name)
  declared-IsServed app services none = tt
  declared-IsServed app services (some name) =
      elim (Bool-cases (is_declared (all_listeners services) name)) [
        | inl known ↦ rw known known
        | inr unknown ↦ rw unknown tt
      ]

  services_of-IsServed : (app : AppSpec) → IsServed (services_of parse_url app)
  unfolding services_of
  services_of-IsServed app = elim (Option-cases app.services) [
    | inl e ↦ rw e (legacy-IsServed app (port_from_health_url parse_url app.health_url))
    | inr (services, e) ↦ rw e (declared-IsServed app services app.default_listener)
  ]

  pub services_of-declared :
      (app : AppSpec) {view : ServicesView}
      → services_of parse_url app ≡ viewed view
      → is_declared (all_listeners view.services) view.default_listener ≡ true
  services_of-declared app h = subst IsServed h (services_of-IsServed app)
