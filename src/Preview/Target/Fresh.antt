-- ===== src/Preview/Target/Fresh.antt =====
-- The ports of a derived target: in the pool, not in use, and one for each listener.
use samohost.Prelude.{
  ℕ, ◌+◌, ◌≤◌, ◌<◌, ◌≡◌, ◌⊎◌, refl, ap, inl, inr, eqb, eqb→eq, String, Bool, true, false, ◌==◌,
  Option, none, some, List, [], ◌∷◌, All, arith, Bool-cases, Option-cases, Distinct, ltb, length,
  if◌then◌else◌,
}
use mathlib.Core.Path.{subst}
use samohost.Records.App.{ListenerSpec, EnvDbBackend, AppRecord}
use samohost.Records.Env.{EnvRecord}
use samohost.Services.{Url, ServicesView, Services, threw, viewed, all_listeners, services_of}
use samohost.Preview.Ports.{PortPool, taken, allocate_port}
use samohost.Preview.Ports.Lowest.{Found, lowest, exhausted, allocate_port-Found}
use samohost.Preview.Target.{
  set_port, allocate_ports, port_values, port_for, EnvScriptTarget, Derived, derived, underivable,
  rejected, invalid_preview_domain, all_used, with_default, with_ports, with_services,
  derive_target, is_valid_preview_domain,
}

-- In the pool and not among the used ports.
abbrev pub IsFresh : PortPool → List ℕ → ℕ → Type 0
IsFresh pool used p = (pool.base ≤ p) × (p < pool.base + pool.size) × (taken used p ≡ false)

abbrev pub AreDistinct : List ℕ → Type 0
AreDistinct = Distinct eqb

allocate_port-IsFresh :
    (used : List ℕ) (pool : PortPool) {p : ℕ}
    → allocate_port used pool ≡ some p
    → IsFresh pool used p
allocate_port-IsFresh used pool {p} h =
    of_found (allocate_port used pool) (allocate_port-Found used pool) h
  where
    of_found : (r : Option ℕ) → Found used pool.base pool.size r → r ≡ some p → IsFresh pool used p
    of_found _ (lowest q low high is_free below) e = ground (arith, low, high, is_free, e)
    of_found _ (exhausted full) e = absurd (ground (arith, e))

All-set_port :
    (P : ℕ → Type 0) (name : String) (port : ℕ) (ports : List (String × ℕ))
    → P port
    → All P (port_values ports)
    → All P (port_values (set_port name port ports))
unfolding set_port
All-set_port P name port [] new old = (new, tt)
All-set_port P name port ((n, p) ∷ rest) new (h, hs) = elim (Bool-cases (n == name)) [
  | inl e ↦ rw (e, port_values) (new, hs)
  | inr e ↦ rw (e, port_values) (h, All-set_port P name port rest new hs)
]

AreDistinct-set_port :
    (name : String) (port : ℕ) (ports : List (String × ℕ))
    → All (λ q. eqb q port ≡ false) (port_values ports)
    → AreDistinct (port_values ports)
    → AreDistinct (port_values (set_port name port ports))
unfolding set_port
AreDistinct-set_port name port [] apart d = (tt, tt)
AreDistinct-set_port name port ((n, p) ∷ rest) (a, apart) (h, d) = elim (Bool-cases (n == name)) [
  | inl e ↦ rw (e, port_values) (flipped (port_values rest) apart, d)
  | inr e ↦
      rw (e, port_values)
        (
          All-set_port (λ q. eqb p q ≡ false) name port rest a h,
          AreDistinct-set_port name port rest apart d,
        )
]
  where
    flipped : (qs : List ℕ) → All (λ q. eqb q port ≡ false) qs → All (λ q. eqb port q ≡ false) qs
    flipped [] hs = tt
    flipped (q ∷ qs) (h, hs) = (ground (arith, h), flipped qs hs)

taken-apart :
    (used : List ℕ) (port : ℕ) (qs : List ℕ)
    → taken used port ≡ false
    → All (λ q. taken used q ≡ true) qs
    → All (λ q. eqb q port ≡ false) qs
taken-apart used port [] is_free hs = tt
taken-apart used port (q ∷ qs) is_free (h, hs) =
    (apart (Bool-cases (eqb q port)), taken-apart used port qs is_free hs)
  where
    apart : (eqb q port ≡ true) ⊎ (eqb q port ≡ false) → eqb q port ≡ false
    apart (inr e) = e
    apart (inl e) = absurd (ground (arith, h, is_free, ap (taken used) (eqb→eq q port e)))

taken-more :
    (used : List ℕ) (port : ℕ) (qs : List ℕ)
    → All (λ q. taken used q ≡ true) qs
    → All (λ q. taken (port ∷ used) q ≡ true) qs
taken-more used port [] hs = tt
taken-more used port (q ∷ qs) (h, hs) = (ground (arith, h), taken-more used port qs hs)

-- What holds between two allocations, of the ports that were in use at the start.
abbrev Between : PortPool → List ℕ → List ℕ → List (String × ℕ) → Type 0
Between pool start used ports =
    All (IsFresh pool start) (port_values ports)
    × AreDistinct (port_values ports)
    × All (λ q. taken used q ≡ true) (port_values ports)
    × ((q : ℕ) → taken used q ≡ false → taken start q ≡ false)

abbrev AreFresh : PortPool → List ℕ → List (String × ℕ) → Type 0
AreFresh pool used ports =
    All (IsFresh pool used) (port_values ports) × AreDistinct (port_values ports)

allocate_ports-Between :
    (pool : PortPool) (start : List ℕ) (ls : List ListenerSpec) (used : List ℕ)
    (ports : List (String × ℕ)) {allocated : List (String × ℕ)}
    → Between pool start used ports
    → allocate_ports pool ls used ports ≡ some allocated
    → AreFresh pool start allocated
unfolding allocate_ports
allocate_ports-Between pool start [] used ports {allocated} b h =
    subst (AreFresh pool start) (ground (arith, h)) (b.0, b.1)
allocate_ports-Between pool start (l ∷ ls) used ports {allocated} b h =
    elim (Option-cases (allocate_port used pool)) [
      | inl e ↦ absurd (ground (arith, e, h))
      | inr (found, e) ↦
          allocate_ports-Between pool start ls (found ∷ used) (set_port l.name found ports)
            (extended found (allocate_port-IsFresh used pool e)) (ground (arith, e, h))
    ]
  where
    extended :
        (found : ℕ)
        → IsFresh pool used found
        → Between pool start (found ∷ used) (set_port l.name found ports)
    extended found (low, high, is_free) =
        let (fresh, d, are_taken, still) = b in
        (
          All-set_port (IsFresh pool start) l.name found ports (low, high, still found is_free)
              fresh,
          AreDistinct-set_port l.name found ports
              (taken-apart used found (port_values ports) is_free are_taken) d,
          All-set_port (λ q. taken (found ∷ used) q ≡ true) l.name found ports (ground arith)
              (taken-more used found (port_values ports) are_taken),
          λ q free_now. still q (ground (arith, free_now)),
        )

pub allocate_ports-AreFresh :
    (pool : PortPool) (ls : List ListenerSpec) (used : List ℕ) {ports : List (String × ℕ)}
    → allocate_ports pool ls used [] ≡ some ports
    → All (IsFresh pool used) (port_values ports) × AreDistinct (port_values ports)
allocate_ports-AreFresh pool ls used h =
    allocate_ports-Between pool used ls used [] (tt, tt, tt, λ q is_free. is_free) h

-- The port under a name is one of the ports.
pub All-port_for :
    (P : ℕ → Type 0) (name : String) (ports : List (String × ℕ)) {n : String} {p : ℕ}
    → port_for name ports ≡ some (n, p)
    → All P (port_values ports)
    → P p
All-port_for P name [] {n} {p} h all = absurd (ground (arith, h))
All-port_for P name ((m, q) ∷ rest) {n} {p} h (a, all) = elim (Bool-cases (m == name)) [
  | inl e ↦ subst P (ground (arith, e, h)) a
  | inr e ↦ All-port_for P name rest {n = n} (ground (arith, e, h)) all
]

abbrev pub target_ports : EnvScriptTarget → List ℕ
target_ports t = t.port ∷ (elim t.ports [ none ↦ [] | some ports ↦ port_values ports ])

-- Fresh ports, if there is a target.
abbrev HasFresh : PortPool → List ℕ → Derived → Type 0
HasFresh pool used (derived t) = All (IsFresh pool used) (target_ports t)
HasFresh pool used (underivable e) = Unit
HasFresh pool used (rejected e) = Unit

module _ (parse_url : String → Option Url) (app : AppRecord) (branch : String) (db : EnvDbBackend)
    (domain : String) (existing : List EnvRecord) (pool : PortPool) (template_db : Option String)
    (extra : List ℕ) where
  abbrev used : List ℕ
  used = all_used existing extra

  kept_ports :
      (many : Bool) (ports : List (String × ℕ))
      → All (IsFresh pool used) (port_values ports)
      → All
          (IsFresh pool used)
          (elim (if many then some ports else none) [ none ↦ [] | some ps ↦ port_values ps ])
  kept_ports true ports h = h
  kept_ports false ports h = tt

  with_default-HasFresh :
      (ls : List ListenerSpec) (ports : List (String × ℕ)) (o : Option (String × ℕ))
      → All (IsFresh pool used) (port_values ports)
      → ((n : String) (p : ℕ) → o ≡ some (n, p) → IsFresh pool used p)
      → HasFresh pool used
          (with_default parse_url app branch db domain existing pool template_db extra ls ports o)
  with_default-HasFresh ls ports none h one = tt
  with_default-HasFresh ls ports (some (n, p)) h one =
      (one n p refl, kept_ports (ltb 1 (length ls)) ports h)

  with_ports-HasFresh :
      (view : ServicesView) (o : Option (List (String × ℕ)))
      → allocate_ports pool (all_listeners view.services) used [] ≡ o
      → HasFresh pool used
          (with_ports parse_url app branch db domain existing pool template_db extra view o)
  with_ports-HasFresh view none h = tt
  with_ports-HasFresh view (some ports) h =
      let fresh = (allocate_ports-AreFresh pool (all_listeners view.services) used h).0 in
      with_default-HasFresh (all_listeners view.services) ports
        (port_for view.default_listener ports) fresh
        (λ n p e. All-port_for (IsFresh pool used) view.default_listener ports e fresh)

  with_services-HasFresh :
      (s : Services)
      → HasFresh pool used
          (with_services parse_url app branch db domain existing pool template_db extra s)
  with_services-HasFresh (threw e) = tt
  with_services-HasFresh (viewed view) =
      with_ports-HasFresh view (allocate_ports pool (all_listeners view.services) used []) refl

  -- Each port of a derived target lies in the pool, and is neither a port of an environment of the
  -- machine nor one of the extra ports.
  pub derive_target-IsFresh :
      {t : EnvScriptTarget}
      → derive_target parse_url app branch db domain existing pool template_db extra ≡ derived t
      → All (IsFresh pool (all_used existing extra)) (target_ports t)
  unfolding derive_target
  derive_target-IsFresh h =
      subst (HasFresh pool used) h
        (valid (is_valid_preview_domain domain) (services_of parse_url app.spec))
    where
      valid :
          (b : Bool) (s : Services)
          → HasFresh pool used (
              if b
              then with_services parse_url app branch db domain existing pool template_db extra s
              else underivable invalid_preview_domain)
      valid true s = with_services-HasFresh s
      valid false s = tt
