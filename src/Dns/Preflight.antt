-- ===== src/Dns/Preflight.antt =====
-- src/dns/preflight.ts: `classifyAuthority`, `evaluateWildcard`, `evaluateDnsPreflight`. A reason is a
-- value in place of its text.
pub mod Ready
use samohost.Prelude.{
  ℕ, String, Bool, true, false, not, ◌&&◌, ◌||◌, ◌==◌, Option, none, some, List, [], ◌∷◌, ◌++◌, map,
  any, all, units, to_lower_case, eqb, if◌then◌else◌,
}
use samohost.Preview.Names.{eq_units}

pub data DnsAuthority : Type 0 where
  cloudflare namecheap other unresolved : DnsAuthority

pub data WildcardState : Type 0 where
  present absent mismatch unknown : WildcardState

pub data WildcardSource : Type 0 where
  cloudflare_api public_dns : WildcardSource

pub data LookupResult : Type 0 where
  records : List String → LookupResult
  nxdomain : LookupResult
  failed_lookup : LookupResult

pub record CfWildcardRecord : Type 0 where
  pub found : Bool
  pub content : Option String
  pub proxied : Option Bool

pub data Reason : Type 0 where
  no_cf_record stale_public_record cf_probe_failed not_propagated : Reason
  cf_mismatch : Bool → Reason
  likely_edge_ips public_mismatch no_wildcard lookup_failed cf_read_failed : Reason
  no_token zone_not_covered no_namecheap_provider unknown_authority ns_unresolved : Reason

pub record DnsPreflightInput : Type 0 where
  pub domain : String
  pub ns : LookupResult
  pub wildcard_probe : LookupResult
  pub expected_ip : Option String
  pub cloudflare_token_present : Bool
  pub cloudflare_zones : List String
  pub cf_wildcard_record : Option CfWildcardRecord
  pub cf_lookup_error : Option String

pub record DnsPreflightReport : Type 0 where
  pub domain : String
  pub authority : DnsAuthority
  pub wildcard : WildcardState
  pub wildcard_source : WildcardSource
  pub proxied : Option Bool
  pub observed_ips : Option (List String)
  pub serving_ready : Bool
  pub automation_ready : Bool
  pub reasons : List Reason

-- `text.endsWith(suffix)`, the suffix first.
unfoldable pub ends_with : List ℕ → List ℕ → Bool
ends_with suffix [] = eq_units suffix []
ends_with suffix (c ∷ cs) = eq_units suffix (c ∷ cs) || ends_with suffix cs

-- `.replace(/\.$/, "")`
unfoldable pub without_dot : List ℕ → List ℕ
without_dot [] = []
without_dot (c ∷ []) = if eqb c b'.' then [] else c ∷ []
without_dot (c ∷ d ∷ ds) = c ∷ without_dot (d ∷ ds)

abbrev pub lower_hosts : List String → List (List ℕ)
lower_hosts values = map (λ v. without_dot (to_lower_case (units v))) values

unfoldable pub authority_of : List String → DnsAuthority
authority_of [] = unresolved
authority_of (v ∷ vs) =
    if all (ends_with (units ".ns.cloudflare.com")) (lower_hosts (v ∷ vs))
    then cloudflare
    else if all (ends_with (units ".registrar-servers.com")) (lower_hosts (v ∷ vs))
    then namecheap
    else other

abbrev pub classify_authority : LookupResult → DnsAuthority
classify_authority (records values) = authority_of values
classify_authority nxdomain = unresolved
classify_authority failed_lookup = unresolved

abbrev pub includes_ip : String → List String → Bool
includes_ip ip values = any (λ v. v == ip) values

abbrev pub evaluate_records : List String → Option String → WildcardState
evaluate_records [] expected_ip = absent
evaluate_records (v ∷ vs) none = present
evaluate_records (v ∷ vs) (some ip) = if includes_ip ip (v ∷ vs) then present else mismatch

abbrev pub evaluate_wildcard : LookupResult → Option String → WildcardState
evaluate_wildcard (records values) expected_ip = evaluate_records values expected_ip
evaluate_wildcard nxdomain expected_ip = absent
evaluate_wildcard failed_lookup expected_ip = unknown

abbrev pub observed : LookupResult → Option (List String)
observed (records values) = some values
observed nxdomain = none
observed failed_lookup = none

abbrev pub resolves : LookupResult → Bool
resolves (records []) = false
resolves (records (v ∷ vs)) = true
resolves nxdomain = false
resolves failed_lookup = false

-- What the judgment of the wildcard gives: its state, its source, `proxied`, and the reasons.
pub record Judged : Type 0 where
  pub state : WildcardState
  pub source : WildcardSource
  pub proxied : Option Bool
  pub reasons : List Reason

abbrev by_api : WildcardState → Option Bool → List Reason → Judged
by_api state proxied reasons = record {
  state = state;
  source = cloudflare_api;
  proxied = proxied;
  reasons = reasons;
}

abbrev by_dns : WildcardState → List Reason → Judged
by_dns state reasons = record {
  state = state;
  source = public_dns;
  proxied = none;
  reasons = reasons;
}

abbrev pub or_false : Option Bool → Bool
or_false none = false
or_false (some b) = b

abbrev pub targets : Option String → Option String → Bool
targets content none = true
targets none (some ip) = false
targets (some content) (some ip) = content == ip

-- The record targets the origin: the public lookup decides.
abbrev pub on_target : Option Bool → LookupResult → Judged
on_target proxied (records []) = by_api absent proxied (not_propagated ∷ [])
on_target proxied (records (v ∷ vs)) = by_api present proxied []
on_target proxied nxdomain = by_api absent proxied (not_propagated ∷ [])
on_target proxied failed_lookup = by_api unknown proxied (cf_probe_failed ∷ [])

abbrev pub judge_record : CfWildcardRecord → LookupResult → Option String → Judged
judge_record cf probe expected_ip =
    if not cf.found
    then by_api absent none
        (no_cf_record ∷ (if resolves probe then stale_public_record ∷ [] else []))
    else if not (targets cf.content expected_ip)
    then by_api mismatch (some (or_false cf.proxied)) (cf_mismatch (or_false cf.proxied) ∷ [])
    else on_target (some (or_false cf.proxied)) probe

abbrev pub judge_public : DnsAuthority → WildcardState → Judged
judge_public cloudflare mismatch = by_dns unknown (likely_edge_ips ∷ [])
judge_public authority mismatch = by_dns mismatch (public_mismatch ∷ [])
judge_public authority absent = by_dns absent (no_wildcard ∷ [])
judge_public authority unknown = by_dns unknown (lookup_failed ∷ [])
judge_public authority present = by_dns present []

abbrev pub judge : DnsPreflightInput → Judged
judge input = elim input.cf_wildcard_record [
  | some cf ↦ judge_record cf input.wildcard_probe input.expected_ip
  | none ↦
      judge_public (classify_authority input.ns)
        (evaluate_wildcard input.wildcard_probe input.expected_ip)
]

abbrev pub is_present : WildcardState → Bool
is_present present = true
is_present _ = false

-- Whether records can be automated, and why they cannot.
abbrev pub automation : DnsAuthority → Bool → Bool → Bool × List Reason
automation cloudflare false covered = (false, no_token ∷ [])
automation cloudflare true false = (false, zone_not_covered ∷ [])
automation cloudflare true true = (true, [])
automation namecheap token covered = (false, no_namecheap_provider ∷ [])
automation other token covered = (false, unknown_authority ∷ [])
automation unresolved token covered = (false, ns_unresolved ∷ [])

abbrev pub read_errors : Option String → List Reason
read_errors none = []
read_errors (some message) = cf_read_failed ∷ []

abbrev pub automation_for : DnsPreflightInput → Bool × List Reason
automation_for input =
    automation (classify_authority input.ns) input.cloudflare_token_present
      (includes_ip input.domain input.cloudflare_zones)

unfoldable pub evaluate_dns_preflight : DnsPreflightInput → DnsPreflightReport
evaluate_dns_preflight input = record {
  domain = input.domain;
  authority = classify_authority input.ns;
  wildcard = (judge input).state;
  wildcard_source = (judge input).source;
  proxied = (judge input).proxied;
  observed_ips = observed input.wildcard_probe;
  serving_ready = is_present (judge input).state;
  automation_ready = (automation_for input).0;
  reasons =
      (judge input).reasons ++ (read_errors input.cf_lookup_error ++ (automation_for input).1);
}
