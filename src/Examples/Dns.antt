-- ===== src/Examples/Dns.antt =====
-- The preflight of a domain at a concrete input: a proxied record, of which the public sees the
-- addresses of the edge.
use samohost.Prelude.{◌≡◌, ◌↔◌, true, none, some, [], ◌∷◌}
use samohost.Dns.Preflight.{
  LookupResult, records, DnsPreflightInput, CfWildcardRecord, evaluate_dns_preflight,
}
use samohost.Dns.Preflight.Ready.{IsServing, evaluate_dns_preflight-IsServing}

abbrev proxied_record : CfWildcardRecord
proxied_record = record { found = true; content = some "203.0.113.7"; proxied = some true }

abbrev edge : LookupResult
edge = records ("104.21.0.1" ∷ [])

abbrev preflight : DnsPreflightInput
preflight = record {
  domain = "samo.cat";
  ns = records ("derek.ns.cloudflare.com" ∷ []);
  wildcard_probe = edge;
  expected_ip = some "203.0.113.7";
  cloudflare_token_present = true;
  cloudflare_zones = "samo.cat" ∷ [];
  cf_wildcard_record = some proxied_record;
  cf_lookup_error = none;
}

evaluate_dns_preflight-IsServing_example :
    ((evaluate_dns_preflight preflight).serving_ready ≡ true)
    ↔ IsServing (some proxied_record) edge (some "203.0.113.7")
evaluate_dns_preflight-IsServing_example = evaluate_dns_preflight-IsServing preflight
