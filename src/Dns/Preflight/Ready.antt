-- ===== src/Dns/Preflight/Ready.antt =====
-- When a domain is ready to serve previews, and that a domain that is not ready has a reason.
use samohost.Prelude.{
  String, Bool, true, false, ◌&&◌, ◌≡◌, ◌↔◌, ◌⊎◌, refl, sym, ap, ◌∙◌, inl, inr, Option, none, some,
  List, [], ◌∷◌, ◌++◌, arith, eq_iff, Bool-cases, Option-cases,
}
use samohost.Dns.Preflight.{
  DnsAuthority, cloudflare, namecheap, other, unresolved, WildcardState, present, absent, mismatch,
  unknown, LookupResult, records, nxdomain, failed_lookup, CfWildcardRecord, Reason,
  DnsPreflightInput, classify_authority, evaluate_wildcard, includes_ip, targets, judge_record,
  judge_public, judge, is_present, automation, automation_for, read_errors, on_target, or_false,
  evaluate_dns_preflight,
}

-- The public lookup of the wildcard has an address, and the wanted one where there is one.
abbrev pub Resolves : LookupResult → Type 0
Resolves (records []) = ⊥
Resolves (records (v ∷ vs)) = Unit
Resolves nxdomain = ⊥
Resolves failed_lookup = ⊥

abbrev pub ResolvesTo : LookupResult → Option String → Type 0
ResolvesTo probe none = Resolves probe
ResolvesTo (records values) (some ip) = includes_ip ip values ≡ true
ResolvesTo nxdomain (some ip) = ⊥
ResolvesTo failed_lookup (some ip) = ⊥

-- Ready by the record of the provider, where that could be read, and by the public lookup otherwise.
abbrev pub IsServing : Option CfWildcardRecord → LookupResult → Option String → Type 0
IsServing (some cf) probe none = (cf.found ≡ true) × Resolves probe
IsServing (some cf) probe (some ip) = (cf.found ≡ true) × (cf.content ≡ some ip) × Resolves probe
IsServing none probe expected_ip = ResolvesTo probe expected_ip

judge_public-present :
    (a : DnsAuthority) (w : WildcardState) → is_present (judge_public a w).state ≡ is_present w
judge_public-present cloudflare mismatch = refl
judge_public-present namecheap mismatch = refl
judge_public-present other mismatch = refl
judge_public-present unresolved mismatch = refl
judge_public-present a absent = refl
judge_public-present a unknown = refl
judge_public-present a present = refl

evaluate_wildcard-present :
    (probe : LookupResult) (ip : Option String)
    → (is_present (evaluate_wildcard probe ip) ≡ true) ↔ ResolvesTo probe ip
evaluate_wildcard-present (records []) none = (λ h. cc, λ h. absurd h)
evaluate_wildcard-present (records []) (some ip) = (λ h. cc, λ h. cc)
evaluate_wildcard-present (records (v ∷ vs)) none = (λ h. tt, λ h. refl)
evaluate_wildcard-present (records (v ∷ vs)) (some ip) =
    (λ h. ground (arith, h), λ h. ground (arith, h))
evaluate_wildcard-present nxdomain none = (λ h. cc, λ h. absurd h)
evaluate_wildcard-present nxdomain (some ip) = (λ h. cc, λ h. absurd h)
evaluate_wildcard-present failed_lookup none = (λ h. cc, λ h. absurd h)
evaluate_wildcard-present failed_lookup (some ip) = (λ h. cc, λ h. absurd h)

on_target-present :
    (proxied : Option Bool) (probe : LookupResult)
    → (is_present (on_target proxied probe).state ≡ true) ↔ Resolves probe
on_target-present proxied (records []) = (λ h. cc, λ h. absurd h)
on_target-present proxied (records (v ∷ vs)) = (λ h. tt, λ h. refl)
on_target-present proxied nxdomain = (λ h. cc, λ h. absurd h)
on_target-present proxied failed_lookup = (λ h. cc, λ h. absurd h)

targets_iff :
    (content : Option String) (ip : String)
    → (targets content (some ip) ≡ true) ↔ (content ≡ some ip)
targets_iff none ip = (λ h. cc, λ h. cc)
targets_iff (some content) ip =
    (λ h. ap some ((eq_iff content ip).0 h), λ h. (eq_iff content ip).1 cc)

judge_record-present :
    (cf : CfWildcardRecord) (probe : LookupResult) (ip : Option String)
    → (is_present (judge_record cf probe ip).state ≡ true) ↔ IsServing (some cf) probe ip
judge_record-present cf probe none = split (Bool-cases cf.found)
  where
    split :
        (cf.found ≡ true) ⊎ (cf.found ≡ false)
        → (is_present (judge_record cf probe none).state ≡ true) ↔ IsServing (some cf) probe none
    split (inl e) =
        let (to, from) = on_target-present (some (or_false cf.proxied)) probe in
        (λ h. (e, to (ground (arith, e, h))), λ h. ground (arith, e, from h.1))
    split (inr e) = (λ h. absurd (ground (arith, e, h)), λ h. absurd (ground (arith, e, h.0)))
judge_record-present cf probe (some ip) =
    split (Bool-cases cf.found) (Bool-cases (targets cf.content (some ip)))
  where
    split :
        (cf.found ≡ true) ⊎ (cf.found ≡ false)
        → (targets cf.content (some ip) ≡ true) ⊎ (targets cf.content (some ip) ≡ false)
        → (is_present (judge_record cf probe (some ip)).state ≡ true)
          ↔ IsServing (some cf) probe (some ip)
    split (inl e) (inl t) =
        let (to, from) = on_target-present (some (or_false cf.proxied)) probe in
        let (hits, _) = targets_iff cf.content ip in
        (λ h. (e, hits t, to (ground (arith, e, t, h))), λ h. ground (arith, e, t, from h.2))
    split (inl e) (inr t) =
        let (_, back) = targets_iff cf.content ip in
        (λ h. absurd (ground (arith, e, t, h)), λ h. absurd (ground (arith, t, back h.1)))
    split (inr e) t = (λ h. absurd (ground (arith, e, h)), λ h. absurd (ground (arith, e, h.0)))

-- A domain is ready to serve previews exactly if the public lookup of its wildcard has an address and
-- the wildcard targets the machine: by the record at the provider, where that was read, whatever
-- addresses the public sees, and by the public addresses otherwise.
pub evaluate_dns_preflight-IsServing :
    (input : DnsPreflightInput)
    → ((evaluate_dns_preflight input).serving_ready ≡ true)
      ↔ IsServing input.cf_wildcard_record input.wildcard_probe input.expected_ip
unfolding evaluate_dns_preflight
evaluate_dns_preflight-IsServing input = split (Option-cases input.cf_wildcard_record)
  where
    split :
        (input.cf_wildcard_record ≡ none)
          ⊎ ((cf : CfWildcardRecord) × (input.cf_wildcard_record ≡ some cf))
        → (is_present (judge input).state ≡ true)
          ↔ IsServing input.cf_wildcard_record input.wildcard_probe input.expected_ip
    split (inl e) = rw e (
        let a = classify_authority input.ns in
        let w = evaluate_wildcard input.wildcard_probe input.expected_ip in
        let (to, from) = evaluate_wildcard-present input.wildcard_probe input.expected_ip in
        (λ h. to (sym (judge_public-present a w) ∙ h), λ h. judge_public-present a w ∙ from h))
    split (inr (cf, e)) = rw e (judge_record-present cf input.wildcard_probe input.expected_ip)

abbrev pub HasReason : List Reason → Type 0
HasReason [] = ⊥
HasReason (r ∷ rs) = Unit

HasReason-left : (xs ys : List Reason) → HasReason xs → HasReason (xs ++ ys)
HasReason-left [] ys h = absurd h
HasReason-left (x ∷ xs) ys h = tt

HasReason-right : (xs ys : List Reason) → HasReason ys → HasReason (xs ++ ys)
HasReason-right [] ys h = h
HasReason-right (x ∷ xs) ys h = tt

judge_public-HasReason :
    (a : DnsAuthority) (w : WildcardState)
    → is_present (judge_public a w).state ≡ false
    → HasReason (judge_public a w).reasons
judge_public-HasReason cloudflare mismatch h = tt
judge_public-HasReason namecheap mismatch h = tt
judge_public-HasReason other mismatch h = tt
judge_public-HasReason unresolved mismatch h = tt
judge_public-HasReason a absent h = tt
judge_public-HasReason a unknown h = tt
judge_public-HasReason a present h = cc

on_target-HasReason :
    (proxied : Option Bool) (probe : LookupResult)
    → is_present (on_target proxied probe).state ≡ false
    → HasReason (on_target proxied probe).reasons
on_target-HasReason proxied (records []) h = tt
on_target-HasReason proxied (records (v ∷ vs)) h = cc
on_target-HasReason proxied nxdomain h = tt
on_target-HasReason proxied failed_lookup h = tt

judge_record-HasReason :
    (cf : CfWildcardRecord) (probe : LookupResult) (ip : Option String)
    → is_present (judge_record cf probe ip).state ≡ false
    → HasReason (judge_record cf probe ip).reasons
judge_record-HasReason cf probe ip h =
    split (Bool-cases cf.found) (Bool-cases (targets cf.content ip))
  where
    split :
        (cf.found ≡ true) ⊎ (cf.found ≡ false)
        → (targets cf.content ip ≡ true) ⊎ (targets cf.content ip ≡ false)
        → HasReason (judge_record cf probe ip).reasons
    split (inl e) (inl t) =
        rw (e, t) (on_target-HasReason (some (or_false cf.proxied)) probe (ground (arith, e, t, h)))
    split (inl e) (inr t) = rw (e, t) tt
    split (inr e) t = rw e tt

automation-HasReason :
    (a : DnsAuthority) (token covered : Bool)
    → (automation a token covered).0 ≡ false
    → HasReason (automation a token covered).1
automation-HasReason cloudflare false covered h = tt
automation-HasReason cloudflare true false h = tt
automation-HasReason cloudflare true true h = cc
automation-HasReason namecheap token covered h = tt
automation-HasReason other token covered h = tt
automation-HasReason unresolved token covered h = tt

-- A report that is not ready to serve, or not ready for automated records, gives a reason.
pub evaluate_dns_preflight-reasons :
    (input : DnsPreflightInput)
    → (evaluate_dns_preflight input).serving_ready
        && (evaluate_dns_preflight input).automation_ready
      ≡ false
    → HasReason (evaluate_dns_preflight input).reasons
unfolding evaluate_dns_preflight
evaluate_dns_preflight-reasons input h =
    split (Bool-cases (is_present (judge input).state)) (Option-cases input.cf_wildcard_record)
  where
    rest : List Reason
    rest = read_errors input.cf_lookup_error ++ (automation_for input).1

    judged :
        is_present (judge input).state ≡ false
        → (input.cf_wildcard_record ≡ none)
          ⊎ ((cf : CfWildcardRecord) × (input.cf_wildcard_record ≡ some cf))
        → HasReason (judge input).reasons
    judged e (inl n) = rw n (
        judge_public-HasReason (classify_authority input.ns)
          (evaluate_wildcard input.wildcard_probe input.expected_ip) (ground (arith, n, e)))
    judged e (inr (cf, n)) =
        rw n
          (judge_record-HasReason cf input.wildcard_probe input.expected_ip (ground (arith, n, e)))

    split :
        (is_present (judge input).state ≡ true) ⊎ (is_present (judge input).state ≡ false)
        → (input.cf_wildcard_record ≡ none)
          ⊎ ((cf : CfWildcardRecord) × (input.cf_wildcard_record ≡ some cf))
        → HasReason ((judge input).reasons ++ rest)
    split (inl e) c = HasReason-right (judge input).reasons rest (
        HasReason-right (read_errors input.cf_lookup_error) (automation_for input).1 (
          automation-HasReason (classify_authority input.ns) input.cloudflare_token_present
            (includes_ip input.domain input.cloudflare_zones) (ground (arith, e, h))))
    split (inr e) c = HasReason-left (judge input).reasons rest (judged e c)
