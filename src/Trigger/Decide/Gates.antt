-- ===== src/Trigger/Decide/Gates.antt =====
-- What holds where the decision is to deploy.
use samohost.Prelude.{
  ◌≡◌, ◌≢◌, ◌⊎◌, inl, inr, refl, String, Bool, true, false, Option, none, some, Option-cases,
  Bool-cases, eq_refl, arith,
}
use mathlib.Core.Path.{subst}
use samohost.Records.App.{AppRecord}
use samohost.Deploy.CiGate.{success, check_ci_green, is_canonical_release_ci_workflow}
use samohost.Deploy.ReleaseTag.{is_date_release_tag}
use samohost.Deploy.Tags.{greater, compare_release_tags}
use samohost.Trigger.Decide.{
  TriggerDeps, TagRef, Target, Reply, threw, replied, on, is_date, is_initialized, is_deployed,
  is_at, after_lookup, verified, release_target, target_of, check_activation, check_up_to_date,
  check_cursor, check_known_bad, check_ci, decide, workflow_for, newer_only, cursor_order, stop_if,
  may_deploy,
}

pub is_at-ne : (o : Option String) (sha : String) → is_at o sha ≡ false → o ≢ some sha
is_at-ne o sha h e = ground (arith, eq_refl sha)

module _ (dry_run : Bool) (deps : TriggerDeps) where
  -- Each stage of the decision, passed.
  record Passed (app : AppRecord) (t : Target) : Type 0 where
    target : target_of dry_run deps app ≡ on t
    activation : check_activation dry_run deps app t ≡ on tt
    out_of_date : check_up_to_date dry_run deps app t ≡ on tt
    newer : check_cursor dry_run deps app t ≡ on tt
    not_bad : check_known_bad dry_run deps app t ≡ on tt
    live : stop_if dry_run (may_deploy t.sha) ≡ on tt
    green : check_ci dry_run deps app t ≡ on tt

  decide-Passed : (app : AppRecord) (t : Target) → decide dry_run deps app ≡ on t → Passed app t
  unfolding decide
  decide-Passed app t h = record {
    target = ground arith;
    activation = ground arith;
    out_of_date = ground arith;
    newer = ground arith;
    not_bad = ground arith;
    live = ground arith;
    green = ground arith;
  }

  -- The tag is above the cursor, if there is one.
  abbrev pub IsNewer : String → Option String → Type 0
  IsNewer tag none = Unit
  IsNewer tag (some cursor) =
      (is_date_release_tag cursor ≡ true) × (compare_release_tags tag cursor ≡ some greater)

  -- The latest release of the app's channel, on the app's branch, after its activation.
  pub record Release (app : AppRecord) (t : Target) (pattern : String) : Type 0 where
    pub found : TagRef
    pub named : t ≡ record { sha = found.sha; tag = some found.tag }
    pub policy :
        (is_date app.release_tag_format ≡ true)
        × (is_canonical_release_ci_workflow app.release_ci_workflow ≡ true)
    pub resolver : String → String → Bool → Reply (Option TagRef)
    pub resolves : deps.resolve_latest_tag ≡ some resolver
    pub latest : resolver app.repo pattern true ≡ replied (some found)
    pub verifier : String → String → String → Reply Bool
    pub verifies : deps.is_commit_on_branch ≡ some verifier
    pub on_branch : verifier app.repo found.sha app.branch ≡ replied true
    pub active : (is_deployed app ≡ false) ⊎ (is_initialized app ≡ true)
    pub newer : IsNewer found.tag app.release_tag_cursor

  -- Where the commit comes from: the head of the app's branch, or a release.
  pub data Sourced (app : AppRecord) (t : Target) : Type 0 where
    branch_head :
        app.release_tag_pattern ≡ none
        → t.tag ≡ none
        → deps.resolve_ref app.repo app.branch ≡ replied t.sha
        → Sourced app t
    release :
        (pattern : String)
        → app.release_tag_pattern ≡ some pattern
        → Release app t pattern
        → Sourced app t

  pub record Justified (app : AppRecord) (t : Target) : Type 0 where
    pub source : Sourced app t
    pub live_run : dry_run ≡ false
    pub new_commit : app.deployed_sha ≢ some t.sha
    pub not_bad : app.failed_sha ≢ some t.sha
    pub green :
        check_ci_green deps.fetch app.repo t.sha (workflow_for dry_run deps app t.tag) ≡ success

  branch_target :
      (app : AppRecord) (t : Target)
      → app.release_tag_pattern ≡ none
      → target_of dry_run deps app ≡ on t
      → (t.tag ≡ none) × (deps.resolve_ref app.repo app.branch ≡ replied t.sha)
  unfolding target_of
  branch_target app t e h = (ground arith, ground arith)

  verified-inv :
      (app : AppRecord) (t : Target) (latest : TagRef)
      → verified dry_run deps app latest ≡ on t
      → (verifier : String → String → String → Reply Bool) × (deps.is_commit_on_branch
          ≡ some verifier)
        × (verifier app.repo latest.sha app.branch ≡ replied true)
        × (t ≡ record { sha = latest.sha; tag = some latest.tag })
  unfolding verified
  verified-inv app t latest h = elim (Option-cases deps.is_commit_on_branch) [
    | inl missing ↦ absurd (ground arith)
    | inr (verifier, v) ↦ (verifier, v, ground arith, ground arith)
  ]

  lookup-inv :
      (app : AppRecord) (t : Target) (reply : Reply (Option TagRef))
      → after_lookup dry_run deps app reply ≡ on t
      → (latest : TagRef) × (reply ≡ replied (some latest))
        × (verified dry_run deps app latest ≡ on t)
  lookup-inv app t (threw message) h = absurd (ground arith)
  lookup-inv app t (replied none) h = absurd (ground arith)
  lookup-inv app t (replied (some latest)) h = (latest, refl, h)

  release_target-inv :
      (app : AppRecord) (t : Target) (pattern : String)
      → release_target dry_run deps app pattern ≡ on t
      → (is_date app.release_tag_format ≡ true)
        × (is_canonical_release_ci_workflow app.release_ci_workflow ≡ true)
        × ((resolver : String → String → Bool → Reply (Option TagRef)) × (deps.resolve_latest_tag
              ≡ some resolver)
            × (after_lookup dry_run deps app (resolver app.repo pattern true) ≡ on t))
  unfolding release_target
  release_target-inv app t pattern h = elim (Option-cases deps.resolve_latest_tag) [
    | inl missing ↦ absurd (ground arith)
    | inr (resolver, r) ↦ (ground arith, ground arith, (resolver, r, ground arith))
  ]

  active-inv :
      (app : AppRecord) (found : TagRef)
      → check_activation dry_run deps app (record { sha = found.sha; tag = some found.tag }) ≡ on tt
      → is_at app.deployed_sha found.sha ≡ false
      → (is_deployed app ≡ false) ⊎ (is_initialized app ≡ true)
  unfolding check_activation
  active-inv app found h new = elim (Bool-cases (is_deployed app)) [
    | inr fresh ↦ inl fresh
    | inl deployed ↦ inr (ground arith)
  ]

  IsNewer-inv :
      (app : AppRecord) (found : TagRef)
      → is_date app.release_tag_format ≡ true
      → check_cursor dry_run deps app (record { sha = found.sha; tag = some found.tag }) ≡ on tt
      → IsNewer found.tag app.release_tag_cursor
  unfolding check_cursor
  IsNewer-inv app found date h = by_cursor app.release_tag_cursor h
    where
      by_cursor :
          (cursor : Option String)
          → (elim cursor [
            | none ↦ on tt
            | some c ↦ newer_only dry_run deps found.sha (cursor_order dry_run deps app found.tag c)
          ])
            ≡ on tt
          → IsNewer found.tag cursor
      by_cursor none h = tt
      by_cursor (some c) h = (ground arith, ground arith)

  out_of_date-inv :
      (app : AppRecord) (sha : String) (tag : Option String)
      → check_up_to_date dry_run deps app (record { sha = sha; tag = tag }) ≡ on tt
      → is_at app.deployed_sha sha ≡ false
  unfolding check_up_to_date
  out_of_date-inv app sha tag h = ground (arith, h)

  release_of_target :
      (app : AppRecord) (t : Target) (pattern : String)
      → app.release_tag_pattern ≡ some pattern
      → target_of dry_run deps app ≡ on t
      → release_target dry_run deps app pattern ≡ on t
  unfolding target_of
  release_of_target app t pattern e h = ground arith

  Release-target :
      (app : AppRecord) (t : Target) (pattern : String)
      → app.release_tag_pattern ≡ some pattern
      → Passed app t
      → Release app t pattern
  Release-target app t pattern e h =
      let (date, canonical, (resolver, resolves, looked_up)) =
        release_target-inv app t pattern (release_of_target app t pattern e h.target) in
      let (found, latest, verified_by) =
        lookup-inv app t (resolver app.repo pattern true) looked_up in
      let (verifier, verifies, on_branch, named) = verified-inv app t found verified_by in
      record {
        found = found;
        named = named;
        policy = (date, canonical);
        resolver = resolver;
        resolves = resolves;
        latest = latest;
        verifier = verifier;
        verifies = verifies;
        on_branch = on_branch;
        active =
            active-inv app found
              (subst (λ u. check_activation dry_run deps app u ≡ on tt) named h.activation)
              (out_of_date-inv app found.sha (some found.tag)
                (subst (λ u. check_up_to_date dry_run deps app u ≡ on tt) named h.out_of_date));
        newer =
            IsNewer-inv app found date
              (subst (λ u. check_cursor dry_run deps app u ≡ on tt) named h.newer);
      }

  decide-source : (app : AppRecord) (t : Target) → Passed app t → Sourced app t
  decide-source app t h = elim (Option-cases app.release_tag_pattern) [
    | inl no_channel ↦
        let (untagged, head) = branch_target app t no_channel h.target in
        branch_head no_channel untagged head
    | inr (pattern, channel) ↦ release pattern channel (Release-target app t pattern channel h)
  ]

  -- Where the decision about an app is to deploy: the run is no dry run, the commit is neither the
  -- deployed nor the known-bad one, its CI gate is green, and it is the head of the app's branch or,
  -- for a release channel, the latest matching dated release on that branch, above the cursor, of a
  -- channel that is active.
  pub decide-Justified :
      (app : AppRecord) (t : Target) → decide dry_run deps app ≡ on t → Justified app t
  unfolding check_known_bad check_ci check_up_to_date
  decide-Justified app t h =
      let p = decide-Passed app t h in
      let bad = p.not_bad in
      let old = p.out_of_date in
      let live = p.live in
      let green = p.green in
      record {
        source = decide-source app t p;
        live_run = ground (arith, live);
        new_commit = is_at-ne app.deployed_sha t.sha (ground (arith, old));
        not_bad = is_at-ne app.failed_sha t.sha (ground (arith, bad));
        green = ground (arith, green);
      }
