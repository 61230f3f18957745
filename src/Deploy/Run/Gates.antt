-- ===== src/Deploy/Run/Gates.antt =====
-- What a deploy that reached the machine has passed.
use mathlib.Core.Path.{subst}
use samohost.Prelude.{
  String, Bool, true, false, ◌≡◌, ◌≢◌, eq_iff, Option, none, some, List, arith, ap, sym, ◌∙◌,
  eq_refl, trim, Option-cases, inl, inr,
}
use samohost.Records.Vm.{VmRecord}
use samohost.Records.App.{AppRecord}
use samohost.State.Apps
use samohost.Deploy.CiGate.{
  CiStatus, success, check_ci_green, canonical_release_ci_workflow,
  is_canonical_release_ci_workflow,
}
use samohost.Deploy.ReleaseTag.{is_date_release_tag, sha_re}
use samohost.Deploy.Run.{
  AppDeployInput, AppDeployDeps, AppDeployReport, passed, Plan, find_vm, workflow_for,
  check_channel, check_release_tag, check_known_bad, ci_gate, run_app_deploy,
}
use samohost.Deploy.Run.Stages.{of_some_eq, Planned, plan-Planned, run_app_deploy-Ran}

-- The facts about a dated release that a deploy of a release-channel app rests on.
pub record Released (deps : AppDeployDeps) (input : AppDeployInput) (app : AppRecord)
    (pattern sha : String) : Type 0 where
  pub tag : String
  pub given : input.release_tag ≡ some tag
  pub dated : is_date_release_tag tag ≡ true
  pub matching : deps.tag_matches pattern tag ≡ true
  pub named : String
  pub resolved : deps.resolve_ref app.repo tag ≡ some named
  pub names_sha : (trim named ≡ sha) × (sha_re sha ≡ true)
  pub verifier : String → String → String → Option Bool
  pub verifies : deps.is_commit_on_branch ≡ some verifier
  pub on_branch : verifier app.repo sha app.branch ≡ some true
  pub green : check_ci_green deps.fetch app.repo sha (some canonical_release_ci_workflow) ≡ success

channel_tag :
    (deps : AppDeployDeps) (input : AppDeployInput) (app : AppRecord) (pattern : String)
    → app.release_tag_pattern ≡ some pattern
    → check_channel deps input app ≡ passed tt
    → (tag : String) × (input.release_tag ≡ some tag)
      × (is_date_release_tag tag ≡ true)
      × (deps.tag_matches pattern tag ≡ true)
      × (input.skip_ci_gate ≡ false)
      × (is_canonical_release_ci_workflow app.release_ci_workflow ≡ true)
unfolding check_channel
channel_tag deps input app pattern e h = elim (Option-cases input.release_tag) [
  | inl missing ↦ absurd (ground arith)
  | inr (tag, given) ↦ (tag, given, ground arith, ground arith, ground arith, ground arith)
]

tag_resolved :
    (deps : AppDeployDeps) (input : AppDeployInput) (app : AppRecord) (sha tag : String)
    → input.release_tag ≡ some tag
    → check_release_tag deps input app sha ≡ passed tt
    → (named : String) × (deps.resolve_ref app.repo tag ≡ some named)
      × (sha_re (trim named) ≡ true)
      × (trim named ≡ sha)
unfolding check_release_tag
tag_resolved deps input app sha tag given h = elim (Option-cases (deps.resolve_ref app.repo tag)) [
  | inl missing ↦ absurd (ground arith)
  | inr (named, e) ↦ (named, e, ground arith, ground (arith, eq_iff (trim named) sha))
]

tag_on_branch :
    (deps : AppDeployDeps) (input : AppDeployInput) (app : AppRecord) (sha tag : String)
    → input.release_tag ≡ some tag
    → check_release_tag deps input app sha ≡ passed tt
    → (verifier : String → String → String → Option Bool) × (deps.is_commit_on_branch
        ≡ some verifier)
      × (verifier app.repo sha app.branch ≡ some true)
unfolding check_release_tag
tag_on_branch deps input app sha tag given h = elim (Option-cases deps.is_commit_on_branch) [
  | inl missing ↦ absurd (ground arith)
  | inr (verifier, e) ↦ (verifier, e, ground arith)
]

pub ci_gate-success :
    (deps : AppDeployDeps) (input : AppDeployInput) (app : AppRecord) (sha : String)
    {ci : Option CiStatus}
    → input.skip_ci_gate ≡ false
    → ci_gate deps input app sha ≡ passed ci
    → (check_ci_green deps.fetch app.repo sha (workflow_for app) ≡ success) × (ci ≡ some success)
unfolding ci_gate
ci_gate-success deps input app sha skip h = (ground arith, ground arith)

check_known_bad-ne :
    (deps : AppDeployDeps) (input : AppDeployInput) (app : AppRecord) (sha : String)
    → input.force ≡ false
    → check_known_bad deps input app sha ≡ passed tt
    → app.failed_sha ≢ some sha
unfolding check_known_bad
check_known_bad-ne deps input app sha gentle h bad = ground (arith, eq_refl sha)

canonical_workflow :
    (workflow : Option String)
    → is_canonical_release_ci_workflow workflow ≡ true
    → workflow ≡ some canonical_release_ci_workflow
unfolding is_canonical_release_ci_workflow
canonical_workflow none h = cc
canonical_workflow (some w) h = ap some ((eq_iff _ _).0 h)

workflow :
    (app : AppRecord) {pattern : String}
    → app.release_tag_pattern ≡ some pattern
    → is_canonical_release_ci_workflow app.release_ci_workflow ≡ true
    → workflow_for app ≡ some canonical_release_ci_workflow
workflow app e c = rw e (canonical_workflow app.release_ci_workflow c)

module _ (deps : AppDeployDeps) (input : AppDeployInput) (vms : List VmRecord)
    (apps : List AppRecord) where
  released :
      (p : Plan) (pattern : String)
      → Planned deps input vms apps p
      → p.app.release_tag_pattern ≡ some pattern
      → Released deps input p.app pattern p.sha
  released p pattern h e =
      let (tag, given, dated, matching, skip, canonical) =
        channel_tag deps input p.app pattern e h.channel in
      let (named, resolved, shape, same) = tag_resolved deps input p.app p.sha tag given h.tag in
      let (verifier, verifies, on_branch) = tag_on_branch deps input p.app p.sha tag given h.tag in
      record {
        tag = tag;
        given = given;
        dated = dated;
        matching = matching;
        named = named;
        resolved = resolved;
        names_sha = (same, rw (← same) shape);
        verifier = verifier;
        verifies = verifies;
        on_branch = on_branch;
        green =
            rw (workflow p.app e canonical) at (ci_gate-success deps input p.app p.sha skip h.ci).0;
      }

  -- The record that a run works on is the one that the stores hold for its input.
  pub app_of_plan :
      {p : Plan} {vm : VmRecord} {app : AppRecord}
      → find_vm vms input.vm ≡ some vm
      → Apps.get vm.id input.app apps ≡ some app
      → Planned deps input vms apps p
      → p.app ≡ app
  app_of_plan {p} {vm} v a h =
      let same : p.vm ≡ vm = cc (v, h.vm_found) in
      let found = h.app_found in
      of_some_eq (sym found ∙ ap (λ (m : VmRecord). Apps.get m.id input.app apps) same ∙ a)

-- A release-channel app is deployed only with a proof of release: a dated tag that matches the app's
-- pattern, resolves to the deployed commit, on the app's branch, with the canonical CI workflow green
-- for that commit.
pub run_app_deploy-Released :
    (deps : AppDeployDeps) (input : AppDeployInput) (vms : List VmRecord)
    (apps next : List AppRecord) (report : AppDeployReport) (vm : VmRecord) (app : AppRecord)
    (pattern : String)
    → find_vm vms input.vm ≡ some vm
    → Apps.get vm.id input.app apps ≡ some app
    → app.release_tag_pattern ≡ some pattern
    → run_app_deploy deps input vms apps ≡ passed (report, next)
    → Released deps input app pattern report.sha
run_app_deploy-Released deps input vms apps next report vm app pattern v a e h =
    let r = run_app_deploy-Ran deps input vms apps h in
    let gates = plan-Planned deps input vms apps r.planned r.planned_by in
    let same = app_of_plan deps input vms apps v a gates in
    let proof = released deps input vms apps r.planned pattern gates (rw same e) in
    rw (ap (λ (d : AppDeployReport). d.sha) r.reported)
      (subst (λ b. Released deps input b pattern r.planned.sha) same proof)

-- Without `--force`, a deploy that reached the machine was of another commit than the one that the
-- app's record held as known bad.
pub run_app_deploy-ne_failed_sha :
    (deps : AppDeployDeps) (input : AppDeployInput) (vms : List VmRecord)
    (apps next : List AppRecord) (report : AppDeployReport) (vm : VmRecord) (app : AppRecord)
    → find_vm vms input.vm ≡ some vm
    → Apps.get vm.id input.app apps ≡ some app
    → input.force ≡ false
    → run_app_deploy deps input vms apps ≡ passed (report, next)
    → app.failed_sha ≢ some report.sha
run_app_deploy-ne_failed_sha deps input vms apps next report vm app v a gentle h =
    let r = run_app_deploy-Ran deps input vms apps h in
    let gates = plan-Planned deps input vms apps r.planned r.planned_by in
    let same = app_of_plan deps input vms apps v a gates in
    rw (ap (λ (d : AppDeployReport). d.sha) r.reported) (
      subst (λ b. b.failed_sha ≢ some r.planned.sha) same
        (check_known_bad-ne deps input r.planned.app r.planned.sha gentle gates.not_bad))

-- Without `--skip-ci-gate`, a deploy that reached the machine was of a commit with a green CI gate,
-- asked for with the workflow of the app's channel.
pub run_app_deploy-green :
    (deps : AppDeployDeps) (input : AppDeployInput) (vms : List VmRecord)
    (apps next : List AppRecord) (report : AppDeployReport) (vm : VmRecord) (app : AppRecord)
    → find_vm vms input.vm ≡ some vm
    → Apps.get vm.id input.app apps ≡ some app
    → input.skip_ci_gate ≡ false
    → run_app_deploy deps input vms apps ≡ passed (report, next)
    → check_ci_green deps.fetch app.repo report.sha (workflow_for app) ≡ success
run_app_deploy-green deps input vms apps next report vm app v a skip h =
    let r = run_app_deploy-Ran deps input vms apps h in
    let gates = plan-Planned deps input vms apps r.planned r.planned_by in
    let same = app_of_plan deps input vms apps v a gates in
    rw (ap (λ (d : AppDeployReport). d.sha) r.reported) (
      subst (λ b. check_ci_green deps.fetch b.repo r.planned.sha (workflow_for b) ≡ success) same
        (ci_gate-success deps input r.planned.app r.planned.sha skip gates.ci).0)
