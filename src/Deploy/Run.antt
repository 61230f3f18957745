-- ===== src/Deploy/Run.antt =====
-- src/commands/app.ts, `runAppDeploy`: the gates, the one remote call, and the bookkeeping. Messages
-- are left out but for which error it was; a throw of a dependency is `none`.
pub mod Stages
pub mod Gates
pub mod Bookkeeping
use Prim.Native.String.{◌++◌}
use samohost.Prelude.{
  ℕ, String, Bool, true, false, ◌&&◌, ◌||◌, not, ◌==◌, Option, none, some, List, find, units, trim,
  if◌then◌else◌,
}
use samohost.Records.Vm.{VmRecord}
use samohost.Records.App.{AppRecord}
use samohost.State.Apps
use samohost.Deploy.Phases.{
  DeployOutcome, deployed, rolled_back, rollback_failed, incomplete, parse_deploy_outcome,
}
use samohost.Deploy.CiGate.{
  CiStatus, success, pending, failure, no_run, RunsRequest, RunsReply, check_ci_green,
  is_canonical_release_ci_workflow,
}
use samohost.Deploy.ReleaseTag.{is_date_release_tag, sha_re}

pub record AppDeployInput : Type 0 where
  pub vm : String
  pub app : String
  pub sha : Option String
  pub ref : Option String
  pub skip_ci_gate : Bool
  pub release_tag : Option String
  pub force : Bool

-- What `buildDeployScript` is given; its text is a function of this.
pub record DeployScript : Type 0 where
  pub app : AppRecord
  pub sha : String
  pub tag : Option String

pub record SpawnResult : Type 0 where
  pub stdout : String
  pub stderr : String

pub record AppDeployDeps : Type 0 where
  pub resolve_ref : String → String → Option String
  pub fetch : RunsRequest → RunsReply
  pub is_commit_on_branch : Option (String → String → String → Option Bool)
  pub remote : VmRecord → DeployScript → Option SpawnResult
  pub now : String
  pub resolve_generator_sha : Option (Option String)
  -- `tagGlobToRegExp(pattern).test(tag)`
  pub tag_matches : String → String → Bool

pub data Refusal : Type 0 where
  no_vm no_app : Refusal
  release_policy_missing manual_deploy_forbidden invalid_tag tag_mismatch skip_forbidden : Refusal
  unexpected_tag : Refusal
  unresolved_ref invalid_sha : Refusal
  unverified_tag tag_names_other_sha no_ancestry_verifier not_on_branch : Refusal
  known_bad : Refusal
  ci_failed ci_not_green : Refusal
  connection_failed : Refusal
  unsafe_app_user : Refusal

pub data Result (A : Type 0) : Type 0 where
  passed : A → Result A
  refused : Refusal → Result A

infixl 5 ◌>>=◌ ◌>>◌
abbrev pub ◌>>=◌ : {A B : Type 0} → Result A → (A → Result B) → Result B
passed a >>= f = f a
refused r >>= f = refused r

abbrev pub ◌>>◌ : {B : Type 0} → Result (Unit {0}) → Result B → Result B
m >> k = m >>= λ _. k

abbrev pub require : Bool → Refusal → Result (Unit {0})
require true r = passed tt
require false r = refused r

abbrev pub need : {A : Type 0} → Option A → Refusal → Result A
need none r = refused r
need (some a) r = passed a

pub record Plan : Type 0 where
  pub vm : VmRecord
  pub app : AppRecord
  pub sha : String
  pub ci : Option CiStatus

pub record AppDeployReport : Type 0 where
  pub app : String
  pub vm : String
  pub sha : String
  pub ci : Option CiStatus
  pub outcome : DeployOutcome
  pub exit_code : ℕ

unfoldable pub find_vm : List VmRecord → String → Option VmRecord
find_vm vms target = find (λ r. r.id == target || r.name == target) vms

abbrev is_date : Option String → Bool
is_date none = false
is_date (some format) = format == "date"

abbrev holds : Option Bool → Bool
holds none = false
holds (some b) = b

abbrev pub workflow_for : AppRecord → Option String
workflow_for app = elim app.release_tag_pattern [ none ↦ none | some _ ↦ app.release_ci_workflow ]

abbrev ref_or_branch : AppRecord → Option String → String
ref_or_branch app none = app.branch
ref_or_branch app (some ref) = ref

module _ (deps : AppDeployDeps) (input : AppDeployInput) where
  -- The policy of release-channel apps, and of the others.
  unfoldable pub check_channel : AppRecord → Result (Unit {0})
  check_channel app = elim app.release_tag_pattern [
    | some pattern ↦ do
      require
          (is_date app.release_tag_format
            && is_canonical_release_ci_workflow app.release_ci_workflow)
          release_policy_missing
      tag ← need input.release_tag manual_deploy_forbidden
      require (is_date_release_tag tag) invalid_tag
      require (deps.tag_matches pattern tag) tag_mismatch
      require (not input.skip_ci_gate) skip_forbidden
    | none ↦ elim input.release_tag [ none ↦ passed tt | some _ ↦ refused unexpected_tag ]
  ]

  unfoldable pub target_sha : AppRecord → Result String
  target_sha app = elim input.sha [
    | some sha ↦ passed sha
    | none ↦ do
      raw ← need (deps.resolve_ref app.repo (ref_or_branch app input.ref)) unresolved_ref
      require (sha_re (trim raw)) invalid_sha
      passed (trim raw)
  ]

  -- The tag is resolved again, and its commit must lie on the app's branch.
  unfoldable pub check_release_tag : AppRecord → String → Result (Unit {0})
  check_release_tag app sha = elim input.release_tag [
    | none ↦ passed tt
    | some tag ↦ do
      raw ← need (deps.resolve_ref app.repo tag) unverified_tag
      require (sha_re (trim raw) && (trim raw == sha)) tag_names_other_sha
      verifier ← need deps.is_commit_on_branch no_ancestry_verifier
      require (holds (verifier app.repo sha app.branch)) not_on_branch
  ]

  unfoldable pub check_known_bad : AppRecord → String → Result (Unit {0})
  check_known_bad app sha = elim app.failed_sha [
    | none ↦ passed tt
    | some bad ↦ require (not (bad == sha) || input.force) known_bad
  ]

  abbrev ci_allows : CiStatus → Result (Option CiStatus)
  ci_allows success = passed (some success)
  ci_allows failure = refused ci_failed
  ci_allows pending = refused ci_not_green
  ci_allows no_run = refused ci_not_green

  unfoldable pub ci_gate : AppRecord → String → Result (Option CiStatus)
  ci_gate app sha =
      if input.skip_ci_gate
      then passed none
      else ci_allows (check_ci_green deps.fetch app.repo sha (workflow_for app))

  -- Everything before the remote call.
  unfoldable pub plan : List VmRecord → List AppRecord → Result Plan
  plan vms apps = do
    vm ← need (find_vm vms input.vm) no_vm
    app ← need (Apps.get vm.id input.app apps) no_app
    check_channel app
    sha ← target_sha app
    check_release_tag app sha
    check_known_bad app sha
    ci ← ci_gate app sha
    passed (record { vm = vm; app = app; sha = sha; ci = ci })

  abbrev deploy_script : Plan → DeployScript
  deploy_script p = record { app = p.app; sha = p.sha; tag = input.release_tag }

  -- The service account of the app replaces the machine's ssh user.
  abbrev as_app_user : Plan → VmRecord
  as_app_user p = elim p.app.app_user [
    | none ↦ p.vm
    | some user ↦ record (p.vm) { ssh_user = user }
  ]

  -- A failed best-effort stamp keeps the old one.
  abbrev stamped_sha : Option (Option String) → Option String → Option String
  stamped_sha none old = old
  stamped_sha (some none) old = old
  stamped_sha (some (some sha)) old = some sha

  unfoldable pub bookkeeping : AppRecord → String → DeployOutcome → AppRecord
  bookkeeping app sha deployed = record app {
    last_deploy_at = some deps.now;
    deployed_sha = some sha;
    failed_sha = none;
    generator_sha = stamped_sha deps.resolve_generator_sha app.generator_sha;
  }
  bookkeeping app sha rolled_back = record app {
    last_deploy_at = some deps.now;
    failed_sha = some sha;
  }
  bookkeeping app sha rollback_failed = record app {
    last_deploy_at = some deps.now;
    failed_sha = some sha;
  }
  bookkeeping app sha incomplete = record app { last_deploy_at = some deps.now }

  abbrev pub outcome_of : SpawnResult → DeployOutcome
  outcome_of raw = parse_deploy_outcome (units (raw.stdout ++ "\n" ++ raw.stderr))

  abbrev pub exit_code_of : DeployOutcome → ℕ
  exit_code_of deployed = 0
  exit_code_of _ = 1

  abbrev pub report_of : Plan → DeployOutcome → AppDeployReport
  report_of p outcome = record {
    app = p.app.name;
    vm = p.vm.name;
    sha = p.sha;
    ci = p.ci;
    outcome = outcome;
    exit_code = exit_code_of outcome;
  }

  abbrev written_apps :
      List AppRecord → Apps.Upserted × Option (List AppRecord) → Result (List AppRecord)
  written_apps apps (Apps.stored a, none) = passed apps
  written_apps apps (Apps.stored a, some next) = passed next
  written_apps apps (Apps.rejected e, _) = refused unsafe_app_user

  unfoldable pub finish :
      Plan → SpawnResult → List AppRecord → Result (AppDeployReport × List AppRecord)
  finish p raw apps = do
    next ← written_apps apps (Apps.upsert (bookkeeping p.app p.sha (outcome_of raw)) apps)
    passed (report_of p (outcome_of raw), next)

  unfoldable pub run_app_deploy :
      List VmRecord → List AppRecord → Result (AppDeployReport × List AppRecord)
  run_app_deploy vms apps = do
    p ← plan vms apps
    raw ← need (deps.remote (as_app_user p) (deploy_script p)) connection_failed
    finish p raw apps
