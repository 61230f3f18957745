-- ===== src/Trigger/Decide.antt =====
-- src/commands/trigger.ts, `runTriggerRun`: the decision about one app of a live machine, up to the
-- call of the deploy. Dependencies reply or throw with a message.
pub mod Gates
use samohost.Prelude.{
  ℕ, String, Bool, true, false, not, ◌==◌, ◌&&◌, ◌||◌, Option, none, some, List, if◌then◌else◌,
}
use samohost.Records.App.{AppRecord}
use samohost.Records.Vm.{LifecycleState}
use samohost.Deploy.CiGate.{
  CiStatus, success, pending, failure, no_run, RunsRequest, RunsReply, check_ci_green,
  is_canonical_release_ci_workflow,
}
use samohost.Deploy.ReleaseTag.{is_date_release_tag}
use samohost.Deploy.Tags.{Sign, less, same, greater, compare_release_tags}

pub data Reply (A : Type 0) : Type 0 where
  threw : String → Reply A
  replied : A → Reply A

pub record TagRef : Type 0 where
  pub tag : String
  pub sha : String

pub data Reason : Type 0 where
  vm_not_live : LifecycleState → Reason
  no_matching_tag release_sha_not_on_main : Reason
  baseline_required baselined : Reason
  cursor_invalid no_new_release_tag : Reason
  ci_is_pending ci_is_none ci_is_red : Reason

-- The dependencies of the decision.
pub record TriggerDeps : Type 0 where
  pub resolve_ref : String → String → Reply String
  -- The repository, the pattern, and whether the format is "date".
  pub resolve_latest_tag : Option (String → String → Bool → Reply (Option TagRef))
  pub is_commit_on_branch : Option (String → String → String → Reply Bool)
  pub fetch : RunsRequest → RunsReply

-- The commit to deploy, with its tag for a release-channel app.
pub record Target : Type 0 where
  pub sha : String
  pub tag : Option String

-- A decision not to deploy: a thrown error, or a result with a record to save before it.
pub data Decision : Type 0 where
  errors : String → Decision
  skips : Reason → Option String → Option AppRecord → Decision
  is_up_to_date : String → Option AppRecord → Decision
  is_known_bad : String → Decision
  may_deploy : String → Decision

-- A stage of the decision goes on with a value, or decides.
pub data Stage (A : Type 0) : Type 0 where
  on : A → Stage A
  decided : Decision → Stage A

infixl 5 ◌>>=◌ ◌>>◌
abbrev pub ◌>>=◌ : {A B : Type 0} → Stage A → (A → Stage B) → Stage B
on a >>= f = f a
decided d >>= f = decided d

abbrev pub ◌>>◌ : {B : Type 0} → Stage (Unit {0}) → Stage B → Stage B
m >> k = m >>= λ _. k

abbrev pub await : {A : Type 0} → Reply A → Stage A
await (threw message) = decided (errors message)
await (replied a) = on a

-- An absent dependency throws with the message.
abbrev pub wired : {A : Type 0} → Option A → String → Stage A
wired none message = decided (errors message)
wired (some a) message = on a

abbrev pub stop_if : Bool → Decision → Stage (Unit {0})
stop_if true d = decided d
stop_if false d = on tt

abbrev pub is_date : Option String → Bool
is_date none = false
is_date (some format) = format == "date"

-- `app.releaseTagChannelInitialized === true`
abbrev pub is_initialized : AppRecord → Bool
is_initialized app = elim app.release_tag_channel_initialized [ none ↦ false | some b ↦ b ]

abbrev pub is_deployed : AppRecord → Bool
is_deployed app = elim app.deployed_sha [ none ↦ false | some _ ↦ true ]

abbrev pub is_at : Option String → String → Bool
is_at none sha = false
is_at (some s) sha = s == sha

abbrev pub with_cursor : AppRecord → String → AppRecord
with_cursor app tag = record app {
  release_tag_cursor = some tag;
  release_tag_channel_initialized = some true;
}

abbrev pub save_unless : Bool → AppRecord → Option AppRecord
save_unless true app = none
save_unless false app = some app

module _ (dry_run : Bool) (deps : TriggerDeps) where
  -- No tag matches: an app with production state is marked, so that its next tag is an event.
  abbrev no_tag_save : AppRecord → Option AppRecord
  no_tag_save app =
      save_unless (dry_run || (not (is_deployed app) || is_initialized app))
        (record app { release_tag_channel_initialized = some true })

  -- The commit of the tag must lie on the branch of the app.
  unfoldable pub verified : AppRecord → TagRef → Stage Target
  verified app latest = do
    verifier ←
        wired deps.is_commit_on_branch
          "release tag resolver is configured but main-ancestry verifier is absent"
    on_branch ← await (verifier app.repo latest.sha app.branch)
    stop_if (not on_branch) (skips release_sha_not_on_main (some latest.sha) none)
    on (record { sha = latest.sha; tag = some latest.tag })

  abbrev pub after_lookup : AppRecord → Reply (Option TagRef) → Stage Target
  after_lookup app (threw message) = decided (errors message)
  after_lookup app (replied none) = decided (skips no_matching_tag none (no_tag_save app))
  after_lookup app (replied (some latest)) = verified app latest

  unfoldable pub release_target : AppRecord → String → Stage Target
  release_target app pattern = do
    stop_if
        (not (
          is_date app.release_tag_format
          && is_canonical_release_ci_workflow app.release_ci_workflow))
        (errors
          "release channel requires releaseTagFormat='date' and releaseCiWorkflow='.github/workflows/ci.yml'")
    resolver ←
        wired deps.resolve_latest_tag
          "releaseTagPattern is set but the release tag resolver is absent"
    after_lookup app (resolver app.repo pattern (is_date app.release_tag_format))

  unfoldable pub target_of : AppRecord → Stage Target
  target_of app = elim app.release_tag_pattern [
    | some pattern ↦ release_target app pattern
    | none ↦ do
      sha ← await (deps.resolve_ref app.repo app.branch)
      on (record { sha = sha; tag = none })
  ]

  -- The first live cycle of a release channel records the latest tag and deploys nothing.
  unfoldable pub check_activation : AppRecord → Target → Stage (Unit {0})
  check_activation app t = elim t.tag [
    | none ↦ on tt
    | some tag ↦
        stop_if
          (is_deployed app && (not (is_initialized app) && not (is_at app.deployed_sha t.sha)))
          (if dry_run
            then skips baseline_required (some t.sha) none
            else skips baselined (some t.sha) (some (with_cursor app tag)))
  ]

  abbrev up_to_date_save : AppRecord → Option String → Option AppRecord
  up_to_date_save app none = none
  up_to_date_save app (some tag) = save_unless (dry_run || is_initialized app) (with_cursor app tag)

  unfoldable pub check_up_to_date : AppRecord → Target → Stage (Unit {0})
  check_up_to_date app t =
      stop_if (is_at app.deployed_sha t.sha) (is_up_to_date t.sha (up_to_date_save app t.tag))

  abbrev pub cursor_order : AppRecord → String → String → Option Sign
  cursor_order app tag cursor =
      if is_date app.release_tag_format && not (is_date_release_tag cursor)
      then none
      else compare_release_tags tag cursor

  abbrev pub newer_only : String → Option Sign → Stage (Unit {0})
  newer_only sha none = decided (skips cursor_invalid (some sha) none)
  newer_only sha (some greater) = on tt
  newer_only sha (some less) = decided (skips no_new_release_tag (some sha) none)
  newer_only sha (some same) = decided (skips no_new_release_tag (some sha) none)

  -- The cursor only moves to newer tags.
  unfoldable pub check_cursor : AppRecord → Target → Stage (Unit {0})
  check_cursor app t = elim t.tag [
    | none ↦ on tt
    | some tag ↦ elim app.release_tag_cursor [
      | none ↦ on tt
      | some cursor ↦ newer_only t.sha (cursor_order app tag cursor)
    ]
  ]

  unfoldable pub check_known_bad : AppRecord → Target → Stage (Unit {0})
  check_known_bad app t = stop_if (is_at app.failed_sha t.sha) (is_known_bad t.sha)

  abbrev pub workflow_for : AppRecord → Option String → Option String
  workflow_for app none = none
  workflow_for app (some tag) = app.release_ci_workflow

  abbrev green_only : String → CiStatus → Stage (Unit {0})
  green_only sha success = on tt
  green_only sha pending = decided (skips ci_is_pending (some sha) none)
  green_only sha no_run = decided (skips ci_is_none (some sha) none)
  green_only sha failure = decided (skips ci_is_red (some sha) none)

  unfoldable pub check_ci : AppRecord → Target → Stage (Unit {0})
  check_ci app t =
      green_only t.sha (check_ci_green deps.fetch app.repo t.sha (workflow_for app t.tag))

  -- All the stages, in the order of the source: the target of a deploy, or a decision against it.
  unfoldable pub decide : AppRecord → Stage Target
  decide app = do
    t ← target_of app
    check_activation app t
    check_up_to_date app t
    check_cursor app t
    check_known_bad app t
    stop_if dry_run (may_deploy t.sha)
    check_ci app t
    on t
