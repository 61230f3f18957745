-- ===== src/Deploy/Run/Bookkeeping.antt =====
-- What a deploy leaves in the app store, and what that means for the next one.
use samohost.Prelude.{
  String, false, ◌≡◌, ◌≢◌, ◌↔◌, ◌⊎◌, refl, sym, ap, ◌∙◌, Option, none, some, List, arith,
  stored_for,
}
use samohost.Records.Vm.{VmRecord}
use samohost.Records.App.{AppRecord}
use samohost.State.Apps
use samohost.State.Apps.{has_identity}
use samohost.State.Apps.Laws.{get-upserted_self, get-identity, with_id}
use samohost.Deploy.Phases.{DeployOutcome, deployed, rolled_back, rollback_failed, incomplete}
use samohost.Deploy.Run.{
  AppDeployInput, AppDeployDeps, AppDeployReport, SpawnResult, passed, Plan, find_vm, bookkeeping,
  finish, exit_code_of, outcome_of, run_app_deploy,
}
use samohost.Deploy.Run.Stages.{run_app_deploy-Ran, plan-Planned}
use samohost.Deploy.Run.Gates.{app_of_plan, run_app_deploy-ne_failed_sha}

module _ (deps : AppDeployDeps) (input : AppDeployInput) where
  bookkeeping_keeps :
      (app : AppRecord) (sha : String) (o : DeployOutcome)
      → (with_id (bookkeeping deps input app sha o) app ≡ bookkeeping deps input app sha o)
        × ((bookkeeping deps input app sha o).vm_id ≡ app.vm_id)
        × ((bookkeeping deps input app sha o).name ≡ app.name)
  unfolding bookkeeping
  bookkeeping_keeps app sha deployed = (refl, refl, refl)
  bookkeeping_keeps app sha _ = (refl, refl, refl)

  finish-next :
      (p : Plan) (raw : SpawnResult) (apps : List AppRecord) {report : AppDeployReport}
      {next : List AppRecord}
      → finish deps input p raw apps ≡ passed (report, next)
      → next
        ≡ (Apps.upserted (bookkeeping deps input p.app p.sha (outcome_of deps input raw)) apps).1
  unfolding finish Apps.upsert
  finish-next p raw apps h = ground arith

  -- The app's record after an upsert of its new state, looked up the way the run looked it up.
  get-bookkeeping :
      (vm_id name sha : String) (o : DeployOutcome) (apps : List AppRecord) {app : AppRecord}
      → Apps.get vm_id name apps ≡ some app
      → Apps.get vm_id name (Apps.upserted (bookkeeping deps input app sha o) apps).1
        ≡ some (bookkeeping deps input app sha o)
  get-bookkeeping vm_id name sha o apps {app} found =
      let b = bookkeeping deps input app sha o in
      let (same_id, same_vm, same_name) = bookkeeping_keeps app sha o in
      let (vm, n) = get-identity vm_id name apps found in
      let old : Apps.get b.vm_id b.name apps ≡ some app = rw (same_vm ∙ vm, same_name ∙ n) found in
      rw (sym (same_vm ∙ vm), sym (same_name ∙ n))
        (get-upserted_self b apps
          ∙ ap (λ (x : Option AppRecord). some (stored_for (with_id b) b x)) old
          ∙ ap some same_id)

abbrev pub FailedDeploy : DeployOutcome → Type 0
FailedDeploy o = (o ≡ rolled_back) ⊎ (o ≡ rollback_failed)

-- What the record of a deployed app says afterwards, for each outcome.
abbrev pub Recorded : AppRecord → AppRecord → String → DeployOutcome → Type 0
Recorded app after sha deployed = (after.deployed_sha ≡ some sha) × (after.failed_sha ≡ none)
Recorded app after sha rolled_back =
    (after.deployed_sha ≡ app.deployed_sha) × (after.failed_sha ≡ some sha)
Recorded app after sha rollback_failed =
    (after.deployed_sha ≡ app.deployed_sha) × (after.failed_sha ≡ some sha)
Recorded app after sha incomplete =
    (after.deployed_sha ≡ app.deployed_sha) × (after.failed_sha ≡ app.failed_sha)

bookkeeping-Recorded :
    (deps : AppDeployDeps) (input : AppDeployInput) (app : AppRecord) (sha : String)
    (o : DeployOutcome)
    → Recorded app (bookkeeping deps input app sha o) sha o
unfolding bookkeeping
bookkeeping-Recorded deps input app sha deployed = (refl, refl)
bookkeeping-Recorded deps input app sha rolled_back = (refl, refl)
bookkeeping-Recorded deps input app sha rollback_failed = (refl, refl)
bookkeeping-Recorded deps input app sha incomplete = (refl, refl)

module _ (deps : AppDeployDeps) (input : AppDeployInput) (vms : List VmRecord)
    (apps next : List AppRecord) (report : AppDeployReport) (vm : VmRecord) (app : AppRecord)
    (v : find_vm vms input.vm ≡ some vm) (a : Apps.get vm.id input.app apps ≡ some app)
    (h : run_app_deploy deps input vms apps ≡ passed (report, next)) where
  recorded :
      (Apps.get vm.id input.app next ≡ some (bookkeeping deps input app report.sha report.outcome))
      × (report.exit_code ≡ exit_code_of deps input report.outcome)
  recorded =
      let r = run_app_deploy-Ran deps input vms apps h in
      let p = r.planned in
      let o = outcome_of deps input r.raw in
      let gates = plan-Planned deps input vms apps p r.planned_by in
      let same = app_of_plan deps input vms apps v a gates in
      let next_eq = finish-next deps input p r.raw apps r.finished in
      let sha = ap (λ (d : AppDeployReport). d.sha) r.reported in
      let outcome = ap (λ (d : AppDeployReport). d.outcome) r.reported in
      (
        rw (next_eq, sha, outcome, same)
            (get-bookkeeping deps input vm.id input.app p.sha o apps a),
        rw r.reported,
      )

exit_code_zero :
    (deps : AppDeployDeps) (input : AppDeployInput) (o : DeployOutcome)
    → (exit_code_of deps input o ≡ 0) ↔ (o ≡ deployed)
exit_code_zero deps input deployed = ((λ _. refl), λ _. refl)
exit_code_zero deps input _ = ground arith

-- After a deploy the store holds, for the app, a record that says what happened: the commit as
-- deployed and no known-bad commit; the commit as known bad with the deployed one as it was, after a
-- rollback that worked or not; both as they were, if the outcome is unknown. The exit code is 0 only
-- for `deployed`.
pub run_app_deploy-Recorded :
    (deps : AppDeployDeps) (input : AppDeployInput) (vms : List VmRecord)
    (apps next : List AppRecord) (report : AppDeployReport) (vm : VmRecord) (app : AppRecord)
    → find_vm vms input.vm ≡ some vm
    → Apps.get vm.id input.app apps ≡ some app
    → run_app_deploy deps input vms apps ≡ passed (report, next)
    → ((after : AppRecord) × (Apps.get vm.id input.app next ≡ some after)
        × Recorded app after report.sha report.outcome)
      × ((report.exit_code ≡ 0) ↔ (report.outcome ≡ deployed))
run_app_deploy-Recorded deps input vms apps next report vm app v a h =
    let (found, exit) = recorded deps input vms apps next report vm app v a h in
    (
      (
        bookkeeping deps input app report.sha report.outcome,
        found,
        bookkeeping-Recorded deps input app report.sha report.outcome,
      ),
      rw exit (exit_code_zero deps input report.outcome),
    )

known_bad_after :
    (deps : AppDeployDeps) (input : AppDeployInput) (app : AppRecord) (sha : String)
    (o : DeployOutcome)
    → FailedDeploy o
    → (bookkeeping deps input app sha o).failed_sha ≡ some sha
unfolding bookkeeping
known_bad_after deps input app sha deployed bad = ground arith
known_bad_after deps input app sha rolled_back bad = refl
known_bad_after deps input app sha rollback_failed bad = refl
known_bad_after deps input app sha incomplete bad = ground arith

-- A commit that was rolled back is not deployed again: any later deploy of the app from that store
-- that reaches the machine without `--force` deploys another commit.
pub no_redeploy_of_known_bad :
    (deps deps' : AppDeployDeps) (input input' : AppDeployInput) (vms : List VmRecord)
    (apps next last : List AppRecord) (report report' : AppDeployReport) (vm : VmRecord)
    (app : AppRecord)
    → find_vm vms input.vm ≡ some vm
    → Apps.get vm.id input.app apps ≡ some app
    → run_app_deploy deps input vms apps ≡ passed (report, next)
    → FailedDeploy report.outcome
    → find_vm vms input'.vm ≡ some vm
    → input'.app ≡ input.app
    → input'.force ≡ false
    → run_app_deploy deps' input' vms next ≡ passed (report', last)
    → report'.sha ≢ report.sha
no_redeploy_of_known_bad deps deps' input input' vms apps next last report report' vm app v a h bad
      v' same gentle h' again =
    let (found, _) = recorded deps input vms apps next report vm app v a h in
    let b = bookkeeping deps input app report.sha report.outcome in
    run_app_deploy-ne_failed_sha deps' input' vms next last report' vm b v' (rw same found) gentle
      h' (known_bad_after deps input app report.sha report.outcome bad ∙ ap some (sym again))
