-- ===== src/Trigger/Cycle/Report.antt =====
-- The results of the deploy loop, one for each app in scope, and the report's counts.
use samohost.Prelude.{
  ℕ, suc, ◌+◌, ◌≡◌, ◌↔◌, refl, inl, inr, Option, none, some, List, [], ◌∷◌, ◌++◌, arith, length,
  length-append, eqb, Bool-cases,
}
use samohost.Records.App.{AppRecord}
use samohost.Records.Vm.{VmRecord}
use samohost.State.Apps
use samohost.Trigger.Decide.{
  TriggerDeps, Target, Reply, threw, replied, Decision, errors, skips, is_up_to_date, is_known_bad,
  may_deploy, Stage, on, decided, decide,
}
use samohost.Trigger.Cycle.{
  TriggerRunInput, TriggerDeploy, TriggerAppResult, Cycle, is_live, push, saved, save_then, refuse,
  after_deploy, act, round, rounds, candidates, started, deploy_loop, report, exit_code,
  TriggerRunReport, deploy_input,
}

module _ (input : TriggerRunInput) (deps : TriggerDeps) (deploy : TriggerDeploy) where
  -- One result more.
  abbrev OneMore : Cycle → Cycle → Type 0
  OneMore before after = length after.results ≡ suc (length before.results)

  push-OneMore : (r : TriggerAppResult) (s : Cycle) → OneMore s (push input deps deploy r s)
  push-OneMore r s = omega (arith, length-append s.results (r ∷ []))

  save_then-OneMore :
      (app : AppRecord) (vm : VmRecord) (save : Option AppRecord) (r : TriggerAppResult) (s : Cycle)
      → OneMore s (save_then input deps deploy app vm save r s)
  save_then-OneMore app vm none r s = push-OneMore r s
  save_then-OneMore app vm (some changed) r s = by_write (Apps.upsert changed s.apps)
    where
      by_write :
          (w : Apps.Upserted × Option (List AppRecord))
          → OneMore s (saved input deps deploy app vm r w s)
      by_write (Apps.stored a, none) = push-OneMore r s
      by_write (Apps.stored a, some next) = push-OneMore r s
      by_write (Apps.rejected e, w) = push-OneMore _ s

  refuse-OneMore :
      (app : AppRecord) (vm : VmRecord) (d : Decision) (s : Cycle)
      → OneMore s (refuse input deps deploy app vm d s)
  refuse-OneMore app vm (errors text) s = push-OneMore _ s
  refuse-OneMore app vm (skips reason sha save) s = save_then-OneMore app vm save _ s
  refuse-OneMore app vm (is_up_to_date sha save) s = save_then-OneMore app vm save _ s
  refuse-OneMore app vm (is_known_bad sha) s = push-OneMore _ s
  refuse-OneMore app vm (may_deploy sha) s = push-OneMore _ s

  after_deploy-OneMore :
      (app : AppRecord) (vm : VmRecord) (t : Target) (reply : Reply ℕ) (s : Cycle)
      → OneMore s (after_deploy input deps deploy app vm t reply s)
  after_deploy-OneMore app vm t (threw text) s = push-OneMore _ s
  after_deploy-OneMore app vm t (replied code) s = elim (Bool-cases (eqb code 0)) [
    | inl worked ↦ rw worked (save_then-OneMore app vm _ _ s)
    | inr not_zero ↦ rw not_zero (push-OneMore _ s)
  ]

  act-OneMore :
      (app : AppRecord) (vm : VmRecord) (stage : Stage Target) (s : Cycle)
      → OneMore s (act input deps deploy app vm stage s)
  act-OneMore app vm (decided d) s = refuse-OneMore app vm d s
  act-OneMore app vm (on t) s =
      let request = deploy_input input deps deploy app vm t in
      let (reply, apps) = deploy request s.apps in
      after_deploy-OneMore app vm t reply
        (record s { apps = apps; deploys = s.deploys ++ request ∷ [] })

  round-OneMore : (c : AppRecord × VmRecord) (s : Cycle) → OneMore s (round input deps deploy c s)
  unfolding round
  round-OneMore (app, vm) s = elim (Bool-cases (is_live vm.lifecycle_state)) [
    | inl live ↦ rw live (act-OneMore app vm (decide input.dry_run deps app) s)
    | inr resting ↦ rw resting (push-OneMore _ s)
  ]

  length-rounds :
      (cs : List (AppRecord × VmRecord)) (s : Cycle)
      → length (rounds input deps deploy cs s).results ≡ length cs + length s.results
  unfolding rounds
  length-rounds [] s = omega arith
  length-rounds (c ∷ cs) s =
      omega (arith, length-rounds cs (round input deps deploy c s), round-OneMore c s)

exit_code-zero : (r : TriggerRunReport) → (exit_code r ≡ 0) ↔ (r.failed_count ≡ 0)
unfolding exit_code
exit_code-zero r = (λ h. ground (arith, h), λ h. ground (arith, h))

-- Every result is of one of the three counts.
report-total :
    (rs : List TriggerAppResult)
    → (report rs).deployed_count + (report rs).skipped_count + (report rs).failed_count ≡ length rs
unfolding report
report-total [] = refl
report-total (r ∷ rs) = ground (arith, report-total rs)

-- A cycle reports as many deployed, skipped and failed apps together as there are apps in its scope,
-- and its exit code is 0 exactly if none failed.
pub deploy_loop-report :
    (input : TriggerRunInput) (deps : TriggerDeps) (deploy : TriggerDeploy) (vms : List VmRecord)
    (apps : List AppRecord)
    → ((report (deploy_loop input deps deploy vms apps).results).deployed_count
          + (report (deploy_loop input deps deploy vms apps).results).skipped_count
          + (report (deploy_loop input deps deploy vms apps).results).failed_count
        ≡ length (candidates input deps deploy vms apps))
      × ((exit_code (report (deploy_loop input deps deploy vms apps).results) ≡ 0)
          ↔ ((report (deploy_loop input deps deploy vms apps).results).failed_count ≡ 0))
unfolding deploy_loop
deploy_loop-report input deps deploy vms apps =
    let scope = candidates input deps deploy vms apps in
    let rs = (rounds input deps deploy scope (started input deps deploy apps)).results in
    (
      omega (
        arith,
        report-total rs,
        length-rounds input deps deploy scope (started input deps deploy apps),
      ),
      exit_code-zero (report rs),
    )
