-- ===== src/Trigger/Cycle/Safety.antt =====
-- What the deploy loop may deploy.
use mathlib.Core.List.{Memᴰ}
use samohost.Prelude.{
  ℕ, ◌≡◌, refl, inl, inr, true, Option, none, some, List, [], ◌∷◌, ◌++◌, All, All-append,
  Bool-cases, eqb, false,
}
use samohost.Records.App.{AppRecord}
use samohost.Records.Vm.{VmRecord}
use samohost.State.Apps
use samohost.Deploy.Run.{AppDeployInput}
use samohost.Trigger.Decide.{
  TriggerDeps, Target, Reply, threw, replied, Decision, errors, skips, is_up_to_date, is_known_bad,
  may_deploy, Stage, on, decided, decide,
}
use samohost.Trigger.Decide.Gates.{Justified, decide-Justified}
use samohost.Trigger.Cycle.{
  TriggerRunInput, TriggerDeploy, TriggerAppResult, Cycle, is_live, saved, save_then, refuse,
  after_deploy, act, round, rounds, candidates, started, deploy_loop, deploy_input,
}

module _ (input : TriggerRunInput) (deps : TriggerDeps) (deploy : TriggerDeploy) where
  -- What a request to the deploy says: this app on this machine, at this commit and with this tag, no
  -- other ref, with the CI gate and the known-bad guard in force.
  abbrev pub AsksFor : AppRecord → VmRecord → Target → AppDeployInput → Type 0
  AsksFor app vm t request =
      (request.vm ≡ vm.name)
      × (request.app ≡ app.name)
      × (request.sha ≡ some t.sha)
      × (request.ref ≡ none)
      × (request.release_tag ≡ t.tag)
      × (request.skip_ci_gate ≡ false)
      × (request.force ≡ false)

  -- A request that the loop may make: for an app in scope, on a live machine, with every gate passed.
  abbrev pub MayDeploy : List (AppRecord × VmRecord) → AppDeployInput → Type 0
  MayDeploy scope request =
      (app : AppRecord) × (vm : VmRecord) × (t : Target) × Memᴰ (app, vm) scope
      × (is_live vm.lifecycle_state ≡ true)
      × Justified input.dry_run deps app t
      × AsksFor app vm t request

  saved-deploys :
      (app : AppRecord) (vm : VmRecord) (r : TriggerAppResult)
      (w : Apps.Upserted × Option (List AppRecord)) (s : Cycle)
      → (saved input deps deploy app vm r w s).deploys ≡ s.deploys
  saved-deploys app vm r (Apps.stored a, none) s = refl
  saved-deploys app vm r (Apps.stored a, some next) s = refl
  saved-deploys app vm r (Apps.rejected e, w) s = refl

  save_then-deploys :
      (app : AppRecord) (vm : VmRecord) (save : Option AppRecord) (r : TriggerAppResult) (s : Cycle)
      → (save_then input deps deploy app vm save r s).deploys ≡ s.deploys
  save_then-deploys app vm none r s = refl
  save_then-deploys app vm (some changed) r s =
      saved-deploys app vm r (Apps.upsert changed s.apps) s

  refuse-deploys :
      (app : AppRecord) (vm : VmRecord) (d : Decision) (s : Cycle)
      → (refuse input deps deploy app vm d s).deploys ≡ s.deploys
  refuse-deploys app vm (errors text) s = refl
  refuse-deploys app vm (skips reason sha save) s = save_then-deploys app vm save _ s
  refuse-deploys app vm (is_up_to_date sha save) s = save_then-deploys app vm save _ s
  refuse-deploys app vm (is_known_bad sha) s = refl
  refuse-deploys app vm (may_deploy sha) s = refl

  after_deploy-deploys :
      (app : AppRecord) (vm : VmRecord) (t : Target) (reply : Reply ℕ) (s : Cycle)
      → (after_deploy input deps deploy app vm t reply s).deploys ≡ s.deploys
  after_deploy-deploys app vm t (threw text) s = refl
  after_deploy-deploys app vm t (replied code) s = elim (Bool-cases (eqb code 0)) [
    | inl worked ↦ rw worked (save_then-deploys app vm _ _ s)
    | inr not_zero ↦ rw not_zero refl
  ]

  act-MayDeploy :
      (scope : List (AppRecord × VmRecord)) (app : AppRecord) (vm : VmRecord) (stage : Stage Target)
      (s : Cycle)
      → Memᴰ (app, vm) scope
      → is_live vm.lifecycle_state ≡ true
      → decide input.dry_run deps app ≡ stage
      → All (MayDeploy scope) s.deploys
      → All (MayDeploy scope) (act input deps deploy app vm stage s).deploys
  act-MayDeploy scope app vm (decided d) s member live e before =
      rw (refuse-deploys app vm d s) before
  act-MayDeploy scope app vm (on t) s member live e before =
      let request = deploy_input input deps deploy app vm t in
      let (reply, apps) = deploy request s.apps in
      rw
        (after_deploy-deploys app vm t reply
          (record s { apps = apps; deploys = s.deploys ++ request ∷ [] }))
        (All-append (MayDeploy scope) s.deploys (request ∷ []) before (
          (
            app,
            vm,
            t,
            member,
            live,
            decide-Justified input.dry_run deps app t e,
            (refl, refl, refl, refl, refl, refl, refl),
          ),
          tt,
        ))

  round-MayDeploy :
      (scope : List (AppRecord × VmRecord)) (app : AppRecord) (vm : VmRecord) (s : Cycle)
      → Memᴰ (app, vm) scope
      → All (MayDeploy scope) s.deploys
      → All (MayDeploy scope) (round input deps deploy (app, vm) s).deploys
  unfolding round
  round-MayDeploy scope app vm s member before = elim (Bool-cases (is_live vm.lifecycle_state)) [
    | inl live ↦
        rw live
          (act-MayDeploy scope app vm (decide input.dry_run deps app) s member live refl before)
    | inr resting ↦ rw resting before
  ]

  rounds-MayDeploy :
      (scope cs : List (AppRecord × VmRecord)) (s : Cycle)
      → ((c : AppRecord × VmRecord) → Memᴰ c cs → Memᴰ c scope)
      → All (MayDeploy scope) s.deploys
      → All (MayDeploy scope) (rounds input deps deploy cs s).deploys
  unfolding rounds
  rounds-MayDeploy scope [] s members before = before
  rounds-MayDeploy scope ((app, vm) ∷ cs) s members before =
      rounds-MayDeploy scope cs (round input deps deploy (app, vm) s)
        (λ c later. members c (Memᴰ.tail later))
        (round-MayDeploy scope app vm s (members (app, vm) (Memᴰ.head refl)) before)

-- Every request that a cycle makes to the deploy names an app in the cycle's scope and its machine,
-- which is ready or adopted, outside a dry run. It passes the commit that was resolved, with its tag
-- and no ref, and neither skips the CI gate nor forces. That commit is neither the deployed nor the
-- known-bad one, and its CI gate is green; it is the head of the app's branch or, for a release
-- channel, the latest matching dated release, on that branch, above the channel's cursor, after the
-- channel's activation.
pub deploy_loop-MayDeploy :
    (input : TriggerRunInput) (deps : TriggerDeps) (deploy : TriggerDeploy) (vms : List VmRecord)
    (apps : List AppRecord)
    → All
        (MayDeploy input deps deploy (candidates input deps deploy vms apps))
        (deploy_loop input deps deploy vms apps).deploys
unfolding deploy_loop
deploy_loop-MayDeploy input deps deploy vms apps =
    let scope = candidates input deps deploy vms apps in
    rounds-MayDeploy input deps deploy scope scope (started input deps deploy apps)
      (λ c member. member) tt
