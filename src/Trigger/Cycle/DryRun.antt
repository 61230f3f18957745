-- ===== src/Trigger/Cycle/DryRun.antt =====
-- A dry run of the deploy loop writes nothing and deploys nothing.
use samohost.Prelude.{
  ◌≡◌, refl, ◌∙◌, inl, inr, true, Option, none, List, [], ◌∷◌, All, arith, Bool-cases,
}
use samohost.Records.App.{AppRecord}
use samohost.Records.Vm.{VmRecord}
use samohost.Trigger.Decide.{
  TriggerDeps, Target, Decision, errors, skips, is_up_to_date, is_known_bad, may_deploy, Stage, on,
  decided, ◌>>=◌, target_of, release_target, verified, check_activation, check_up_to_date,
  check_cursor, check_known_bad, decide,
}
use samohost.Trigger.Decide.Gates.{decide-Justified}
use samohost.Deploy.Run.{AppDeployInput}
use samohost.Trigger.Cycle.{
  TriggerRunInput, TriggerDeploy, Cycle, is_live, refuse, act, round, rounds, candidates, started,
  deploy_loop,
}
use samohost.Trigger.Cycle.Safety.{MayDeploy, deploy_loop-MayDeploy}

-- A decision that saves nothing.
abbrev save_of : Decision → Option AppRecord
save_of (errors text) = none
save_of (skips reason sha save) = save
save_of (is_up_to_date sha save) = save
save_of (is_known_bad sha) = none
save_of (may_deploy sha) = none

abbrev IsQuiet : {A : Type 0} → Stage A → Type 0
IsQuiet (on a) = Unit
IsQuiet (decided d) = save_of d ≡ none

bind-IsQuiet :
    {A B : Type 0} (m : Stage A) (f : A → Stage B)
    → IsQuiet m
    → ((a : A) → IsQuiet (f a))
    → IsQuiet (m >>= f)
bind-IsQuiet (on a) f h k = k a
bind-IsQuiet (decided d) f h k = h

module _ (deps : TriggerDeps) where
  target_of-IsQuiet : (app : AppRecord) → IsQuiet (target_of true deps app)
  unfolding target_of release_target verified
  target_of-IsQuiet app = ground arith

  check_activation-IsQuiet :
      (app : AppRecord) (t : Target) → IsQuiet (check_activation true deps app t)
  unfolding check_activation
  check_activation-IsQuiet app t = ground arith

  check_up_to_date-IsQuiet :
      (app : AppRecord) (t : Target) → IsQuiet (check_up_to_date true deps app t)
  unfolding check_up_to_date
  check_up_to_date-IsQuiet app t = ground arith

  check_cursor-IsQuiet : (app : AppRecord) (t : Target) → IsQuiet (check_cursor true deps app t)
  unfolding check_cursor
  check_cursor-IsQuiet app t = ground arith

  decide-IsQuiet : (app : AppRecord) → IsQuiet (decide true deps app)
  unfolding decide check_known_bad
  decide-IsQuiet app = bind-IsQuiet (target_of true deps app) _ (target_of-IsQuiet app) λ t.
      bind-IsQuiet (check_activation true deps app t) _ (check_activation-IsQuiet app t) λ _.
        bind-IsQuiet (check_up_to_date true deps app t) _ (check_up_to_date-IsQuiet app t) λ _.
          bind-IsQuiet (check_cursor true deps app t) _ (check_cursor-IsQuiet app t)
            λ _. ground arith

module _ (input : TriggerRunInput) (deps : TriggerDeps) (deploy : TriggerDeploy) where
  refuse-apps :
      (app : AppRecord) (vm : VmRecord) (d : Decision) (s : Cycle)
      → save_of d ≡ none
      → (refuse input deps deploy app vm d s).apps ≡ s.apps
  refuse-apps app vm (errors text) s h = refl
  refuse-apps app vm (skips reason sha save) s h = rw h refl
  refuse-apps app vm (is_up_to_date sha save) s h = rw h refl
  refuse-apps app vm (is_known_bad sha) s h = refl
  refuse-apps app vm (may_deploy sha) s h = refl

  act-apps :
      (app : AppRecord) (vm : VmRecord) (stage : Stage Target) (s : Cycle)
      → decide true deps app ≡ stage
      → IsQuiet stage
      → (act input deps deploy app vm stage s).apps ≡ s.apps
  act-apps app vm (decided d) s e quiet = refuse-apps app vm d s quiet
  act-apps app vm (on t) s e quiet =
      let live = (decide-Justified true deps app t e).live_run in absurd (ground (arith, live))

  round-apps :
      (c : AppRecord × VmRecord) (s : Cycle)
      → input.dry_run ≡ true
      → (round input deps deploy c s).apps ≡ s.apps
  unfolding round
  round-apps (app, vm) s dry = elim (Bool-cases (is_live vm.lifecycle_state)) [
    | inl live ↦
        rw (live, dry) (act-apps app vm (decide true deps app) s refl (decide-IsQuiet deps app))
    | inr resting ↦ rw resting refl
  ]

  rounds-apps :
      (cs : List (AppRecord × VmRecord)) (s : Cycle)
      → input.dry_run ≡ true
      → (rounds input deps deploy cs s).apps ≡ s.apps
  unfolding rounds
  rounds-apps [] s dry = refl
  rounds-apps (c ∷ cs) s dry = rounds-apps cs (round input deps deploy c s) dry ∙ round-apps c s dry

  none-MayDeploy :
      (scope : List (AppRecord × VmRecord)) (ds : List AppDeployInput)
      → input.dry_run ≡ true
      → All (MayDeploy input deps deploy scope) ds
      → ds ≡ []
  none-MayDeploy scope [] dry h = refl
  none-MayDeploy scope (request ∷ ds) dry ((app, vm, t, member, live, j, asks), hs) =
      let run = j.live_run in absurd (ground (arith, run, dry))

-- A dry run of the deploy loop leaves the app store as it was, and asks for no deploy.
pub deploy_loop-dry :
    (input : TriggerRunInput) (deps : TriggerDeps) (deploy : TriggerDeploy) (vms : List VmRecord)
    (apps : List AppRecord)
    → input.dry_run ≡ true
    → ((deploy_loop input deps deploy vms apps).apps ≡ apps)
      × ((deploy_loop input deps deploy vms apps).deploys ≡ [])
deploy_loop-dry input deps deploy vms apps dry =
    let scope = candidates input deps deploy vms apps in
    (
      unfold deploy_loop in
          rounds-apps input deps deploy scope (started input deps deploy apps) dry,
      none-MayDeploy input deps deploy scope (deploy_loop input deps deploy vms apps).deploys dry
          (deploy_loop-MayDeploy input deps deploy vms apps),
    )
