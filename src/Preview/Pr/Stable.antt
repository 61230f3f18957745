-- ===== src/Preview/Pr/Stable.antt =====
-- A pass over pull requests whose environments are up to date.
use samohost.Prelude.{
  ◌≡◌, refl, ◌∙◌, Bool, true, false, Option, none, some, List, [], ◌∷◌, All, arith, if◌then◌else◌,
}
use samohost.Records.Vm.{VmRecord}
use samohost.Records.App.{AppRecord}
use samohost.Records.Env.{EnvRecord}
use samohost.State.Envs.{get, list_for}
use samohost.Preview.Pr.{
  OpenPr, PrPreviewDeps, Pass, need_deploy, leave, deploy, pr_round, pr_rounds, capped, started,
  pass,
}
use samohost.Preview.Pr.Safety.{reap_rounds-calls}

module _ (app : AppRecord) (vm : VmRecord) (deps : PrPreviewDeps) where
  -- The environment of the pull request is in the store, at the head of the branch.
  abbrev pub IsCurrent : List EnvRecord → OpenPr → Type 0
  IsCurrent envs pr = need_deploy (get vm.id app.spec.name pr.head_ref envs) pr.head_sha ≡ false

  abbrev Quiet : Pass → Pass → Type 0
  Quiet before after =
      (after.envs ≡ before.envs)
      × (after.deploys ≡ before.deploys)
      × (after.comments ≡ before.comments)

  leave-Quiet :
      (pr : OpenPr) (found : Option EnvRecord) (s : Pass) → Quiet s (leave app vm deps pr found s)
  leave-Quiet pr none s = (refl, refl, refl)
  leave-Quiet pr (some env) s = (refl, refl, refl)

  on_pr-Quiet :
      (pr : OpenPr) (found : Option EnvRecord) (needed : Bool) (s : Pass)
      → needed ≡ false
      → Quiet s (if needed then deploy app vm deps pr found s else leave app vm deps pr found s)
  on_pr-Quiet pr found true s h = ground arith
  on_pr-Quiet pr found false s h = leave-Quiet pr found s

  pr_round-Quiet :
      (pr : OpenPr) (s : Pass) → IsCurrent s.envs pr → Quiet s (pr_round app vm deps pr s)
  unfolding pr_round
  pr_round-Quiet pr s current =
      let found = get vm.id app.spec.name pr.head_ref s.envs in
      on_pr-Quiet pr found (need_deploy found pr.head_sha) s current

  pr_rounds-Quiet :
      (prs : List OpenPr) (envs : List EnvRecord) (s : Pass)
      → s.envs ≡ envs
      → All (IsCurrent envs) prs
      → Quiet s (pr_rounds app vm deps prs s)
  unfolding pr_rounds
  pr_rounds-Quiet [] envs s same current = (refl, refl, refl)
  pr_rounds-Quiet (pr ∷ prs) envs s same (current, rest) =
      let (e, d, c) = pr_round-Quiet pr s (rw same current) in
      let (e', d', c') = pr_rounds-Quiet prs envs (pr_round app vm deps pr s) (e ∙ same) rest in
      (e' ∙ e, d' ∙ d, c' ∙ c)

-- Where every processed pull request has an environment at the head of its branch, a pass deploys
-- nothing and posts no comment.
pub pass-stable :
    (app : AppRecord) (vm : VmRecord) (deps : PrPreviewDeps) (prs : List OpenPr)
    (envs : List EnvRecord)
    → All (IsCurrent app vm deps envs) (capped app vm deps prs)
    → ((pass app vm deps prs envs).deploys ≡ []) × ((pass app vm deps prs envs).comments ≡ [])
unfolding pass
pass-stable app vm deps prs envs current =
    let opened = capped app vm deps prs in
    let s = pr_rounds app vm deps opened (started app vm deps envs) in
    let (same, deploys, comments) =
      pr_rounds-Quiet app vm deps opened envs (started app vm deps envs) refl current in
    let (kept, kept') =
      reap_rounds-calls app vm deps opened (list_for vm.id (some app.spec.name) s.envs) s in
    (kept ∙ deploys, kept' ∙ comments)
