-- ===== src/Preview/Pr/Safety.antt =====
-- What one pass over the pull requests may deploy, comment on and reap.
use samohost.Prelude.{
  ℕ, suc, ◌+◌, ◌≤◌, ◌≡◌, refl, inl, inr, ◌∙◌, String, false, Option, none, some, List, [], ◌∷◌,
  ◌++◌, length, length-append, length-take, All, All-append, arith, Bool-cases,
}
use mathlib.Core.List.{Memᴰ}
use samohost.Records.Vm.{VmRecord}
use samohost.Records.App.{AppRecord}
use samohost.Records.Env.{EnvRecord}
use samohost.State.Envs.{get, list_for}
use samohost.Preview.Pr.{
  OpenPr, PrPreviewDeps, Pass, pr_round, pr_rounds, reap, after_reap, reap_owned, reap_round,
  reap_rounds, is_open, capped, started, pass,
}

module _ (app : AppRecord) (vm : VmRecord) (deps : PrPreviewDeps) where
  -- A branch that the reaper may remove: the branch of a listed environment that a pull request made,
  -- and of none of the open ones that were processed.
  abbrev pub Closed : List OpenPr → List EnvRecord → String → Type 0
  Closed prs listed branch =
      (env : EnvRecord) × (number : ℕ) × Memᴰ env listed
      × (env.branch ≡ branch)
      × (env.pr_number ≡ some number)
      × (is_open app vm deps prs branch ≡ false)

  pr_round-calls :
      (pr : OpenPr) (s : Pass)
      → ((pr_round app vm deps pr s).reaps ≡ s.reaps)
        × (length (pr_round app vm deps pr s).deploys ≤ suc (length s.deploys))
        × (length (pr_round app vm deps pr s).comments + length s.deploys
            ≤ length s.comments + length (pr_round app vm deps pr s).deploys)
  unfolding pr_round
  pr_round-calls pr s = (ground arith, grind (arith, length-append), grind (arith, length-append))

  pr_rounds-calls :
      (prs : List OpenPr) (s : Pass)
      → ((pr_rounds app vm deps prs s).reaps ≡ s.reaps)
        × (length (pr_rounds app vm deps prs s).deploys ≤ length prs + length s.deploys)
        × (length (pr_rounds app vm deps prs s).comments + length s.deploys
            ≤ length s.comments + length (pr_rounds app vm deps prs s).deploys)
  unfolding pr_rounds
  pr_rounds-calls [] s = (refl, omega arith, omega arith)
  pr_rounds-calls (pr ∷ prs) s =
      let (same, deploys, comments) = pr_round-calls pr s in
      let (same', deploys', comments') = pr_rounds-calls prs (pr_round app vm deps pr s) in
      (same' ∙ same, omega (arith, deploys, deploys'), omega (arith, comments, comments'))

  reap_round-calls :
      (prs : List OpenPr) (env : EnvRecord) (s : Pass)
      → ((reap_round app vm deps prs env s).deploys ≡ s.deploys)
        × ((reap_round app vm deps prs env s).comments ≡ s.comments)
  unfolding reap_round
  reap_round-calls prs env s = (ground arith, ground arith)

  after_reap-reaps :
      (branch : String) (after : Option String × List EnvRecord) (s : Pass)
      → (after_reap app vm deps branch after s).reaps ≡ s.reaps
  after_reap-reaps branch (none, envs) s = refl
  after_reap-reaps branch (some message, envs) s = refl

  reap-Closed :
      (prs : List OpenPr) (listed : List EnvRecord) (branch : String) (found : Option EnvRecord)
      (s : Pass)
      → Closed prs listed branch
      → All (Closed prs listed) s.reaps
      → All (Closed prs listed) (reap app vm deps branch found s).reaps
  reap-Closed prs listed branch none s closed before = before
  reap-Closed prs listed branch (some env) s closed before =
      rw
        (after_reap-reaps branch (deps.reap_preview vm.name app.spec.name branch s.envs)
          (record s { reaps = s.reaps ++ branch ∷ [] }))
        (All-append (Closed prs listed) s.reaps (branch ∷ []) before (closed, tt))

  reap_owned-Closed :
      (prs : List OpenPr) (listed : List EnvRecord) (env : EnvRecord) (number : Option ℕ) (s : Pass)
      → Memᴰ env listed
      → env.pr_number ≡ number
      → is_open app vm deps prs env.branch ≡ false
      → All (Closed prs listed) s.reaps
      → All (Closed prs listed) (reap_owned app vm deps env number s).reaps
  reap_owned-Closed prs listed env none s member of closed before = before
  reap_owned-Closed prs listed env (some number) s member of closed before =
      reap-Closed prs listed env.branch (get vm.id app.spec.name env.branch s.envs) s
        (env, number, member, refl, of, closed) before

  reap_round-Closed :
      (prs : List OpenPr) (listed : List EnvRecord) (env : EnvRecord) (s : Pass)
      → Memᴰ env listed
      → All (Closed prs listed) s.reaps
      → All (Closed prs listed) (reap_round app vm deps prs env s).reaps
  unfolding reap_round
  reap_round-Closed prs listed env s member before =
      elim (Bool-cases (is_open app vm deps prs env.branch)) [
        | inl open_still ↦ rw open_still before
        | inr closed ↦
            rw closed (reap_owned-Closed prs listed env env.pr_number s member refl closed before)
      ]

  reap_rounds-Closed :
      (prs : List OpenPr) (listed : List EnvRecord) (envs : List EnvRecord) (s : Pass)
      → ((env : EnvRecord) → Memᴰ env envs → Memᴰ env listed)
      → All (Closed prs listed) s.reaps
      → All (Closed prs listed) (reap_rounds app vm deps prs envs s).reaps
  unfolding reap_rounds
  reap_rounds-Closed prs listed [] s members before = before
  reap_rounds-Closed prs listed (env ∷ envs) s members before =
      reap_rounds-Closed prs listed envs (reap_round app vm deps prs env s)
        (λ e later. members e (Memᴰ.tail later))
        (reap_round-Closed prs listed env s (members env (Memᴰ.head refl)) before)

  pub reap_rounds-calls :
      (prs : List OpenPr) (envs : List EnvRecord) (s : Pass)
      → ((reap_rounds app vm deps prs envs s).deploys ≡ s.deploys)
        × ((reap_rounds app vm deps prs envs s).comments ≡ s.comments)
  unfolding reap_rounds
  reap_rounds-calls prs [] s = (refl, refl)
  reap_rounds-calls prs (env ∷ envs) s =
      let (deploys, comments) = reap_round-calls prs env s in
      let (deploys', comments') = reap_rounds-calls prs envs (reap_round app vm deps prs env s) in
      (deploys' ∙ deploys, comments' ∙ comments)

  length-capped : (prs : List OpenPr) → length (capped app vm deps prs) ≤ 20
  unfolding capped
  length-capped prs = ground (arith, length-take 20 prs)

-- Every branch that a pass reaps is the branch of an environment that the store lists for the machine
-- and the app after the first loop, that a pull request made, and whose branch is that of no open
-- pull request among those processed: an environment made by hand is never reaped.
pub pass-Closed :
    (app : AppRecord) (vm : VmRecord) (deps : PrPreviewDeps) (prs : List OpenPr)
    (envs : List EnvRecord)
    → All
        (Closed app vm deps (capped app vm deps prs) (
          list_for vm.id
            (some app.spec.name)
            (pr_rounds app vm deps (capped app vm deps prs) (started app vm deps envs)).envs))
        (pass app vm deps prs envs).reaps
unfolding pass
pass-Closed app vm deps prs envs =
    let opened = capped app vm deps prs in
    let s = pr_rounds app vm deps opened (started app vm deps envs) in
    let listed = list_for vm.id (some app.spec.name) s.envs in
    reap_rounds-Closed app vm deps opened listed listed s (λ e member. member)
      (rw ((pr_rounds-calls app vm deps opened (started app vm deps envs)).0) tt)

-- A pass deploys at most 20 environments, and posts no more comments than it deploys.
pub pass-bounds :
    (app : AppRecord) (vm : VmRecord) (deps : PrPreviewDeps) (prs : List OpenPr)
    (envs : List EnvRecord)
    → (length (pass app vm deps prs envs).deploys ≤ 20)
      × (length (pass app vm deps prs envs).comments ≤ length (pass app vm deps prs envs).deploys)
unfolding pass
pass-bounds app vm deps prs envs =
    let opened = capped app vm deps prs in
    let s = pr_rounds app vm deps opened (started app vm deps envs) in
    let (same, deploys, comments) = pr_rounds-calls app vm deps opened (started app vm deps envs) in
    let (kept, kept') =
      reap_rounds-calls app vm deps opened (list_for vm.id (some app.spec.name) s.envs) s in
    let few = length-capped app vm deps prs in
    (rw kept (omega (arith, deploys, few)), rw (kept, kept') (omega (arith, comments)))
