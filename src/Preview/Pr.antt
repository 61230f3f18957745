-- ===== src/Preview/Pr.antt =====
-- src/preview/pr.ts, `runPrPreviewPass`: one preview environment for each open pull request. The
-- code host, the deployment and the removal of an environment are dependencies, of which the last
-- two also change the store of environments; a throw carries its message. Log lines are left out.
pub mod Safety
pub mod Stable
use Prim.Native.String.{◌++◌ as append}
use samohost.Prelude.{
  ℕ, ◌≤◌, String, Bool, true, false, not, ◌==◌, ◌||◌, Option, none, some, List, [], ◌∷◌, ◌++◌, take,
  any, length, leb, if◌then◌else◌,
}
use samohost.Records.Vm.{VmRecord}
use samohost.Records.App.{AppRecord}
use samohost.Records.Env.{EnvRecord}
use samohost.State.Envs

abbrev pub pr_preview_comment_marker : String
pr_preview_comment_marker = "<!-- samohost-preview -->"

abbrev pub max_pr_previews_per_cycle : ℕ
max_pr_previews_per_cycle = 20

pub record OpenPr : Type 0 where
  pub number : ℕ
  pub head_ref : String
  pub head_sha : String

pub data PrAction : Type 0 where
  created redeployed unchanged failed reaped error : PrAction

pub record PrPreviewResult : Type 0 where
  -- `none` is the -1 of a closed pull request.
  pub pr_number : Option ℕ
  pub branch : String
  pub url : Option String
  pub action : PrAction
  pub error_text : Option String
  pub comment_error : Option String

pub record PrPreviewSummary : Type 0 where
  pub app : String
  pub vm : String
  pub open_prs : ℕ
  pub results : List PrPreviewResult

pub record EnsurePreviewResult : Type 0 where
  pub vhost : String
  pub is_ok : Bool
  pub last_deployed_sha : String

pub record EnsureArgs : Type 0 where
  pub vm : String
  pub app : String
  pub branch : String
  pub head_sha : String
  pub pr_number : ℕ

pub data Ensured : Type 0 where
  ensure_threw : String → Ensured
  ensured : EnsurePreviewResult → Ensured

pub record PrPreviewDeps : Type 0 where
  pub list_open_prs : String → Option (List OpenPr)
  pub ensure_preview : EnsureArgs → List EnvRecord → Ensured × List EnvRecord
  -- The message of the failure, if it fails.
  pub upsert_pr_comment : String → ℕ → String → String → Option String
  pub reap_preview : String → String → String → List EnvRecord → Option String × List EnvRecord

-- The pass while it runs: the store, the results so far, and the calls that were made.
pub record Pass : Type 0 where
  pub envs : List EnvRecord
  pub results : List PrPreviewResult
  pub deploys : List EnsureArgs
  pub comments : List (ℕ × String)
  pub reaps : List String

unfoldable pub build_comment_body : String → String
build_comment_body url =
    append pr_preview_comment_marker
      (append "\n🔎 **Preview:** " (append url " — auto-updates on push."))

abbrev pub https : String → String
https vhost = append "https://" vhost

-- `existing.lastDeployedSha !== pr.headSha`.
abbrev pub is_at : String → EnvRecord → Bool
is_at sha env = elim env.last_deployed_sha [ none ↦ false | some deployed ↦ deployed == sha ]

abbrev pub need_deploy : Option EnvRecord → String → Bool
need_deploy none sha = true
need_deploy (some env) sha = not (is_at sha env)

abbrev push : PrPreviewResult → Pass → Pass
push r s = record s { results = s.results ++ r ∷ [] }

abbrev pub result_for :
    Option ℕ → String → Option String → PrAction → Option String → Option String → PrPreviewResult
result_for number branch url action error_text comment_error = record {
  pr_number = number;
  branch = branch;
  url = url;
  action = action;
  error_text = error_text;
  comment_error = comment_error;
}

module _ (app : AppRecord) (vm : VmRecord) (deps : PrPreviewDeps) where
  abbrev pub deployed_action : Option EnvRecord → PrAction
  deployed_action none = created
  deployed_action (some env) = redeployed

  abbrev pub comment : OpenPr → String → Option String
  comment pr url =
      deps.upsert_pr_comment app.repo pr.number pr_preview_comment_marker (build_comment_body url)

  -- The comment is posted only where the environment is up.
  abbrev pub after_ensure : OpenPr → Option EnvRecord → Ensured → Pass → Pass
  after_ensure pr existing (ensure_threw message) s =
      push (result_for (some pr.number) pr.head_ref none error (some message) none) s
  after_ensure pr existing (ensured r) s =
      if r.is_ok
      then record s {
        comments = s.comments ++ (pr.number, build_comment_body (https r.vhost)) ∷ [];
        results =
            s.results
            ++ result_for (some pr.number) pr.head_ref (some (https r.vhost))
                (deployed_action existing) none (comment pr (https r.vhost))
              ∷ [];
      }
      else push (result_for (some pr.number) pr.head_ref none failed none none) s

  abbrev pub ensure_args : OpenPr → EnsureArgs
  ensure_args pr = record {
    vm = vm.name;
    app = app.spec.name;
    branch = pr.head_ref;
    head_sha = pr.head_sha;
    pr_number = pr.number;
  }

  abbrev pub deploy : OpenPr → Option EnvRecord → Pass → Pass
  deploy pr existing s =
      let (outcome, envs) = deps.ensure_preview (ensure_args pr) s.envs in
      after_ensure pr existing outcome
        (record s { envs = envs; deploys = s.deploys ++ ensure_args pr ∷ [] })

  abbrev pub leave : OpenPr → Option EnvRecord → Pass → Pass
  leave pr none s = s
  leave pr (some env) s =
      push (result_for (some pr.number) pr.head_ref (some (https env.vhost)) unchanged none none) s

  abbrev pub on_pr : OpenPr → Option EnvRecord → Pass → Pass
  on_pr pr existing s =
      if need_deploy existing pr.head_sha then deploy pr existing s else leave pr existing s

  -- One round of the first loop.
  unfoldable pub pr_round : OpenPr → Pass → Pass
  pr_round pr s = on_pr pr (Envs.get vm.id app.spec.name pr.head_ref s.envs) s

  unfoldable pub pr_rounds : List OpenPr → Pass → Pass
  pr_rounds [] s = s
  pr_rounds (pr ∷ prs) s = pr_rounds prs (pr_round pr s)

  abbrev pub after_reap : String → Option String × List EnvRecord → Pass → Pass
  after_reap branch (none, envs) s =
      push (result_for none branch none reaped none none) (record s { envs = envs })
  after_reap branch (some message, envs) s =
      push (result_for none branch none error (some message) none) (record s { envs = envs })

  abbrev pub reap : String → Option EnvRecord → Pass → Pass
  reap branch none s = s
  reap branch (some found) s =
      after_reap branch (deps.reap_preview vm.name app.spec.name branch s.envs)
        (record s { reaps = s.reaps ++ branch ∷ [] })

  abbrev pub is_open : List OpenPr → String → Bool
  is_open prs branch = any (λ pr. pr.head_ref == branch) prs

  -- An environment without a pull request's number is never the reaper's.
  abbrev pub reap_owned : EnvRecord → Option ℕ → Pass → Pass
  reap_owned env none s = s
  reap_owned env (some number) s =
      reap env.branch (Envs.get vm.id app.spec.name env.branch s.envs) s

  -- One round of the second loop.
  unfoldable pub reap_round : List OpenPr → EnvRecord → Pass → Pass
  reap_round prs env s = if is_open prs env.branch then s else reap_owned env env.pr_number s

  unfoldable pub reap_rounds : List OpenPr → List EnvRecord → Pass → Pass
  reap_rounds prs [] s = s
  reap_rounds prs (env ∷ envs) s = reap_rounds prs envs (reap_round prs env s)

  -- `prsToProcess`.
  unfoldable pub capped : List OpenPr → List OpenPr
  capped prs =
      if leb (length prs) max_pr_previews_per_cycle then prs else take max_pr_previews_per_cycle prs

  abbrev pub started : List EnvRecord → Pass
  started envs = record { envs = envs; results = []; deploys = []; comments = []; reaps = [] }

  abbrev pub reap_closed : List OpenPr → Pass → Pass
  reap_closed prs s = reap_rounds prs (Envs.list_for vm.id (some app.spec.name) s.envs) s

  unfoldable pub pass : List OpenPr → List EnvRecord → Pass
  pass prs envs = reap_closed (capped prs) (pr_rounds (capped prs) (started envs))

  abbrev summary : ℕ → Pass → PrPreviewSummary
  summary open_prs s = record {
    app = app.spec.name;
    vm = vm.name;
    open_prs = open_prs;
    results = s.results;
  }

  -- `none` where the listing of the pull requests threw.
  unfoldable pub run_pr_preview_pass : List EnvRecord → Option (PrPreviewSummary × Pass)
  run_pr_preview_pass envs = elim (deps.list_open_prs app.repo) [
    | none ↦ none
    | some prs ↦ some (summary (length prs) (pass prs envs), pass prs envs)
  ]
