-- ===== src/Deploy/CiGate.antt =====
-- src/app/cigate.ts and src/app/release-policy.ts: the CI status of a commit, from GitHub's reply to
-- one request. The reply is a parameter: what `fetch` and the parse of its body give.
pub mod Laws
use samohost.Prelude.{
  ℕ, String, Bool, true, false, not, ◌&&◌, ◌||◌, ◌==◌, Option, none, some, List, [], ◌∷◌, take,
  units, to_lower_case, if◌then◌else◌,
}
use samohost.Markers.{same_text}

pub data CiStatus : Type 0 where
  success pending failure no_run : CiStatus

pub record WorkflowRun : Type 0 where
  pub status : Option String
  pub conclusion : Option String

-- `https://api.github.com/repos/<repo>/<path>?head_sha=<sha>&per_page=<per_page>`
pub record RunsRequest : Type 0 where
  pub repo : String
  -- `actions/runs`, or the runs of one workflow.
  pub workflow_id : Option String
  pub head_sha : String
  pub per_page : ℕ

pub data RunsReply : Type 0 where
  -- The request threw, or its body was no JSON.
  threw : RunsReply
  not_ok : RunsReply
  -- `workflow_runs`, if it is an array.
  runs : Option (List WorkflowRun) → RunsReply

abbrev pub canonical_release_ci_workflow : String
canonical_release_ci_workflow = ".github/workflows/ci.yml"

abbrev canonical_release_ci_workflow_id : String
canonical_release_ci_workflow_id = "ci.yml"

unfoldable pub is_canonical_release_ci_workflow : Option String → Bool
is_canonical_release_ci_workflow none = false
is_canonical_release_ci_workflow (some value) = value == canonical_release_ci_workflow

-- `(field ?? "").toLowerCase()`
abbrev pub lower_field : Option String → List ℕ
lower_field none = []
lower_field (some s) = to_lower_case (units s)

unfoldable pub is_empty : List ℕ → Bool
is_empty s = same_text s []

unfoldable pub is_success : List ℕ → Bool
is_success s = same_text s (units "success")

-- The loop of `decide`, over the lower-case fields of the runs.
unfoldable pub decide_from : Bool → Bool → List WorkflowRun → CiStatus
decide_from any_success any_pending [] =
    if any_pending then pending else if any_success then success else no_run
decide_from any_success any_pending (run ∷ rest) =
    let conclusion = lower_field run.conclusion in
    let status = lower_field run.status in
    let unfinished =
      is_empty conclusion
      || (same_text status (units "queued") || same_text status (units "in_progress")) in
    let next =
      decide_from (any_success || is_success conclusion)
        (any_pending || (unfinished && is_empty conclusion)) rest in
    if not (is_empty conclusion) && not (is_success conclusion) then failure else next

unfoldable pub decide : List WorkflowRun → CiStatus
decide [] = no_run
decide (run ∷ rest) = decide_from false false (run ∷ rest)

abbrev pub workflow_id_of : Option String → Option String
workflow_id_of none = none
workflow_id_of (some workflow) = some (
    if workflow == canonical_release_ci_workflow
    then canonical_release_ci_workflow_id
    else workflow)

abbrev pub runs_request : String → String → Option String → RunsRequest
runs_request repo sha workflow = record {
  repo = repo;
  workflow_id = workflow_id_of workflow;
  head_sha = sha;
  per_page = elim workflow [ none ↦ 20 | some _ ↦ 1 ];
}

-- A release app's newest run is decisive; the list is cut to it.
abbrev pub relevant : Option String → List WorkflowRun → List WorkflowRun
relevant none rs = rs
relevant (some _) rs = take 1 rs

abbrev status_of_reply : Option String → RunsReply → CiStatus
status_of_reply workflow threw = no_run
status_of_reply workflow not_ok = no_run
status_of_reply workflow (runs none) = decide (relevant workflow [])
status_of_reply workflow (runs (some rs)) = decide (relevant workflow rs)

unfoldable pub check_ci_green :
    (RunsRequest → RunsReply) → String → String → Option String → CiStatus
check_ci_green fetch repo sha workflow =
    status_of_reply workflow (fetch (runs_request repo sha workflow))
