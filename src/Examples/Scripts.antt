-- ===== src/Examples/Scripts.antt =====
-- The scripts' output and the CI gate at concrete inputs.
use samohost.Prelude.{ℕ, ◌≡◌, ◌≢◌, ◌↔◌, refl, String, true, some, List, [], ◌∷◌, units, all}
use samohost.Markers.{start, ok, Marker}
use samohost.Markers.RoundTrip.{output}
use samohost.Deploy.Phases.{
  fetch, rollback, rolled_back, scan_from, health, caddy_reload, deploy_outcome, deployed,
  parse_deploy_outcome,
}
use samohost.Deploy.Phases.Outcome.{described, deploy_outcome-eq-described}
use samohost.Deploy.Phases.Stream.{Chunk, printed_as, parse_deploy_outcome-output}
use samohost.Deploy.CiGate.{
  success, failure, WorkflowRun, RunsReply, RunsRequest, runs, decide_from, is_empty, is_success,
  runs_request, relevant, decide, check_ci_green,
}
use samohost.Deploy.CiGate.Laws.{has_succeeded, check_ci_green-success}

abbrev parts : List (List ℕ × Marker)
parts = (units "log", (units "fetch", start)) ∷ ([], (units "fetch", ok)) ∷ []

-- A rollback alone, a start that is forgotten, and a rollback that is cut off.
rollback_alone : deploy_outcome ((rollback, ok) ∷ []) ≡ rolled_back
unfolding deploy_outcome scan_from
rollback_alone = refl

forgotten_start : deploy_outcome ((fetch, start) ∷ (health, start) ∷ (health, ok) ∷ []) ≡ deployed
unfolding deploy_outcome scan_from
forgotten_start = refl

rollback_cut_off :
    deploy_outcome ((health, start) ∷ (health, ok) ∷ (rollback, start) ∷ []) ≡ deployed
unfolding deploy_outcome scan_from
rollback_cut_off = refl

deploy_outcome-eq-described_example :
    deploy_outcome ((health, start) ∷ (health, ok) ∷ [])
    ≡ described ((health, start) ∷ (health, ok) ∷ [])
deploy_outcome-eq-described_example =
    deploy_outcome-eq-described ((health, start) ∷ (health, ok) ∷ [])

abbrev chunks : List Chunk
chunks = (units "log", (caddy_reload, start)) ∷ ([], (health, start)) ∷ ([], (health, ok)) ∷ []

parse_deploy_outcome-output_example :
    parse_deploy_outcome (output (printed_as chunks) (units "end")) ≡ deployed
parse_deploy_outcome-output_example =
    parse_deploy_outcome-output chunks (units "end") ((refl, (refl, (refl, tt))), (tt, (tt, tt)))
      (refl, (refl, (refl, tt)))

abbrev run_with : String → WorkflowRun
run_with conclusion = record { status = some "completed"; conclusion = some conclusion }

decides_failure : decide (run_with "success" ∷ run_with "failure" ∷ []) ≡ failure
unfolding decide decide_from is_empty is_success
decides_failure = refl

abbrev reply : RunsRequest → RunsReply
reply request = runs (some (run_with "SUCCESS" ∷ run_with "failure" ∷ []))

check_ci_green-success_example :
    (check_ci_green reply "acme/crm" "abc" (some "ci.yml") ≡ success) ↔ (
      (rs : List WorkflowRun) × (reply (runs_request "acme/crm" "abc" (some "ci.yml"))
        ≡ runs (some rs))
      × (relevant (some "ci.yml") rs ≢ [])
      × (all has_succeeded (relevant (some "ci.yml") rs) ≡ true))
check_ci_green-success_example = check_ci_green-success reply "acme/crm" "abc" (some "ci.yml")
