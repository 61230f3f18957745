-- ===== src/Deploy/Phases.antt =====
-- src/app/parse.ts: the phase events in a script's output, and the outcome of the deploy.
pub mod Outcome
pub mod Stream
use samohost.Markers.{PhaseStatus, start, ok, fail, Marker, same_text, markers}
use samohost.Prelude.{
  ℕ, Bool, units, true, false, eqb, Option, none, some, List, [], ◌∷◌, if◌then◌else◌,
}

pub data PhaseName : Type 0 where
  fetch checkpoint checkout install build migrate restart caddy_reload health assert_rls seed
        rollback :
      PhaseName

abbrev pub PhaseEvent : Type 0
PhaseEvent = PhaseName × PhaseStatus

pub data DeployOutcome : Type 0 where
  deployed rolled_back rollback_failed incomplete : DeployOutcome

abbrev pub number : PhaseName → ℕ
number fetch = 0
number checkpoint = 1
number checkout = 2
number install = 3
number build = 4
number migrate = 5
number restart = 6
number health = 7
number assert_rls = 8
number seed = 9
number rollback = 10
number caddy_reload = 11

abbrev pub same_phase : PhaseName → PhaseName → Bool
same_phase p q = eqb (number p) (number q)

-- `VALID_PHASES`: the names that the parser knows. `caddy-reload` is not one of them.
abbrev pub valid_phases : List (List ℕ × PhaseName)
valid_phases =
    (units "fetch", fetch)
    ∷ (units "checkpoint", checkpoint)
    ∷ (units "checkout", checkout)
    ∷ (units "install", install)
    ∷ (units "build", build)
    ∷ (units "migrate", migrate)
    ∷ (units "restart", restart)
    ∷ (units "health", health)
    ∷ (units "assert-rls", assert_rls)
    ∷ (units "seed", seed)
    ∷ (units "rollback", rollback)
    ∷ []

abbrev pub phase_of : List (List ℕ × PhaseName) → List ℕ → Option PhaseName
phase_of [] name = none
phase_of ((text, p) ∷ phases) name =
    let rest = phase_of phases name in if same_text text name then some p else rest

abbrev with_valid : Option PhaseName → PhaseStatus → List PhaseEvent → List PhaseEvent
with_valid none status events = events
with_valid (some p) status events = (p, status) ∷ events

-- Unknown phase names are ignored.
unfoldable pub valid_events : List Marker → List PhaseEvent
valid_events [] = []
valid_events ((name, status) ∷ ms) =
    with_valid (phase_of valid_phases name) status (valid_events ms)

unfoldable pub parse_phase_stream : List ℕ → List PhaseEvent
parse_phase_stream raw = valid_events (markers raw)

-- The variables of the loop.
pub record Scan : Type 0 where
  pub pending_start : Option PhaseName
  pub saw_failure : Bool
  pub saw_health_ok : Bool

abbrev pub fresh : Scan
fresh = record { pending_start = none; saw_failure = false; saw_health_ok = false }

abbrev pub closed_by : PhaseName → Option PhaseName → Option PhaseName
closed_by p none = none
closed_by p (some q) = if same_phase q p then none else some q

-- One round for a phase that is not `rollback`.
unfoldable pub scan_event : Scan → PhaseName → PhaseStatus → Scan
scan_event s p start = record s { pending_start = some p }
scan_event s p ok = record s {
  pending_start = closed_by p s.pending_start;
  saw_health_ok = if same_phase p health then true else s.saw_health_ok;
}
scan_event s p fail = record s { saw_failure = true; pending_start = none }

-- The tests after the loop.
unfoldable pub verdict : Scan → DeployOutcome
verdict s = if s.saw_failure then incomplete else elim s.pending_start [
  | some _ ↦ incomplete
  | none ↦ if s.saw_health_ok then deployed else incomplete
]

abbrev on_rollback : PhaseStatus → DeployOutcome → DeployOutcome
on_rollback start rest = rest
on_rollback ok rest = rolled_back
on_rollback fail rest = rollback_failed

unfoldable pub scan_from : Scan → List PhaseEvent → DeployOutcome
unfolding scan_event verdict
scan_from s [] = verdict s
scan_from s ((phase, status) ∷ events) =
    let quiet = scan_from s events in
    let next = scan_from (scan_event s phase status) events in
    if same_phase phase rollback then on_rollback status quiet else next

unfoldable pub deploy_outcome : List PhaseEvent → DeployOutcome
unfolding scan_from
deploy_outcome events = scan_from fresh events

unfoldable pub parse_deploy_outcome : List ℕ → DeployOutcome
parse_deploy_outcome raw = deploy_outcome (parse_phase_stream raw)
