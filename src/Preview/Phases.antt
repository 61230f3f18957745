-- ===== src/Preview/Phases.antt =====
-- src/env/parse.ts: the phase events in an environment script's output, and their outcome.
pub mod Outcome
use samohost.Prelude.{
  ℕ, Bool, true, false, String, Option, none, some, List, [], ◌∷◌, units, eqb, if◌then◌else◌,
}
use samohost.Markers.{PhaseStatus, start, fail, Marker, same_text, markers}

pub data EnvPhaseName : Type 0 where
  port_check clone install build db_preflight db envfile secrets_preflight secrets : EnvPhaseName
  migrate unit vhost health unit_stop vhost_remove db_drop dir_remove : EnvPhaseName

abbrev pub EnvPhaseEvent : Type 0
EnvPhaseEvent = EnvPhaseName × PhaseStatus

pub data EnvOutcome : Type 0 where
  ok failed incomplete : EnvOutcome

abbrev number : EnvPhaseName → ℕ
number port_check = 0
number clone = 1
number install = 2
number build = 3
number db_preflight = 4
number db = 5
number envfile = 6
number secrets_preflight = 7
number secrets = 8
number migrate = 9
number unit = 10
number vhost = 11
number health = 12
number unit_stop = 13
number vhost_remove = 14
number db_drop = 15
number dir_remove = 16

abbrev pub same_phase : EnvPhaseName → EnvPhaseName → Bool
same_phase p q = eqb (number p) (number q)

abbrev pub valid_phases : List (List ℕ × EnvPhaseName)
valid_phases =
    (units "port-check", port_check)
    ∷ (units "clone", clone)
    ∷ (units "install", install)
    ∷ (units "build", build)
    ∷ (units "db-preflight", db_preflight)
    ∷ (units "db", db)
    ∷ (units "envfile", envfile)
    ∷ (units "secrets-preflight", secrets_preflight)
    ∷ (units "secrets", secrets)
    ∷ (units "migrate", migrate)
    ∷ (units "unit", unit)
    ∷ (units "vhost", vhost)
    ∷ (units "health", health)
    ∷ (units "unit-stop", unit_stop)
    ∷ (units "vhost-remove", vhost_remove)
    ∷ (units "db-drop", db_drop)
    ∷ (units "dir-remove", dir_remove)
    ∷ []

abbrev phase_of : List (List ℕ × EnvPhaseName) → List ℕ → Option EnvPhaseName
phase_of [] name = none
phase_of ((text, p) ∷ phases) name =
    let rest = phase_of phases name in if same_text text name then some p else rest

abbrev with_valid : Option EnvPhaseName → PhaseStatus → List EnvPhaseEvent → List EnvPhaseEvent
with_valid none status events = events
with_valid (some p) status events = (p, status) ∷ events

unfoldable pub valid_events : List Marker → List EnvPhaseEvent
valid_events [] = []
valid_events ((name, status) ∷ ms) =
    with_valid (phase_of valid_phases name) status (valid_events ms)

unfoldable pub parse_env_phase_stream : List ℕ → List EnvPhaseEvent
parse_env_phase_stream raw = valid_events (markers raw)

abbrev closed_by : EnvPhaseName → Option EnvPhaseName → Option EnvPhaseName
closed_by p none = none
closed_by p (some q) = if same_phase q p then none else some q

-- The loop, with its pending start.
unfoldable pub outcome_from : Option EnvPhaseName → List EnvPhaseEvent → EnvOutcome
outcome_from none [] = EnvOutcome.ok
outcome_from (some _) [] = incomplete
outcome_from pending ((p, start) ∷ events) = outcome_from (some p) events
outcome_from pending ((p, PhaseStatus.ok) ∷ events) = outcome_from (closed_by p pending) events
outcome_from pending ((p, fail) ∷ events) = failed

unfoldable pub env_outcome : List EnvPhaseEvent → EnvOutcome
unfolding outcome_from
env_outcome [] = incomplete
env_outcome (e ∷ events) = outcome_from none (e ∷ events)

unfoldable pub parse_env_outcome : List ℕ → EnvOutcome
parse_env_outcome raw = env_outcome (parse_env_phase_stream raw)
