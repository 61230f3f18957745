-- ===== src/Preview/Phases/Outcome.antt =====
-- When an environment script counts as `ok`.
use samohost.Prelude.{
  ◌≡◌, refl, Bool, true, false, Option, none, some, List, [], ◌∷◌, arith, any, if◌then◌else◌,
}
use samohost.Markers.{PhaseStatus, start, fail}
use samohost.Preview.Phases.{
  EnvPhaseName, EnvPhaseEvent, EnvOutcome, failed, incomplete, same_phase, closed_by, outcome_from,
  env_outcome,
}

abbrev is_start : EnvPhaseEvent → Bool
is_start (p, start) = true
is_start (p, _) = false

abbrev is_fail : EnvPhaseEvent → Bool
is_fail (p, fail) = true
is_fail (p, _) = false

abbrev is_ok : EnvPhaseName → EnvPhaseEvent → Bool
is_ok q (p, PhaseStatus.ok) = same_phase q p
is_ok q (p, _) = false

-- The last phase that was started has its `ok` after it.
abbrev last_start_closed : List EnvPhaseEvent → Bool
last_start_closed [] = true
last_start_closed ((p, status) ∷ events) =
    let rest = last_start_closed events in
    if is_start (p, status)
    then (if any is_start events then rest else any (is_ok p) events)
    else rest

pending_closed : Option EnvPhaseName → List EnvPhaseEvent → Bool
pending_closed none events = last_start_closed events
pending_closed (some p) events =
    if any is_start events then last_start_closed events else any (is_ok p) events

no_start_closed :
    (events : List EnvPhaseEvent) → any is_start events ≡ false → last_start_closed events ≡ true
no_start_closed [] h = refl
no_start_closed (e ∷ events) h = ground (arith, no_start_closed events)

pending_closed-ok :
    (o : Option EnvPhaseName) (p : EnvPhaseName) (events : List EnvPhaseEvent)
    → pending_closed (closed_by p o) events ≡ pending_closed o ((p, PhaseStatus.ok) ∷ events)
unfolding pending_closed
pending_closed-ok none p events = refl
pending_closed-ok (some q) p events = ground (arith, no_start_closed events)

pending_closed-start :
    (o : Option EnvPhaseName) (p : EnvPhaseName) (events : List EnvPhaseEvent)
    → pending_closed (some p) events ≡ pending_closed o ((p, start) ∷ events)
unfolding pending_closed
pending_closed-start none p events = refl
pending_closed-start (some q) p events = refl

outcome_from-eq :
    (o : Option EnvPhaseName) (events : List EnvPhaseEvent)
    → outcome_from o events ≡ (
        if any is_fail events
        then failed
        else if pending_closed o events
        then EnvOutcome.ok
        else incomplete)
unfolding outcome_from
outcome_from-eq none [] = unfold pending_closed in refl
outcome_from-eq (some p) [] = unfold pending_closed in refl
outcome_from-eq o ((p, start) ∷ events) =
    ground (arith, pending_closed-start o p events, outcome_from-eq (some p) events)
outcome_from-eq o ((p, PhaseStatus.ok) ∷ events) =
    ground (arith, pending_closed-ok o p events, outcome_from-eq (closed_by p o) events)
outcome_from-eq o ((p, fail) ∷ events) = refl

abbrev pub described : List EnvPhaseEvent → EnvOutcome
described [] = incomplete
described (e ∷ events) =
    if any is_fail (e ∷ events)
    then failed
    else if last_start_closed (e ∷ events)
    then EnvOutcome.ok
    else incomplete

-- The outcome of every event stream: no event at all is `incomplete`; a failed phase anywhere is
-- `failed`; otherwise it is `ok` exactly if the last phase that was started has its `ok` after it,
-- whatever became of the phases that were started before.
pub env_outcome-eq : (events : List EnvPhaseEvent) → env_outcome events ≡ described events
unfolding env_outcome
env_outcome-eq [] = refl
env_outcome-eq (e ∷ events) =
    unfold pending_closed in ground (arith, outcome_from-eq none (e ∷ events))
