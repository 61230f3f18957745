-- ===== src/Deploy/Phases/Outcome.antt =====
-- When a deploy counts as `deployed`, and when as rolled back.
use samohost.Prelude.{
  ◌≡◌, refl, Bool, true, false, ◌&&◌, ◌||◌, not, Option, none, some, List, [], ◌∷◌, arith, any,
  find, if◌then◌else◌,
}
use samohost.Markers.{PhaseStatus, start, ok, fail}
use samohost.Deploy.Phases.{
  PhaseName, health, rollback, PhaseEvent, DeployOutcome, deployed, rolled_back, rollback_failed,
  incomplete, same_phase, Scan, fresh, closed_by, scan_event, scan_from, deploy_outcome,
}

abbrev is_start : PhaseEvent → Bool
is_start (p, start) = not (same_phase p rollback)
is_start (p, _) = false

abbrev is_fail : PhaseEvent → Bool
is_fail (p, fail) = true
is_fail (p, _) = false

abbrev is_ok : PhaseName → PhaseEvent → Bool
is_ok q (p, ok) = same_phase q p
is_ok q (p, _) = false

abbrev is_health_ok : PhaseEvent → Bool
is_health_ok (p, ok) = same_phase p health
is_health_ok (p, _) = false

-- A rollback that came to an end, well or not.
abbrev ends_rollback : PhaseEvent → Bool
ends_rollback (p, start) = false
ends_rollback (p, _) = same_phase p rollback

-- The last phase that was started has its `ok` after it; the starts of a rollback do not count.
abbrev last_start_closed : List PhaseEvent → Bool
last_start_closed [] = true
last_start_closed ((p, status) ∷ events) =
    let rest = last_start_closed events in
    if is_start (p, status)
    then (if any is_start events then rest else any (is_ok p) events)
    else rest

abbrev by_rollback : PhaseStatus → DeployOutcome
by_rollback ok = rolled_back
by_rollback _ = rollback_failed

-- A description without the scan's state: the first rollback that ended decides, whether a phase failed
-- or not; without one, the deploy stands if nothing failed, the phase started last has its `ok` after
-- it, and the health check passed. A start before the last one may lack its end. The comment at the
-- head of the file asks for more in each of these cases.
abbrev pub described : List PhaseEvent → DeployOutcome
described events = elim (find ends_rollback events) [
  | some (_, status) ↦ by_rollback status
  | none ↦
      if not (any is_fail events) && (last_start_closed events && any is_health_ok events)
      then deployed
      else incomplete
]

pending_closed : Option PhaseName → List PhaseEvent → Bool
pending_closed none events = last_start_closed events
pending_closed (some p) events =
    if any is_start events then last_start_closed events else any (is_ok p) events

abbrev described_from : Scan → List PhaseEvent → DeployOutcome
described_from s events = elim (find ends_rollback events) [
  | some (_, status) ↦ by_rollback status
  | none ↦
      if s.saw_failure || any is_fail events
      then incomplete
      else if pending_closed s.pending_start events && (s.saw_health_ok || any is_health_ok events)
      then deployed
      else incomplete
]

no_start_closed :
    (events : List PhaseEvent) → any is_start events ≡ false → last_start_closed events ≡ true
no_start_closed [] h = refl
no_start_closed (e ∷ events) h = ground (arith, no_start_closed events)

pending_closed-ok :
    (o : Option PhaseName) (p : PhaseName) (events : List PhaseEvent)
    → pending_closed (closed_by p o) events ≡ pending_closed o ((p, ok) ∷ events)
unfolding pending_closed
pending_closed-ok none p events = refl
pending_closed-ok (some q) p events = ground (arith, no_start_closed events)

pending_closed-start :
    (o : Option PhaseName) (p : PhaseName) (events : List PhaseEvent)
    → same_phase p rollback ≡ false
    → pending_closed (some p) events ≡ pending_closed o ((p, start) ∷ events)
unfolding pending_closed
pending_closed-start none p events h = ground arith
pending_closed-start (some q) p events h = ground arith

pending_closed-rollback :
    (o : Option PhaseName) (p : PhaseName) (events : List PhaseEvent)
    → same_phase p rollback ≡ true
    → pending_closed o events ≡ pending_closed o ((p, start) ∷ events)
unfolding pending_closed
pending_closed-rollback none p events h = ground arith
pending_closed-rollback (some q) p events h = ground arith

scan_from-eq-described :
    (s : Scan) (events : List PhaseEvent) → scan_from s events ≡ described_from s events
unfolding scan_from
scan_from-eq-described s [] = unfold pending_closed in ground arith
scan_from-eq-described s ((p, start) ∷ events) = ground (
  arith,
  pending_closed-start s.pending_start p events,
  pending_closed-rollback s.pending_start p events,
  scan_from-eq-described (scan_event s p start) events,
  scan_from-eq-described s events,
)
scan_from-eq-described s ((p, ok) ∷ events) = ground (
  arith,
  pending_closed-ok s.pending_start p events,
  scan_from-eq-described (scan_event s p ok) events,
)
scan_from-eq-described s ((p, fail) ∷ events) =
    ground (arith, scan_from-eq-described (scan_event s p fail) events)

-- The outcome of every event stream is given by three questions. If a rollback ended, it is
-- rolled-back or rollback-failed by the end of the first that did, also where no phase failed. If none
-- ended, it is deployed where nothing failed, the health check passed, and the phase started last,
-- if one was, rollbacks aside, has its `ok` later on; phases started before that one may lack their
-- ends. It is incomplete otherwise.
pub deploy_outcome-eq-described :
    (events : List PhaseEvent) → deploy_outcome events ≡ described events
unfolding deploy_outcome pending_closed
deploy_outcome-eq-described events = ground (arith, scan_from-eq-described fresh events)
