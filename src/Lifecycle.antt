-- ===== src/Lifecycle.antt =====
-- src/orchestrator/lifecycle.ts: the table of legal lifecycle transitions and its tests.
pub mod Paths
use samohost.Prelude.{String, Bool, ◌==◌, List, [], ◌∷◌, any, map, if◌then◌else◌}
use samohost.Records.Vm.{
  LifecycleState, planned, creating, booting, ready, adopted, degraded, failed, destroying,
  destroyed,
}
use Prim.Native.String.{◌++◌}

-- The literals of the union type.
abbrev pub label : LifecycleState → String
label planned = "planned"
label creating = "creating"
label booting = "booting"
label ready = "ready"
label adopted = "adopted"
label degraded = "degraded"
label failed = "failed"
label destroying = "destroying"
label destroyed = "destroyed"

abbrev pub lifecycle_transitions : List (LifecycleState × LifecycleState)
lifecycle_transitions =
    (planned, creating)
    ∷ (creating, booting)
    ∷ (creating, failed)
    ∷ (booting, ready)
    ∷ (booting, degraded)
    ∷ (ready, destroying)
    ∷ (adopted, destroying)
    ∷ (degraded, destroying)
    ∷ (failed, destroying)
    ∷ (creating, destroying)
    ∷ (booting, destroying)
    ∷ (destroying, destroyed)
    ∷ []

abbrev transition_key : LifecycleState → LifecycleState → String
transition_key from to = label from ++ "->" ++ label to

abbrev table : List String
table = map (λ e. transition_key e.0 e.1) lifecycle_transitions

unfoldable pub can_transition : LifecycleState → LifecycleState → Bool
can_transition from to = any (λ k. k == transition_key from to) table

pub data Checked : Type 0 where
  legal : Checked
  illegal_transition : LifecycleState → LifecycleState → Checked

-- A thrown `IllegalTransitionError` is a value that carries both states.
unfoldable pub assert_transition : LifecycleState → LifecycleState → Checked
unfolding can_transition
assert_transition from to = if can_transition from to then legal else illegal_transition from to
