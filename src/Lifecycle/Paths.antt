-- ===== src/Lifecycle/Paths.antt =====
-- Paths through the lifecycle table: what it allows, and how long a machine's history can be.
use samohost.Prelude.{ℕ, zero, suc, ◌+◌, ◌≤◌, ◌≡◌, ◌≢◌, ◌↔◌, ◌⊎◌, inl, inr, refl, ap, true, arith}
use samohost.Records.Vm.{
  LifecycleState, planned, creating, booting, ready, adopted, degraded, failed, destroying,
  destroyed,
}
use samohost.Lifecycle.{can_transition}

-- The diagram at the head of the file.
pub data Step : LifecycleState → LifecycleState → Type 0 where
  create : Step planned creating
  api_ok : Step creating booting
  api_fail : Step creating failed
  cloud_init_ok : Step booting ready
  timeout : Step booting degraded
  destroy_ready : Step ready destroying
  destroy_adopted : Step adopted destroying
  destroy_degraded : Step degraded destroying
  destroy_failed : Step failed destroying
  reclaim_creating : Step creating destroying
  reclaim_booting : Step booting destroying
  gone : Step destroying destroyed

can_transition_sound : (s t : LifecycleState) → can_transition s t ≡ true → Step s t
unfolding can_transition
can_transition_sound planned creating h = create
can_transition_sound creating booting h = api_ok
can_transition_sound creating failed h = api_fail
can_transition_sound booting ready h = cloud_init_ok
can_transition_sound booting degraded h = timeout
can_transition_sound ready destroying h = destroy_ready
can_transition_sound adopted destroying h = destroy_adopted
can_transition_sound degraded destroying h = destroy_degraded
can_transition_sound failed destroying h = destroy_failed
can_transition_sound creating destroying h = reclaim_creating
can_transition_sound booting destroying h = reclaim_booting
can_transition_sound destroying destroyed h = gone
can_transition_sound destroyed destroyed h = cc
can_transition_sound _ _ h = cc

can_transition_complete : {s t : LifecycleState} → Step s t → can_transition s t ≡ true
unfolding can_transition
can_transition_complete create = refl
can_transition_complete _ = refl

-- The table of transitions, searched by its text keys, allows exactly the moves of the diagram.
pub can_transition_iff : (s t : LifecycleState) → (can_transition s t ≡ true) ↔ Step s t
can_transition_iff s t = (can_transition_sound s t, can_transition_complete)

-- A path of legal transitions, with its length.
pub data History (s : LifecycleState) : ℕ → LifecycleState → Type 0 where
  here : History s zero s
  next :
      {n : ℕ} {t u : LifecycleState}
      → History s n t
      → can_transition t u ≡ true
      → History s (suc n) u

abbrev rank : LifecycleState → ℕ
rank planned = 0
rank creating = 1
rank booting = 2
rank ready = 3
rank adopted = 3
rank degraded = 3
rank failed = 3
rank destroying = 4
rank destroyed = 5

rank-Step : {s t : LifecycleState} → Step s t → rank s + 1 ≤ rank t
rank-Step create = omega arith
rank-Step _ = omega arith

rank-History : {s t : LifecycleState} {n : ℕ} → History s n t → rank s + n ≤ rank t
rank-History here = omega arith
rank-History (next {t} {u} h e) =
    omega (arith, rank-History h, rank-Step (can_transition_sound t u e))

rank-le : (s : LifecycleState) → rank s ≤ 5
rank-le planned = omega arith
rank-le _ = omega arith

-- A machine goes through at most five legal transitions, and a history with a transition in it
-- never ends where it began.
pub History-bounded : (s t : LifecycleState) (n : ℕ) → History s n t → (n ≤ 5) × ((n ≡ 0) ⊎ (s ≢ t))
History-bounded s t zero h = (omega arith, inl refl)
History-bounded s t (suc n) h =
    let bound = rank-History h in
    (omega (arith, bound, rank-le t), inr (λ e. omega (arith, bound, ap rank e)))

-- Orphan safety: from every state but `planned` and `destroyed`, `destroyed` is at most two legal
-- transitions away; from `destroyed` no transition is legal.
pub reclaimable :
    (s t : LifecycleState)
    → s ≢ planned
    → s ≢ destroyed
    → ((n : ℕ) × (n ≤ 2) × History s n destroyed) × (can_transition destroyed t ≢ true)
reclaimable s t p d = (route s p d, λ e. stuck t (can_transition_sound destroyed t e))
  where
    stuck : (t : LifecycleState) → Step destroyed t → ⊥
    stuck t st = absurd (omega (arith, rank-Step st, rank-le t))

    via : {s : LifecycleState} → Step s destroying → (n : ℕ) × (n ≤ 2) × History s n destroyed
    via st = (
      2,
      omega arith,
      next (next here (can_transition_complete st)) (can_transition_complete gone),
    )

    route :
        (s : LifecycleState)
        → s ≢ planned
        → s ≢ destroyed
        → (n : ℕ) × (n ≤ 2) × History s n destroyed
    route planned p d = absurd (p refl)
    route creating p d = via reclaim_creating
    route booting p d = via reclaim_booting
    route ready p d = via destroy_ready
    route adopted p d = via destroy_adopted
    route degraded p d = via destroy_degraded
    route failed p d = via destroy_failed
    route destroying p d = (1, omega arith, next here (can_transition_complete gone))
    route destroyed p d = absurd (d refl)
