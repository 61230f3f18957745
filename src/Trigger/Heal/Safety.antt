-- ===== src/Trigger/Heal/Safety.antt =====
-- Which healings the pass asks for, and how many of them come back.
use samohost.Prelude.{
  ℕ, ◌+◌, ◌≤◌, ◌<◌, ◌≡◌, refl, sym, inl, inr, String, true, false, not, ◌&&◌, Option, none, some,
  List, [], ◌∷◌, ◌++◌, All, All-append, All-pair, arith, leb, Bool-cases, if◌then◌else◌,
}
use mathlib.Core.Path.{subst}
use samohost.Records.App.{AppRecord}
use samohost.Records.Vm.{VmRecord}
use samohost.Trigger.Decide.{Reply, threw, replied}
use samohost.Trigger.Cycle.{TriggerAppResult}
use samohost.Trigger.Heal.{
  HealInput, HealDeps, Healing, AppHealOutcome, heal_candidates, after_bump, on_failure, on_success,
  on_outcome, on_reply, is_success, deferred, push, at_cap, attempt, heal_round, heal_rounds,
  started, run_wired, app_heal_pass,
}
use samohost.Trigger.Heal.Candidates.{MayHeal, heal_candidates-MayHeal}

module _ (input : HealInput) (deps : HealDeps) where
  -- One, if a healing came back without a throw.
  abbrev pub back : Reply AppHealOutcome → ℕ
  back (threw message) = 0
  back (replied outcome) = 1

  -- The number of the healings that came back without a throw.
  abbrev pub came_back : List (AppRecord × Reply AppHealOutcome) → ℕ
  came_back [] = 0
  came_back ((app, reply) ∷ calls) = back reply + came_back calls

  came_back-append :
      (calls : List (AppRecord × Reply AppHealOutcome)) (app : AppRecord)
      (reply : Reply AppHealOutcome)
      → came_back (calls ++ (app, reply) ∷ []) ≡ came_back calls + back reply
  came_back-append [] app reply = omega arith
  came_back-append ((a, r) ∷ calls) app reply = omega (arith, came_back-append calls app reply)

  -- What stays as it is when the reply of a healing is worked off.
  abbrev Kept : Healing → Healing → Type 0
  Kept before after =
      (after.calls ≡ before.calls) × (after.healed_vm_count ≡ before.healed_vm_count)

  bump-Kept :
      (app : AppRecord) (n : ℕ) (w : Option (List AppRecord)) (s : Healing)
      → Kept s (after_bump input deps app n w s)
  bump-Kept app n none s = (refl, refl)
  bump-Kept app n (some apps) s = (ground arith, ground arith)

  on_failure-Kept :
      (app : AppRecord) (vm : VmRecord) (outcome : AppHealOutcome) (n : ℕ)
      (w : Option (List AppRecord)) (s : Healing)
      → Kept s (on_failure input deps app vm outcome n w s)
  on_failure-Kept app vm outcome n none s = bump-Kept app _ _ _
  on_failure-Kept app vm outcome n (some apps) s = (ground arith, ground arith)

  on_success-Kept :
      (app : AppRecord) (vm : VmRecord) (outcome : AppHealOutcome) (w : Option (List AppRecord))
      (s : Healing)
      → Kept s (on_success input deps app vm outcome w s)
  on_success-Kept app vm outcome none s = bump-Kept app _ _ _
  on_success-Kept app vm outcome (some apps) s = (refl, refl)

  on_outcome-Kept :
      (app : AppRecord) (vm : VmRecord) (outcome : AppHealOutcome) (s : Healing)
      → Kept s (on_outcome input deps app vm outcome s)
  on_outcome-Kept app vm outcome s = elim (Bool-cases (is_success input deps outcome)) [
    | inl worked ↦ rw worked (on_success-Kept app vm outcome _ s)
    | inr not_worked ↦ rw not_worked (on_failure-Kept app vm outcome _ _ s)
  ]

  -- A reply counts once if it is no throw, and makes no call.
  on_reply-counts :
      (app : AppRecord) (vm : VmRecord) (reply : Reply AppHealOutcome) (s : Healing)
      → ((on_reply input deps app vm reply s).calls ≡ s.calls)
        × ((on_reply input deps app vm reply s).healed_vm_count ≡ s.healed_vm_count + back reply)
  on_reply-counts app vm (threw message) s =
      let (calls, count) = bump-Kept app _ _ (record s { summaries = s.summaries ++ _ ∷ [] }) in
      (calls, omega (arith, count))
  on_reply-counts app vm (replied outcome) s =
      let (calls, count) =
        on_outcome-Kept app vm outcome (record s { healed_vm_count = s.healed_vm_count + 1 }) in
      (calls, omega (arith, count))

  module _ (heal : AppRecord → List AppRecord → Reply AppHealOutcome × List AppRecord) where
    abbrev UnderCap : Option ℕ → Healing → Type 0
    UnderCap none s = Unit
    UnderCap (some cap) s = (s.healed_vm_count ≡ came_back s.calls) × (came_back s.calls ≤ cap)

    zero_under : (apps : List AppRecord) (o : Option ℕ) → UnderCap o (started input deps apps)
    zero_under apps none = tt
    zero_under apps (some cap) = (refl, omega arith)

    attempt-calls :
        (app : AppRecord) (vm : VmRecord) (s : Healing)
        → ((attempt input deps heal app vm s).calls ≡ s.calls ++ (app, (heal app s.apps).0) ∷ [])
          × ((attempt input deps heal app vm s).healed_vm_count
              ≡ s.healed_vm_count + back (heal app s.apps).0)
    attempt-calls app vm s =
        let (reply, apps) = heal app s.apps in
        on_reply-counts app vm reply
          (record s { apps = apps; calls = s.calls ++ (app, reply) ∷ [] })

    back-one : (reply : Reply AppHealOutcome) → back reply ≤ 1
    back-one (threw message) = omega arith
    back-one (replied outcome) = omega arith

    -- A healing below the cap stays under it.
    attempt-UnderCap :
        (app : AppRecord) (vm : VmRecord) (cap : ℕ) (s : Healing)
        → s.healed_vm_count < cap
        → UnderCap (some cap) s
        → UnderCap (some cap) (attempt input deps heal app vm s)
    attempt-UnderCap app vm cap s room (tied, under) =
        let reply = (heal app s.apps).0 in
        let (calls, count) = attempt-calls app vm s in
        let more = came_back-append s.calls app reply in
        rw (calls, more) (omega (arith, count, tied), omega (arith, tied, room, back-one reply))

    heal_round-UnderCap :
        (c : AppRecord × VmRecord) (s : Healing)
        → UnderCap input.heal_vm_cap s
        → UnderCap input.heal_vm_cap (heal_round input deps heal c s)
    unfolding heal_round
    heal_round-UnderCap (app, vm) s before = by_cap input.heal_vm_cap before
      where
        by_cap :
            (o : Option ℕ)
            → UnderCap o s
            → UnderCap o (
                if (elim o [ none ↦ false | some cap ↦ leb cap s.healed_vm_count ])
                then push input deps app vm deferred s
                else attempt input deps heal app vm s)
        by_cap none before = tt
        by_cap (some cap) before = elim (Bool-cases (leb cap s.healed_vm_count)) [
          | inl full ↦ rw full before
          | inr room ↦ rw room (attempt-UnderCap app vm cap s (ground (arith, room)) before)
        ]

    heal_rounds-UnderCap :
        (cs : List (AppRecord × VmRecord)) (s : Healing)
        → UnderCap input.heal_vm_cap s
        → UnderCap input.heal_vm_cap (heal_rounds input deps heal cs s)
    unfolding heal_rounds
    heal_rounds-UnderCap [] s before = before
    heal_rounds-UnderCap (c ∷ cs) s before =
        heal_rounds-UnderCap cs (heal_round input deps heal c s) (heal_round-UnderCap c s before)

    module _ (P : AppRecord → Type 0) where
      heal_round-All :
          (c : AppRecord × VmRecord) (s : Healing)
          → P c.0
          → All (λ a. P a.0) s.calls
          → All (λ a. P a.0) (heal_round input deps heal c s).calls
      unfolding heal_round
      heal_round-All (app, vm) s good before = elim (Bool-cases (at_cap input deps s)) [
        | inl full ↦ rw full before
        | inr room ↦
            rw (room, (attempt-calls app vm s).0)
              (All-append (λ c. P c.0) s.calls ((app, (heal app s.apps).0) ∷ []) before (good, tt))
      ]

      heal_rounds-All :
          (cs : List (AppRecord × VmRecord)) (s : Healing)
          → All (λ c. P c.0) cs
          → All (λ a. P a.0) s.calls
          → All (λ a. P a.0) (heal_rounds input deps heal cs s).calls
      unfolding heal_rounds
      heal_rounds-All [] s good before = before
      heal_rounds-All (c ∷ cs) s (good, rest) before =
          heal_rounds-All cs (heal_round input deps heal c s) rest (heal_round-All c s good before)

  -- What the pass asks of the healing, and the cap on the ones that came back.
  abbrev pub Asked : String → List (AppRecord × VmRecord) → ℕ → Healing → Type 0
  Asked generator scope cap s =
      All
        (λ c. MayHeal input deps generator scope c.0 × (input.app_heal && not input.dry_run ≡ true))
        s.calls
      × (came_back s.calls ≤ cap)

  under_cap :
      (heal : AppRecord → List AppRecord → Reply AppHealOutcome × List AppRecord) (o : Option ℕ)
      (cap : ℕ) (s : Healing)
      → o ≡ some cap
      → UnderCap heal o s
      → came_back s.calls ≤ cap
  under_cap heal none cap s e h = absurd (ground (arith, e))
  under_cap heal (some c) cap s e h = ground (arith, e, h)

  wired-Asked :
      (scope : List (AppRecord × VmRecord)) (results : List TriggerAppResult)
      (apps : List AppRecord) (generator : String) (cap : ℕ)
      (heal : Option (AppRecord → List AppRecord → Reply AppHealOutcome × List AppRecord))
      → input.heal_vm_cap ≡ some cap
      → Asked generator scope cap (run_wired input deps heal (some generator) scope results apps)
  wired-Asked scope results apps generator cap none capped = (tt, omega arith)
  wired-Asked scope results apps generator cap (some heal) capped =
      elim (Bool-cases (input.app_heal && not input.dry_run)) [
        | inr unasked ↦ rw unasked (tt, omega arith)
        | inl asked ↦
            let cs = heal_candidates input deps generator scope results results in
            rw asked (
              heal_rounds-All heal (λ app. MayHeal input deps generator scope app × (true ≡ true))
                  cs (started input deps apps)
                  (All-pair (λ c. MayHeal input deps generator scope c.0) (true ≡ true) cs
                    (heal_candidates-MayHeal input deps generator scope results results) refl)
                  tt,
              under_cap heal input.heal_vm_cap cap
                  (heal_rounds input deps heal cs (started input deps apps)) capped
                  (heal_rounds-UnderCap heal cs (started input deps apps)
                    (zero_under heal apps input.heal_vm_cap)),
            )
      ]

-- The healing pass asks for the healing of an app only where the pass was asked for, outside a dry
-- run; and only of an app of the scope that is deployed, on a live machine, whose generator is not
-- the current one, was not marked as bad for it, and was not deployed in the last ten minutes; and at
-- most as many of its calls as the cap allows come back without a throw.
pub app_heal_pass-Asked :
    (input : HealInput) (deps : HealDeps) (scope : List (AppRecord × VmRecord))
    (results : List TriggerAppResult) (apps : List AppRecord) (generator : String) (cap : ℕ)
    → input.current_generator_sha ≡ some generator
    → input.heal_vm_cap ≡ some cap
    → Asked input deps generator scope cap (app_heal_pass input deps scope results apps)
unfolding app_heal_pass
app_heal_pass-Asked input deps scope results apps generator cap current capped =
    subst
      (λ g.
        Asked input deps generator scope cap
          (run_wired input deps deps.app_heal g scope results apps))
      (sym current) (wired-Asked input deps scope results apps generator cap deps.app_heal capped)
