-- ===== src/Trigger/Heal/Candidates.antt =====
-- Which apps the healing pass works on.
use mathlib.Core.List.{Memᴰ}
use samohost.Prelude.{
  ◌≢◌, ◌≡◌, refl, inl, inr, String, Bool, true, false, not, ◌==◌, ◌&&◌, Option, none, some, List,
  [], ◌∷◌, All, All-append, arith, find, find-Mem, Bool-cases, if◌then◌else◌,
}
use samohost.Records.App.{AppRecord}
use samohost.Records.Vm.{VmRecord}
use samohost.Trigger.Decide.Gates.{is_at-ne}
use samohost.Trigger.Cycle.{is_live}
use samohost.Trigger.Decide.{is_deployed}
use samohost.Trigger.Cycle.{TriggerAppResult}
use samohost.Trigger.Heal.{
  is_recent, HealInput, HealDeps, wants_heal, heal_candidates, if_wanted, heal_candidate,
  is_result_up_to_date, deployed_this_cycle,
}

module _ (input : HealInput) (deps : HealDeps) where
  -- Deployed on a live machine, by another generator that is not marked as bad, and not just now.
  pub record IsStale (generator : String) (app : AppRecord) (vm : VmRecord) : Type 0 where
    pub was_deployed : app.deployed_sha ≢ none
    pub live : is_live vm.lifecycle_state ≡ true
    pub outdated : app.generator_sha ≢ some generator
    pub not_bad : app.failed_sha ≢ some generator
    pub settled : is_recent input deps app ≡ false

  is_deployed-ne : (app : AppRecord) → is_deployed app ≡ true → app.deployed_sha ≢ none
  is_deployed-ne app h e = ground arith

  wants_heal-IsStale :
      (generator : String) (app : AppRecord) (vm : VmRecord)
      → wants_heal input deps generator app vm ≡ true
      → IsStale generator app vm
  unfolding wants_heal
  wants_heal-IsStale generator app vm h = record {
    was_deployed = is_deployed-ne app (ground (arith, h));
    live = ground (arith, h);
    outdated = is_at-ne app.generator_sha generator (ground (arith, h));
    not_bad = is_at-ne app.failed_sha generator (ground (arith, h));
    settled = ground (arith, h);
  }

  -- An app that the pass may work on, of the scope, with every test passed.
  abbrev pub MayHeal : String → List (AppRecord × VmRecord) → AppRecord → Type 0
  MayHeal generator scope app = (vm : VmRecord) × Memᴰ (app, vm) scope × IsStale generator app vm

  module _ (generator : String) (scope : List (AppRecord × VmRecord)) where
    if_wanted-MayHeal :
        (found : Option (AppRecord × VmRecord))
        → (find-in : (c : AppRecord × VmRecord) → found ≡ some c → Memᴰ c scope)
        → All (λ c. MayHeal generator scope c.0) (if_wanted input deps generator found)
    if_wanted-MayHeal none member = tt
    if_wanted-MayHeal (some (app, vm)) member =
        elim (Bool-cases (wants_heal input deps generator app vm)) [
          | inl wanted ↦
              rw wanted
                ((vm, member (app, vm) refl, wants_heal-IsStale generator app vm wanted), tt)
          | inr unwanted ↦ rw unwanted tt
        ]

    heal_candidate-MayHeal :
        (results : List TriggerAppResult) (r : TriggerAppResult)
        → All
            (λ c. MayHeal generator scope c.0)
            (heal_candidate input deps generator scope results r)
    heal_candidate-MayHeal results r =
        by_test
          (is_result_up_to_date input deps r && not (deployed_this_cycle input deps results r.app))
      where
        by_test :
            (b : Bool)
            → All
                (λ c. MayHeal generator scope c.0)
                (if b
                  then if_wanted input deps generator (find (λ c. c.0.name == r.app) scope)
                  else [])
        by_test false = tt
        by_test true =
            if_wanted-MayHeal (find (λ c. c.0.name == r.app) scope) (λ c h. find-Mem _ scope h)

    pub heal_candidates-MayHeal :
        (results rs : List TriggerAppResult)
        → All
            (λ c. MayHeal generator scope c.0)
            (heal_candidates input deps generator scope results rs)
    unfolding heal_candidates
    heal_candidates-MayHeal results [] = tt
    heal_candidates-MayHeal results (r ∷ rs) =
        All-append (λ c. MayHeal generator scope c.0)
          (heal_candidate input deps generator scope results r)
          (heal_candidates input deps generator scope results rs) (heal_candidate-MayHeal results r)
          (heal_candidates-MayHeal results rs)
