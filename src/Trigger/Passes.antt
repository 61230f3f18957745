-- ===== src/Trigger/Passes.antt =====
-- src/commands/trigger.ts, `runTriggerRun`: the pass that collects the branch-gone environments of each
-- machine once. The collection of one machine is a dependency, and its throw is only logged.
pub mod Once
use samohost.Prelude.{
  ℕ, ◌≡◌, refl, ◌⊎◌, inl, inr, String, Bool, true, false, not, ◌==◌, ◌&&◌, ◌||◌, Option, none, some,
  List, [], ◌∷◌, ◌++◌, any, All, All-append, arith, Bool-cases, eq_refl, eq_comm, if◌then◌else◌,
}
use samohost.Records.App.{AppRecord}
use samohost.Records.Vm.{VmRecord}
use samohost.Trigger.Decide.{Reply, threw, replied}
use samohost.Trigger.Cycle.{is_live}

pub record GcSummary : Type 0 where
  pub candidates : ℕ
  pub reaped : ℕ
  pub pruned : ℕ

-- `Set.add` of a live machine.
abbrev pub add_new : String → List String → List String
add_new id seen = if any (λ s. s == id) seen then seen else seen ++ id ∷ []

abbrev pub add_live : VmRecord → List String → List String
add_live vm seen = if is_live vm.lifecycle_state then add_new vm.id seen else seen

unfoldable pub seen_from : List String → List (AppRecord × VmRecord) → List String
seen_from seen [] = seen
seen_from seen ((app, vm) ∷ cs) = seen_from (add_live vm seen) cs

-- `seenVmIds`.
unfoldable pub live_vm_ids : List (AppRecord × VmRecord) → List String
live_vm_ids scope = seen_from [] scope

-- The summaries by machine, for the calls that did not throw, and the calls.
pub record GcPass : Type 0 where
  pub by_vm : List (String × GcSummary)
  pub calls : List (String × Bool)

module _ (gc : String → Bool → Reply GcSummary) (reap : Bool) where
  abbrev pub noted : String → Reply GcSummary → GcPass → GcPass
  noted id (threw message) s = s
  noted id (replied summary) s = record s { by_vm = s.by_vm ++ (id, summary) ∷ [] }

  unfoldable pub gc_each : List String → GcPass → GcPass
  gc_each [] s = s
  gc_each (id ∷ ids) s =
      gc_each ids (noted id (gc id reap) (record s { calls = s.calls ++ (id, reap) ∷ [] }))

abbrev pub no_calls : GcPass
no_calls = record { by_vm = []; calls = [] }

abbrev pub run_wired :
    Bool → Bool → Option (String → Bool → Reply GcSummary) → List (AppRecord × VmRecord) → GcPass
run_wired wanted reap none scope = no_calls
run_wired wanted reap (some gc) scope =
    if wanted then gc_each gc reap (live_vm_ids scope) no_calls else no_calls

-- The pass of branch-gone environments; a dry run of the trigger is a dry run of it.
unfoldable pub gc_pass :
    Bool → Bool → Option (String → Bool → Reply GcSummary) → List (AppRecord × VmRecord) → GcPass
gc_pass wanted dry_run gc scope = run_wired wanted (not dry_run) gc scope
