-- ===== src/Preview/Gc.antt =====
-- src/commands/env.ts, `runEnvGc`: garbage collection of stale preview environments. Log lines are
-- left out. A throw of a dependency is `none`; a DNS removal touches no store, and its failure is
-- only logged.
pub mod Safety
pub mod Counts
use Prim.Native.String.{◌++◌ as append}
use samohost.Prelude.{
  ℕ, ◌+◌, ◌-◌, String, Bool, true, false, not, ◌&&◌, ◌||◌, ◌==◌, Option, none, some, List, [], ◌∷◌,
  ◌++◌, find, filter, any, units, leb, ltb, if◌then◌else◌,
}
use samohost.Records.Vm.{
  VmRecord, planned, creating, booting, ready, adopted, degraded, failed, destroying, destroyed,
}
use samohost.Records.App.{AppRecord}
use samohost.Records.Env.{EnvRecord}
use samohost.Lifecycle.{label}
use samohost.State.Apps
use samohost.State.Envs
use samohost.Deploy.Run.{SpawnResult}
use samohost.Preview.Phases.{EnvOutcome, parse_env_outcome}

pub record EnvGcInput : Type 0 where
  pub vm : String
  pub app : Option String
  pub reap : Bool
  -- Milliseconds.
  pub ttl : Option ℕ

pub data GcReason : Type 0 where
  branch_gone orphan_vm orphan_app ttl_expired : GcReason

pub data GcAction : Type 0 where
  destroy prune_record : GcAction

pub record GcCandidate : Type 0 where
  pub name : String
  pub app_name : String
  pub branch : String
  pub reason : GcReason
  pub action : GcAction
  pub vm_state : String

pub data BranchState : Type 0 where
  open_branch gone : BranchState

pub record EnvGcDeps : Type 0 where
  -- The clock, and a date text's time, both in milliseconds since the epoch; `none` is NaN.
  pub now : ℕ
  pub date_ms : String → Option ℕ
  pub branch_state : Option (String → String → Option BranchState)
  -- The destroy script is a function of the app and the environment.
  pub remote : VmRecord → AppRecord → EnvRecord → Option SpawnResult

pub record Gc : Type 0 where
  pub envs : List EnvRecord
  pub candidates : List GcCandidate
  pub reaped : List String
  pub pruned : List String
  pub kept : ℕ
  pub failures : List (String × GcReason)
  -- The environments whose destroy script was sent over SSH.
  pub sent : List EnvRecord

-- The class of a machine, with the machine, which only a dead class may lack.
pub data VmClassification : Type 0 where
  live : VmRecord → VmClassification
  dead : Option VmRecord → VmClassification
  transitional : VmRecord → VmClassification

abbrev pub classify_state : VmRecord → VmClassification
classify_state vm = elim vm.lifecycle_state [
  | planned ↦ transitional vm
  | creating ↦ transitional vm
  | booting ↦ transitional vm
  | ready ↦ live vm
  | adopted ↦ live vm
  | degraded ↦ transitional vm
  | failed ↦ dead (some vm)
  | destroying ↦ dead (some vm)
  | destroyed ↦ dead (some vm)
]

-- A machine that the store does not hold counts as dead.
abbrev pub classify_found : Option VmRecord → VmClassification
classify_found none = dead none
classify_found (some vm) = classify_state vm

unfoldable pub classify_vm : List VmRecord → String → VmClassification
classify_vm vms vm_id = classify_found (find (λ r. r.id == vm_id) vms)

abbrev vm_state_of : Option VmRecord → String
vm_state_of none = "missing"
vm_state_of (some vm) = label vm.lifecycle_state

abbrev candidate : EnvRecord → GcReason → GcAction → String → GcCandidate
candidate env reason action vm_state = record {
  name = env.name;
  app_name = env.app_name;
  branch = env.branch;
  reason = reason;
  action = action;
  vm_state = vm_state;
}

abbrev keep : Gc → Gc
keep s = record s { kept = s.kept + 1 }

abbrev push_candidate : GcCandidate → Gc → Gc
push_candidate c s = record s { candidates = s.candidates ++ c ∷ [] }

abbrev pub without : EnvRecord → List EnvRecord → List EnvRecord
without env es = (Envs.removed env.vm_id env.app_name env.branch es).1

module _ (input : EnvGcInput) (vms : List VmRecord) (apps : List AppRecord) (deps : EnvGcDeps) where
  -- An orphan: the record goes, with no SSH.
  unfoldable pub prune : EnvRecord → GcReason → String → Gc → Gc
  prune env reason vm_state s =
      let noted = push_candidate (candidate env reason prune_record vm_state) s in
      if not input.reap
      then noted
      else record noted { envs = without env noted.envs; pruned = noted.pruned ++ env.name ∷ [] }

  -- `none` where the branch check threw.
  unfoldable pub branch_is_gone : AppRecord → EnvRecord → Option Bool
  branch_is_gone app env = elim deps.branch_state [
    | none ↦ some false
    | some check ↦ elim (check app.repo env.branch) [
      | none ↦ none
      | some open_branch ↦ some false
      | some gone ↦ some true
    ]
  ]

  unfoldable pub ttl_has_expired : EnvRecord → Bool
  ttl_has_expired env = elim input.ttl [
    | none ↦ false
    | some ttl ↦ elim (deps.date_ms env.created_at) [
      | none ↦ false
      | some created ↦ ltb 0 ttl && leb ttl (deps.now - created)
    ]
  ]

  abbrev fail_with : EnvRecord → GcReason → Gc → Gc
  fail_with env reason s = record s { failures = s.failures ++ (env.name, reason) ∷ [] }

  abbrev finish_destroy : EnvRecord → GcReason → Gc → EnvOutcome → Gc
  finish_destroy env reason s EnvOutcome.ok = record s {
    envs = without env s.envs;
    reaped = s.reaped ++ env.name ∷ [];
  }
  finish_destroy env reason s _ = fail_with env reason s

  abbrev pub outcome_of : SpawnResult → EnvOutcome
  outcome_of raw = parse_env_outcome (units (append raw.stdout (append "\n" raw.stderr)))

  abbrev pub as_app_user : AppRecord → VmRecord → VmRecord
  as_app_user app vm = elim app.app_user [ none ↦ vm | some user ↦ record vm { ssh_user = user } ]

  -- The destroy script goes over SSH; only its `ok` removes the record.
  unfoldable pub destroy_env : EnvRecord → AppRecord → VmRecord → GcReason → Gc → Gc
  destroy_env env app vm reason s =
      let connected = record s { sent = s.sent ++ env ∷ [] } in
      elim (deps.remote (as_app_user app vm) app env) [
        | none ↦ fail_with env reason connected
        | some raw ↦ finish_destroy env reason connected (outcome_of raw)
      ]

  abbrev reason_for : Bool → Bool → Option GcReason
  reason_for branch_gone? expired =
      if branch_gone? then some branch_gone else if expired then some ttl_expired else none

  unfoldable pub collect_live : EnvRecord → AppRecord → VmRecord → Option Bool → Gc → Gc
  collect_live env app vm none s = keep s
  collect_live env app vm (some is_gone) s = elim (reason_for is_gone (ttl_has_expired env)) [
    | none ↦ keep s
    | some reason ↦
        let noted = push_candidate (candidate env reason destroy (label vm.lifecycle_state)) s in
        if not input.reap then noted else destroy_env env app vm reason noted
  ]

  abbrev on_live : EnvRecord → VmRecord → Gc → Gc
  on_live env vm s = elim (Apps.get env.vm_id env.app_name apps) [
    | none ↦ prune env orphan_app (label vm.lifecycle_state) s
    | some app ↦ collect_live env app vm (branch_is_gone app env) s
  ]

  abbrev by_class : EnvRecord → VmClassification → Gc → Gc
  by_class env (transitional vm) s = keep s
  by_class env (dead vm) s = prune env orphan_vm (vm_state_of vm) s
  by_class env (live vm) s = on_live env vm s

  -- One round of the loop.
  unfoldable pub gc_env : EnvRecord → Gc → Gc
  gc_env env s = by_class env (classify_vm vms env.vm_id) s

  unfoldable pub gc_all : List EnvRecord → Gc → Gc
  gc_all [] s = s
  gc_all (env ∷ rest) s = gc_all rest (gc_env env s)

  abbrev target_vm : Option VmRecord
  target_vm = find (λ r. r.id == input.vm || r.name == input.vm) vms

  abbrev target_id : String
  target_id = elim target_vm [ none ↦ input.vm | some vm ↦ vm.id ]

  abbrev by_vm_name : Option VmRecord → List EnvRecord → List EnvRecord
  by_vm_name none es = Envs.list_for input.vm input.app es
  by_vm_name (some vm) es = []

  -- The first of the records with one id.
  unfoldable pub first_by_id : List String → List EnvRecord → List EnvRecord
  first_by_id seen [] = []
  first_by_id seen (e ∷ es) =
      let fresh = e ∷ first_by_id (e.id ∷ seen) es in
      let rest = first_by_id seen es in if any (λ i. i == e.id) seen then rest else fresh

  unfoldable pub scanned : List EnvRecord → List EnvRecord
  scanned es = first_by_id [] (Envs.list_for target_id input.app es ++ by_vm_name target_vm es)

  abbrev pub started : List EnvRecord → Gc
  started es = record {
    envs = es;
    candidates = [];
    reaped = [];
    pruned = [];
    kept = 0;
    failures = [];
    sent = [];
  }

  unfoldable pub run_env_gc : List EnvRecord → Gc
  run_env_gc es = gc_all (scanned es) (started es)

  abbrev is_empty : List (String × GcReason) → Bool
  is_empty [] = true
  is_empty (f ∷ fs) = false

  unfoldable pub exit_code : Gc → ℕ
  exit_code s = if input.reap && not (is_empty s.failures) then 1 else 0
