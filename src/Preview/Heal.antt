-- ===== src/Preview/Heal.antt =====
-- src/preview/heal.ts, `runHealPass`: re-creation of the database clones that a preview lost. Log
-- lines are left out. The probe and the re-creation are dependencies; a throw carries its message.
pub mod Budget
use samohost.Prelude.{
  ℕ, ◌+◌, String, Bool, true, false, ◌==◌, ◌||◌, Option, none, some, List, [], ◌∷◌, ◌++◌, map,
  filter, find, length,
}
use samohost.Records.Vm.{VmRecord}
use samohost.Records.App.{AppRecord, EnvDbBackend, dblab, template, no_db}
use samohost.Records.Env.{EnvRecord}
use samohost.State.Envs

pub data CloneHealth : Type 0 where
  alive dead unknown : CloneHealth

pub data HealAction : Type 0 where
  healthy healed heal_failed skipped : HealAction

pub record HealResult : Type 0 where
  pub env : String
  pub app : String
  pub branch : String
  pub clone_id : String
  pub health : CloneHealth
  pub action : HealAction
  pub error : Option String

pub record HealSummary : Type 0 where
  pub app : String
  pub vm : String
  pub examined : ℕ
  pub healed_count : ℕ
  pub failed : ℕ
  pub deferred : ℕ
  pub results : List HealResult

pub data RecreateOutcome : Type 0 where
  recreate_ok recreate_failed budget : RecreateOutcome
  recreate_threw : String → RecreateOutcome

pub data Probe : Type 0 where
  probe_threw : String → Probe
  probed : List (String × CloneHealth) → Probe

pub record HealDeps : Type 0 where
  pub probe_clones : VmRecord → AppRecord → List EnvRecord → Probe
  pub recreate : VmRecord → AppRecord → EnvRecord → RecreateOutcome

-- The pass while it runs, with the environments whose re-creation was asked for, in order.
pub record Heal : Type 0 where
  pub budget_exhausted : Bool
  pub results : List HealResult
  pub attempted : List EnvRecord

abbrev pub is_dblab : EnvRecord → Bool
is_dblab env = elim env.db_backend [ dblab ↦ true | template ↦ false | no_db ↦ false ]

abbrev pub clone_id_of : EnvRecord → String
clone_id_of env = elim env.db_name [ none ↦ env.name | some name ↦ name ]

-- The `Map` that the probe returned, as its entries.
abbrev pub lookup : List (String × CloneHealth) → String → CloneHealth
lookup entries id = elim (find (λ entry. entry.0 == id) entries) [
  | none ↦ unknown
  | some entry ↦ entry.1
]

unfoldable pub verdict_of : List (String × CloneHealth) → EnvRecord → CloneHealth
verdict_of entries env = lookup entries (clone_id_of env)

module _ (app : AppRecord) (vm : VmRecord) (deps : HealDeps) where
  -- `mk`.
  abbrev pub mk : EnvRecord → String → CloneHealth → HealAction → Option String → HealResult
  mk env clone_id health action error = record {
    env = env.name;
    app = app.spec.name;
    branch = env.branch;
    clone_id = clone_id;
    health = health;
    action = action;
    error = error;
  }

  abbrev push : EnvRecord → CloneHealth → HealAction → Option String → Heal → Heal
  push env health action error s = record s {
    results = s.results ++ mk env (clone_id_of env) health action error ∷ [];
  }

  abbrev deferred_text : String
  deferred_text = "connection budget exhausted — deferred to next cycle"

  abbrev pub after_recreate : EnvRecord → Heal → RecreateOutcome → Heal
  after_recreate env s recreate_ok = push env dead healed none s
  after_recreate env s budget =
      push env dead skipped (some deferred_text) (record s { budget_exhausted = true })
  after_recreate env s recreate_failed =
      push env dead heal_failed (some "re-create did not succeed") s
  after_recreate env s (recreate_threw message) = push env dead heal_failed (some message) s

  abbrev pub heal_dead : EnvRecord → Bool → Heal → Heal
  heal_dead env true s = push env dead skipped (some deferred_text) s
  heal_dead env false s =
      after_recreate env (record s { attempted = s.attempted ++ env ∷ [] })
        (deps.recreate vm app env)

  -- One round of the loop.
  unfoldable pub heal_env : EnvRecord → CloneHealth → Heal → Heal
  heal_env env alive s = push env alive healthy none s
  heal_env env unknown s = push env unknown skipped (some "clone liveness unknown — fail-closed") s
  heal_env env dead s = heal_dead env s.budget_exhausted s

  unfoldable pub heal_all : List (String × CloneHealth) → List EnvRecord → Heal → Heal
  heal_all entries [] s = s
  heal_all entries (env ∷ envs) s = heal_all entries envs (heal_env env (verdict_of entries env) s)

  abbrev pub is_healed : HealResult → Bool
  is_healed r = elim r.action [ healed ↦ true | _ ↦ false ]

  abbrev pub is_failed : HealResult → Bool
  is_failed r = elim r.action [ heal_failed ↦ true | _ ↦ false ]

  abbrev dead_verdict : CloneHealth → Bool
  dead_verdict dead = true
  dead_verdict alive = false
  dead_verdict unknown = false

  abbrev pub is_deferred : HealResult → Bool
  is_deferred r = elim r.action [ skipped ↦ dead_verdict r.health | _ ↦ false ]

  unfoldable pub dblab_envs : List EnvRecord → List EnvRecord
  dblab_envs es = filter is_dblab (Envs.list_for vm.id (some app.spec.name) es)

  abbrev pub summary : ℕ → List HealResult → HealSummary
  summary examined results = record {
    app = app.spec.name;
    vm = vm.name;
    examined = examined;
    healed_count = length (filter is_healed results);
    failed = length (filter is_failed results);
    deferred = length (filter is_deferred results);
    results = results;
  }

  abbrev pub started : Heal
  started = record { budget_exhausted = false; results = []; attempted = [] }

  -- The summary where the probe threw.
  abbrev unprobed : List EnvRecord → String → HealSummary
  unprobed envs message = record {
    app = app.spec.name;
    vm = vm.name;
    examined = length envs;
    healed_count = 0;
    failed = 0;
    deferred = length envs;
    results = map (λ env. mk env (clone_id_of env) unknown skipped (some message)) envs;
  }

  abbrev pub after_probe : List EnvRecord → Probe → HealSummary × List EnvRecord
  after_probe envs (probe_threw message) = (unprobed envs message, [])
  after_probe envs (probed entries) =
      let s = heal_all entries envs started in (summary (length envs) s.results, s.attempted)

  abbrev pub examine : List EnvRecord → HealSummary × List EnvRecord
  examine [] = (summary 0 [], [])
  examine (env ∷ envs) = after_probe (env ∷ envs) (deps.probe_clones vm app (env ∷ envs))

  -- The summary, with the environments whose re-creation was asked for.
  unfoldable pub run_heal_pass : List EnvRecord → HealSummary × List EnvRecord
  run_heal_pass es = examine (dblab_envs es)
