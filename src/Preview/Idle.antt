-- ===== src/Preview/Idle.antt =====
-- src/commands/env-idle.ts: the removal of preview environments that no one visits. The destroy
-- command is a dependency, which also changes the store of environments. Log lines are left out, and
-- times are milliseconds since the epoch.
pub mod Threshold
use samohost.Prelude.{
  ℕ, ◌+◌, ◌-◌, String, Bool, true, false, not, ◌==◌, ◌||◌, Option, none, some, List, [], ◌∷◌, ◌++◌,
  find, ltb, eqb, if◌then◌else◌,
}
use samohost.Records.Vm.{VmRecord}
use samohost.Records.Env.{EnvRecord}
use samohost.State.Disk.{Update}
use samohost.State.Envs

pub record EnvIdleGcInput : Type 0 where
  pub vm : String
  pub idle_threshold_ms : ℕ
  pub idle_reap : Bool
  pub now : ℕ

pub record IdleGcCandidate : Type 0 where
  pub name : String
  pub vm_id : String
  pub app_name : String
  pub branch : String
  pub idle_ms : ℕ

pub data DestroyReply : Type 0 where
  exited : ℕ → DestroyReply
  destroy_threw : String → DestroyReply

pub record IdleDeps : Type 0 where
  -- A date text's time; `none` is NaN.
  pub date_ms : String → Option ℕ
  pub destroy_env : String → String → String → List EnvRecord → DestroyReply × List EnvRecord

pub data DestroyFailure : Type 0 where
  exit_code : ℕ → DestroyFailure
  thrown : String → DestroyFailure

-- The report while it is made, with the store and the environments that were sent to the command.
pub record IdleGc : Type 0 where
  pub envs : List EnvRecord
  pub candidates : List IdleGcCandidate
  pub reaped : List String
  pub failed : List (String × DestroyFailure)
  pub kept : ℕ
  pub sent : List EnvRecord

pub record IdleGcReport : Type 0 where
  pub vm : String
  pub dry_run : Bool
  pub gc : IdleGc

abbrev pub stamp_found : String → Option EnvRecord → List EnvRecord → List EnvRecord
stamp_found ts none es = es
stamp_found ts (some env) es = (Envs.upserted (record env { last_access = some ts }) es).1

-- `stampLastAccess`, on the records of the store.
unfoldable pub stamp_last_access :
    String → String → String → String → List EnvRecord → List EnvRecord
stamp_last_access vm_id app_name branch ts es =
    stamp_found ts (Envs.get vm_id app_name branch es) es

abbrev anchor : EnvRecord → String
anchor env = elim env.last_access [ none ↦ env.created_at | some ts ↦ ts ]

module _ (input : EnvIdleGcInput) (deps : IdleDeps) where
  -- Subtraction stops at 0, as the source's `Math.max` does.
  unfoldable pub idle_since_ms : EnvRecord → ℕ
  idle_since_ms env = elim (deps.date_ms (anchor env)) [ none ↦ 0 | some ms ↦ input.now - ms ]

  abbrev pub candidate : EnvRecord → IdleGcCandidate
  candidate env = record {
    name = env.name;
    vm_id = env.vm_id;
    app_name = env.app_name;
    branch = env.branch;
    idle_ms = idle_since_ms env;
  }

  abbrev pub after_destroy : EnvRecord → DestroyReply × List EnvRecord → IdleGc → IdleGc
  after_destroy env (exited code, envs) s =
      if eqb code 0
      then record s { envs = envs; reaped = s.reaped ++ env.name ∷ [] }
      else record s { envs = envs; failed = s.failed ++ (env.name, exit_code code) ∷ [] }
  after_destroy env (destroy_threw message, envs) s = record s {
    envs = envs;
    failed = s.failed ++ (env.name, thrown message) ∷ [];
  }

  unfoldable pub reap : EnvRecord → IdleGc → IdleGc
  reap env s =
      after_destroy env (deps.destroy_env env.vm_id env.app_name env.branch s.envs)
        (record s { sent = s.sent ++ env ∷ [] })

  abbrev on_idle : EnvRecord → IdleGc → IdleGc
  on_idle env s = if not input.idle_reap then s else reap env s

  -- One round of the loop.
  unfoldable pub idle_round : EnvRecord → IdleGc → IdleGc
  idle_round env s =
      if ltb (idle_since_ms env) input.idle_threshold_ms
      then record s { kept = s.kept + 1 }
      else on_idle env (record s { candidates = s.candidates ++ candidate env ∷ [] })

  unfoldable pub idle_rounds : List EnvRecord → IdleGc → IdleGc
  idle_rounds [] s = s
  idle_rounds (env ∷ envs) s = idle_rounds envs (idle_round env s)

  abbrev pub started : List EnvRecord → IdleGc
  started es = record { envs = es; candidates = []; reaped = []; failed = []; kept = 0; sent = [] }

  abbrev pub on_machine : Option VmRecord → List EnvRecord → IdleGcReport
  on_machine none es = record {
    vm = input.vm;
    dry_run = not input.idle_reap;
    gc = idle_rounds (Envs.list_for input.vm none es) (started es);
  }
  on_machine (some vm) es = record {
    vm = vm.name;
    dry_run = not input.idle_reap;
    gc = idle_rounds (Envs.list_for vm.id none es) (started es);
  }

  unfoldable pub run_env_idle_gc : List VmRecord → List EnvRecord → IdleGcReport
  run_env_idle_gc vms es = on_machine (find (λ v. v.id == input.vm || v.name == input.vm) vms) es
