-- ===== src/Preview/Create/Removal.antt =====
-- src/commands/env.ts, `runEnvDestroy`: the removal of one environment.
use samohost.Prelude.{
  Result, passed, refused, ◌>>=◌, need, String, Option, none, some, List, [], ◌∷◌, if◌then◌else◌,
}
use samohost.Records.Vm.{VmRecord}
use samohost.Records.App.{AppRecord}
use samohost.Records.Env.{EnvRecord}
use samohost.State.Envs
use samohost.Deploy.Run.{SpawnResult}
use samohost.Preview.Phases.{EnvOutcome}
use samohost.Preview.Target.{target_from_record}
use samohost.Preview.Create.{
  EnvExecDeps, Refusal, no_env, connection_failed, script_threw, destroy_incomplete, Call,
  remove_dns, send, resolve, as_app_user, outcome_of,
}

pub record EnvDestroyInput : Type 0 where
  pub vm : String
  pub app : String
  pub branch : String

module _ (deps : EnvExecDeps) (input : EnvDestroyInput) where
  unfoldable pub recorded :
      List VmRecord
      → List AppRecord
      → List EnvRecord
      → Result Refusal (VmRecord × AppRecord × EnvRecord)
  recorded vms apps envs = do
    r ← resolve vms apps input.vm input.app
    e ← need (Envs.get r.0.id r.1.name input.branch envs) no_env
    passed (r.0, r.1, e)

  abbrev removal_calls : EnvRecord → List Call
  removal_calls e = if deps.has_dns then remove_dns e.vhost ∷ [] else []

  -- Only an `ok` of the script removes the name and the record.
  abbrev pub removed_after :
      VmRecord
      → AppRecord
      → EnvRecord
      → List EnvRecord
      → EnvOutcome
      → List Call × Result Refusal (List EnvRecord)
  removed_after vm app e envs EnvOutcome.ok =
      (removal_calls e, passed (Envs.removed vm.id app.name input.branch envs).1)
  removed_after vm app e envs outcome = ([], refused (destroy_incomplete outcome))

  abbrev pub after_remote :
      VmRecord
      → AppRecord
      → EnvRecord
      → List EnvRecord
      → Option SpawnResult
      → List Call × Result Refusal (List EnvRecord)
  after_remote vm app e envs none = ([], refused connection_failed)
  after_remote vm app e envs (some raw) = removed_after vm app e envs (outcome_of raw)

  abbrev pub sent_destroy :
      VmRecord
      → AppRecord
      → EnvRecord
      → List EnvRecord
      → Option String
      → List Call × Result Refusal (List EnvRecord)
  sent_destroy vm app e envs none = ([], refused script_threw)
  sent_destroy vm app e envs (some script) =
      let (calls, result) = after_remote vm app e envs (deps.remote (as_app_user app vm) script) in
      (send (as_app_user app vm) script ∷ calls, result)

  abbrev pub destroyed :
      List EnvRecord
      → Result Refusal (VmRecord × AppRecord × EnvRecord)
      → List Call × Result Refusal (List EnvRecord)
  destroyed envs (refused r) = ([], refused r)
  destroyed envs (passed (vm, app, e)) =
      sent_destroy vm app e envs (deps.build_env_destroy_script app (target_from_record e))

  unfoldable pub run_env_destroy :
      List VmRecord → List AppRecord → List EnvRecord → List Call × Result Refusal (List EnvRecord)
  run_env_destroy vms apps envs = destroyed envs (recorded vms apps envs)
