-- ===== src/Preview/Create/Kept.antt =====
-- What a creation keeps of the record that it replaces.
use mathlib.Core.Path.{subst}
use samohost.Prelude.{passed, passed-inj, ◌≡◌, refl, ◌∙◌, ap, sym, some, List}
use samohost.Records.Vm.{VmRecord}
use samohost.Records.App.{AppRecord}
use samohost.Records.Env.{EnvRecord}
use samohost.State.Apps
use samohost.State.Envs
use samohost.Deploy.Run.{SpawnResult, find_vm}
use samohost.Preview.Phases.{EnvOutcome}
use samohost.Preview.Target.{target_from_record}
use samohost.Preview.Create.{
  EnvCreateInput, EnvExecDeps, EnvCreateReport, CreatePlan, target_for, confirmed, env_record,
  finish, run_env_create, outcome_of,
}
use samohost.Preview.Create.Stages.{Planned, Ran, run_env_create-Ran}
use samohost.Preview.Create.Record.{get-finish}

module _ (deps : EnvExecDeps) (input : EnvCreateInput) (vms : List VmRecord) (apps : List AppRecord)
    (envs : List EnvRecord) where
  -- What a creation keeps of the record that was there.
  abbrev pub Keeps : EnvRecord → EnvRecord → Type 0
  Keeps old e =
      (e.id ≡ old.id)
      × (e.name ≡ old.name)
      × (e.port ≡ old.port)
      × (e.ports ≡ old.ports)
      × (e.vhost ≡ old.vhost)
      × (e.db_backend ≡ old.db_backend)
      × (e.db_name ≡ old.db_name)
      × (e.created_at ≡ old.created_at)
      × (e.pr_number ≡ old.pr_number)

  env_record-Keeps :
      (p : CreatePlan) (o : EnvOutcome) (old : EnvRecord)
      → p.existing ≡ some old
      → p.target ≡ target_from_record old
      → Keeps old (env_record deps input p o)
  unfolding env_record target_from_record
  env_record-Keeps p o old existing t =
      rw (existing, t) (refl, refl, refl, refl, refl, refl, refl, refl, refl)

  pub target-existing :
      (p : CreatePlan) (old : EnvRecord)
      → Planned deps input vms apps envs p
      → p.existing ≡ some old
      → p.target ≡ target_from_record old
  unfolding target_for
  target-existing p old planned e = sym (
      passed-inj
        (subst (λ x. target_for deps input p.vm p.app envs x ≡ passed p.target) e planned.target))

  -- A creation over a record that is there, under the same machine, app and branch, keeps its
  -- identifier, name, ports, host name, database, creation time and pull request.
  pub run_env_create-Keeps :
      {report : EnvCreateReport} {next : List EnvRecord} {vm : VmRecord} {app : AppRecord}
      {old : EnvRecord}
      → (run_env_create deps input vms apps envs).1 ≡ passed (report, next)
      → find_vm vms input.vm ≡ some vm
      → Apps.get vm.id input.app apps ≡ some app
      → Envs.get vm.id app.name input.branch envs ≡ some old
      → (e : EnvRecord) × (Envs.get vm.id app.name input.branch next ≡ some e) × Keeps old e
  run_env_create-Keeps {report} {next} {vm} {app} {old} h v a found =
      of_ran (run_env_create-Ran deps input vms apps envs h)
    where
      some-inj : {A : Type 0} {x y : A} → some x ≡ some y → x ≡ y
      some-inj e = cc

      of_plan :
          (p : CreatePlan) (raw : SpawnResult)
          → Planned deps input vms apps envs p
          → p.vm ≡ vm
          → p.app ≡ app
          → (finish deps input p envs raw) ≡ (report, next)
          → (e : EnvRecord) × (Envs.get vm.id app.name input.branch next ≡ some e) × Keeps old e
      of_plan p raw planned same_vm same_app finished =
          let outcome = confirmed deps input p.target (outcome_of raw) in
          let existing : p.existing ≡ some old =
            planned.existing
            ∙ ap (λ (v : VmRecord). Envs.get v.id p.app.name input.branch envs) same_vm
            ∙ ap (λ (a : AppRecord). Envs.get vm.id a.name input.branch envs) same_app
            ∙ found in
          let stored =
            ap (λ (r : EnvCreateReport × List EnvRecord). Envs.get vm.id app.name input.branch r.1)
              (sym finished)
            ∙ ap
                (λ (v : VmRecord).
                  Envs.get v.id app.name input.branch (finish deps input p envs raw).1)
                (sym same_vm)
            ∙ ap
                (λ (a : AppRecord).
                  Envs.get p.vm.id a.name input.branch (finish deps input p envs raw).1)
                (sym same_app)
            ∙ get-finish deps input vms apps envs p raw planned in
          (
            env_record deps input p outcome,
            stored,
            env_record-Keeps p outcome old existing (target-existing p old planned existing),
          )

      of_ran :
          Ran deps input vms apps envs report next
          → (e : EnvRecord) × (Envs.get vm.id app.name input.branch next ≡ some e) × Keeps old e
      of_ran ran =
          let p = ran.planned in
          let same_vm : p.vm ≡ vm = some-inj (sym ran.planned_by.vm_found ∙ v) in
          let same_app : p.app ≡ app = some-inj (
            sym ran.planned_by.app_found
            ∙ ap (λ (w : VmRecord). Apps.get w.id input.app apps) same_vm
            ∙ a) in
          of_plan p ran.raw ran.planned_by same_vm same_app ran.finished
