-- ===== src/Preview/Create/Record.antt =====
-- What a creation leaves in the store of environments.
use mathlib.Core.Path.{subst}
use Prim.Native.String.{◌++◌ as ◌+++◌}
use samohost.Prelude.{
  passed, ℕ, zero, suc, ◌+◌, ◌<◌, ◌≤◌, ◌≡◌, ◌⊎◌, refl, sym, ◌∙◌, ap, inl, inr, Bool, true, false,
  Option, none, some, List, String, arith, Option-cases, stored_for, if◌then◌else◌,
}
use samohost.Records.Vm.{VmRecord}
use samohost.Records.App.{AppRecord}
use samohost.Records.Env.{EnvRecord}
use samohost.State.Apps
use samohost.State.Envs
use samohost.State.Envs.Laws.{with_id, get-upserted_self}
use samohost.Deploy.Run.{SpawnResult, find_vm}
use samohost.Preview.Phases.{EnvOutcome}
use samohost.Preview.Target.{EnvScriptTarget, target_from_record}
use samohost.Preview.Create.{
  EnvCreateInput, EnvExecDeps, EnvCreateReport, CreatePlan, probe_from, confirmed, env_record,
  report_of, finish, run_env_create, outcome_of, as_app_user,
}
use samohost.Preview.Create.Branch.{target_for-branch}
use samohost.Preview.Create.Stages.{Planned, run_env_create-Ran}

-- A probe that is ok at one of the attempts from `first` on.
abbrev pub Answers : (ℕ → Option Bool) → ℕ → ℕ → Type 0
Answers probe first count =
    (attempt : ℕ) × (first ≤ attempt) × (attempt < first + count) × (probe attempt ≡ some true)

probe_from-Answers :
    (deps : EnvExecDeps) (input : EnvCreateInput) (probe : ℕ → Option Bool) (left attempt : ℕ)
    → probe_from deps input probe left attempt ≡ true
    → Answers probe attempt left
unfolding probe_from
probe_from-Answers deps input probe zero attempt h = absurd (ground (arith, h))
probe_from-Answers deps input probe (suc left) attempt h =
    split (probe_from-Answers deps input probe left (suc attempt)) (probe attempt) refl
  where
    later : Answers probe (suc attempt) left → Answers probe attempt (suc left)
    later (k, low, high, is_ok) = (k, omega (arith, low), omega (arith, high), is_ok)

    split :
        (probe_from deps input probe left (suc attempt) ≡ true → Answers probe (suc attempt) left)
        → (o : Option Bool) → probe attempt ≡ o
        → Answers probe attempt (suc left)
    split rest none e = later (rest (ground (arith, e, h)))
    split rest (some false) e = later (rest (ground (arith, e, h)))
    split rest (some true) e = (attempt, omega arith, omega arith, e)

-- The URL answered within eight attempts, where there is a probe.
abbrev pub IsReachable : EnvExecDeps → String → Type 0
IsReachable deps vhost = elim deps.http_probe [
  | none ↦ Unit
  | some probe ↦ Answers (probe ("https://" +++ vhost +++ "/")) 0 8
]

module _ (deps : EnvExecDeps) (input : EnvCreateInput) where
  confirmed-ok :
      (t : EnvScriptTarget) (o : EnvOutcome)
      → confirmed deps input t o ≡ EnvOutcome.ok
      → (o ≡ EnvOutcome.ok) × IsReachable deps t.vhost
  unfolding confirmed
  confirmed-ok t o h = split o (Option-cases deps.http_probe) h
    where
      probed :
          (b : Bool) → (if b then EnvOutcome.ok else EnvOutcome.failed) ≡ EnvOutcome.ok → b ≡ true
      probed true e = refl
      probed false e = absurd (ground (arith, e))

      split :
          (o : EnvOutcome)
          → (deps.http_probe ≡ none) ⊎ ((p : String → ℕ → Option Bool) × (deps.http_probe ≡ some p))
          → confirmed deps input t o ≡ EnvOutcome.ok
          → (o ≡ EnvOutcome.ok) × IsReachable deps t.vhost
      split EnvOutcome.ok (inl e) h = (refl, rw e tt)
      split EnvOutcome.ok (inr (probe, e)) h =
          let url = "https://" +++ t.vhost +++ "/" in
          (
            refl,
            rw e (
                probe_from-Answers deps input (probe url) 8 0
                  (probed (probe_from deps input (probe url) 8 0) (ground (arith, e, h)))),
          )
      split EnvOutcome.failed (inl e) h = absurd (ground (arith, e, h))
      split EnvOutcome.failed (inr (p, e)) h = absurd (ground (arith, e, h))
      split EnvOutcome.incomplete (inl e) h = absurd (ground (arith, e, h))
      split EnvOutcome.incomplete (inr (p, e)) h = absurd (ground (arith, e, h))

  -- The stamp of a creation: the given commit after an `ok`, and none after anything else.
  abbrev pub IsStamped : EnvOutcome → EnvRecord → Type 0
  IsStamped EnvOutcome.ok e = e.last_deployed_sha ≡ input.last_deployed_sha
  IsStamped _ e = e.last_deployed_sha ≡ none

  env_record-IsStamped : (p : CreatePlan) (o : EnvOutcome) → IsStamped o (env_record deps input p o)
  unfolding env_record
  env_record-IsStamped p EnvOutcome.ok = refl
  env_record-IsStamped p EnvOutcome.failed = refl
  env_record-IsStamped p EnvOutcome.incomplete = refl

  -- The identifier is the one of the record that is replaced.
  pub with_id-env_record :
      (p : CreatePlan) (o : EnvOutcome) (found : Option EnvRecord)
      → p.existing ≡ found
      → stored_for (with_id (env_record deps input p o)) (env_record deps input p o) found
        ≡ env_record deps input p o
  unfolding env_record
  with_id-env_record p o none e = refl
  with_id-env_record p o (some old) e = rw e refl

module _ (deps : EnvExecDeps) (input : EnvCreateInput) (vms : List VmRecord)
    (apps : List AppRecord) where
  -- What an ok outcome says of the machine's reply and of the public URL.
  abbrev pub IsConfirmed : EnvOutcome → SpawnResult → EnvRecord → Type 0
  IsConfirmed EnvOutcome.ok raw e = (outcome_of raw ≡ EnvOutcome.ok) × IsReachable deps e.vhost
  IsConfirmed _ raw e = Unit

  -- The reply is what the machine answered to the creation script of the target.
  abbrev pub IsReply : AppRecord → VmRecord → EnvScriptTarget → SpawnResult → Type 0
  IsReply app vm t raw =
      (script : String) × (deps.build_env_create_script app t ≡ some script)
      × (deps.remote (as_app_user app vm) script ≡ some raw)

  -- The record under the machine, the app and the branch of a creation, with its report, and the
  -- reply of the machine to the script of the recorded target.
  abbrev pub Recorded : EnvCreateReport × List EnvRecord → Type 0
  Recorded (report, next) =
      (vm : VmRecord) × (app : AppRecord) × (t : EnvScriptTarget) × (raw : SpawnResult)
      × (e : EnvRecord) × (find_vm vms input.vm ≡ some vm)
      × (Apps.get vm.id input.app apps ≡ some app)
      × (Envs.get vm.id app.name input.branch next ≡ some e)
      × IsReply app vm t raw
      × (t ≡ target_from_record e)
      × (e.name ≡ report.env)
      × (e.port ≡ report.port)
      × IsStamped deps input report.outcome e
      × IsConfirmed report.outcome raw e

  outcome-IsConfirmed :
      (o : EnvOutcome) (raw : SpawnResult) (e : EnvRecord)
      → (o ≡ EnvOutcome.ok → (outcome_of raw ≡ EnvOutcome.ok) × IsReachable deps e.vhost)
      → IsConfirmed o raw e
  outcome-IsConfirmed EnvOutcome.ok raw e h = h refl
  outcome-IsConfirmed EnvOutcome.failed raw e h = tt
  outcome-IsConfirmed EnvOutcome.incomplete raw e h = tt

module _ (deps : EnvExecDeps) (input : EnvCreateInput) (vms : List VmRecord) (apps : List AppRecord)
    (envs : List EnvRecord) where
  -- The record that a finished creation left, found the way the creation looked for it.
  pub get-finish :
      (p : CreatePlan) (raw : SpawnResult)
      → Planned deps input vms apps envs p
      → Envs.get p.vm.id p.app.name input.branch (finish deps input p envs raw).1
        ≡ some (env_record deps input p (confirmed deps input p.target (outcome_of raw)))
  unfolding finish env_record
  get-finish p raw planned =
      let r = env_record deps input p (confirmed deps input p.target (outcome_of raw)) in
      get-upserted_self r envs
      ∙ ap some (
          with_id-env_record deps input p (confirmed deps input p.target (outcome_of raw))
            (Envs.get p.vm.id p.app.name input.branch envs) planned.existing)

  target-branch :
      (p : CreatePlan) → Planned deps input vms apps envs p → p.target.branch ≡ input.branch
  target-branch p planned =
      target_for-branch deps input p.vm p.app envs p.existing p.target (sym planned.existing)
        planned.target

  -- A creation that reported left a record under its machine, app and branch, with the reported name
  -- and port, and ran the script of the record's target on the machine as the app's service account. The record has the given commit as its deployed one if
  -- the outcome is ok, and none otherwise. If the outcome is ok, the phases in the machine's reply to
  -- that script were ok, and, where there is a probe, the public URL answered at one of eight attempts.
  pub run_env_create-Recorded :
      {report : EnvCreateReport} {next : List EnvRecord}
      → (run_env_create deps input vms apps envs).1 ≡ passed (report, next)
      → Recorded deps input vms apps (report, next)
  unfolding finish report_of env_record target_from_record
  run_env_create-Recorded {report} {next} h =
      let ran = run_env_create-Ran deps input vms apps envs h in
      subst (Recorded deps input vms apps) ran.finished
        (recorded ran.planned ran.raw (ran.script, ran.built, ran.replied) ran.planned_by)
    where
      recorded :
          (p : CreatePlan) (raw : SpawnResult)
          → IsReply deps input vms apps p.app p.vm p.target raw
          → Planned deps input vms apps envs p
          → Recorded deps input vms apps (finish deps input p envs raw)
      recorded p raw reply planned =
          let outcome = confirmed deps input p.target (outcome_of raw) in
          (
            p.vm,
            p.app,
            p.target,
            raw,
            env_record deps input p outcome,
            planned.vm_found,
            planned.app_found,
            get-finish p raw planned,
            reply,
            ap (λ branch. record p.target { branch = branch }) (target-branch p planned),
            refl,
            refl,
            env_record-IsStamped deps input p outcome,
            outcome-IsConfirmed deps input vms apps outcome raw (env_record deps input p outcome)
                (confirmed-ok deps input p.target (outcome_of raw)),
          )
