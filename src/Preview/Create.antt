-- ===== src/Preview/Create.antt =====
-- src/commands/env.ts, `runEnvCreate` and `resolve`: the creation of one
-- environment. Messages are left out but for which error it was; a throw of a dependency is
-- `none`. The calls to the DNS provider and to the machine are kept in order; those to the provider
-- only warn when they fail.
pub mod Removal
pub mod Stages
pub mod Branch
pub mod Record
pub mod Kept
pub mod Gone
pub mod Apart
use Prim.Native.String.{◌++◌ as ◌+++◌}
use samohost.Prelude.{
  Result, passed, refused, ◌>>=◌, ◌>>◌, need, ℕ, zero, suc, ◌+◌, String, Bool, true, false, not,
  ◌&&◌, ◌||◌, ◌==◌, Option, none, some, List, [], ◌∷◌, ◌++◌, units, trim, if◌then◌else◌,
}
use samohost.Records.Vm.{VmRecord}
use samohost.Records.App.{EnvDbBackend, dblab, template, no_db, AppRecord}
use samohost.Records.Env.{EnvRecord}
use samohost.State.Apps
use samohost.State.Envs
use samohost.Deploy.Run.{SpawnResult, find_vm}
use samohost.Services.{Url, ServicesError}
use samohost.Preview.Ports.{default_pool}
use samohost.Preview.Phases.{EnvOutcome, parse_env_outcome}
use samohost.Preview.Target.{
  EnvScriptTarget, TargetError, Derived, derived, underivable, rejected, target_from_record,
  derive_target,
}

pub record EnvCreateInput : Type 0 where
  pub vm : String
  pub app : String
  pub branch : String
  pub db : EnvDbBackend
  pub preview_domain : String
  pub template_db : Option String
  pub last_deployed_sha : Option String

pub record EnvExecDeps : Type 0 where
  pub parse_url : String → Option Url
  pub now : String
  pub uuid : String
  -- The ports that are bound on the machine.
  pub in_use_ports : Option (VmRecord → Option (List ℕ))
  pub has_dns : Bool
  pub build_env_create_script : AppRecord → EnvScriptTarget → Option String
  pub build_env_destroy_script : AppRecord → EnvScriptTarget → Option String
  pub remote : VmRecord → String → Option SpawnResult
  -- The `ok` of a probe of a URL, at the number of the attempt.
  pub http_probe : Option (String → ℕ → Option Bool)

pub data Refusal : Type 0 where
  no_vm no_app no_database_url_env ports_unknown connection_failed : Refusal
  no_env : Refusal
  destroy_incomplete : EnvOutcome → Refusal
  no_target : TargetError → Refusal
  -- These two reject the promise.
  services_threw : ServicesError → Refusal
  script_threw : Refusal

pub data Call : Type 0 where
  ensure_dns : String → String → Call
  remove_dns : String → Call
  send : VmRecord → String → Call

unfoldable pub resolve :
    List VmRecord → List AppRecord → String → String → Result Refusal (VmRecord × AppRecord)
resolve vms apps vm_target app_target = do
  vm ← need (find_vm vms vm_target) no_vm
  app ← need (Apps.get vm.id app_target apps) no_app
  passed (vm, app)

abbrev pub as_app_user : AppRecord → VmRecord → VmRecord
as_app_user app vm = elim app.app_user [ none ↦ vm | some user ↦ record vm { ssh_user = user } ]

abbrev pub outcome_of : SpawnResult → EnvOutcome
outcome_of raw = parse_env_outcome (units (raw.stdout +++ "\n" +++ raw.stderr))

abbrev pub external_probe_retries : ℕ
external_probe_retries = 8

pub record CreatePlan : Type 0 where
  pub vm : VmRecord
  pub app : AppRecord
  pub existing : Option EnvRecord
  pub target : EnvScriptTarget

pub record EnvCreateReport : Type 0 where
  pub env : String
  pub vm : String
  pub app : String
  pub branch : String
  pub port : ℕ
  pub ports : Option (List (String × ℕ))
  pub vhost : String
  pub db : EnvDbBackend
  pub outcome : EnvOutcome
  pub exit_code : ℕ
  pub stderr : Option String

abbrev pub of_derived : Derived → Result Refusal EnvScriptTarget
of_derived (derived t) = passed t
of_derived (underivable e) = refused (no_target e)
of_derived (rejected e) = refused (services_threw e)

abbrev pub if_ok {ℓ} : {A : Type ℓ} → EnvOutcome → A → A → A
if_ok EnvOutcome.ok x y = x
if_ok _ x y = y

module _ (deps : EnvExecDeps) (input : EnvCreateInput) where
  -- A backend that rewrites the URL of the database needs to know its variable.
  unfoldable pub check_database_url : AppRecord → Result Refusal (Unit {0})
  check_database_url app = elim input.db [
    | no_db ↦ passed tt
    | dblab ↦ elim app.database_url_env [ none ↦ refused no_database_url_env | some _ ↦ passed tt ]
    | template ↦ elim app.database_url_env [
      | none ↦ refused no_database_url_env
      | some _ ↦ passed tt
    ]
  ]

  unfoldable pub live_bound : VmRecord → Result Refusal (List ℕ)
  live_bound vm = elim deps.in_use_ports [
    | none ↦ passed []
    | some probe ↦ need (probe vm) ports_unknown
  ]

  abbrev pub fresh_target : VmRecord → AppRecord → List EnvRecord → List ℕ → Derived
  fresh_target vm app envs bound =
      derive_target deps.parse_url app input.branch input.db input.preview_domain
        (Envs.list_for vm.id none envs) default_pool input.template_db bound

  -- An environment that is recorded keeps its own name and ports.
  unfoldable pub target_for :
      VmRecord → AppRecord → List EnvRecord → Option EnvRecord → Result Refusal EnvScriptTarget
  target_for vm app envs (some e) = passed (target_from_record e)
  target_for vm app envs none = do
    bound ← live_bound vm
    of_derived (fresh_target vm app envs bound)

  abbrev pub existing_env : VmRecord → AppRecord → List EnvRecord → Option EnvRecord
  existing_env vm app envs = Envs.get vm.id app.name input.branch envs

  unfoldable pub plan : List VmRecord → List AppRecord → List EnvRecord → Result Refusal CreatePlan
  plan vms apps envs = do
    r ← resolve vms apps input.vm input.app
    check_database_url r.1
    target ← target_for r.0 r.1 envs (existing_env r.0 r.1 envs)
    passed (record { vm = r.0; app = r.1; existing = existing_env r.0 r.1 envs; target = target })

  abbrev holds : Option Bool → Bool
  holds none = false
  holds (some b) = b

  -- The attempts that are left, from the attempt of that number on, stopped by the first that is ok.
  unfoldable pub probe_from : (ℕ → Option Bool) → ℕ → ℕ → Bool
  probe_from probe zero attempt = false
  probe_from probe (suc left) attempt =
      let later = probe_from probe left (suc attempt) in
      if holds (probe attempt) then true else later

  -- On-host phases that are ok are confirmed at the public URL, where there is a probe.
  unfoldable pub confirmed : EnvScriptTarget → EnvOutcome → EnvOutcome
  confirmed target outcome = elim deps.http_probe [
    | none ↦ outcome
    | some probe ↦
        let url = "https://" +++ target.vhost +++ "/" in
        if_ok outcome
          (if probe_from (probe url) external_probe_retries 0
            then EnvOutcome.ok
            else EnvOutcome.failed)
          outcome
  ]

  abbrev kept {ℓ} : {A : Type ℓ} → (EnvRecord → A) → Option EnvRecord → A → A
  kept field none fresh = fresh
  kept field (some e) fresh = field e

  unfoldable pub env_record : CreatePlan → EnvOutcome → EnvRecord
  env_record p outcome = record {
    id = kept (λ e. e.id) p.existing deps.uuid;
    vm_id = p.vm.id;
    app_name = p.app.name;
    branch = input.branch;
    name = p.target.name;
    port = p.target.port;
    vhost = p.target.vhost;
    db_backend = p.target.db_backend;
    db_name = p.target.db_name;
    template_db = p.target.template_db;
    created_at = kept (λ e. e.created_at) p.existing deps.now;
    last_deployed_sha = if_ok outcome input.last_deployed_sha none;
    pr_number = kept (λ e. e.pr_number) p.existing none;
    last_access = none;
    ports = p.target.ports;
  }

  abbrev captured_stderr : EnvOutcome → SpawnResult → Option String
  captured_stderr outcome raw =
      if_ok outcome none (if trim raw.stderr == "" then none else some (trim raw.stderr))

  unfoldable pub report_of : CreatePlan → SpawnResult → EnvOutcome → EnvCreateReport
  report_of p raw outcome = record {
    env = p.target.name;
    vm = p.vm.name;
    app = p.app.name;
    branch = input.branch;
    port = p.target.port;
    ports = p.target.ports;
    vhost = p.target.vhost;
    db = p.target.db_backend;
    outcome = outcome;
    exit_code = if_ok outcome 0 1;
    stderr = captured_stderr outcome raw;
  }

  -- Recorded on success and on failure.
  unfoldable pub finish :
      CreatePlan → List EnvRecord → SpawnResult → EnvCreateReport × List EnvRecord
  finish p envs raw =
      let outcome = confirmed p.target (outcome_of raw) in
      (report_of p raw outcome, (Envs.upserted (env_record p outcome) envs).1)

  abbrev pub dns_calls : CreatePlan → List Call
  dns_calls p = if deps.has_dns then ensure_dns p.target.vhost p.vm.ip ∷ [] else []

  abbrev pub sent :
      CreatePlan
      → List EnvRecord
      → Option String
      → List Call × Result Refusal (EnvCreateReport × List EnvRecord)
  sent p envs none = (dns_calls p, refused script_threw)
  sent p envs (some script) = (
    dns_calls p ++ send (as_app_user p.app p.vm) script ∷ [],
    do
      raw ← need (deps.remote (as_app_user p.app p.vm) script) connection_failed
      passed (finish p envs raw),
  )

  abbrev pub created :
      List EnvRecord
      → Result Refusal CreatePlan
      → List Call × Result Refusal (EnvCreateReport × List EnvRecord)
  created envs (refused r) = ([], refused r)
  created envs (passed p) = sent p envs (deps.build_env_create_script p.app p.target)

  unfoldable pub run_env_create :
      List VmRecord
      → List AppRecord
      → List EnvRecord
      → List Call × Result Refusal (EnvCreateReport × List EnvRecord)
  run_env_create vms apps envs = created envs (plan vms apps envs)
