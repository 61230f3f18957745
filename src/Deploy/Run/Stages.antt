-- ===== src/Deploy/Run/Stages.antt =====
-- What a plan, and a deploy that reached the machine, has gone through.
use samohost.Prelude.{◌≡◌, ◌⊎◌, refl, Option, none, some, List, arith, inl, inr}
use samohost.Records.Vm.{VmRecord}
use samohost.Records.App.{AppRecord}
use samohost.State.Apps
use samohost.Deploy.Run.{
  AppDeployInput, AppDeployDeps, AppDeployReport, SpawnResult, Refusal, connection_failed, Result,
  passed, refused, ◌>>=◌, need, Plan, find_vm, check_channel, target_sha, check_release_tag,
  check_known_bad, ci_gate, plan, finish, run_app_deploy, report_of, outcome_of,
}

pub bind-passed :
    {A B : Type 0} (m : Result A) (f : A → Result B) {b : B}
    → (m >>= f) ≡ passed b
    → (a : A) × (m ≡ passed a) × (f a ≡ passed b)
bind-passed (passed a) f h = (a, refl, h)
bind-passed (refused r) f h = cc

pub of_some_eq : {A : Type 0} {a b : A} → some a ≡ some b → a ≡ b
of_some_eq e = cc

pub Result-cases :
    {A : Type 0} (m : Result A) → ((a : A) × (m ≡ passed a)) ⊎ ((r : Refusal) × (m ≡ refused r))
Result-cases (passed a) = inl (a, refl)
Result-cases (refused r) = inr (r, refl)

pub need-passed :
    {A : Type 0} (o : Option A) (r : Refusal) {a : A} → need o r ≡ passed a → o ≡ some a
need-passed none r h = cc
need-passed (some b) r h = ground arith

module _ (deps : AppDeployDeps) (input : AppDeployInput) (vms : List VmRecord)
    (apps : List AppRecord) where
  -- Each gate of the plan, passed.
  pub record Planned (p : Plan) : Type 0 where
    pub vm_found : find_vm vms input.vm ≡ some p.vm
    pub app_found : Apps.get p.vm.id input.app apps ≡ some p.app
    pub channel : check_channel deps input p.app ≡ passed tt
    pub sha : target_sha deps input p.app ≡ passed p.sha
    pub tag : check_release_tag deps input p.app p.sha ≡ passed tt
    pub not_bad : check_known_bad deps input p.app p.sha ≡ passed tt
    pub ci : ci_gate deps input p.app p.sha ≡ passed p.ci

  pub plan-Planned : (p : Plan) → plan deps input vms apps ≡ passed p → Planned p
  unfolding plan
  plan-Planned p h = record {
    vm_found = ground arith;
    app_found = ground arith;
    channel = ground arith;
    sha = ground arith;
    tag = ground arith;
    not_bad = ground arith;
    ci = ground arith;
  }

  -- A run that reported went through the plan and the one remote call.
  pub record Ran (report : AppDeployReport) (next : List AppRecord) : Type 0 where
    pub planned : Plan
    pub raw : SpawnResult
    pub planned_by : plan deps input vms apps ≡ passed planned
    pub reported : report ≡ report_of deps input planned (outcome_of deps input raw)
    pub finished : finish deps input planned raw apps ≡ passed (report, next)

  ran :
      {report : AppDeployReport} {next : List AppRecord} (p : Plan) (o : Option SpawnResult)
      → plan deps input vms apps ≡ passed p
      → (need o connection_failed >>= λ raw. finish deps input p raw apps) ≡ passed (report, next)
      → Ran report next
  ran p none e h = cc
  ran p (some raw) e h = record {
    planned = p;
    raw = raw;
    planned_by = e;
    reported = unfold finish in ground arith;
    finished = h;
  }

  pub run_app_deploy-Ran :
      {report : AppDeployReport} {next : List AppRecord}
      → run_app_deploy deps input vms apps ≡ passed (report, next)
      → Ran report next
  unfolding run_app_deploy
  run_app_deploy-Ran h = elim (Result-cases (plan deps input vms apps)) [
    | inl (p, e) ↦ ran p _ e (rw e at h)
    | inr (r, e) ↦ absurd (stuck (rw e at h))
  ]
    where
      stuck :
          {r : Refusal} {b : AppDeployReport × List AppRecord}
          → ◌≡◌ {A = Result (AppDeployReport × List AppRecord)} (refused r) (passed b)
          → ⊥
      stuck e = cc
