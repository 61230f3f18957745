-- ===== src/Preview/Create/Branch.antt =====
-- src/commands/env.ts, `runEnvCreate` and `deriveTarget`: the target of a creation is of the branch that was asked for.
use samohost.Prelude.{
  ℕ, Result, passed, refused, passed-inj, ◌>>=◌, ◌≡◌, refl, sym, ◌∙◌, ap, Option, none, some, List,
  String, arith, find-holds, eq_iff,
}
use samohost.Records.Vm.{VmRecord}
use samohost.Records.App.{AppRecord}
use samohost.Records.Env.{EnvRecord}
use samohost.State.Envs
use samohost.Preview.Target.{EnvScriptTarget, Derived, derived, derive_target, target_from_record}
use samohost.Preview.Create.{
  Refusal, EnvCreateInput, EnvExecDeps, target_for, live_bound, fresh_target, of_derived,
}

find-branch :
    (vm_id app_name branch : String) (envs : List EnvRecord) {e : EnvRecord}
    → Envs.get vm_id app_name branch envs ≡ some e
    → e.branch ≡ branch
unfolding Envs.get
find-branch vm_id app_name branch envs {e} h =
    let held = find-holds (Envs.has_identity vm_id app_name branch) envs h in
    ground (arith, eq_iff e.branch branch)

module _ (deps : EnvExecDeps) (input : EnvCreateInput) (vm : VmRecord) (app : AppRecord)
    (envs : List EnvRecord) where
  fresh_target-branch :
      (extra : List ℕ) (t : EnvScriptTarget)
      → fresh_target deps input vm app envs extra ≡ derived t
      → t.branch ≡ input.branch
  unfolding fresh_target derive_target
  fresh_target-branch extra t h = ground arith

  pub target_for-branch :
      (found : Option EnvRecord) (t : EnvScriptTarget)
      → Envs.get vm.id app.name input.branch envs ≡ found
      → target_for deps input vm app envs found ≡ passed t
      → t.branch ≡ input.branch
  unfolding target_for target_from_record
  target_for-branch none t e h = with_bound (live_bound deps input vm) h
    where
      with_target :
          (extra : List ℕ) (d : Derived)
          → fresh_target deps input vm app envs extra ≡ d
          → of_derived d ≡ passed t
          → t.branch ≡ input.branch
      with_target extra (derived u) e h =
          ap (λ (x : EnvScriptTarget). x.branch) (sym (passed-inj h))
          ∙ fresh_target-branch extra u e
      with_target extra _ e h = cc

      with_bound :
          (b : Result Refusal (List ℕ))
          → (b >>= λ bound. of_derived (fresh_target deps input vm app envs bound)) ≡ passed t
          → t.branch ≡ input.branch
      with_bound (passed extra) h =
          with_target extra (fresh_target deps input vm app envs extra) refl h
      with_bound (refused r) h = cc
  target_for-branch (some old) t e h =
      ap (λ (x : EnvScriptTarget). x.branch) (sym (passed-inj h))
      ∙ find-branch vm.id app.name input.branch envs e
