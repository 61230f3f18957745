-- ===== src/Deploy/Register/Kept.antt =====
-- What a registration anew keeps of the app that was there.
use mathlib.Core.Path.{subst}
use samohost.Prelude.{String, ◌≡◌, refl, sym, ap, ◌∙◌, none, some, List, passed, if◌then◌else◌}
use samohost.Records.Vm.{VmRecord}
use samohost.Records.App.{AppRecord}
use samohost.State.Apps
use samohost.Deploy.Run.{AppDeployDeps, AppDeployInput, find_vm, check_known_bad}
use samohost.Deploy.Register.{AppRegisterInput, same_policy, app_record, run_app_register}
use samohost.Deploy.Register.Checks.{run_app_register-Registered, stored-app_record}

module _ (input : AppRegisterInput) where
  -- The bookkeeping of deploys; the cursor of the release channel stays under the same policy only.
  abbrev pub KeepsBookkeeping : AppRecord → AppRecord → Type 0
  KeepsBookkeeping old stored =
      (stored.id ≡ old.id)
      × (stored.deployed_sha ≡ old.deployed_sha)
      × (stored.failed_sha ≡ old.failed_sha)
      × (stored.last_deploy_at ≡ old.last_deploy_at)
      × (stored.generator_sha ≡ old.generator_sha)
      × (stored.release_tag_cursor
          ≡ (if same_policy input old then old.release_tag_cursor else none))

  app_record-KeepsBookkeeping :
      (uuid : String) (vm : VmRecord) (old : AppRecord)
      → KeepsBookkeeping old (app_record input uuid vm (some old))
  unfolding app_record
  app_record-KeepsBookkeeping uuid vm old = (refl, refl, refl, refl, refl, refl)

  check_known_bad-kept :
      (deps : AppDeployDeps) (deploy : AppDeployInput) (sha : String) (a b : AppRecord)
      → a.failed_sha ≡ b.failed_sha
      → check_known_bad deps deploy a sha ≡ check_known_bad deps deploy b sha
  unfolding check_known_bad
  check_known_bad-kept deps deploy sha a b e = rw e refl

  -- An app that is registered anew keeps its identifier, its deployed and its known-bad commit, and
  -- the time and the generator of its last deploy; it keeps the cursor of its release channel exactly
  -- if the pattern, the format and the workflow are those of before. So a deploy of any commit is
  -- refused as known bad after it exactly where it was before.
  pub run_app_register-Keeps :
      (vms : List VmRecord) (uuid : String) (apps next : List AppRecord) (stored old : AppRecord)
      (vm : VmRecord) (deps : AppDeployDeps) (deploy : AppDeployInput) (sha : String)
      → find_vm vms input.vm ≡ some vm
      → Apps.get vm.id input.name apps ≡ some old
      → run_app_register input uuid vms apps ≡ passed (stored, next)
      → KeepsBookkeeping old stored
        × (check_known_bad deps deploy stored sha ≡ check_known_bad deps deploy old sha)
  run_app_register-Keeps vms uuid apps next stored old vm deps deploy sha v a h =
      let r = run_app_register-Registered input vms uuid apps h in
      let same_vm : r.vm ≡ vm = some-inj (sym r.is_checked.vm_found ∙ v) in
      let found : Apps.get r.vm.id input.name apps ≡ some old =
        ap (λ (w : VmRecord). Apps.get w.id input.name apps) same_vm ∙ a in
      let is_built =
        (stored-app_record input vms uuid apps r).0 ∙ ap (app_record input uuid r.vm) found in
      let keeps =
        subst (KeepsBookkeeping old) (sym is_built) (app_record-KeepsBookkeeping uuid r.vm old) in
      (keeps, check_known_bad-kept deps deploy sha stored old keeps.2)
    where
      some-inj : {x y : VmRecord} → some x ≡ some y → x ≡ y
      some-inj e = cc
