-- ===== src/Deploy/ClearFailed.antt =====
-- src/commands/app.ts: `runAppClearFailed`, which lets a commit be deployed again.
use samohost.Prelude.{◌≡◌, refl, sym, ◌∙◌, ap, String, Option, none, some, List, arith, stored_for}
use mathlib.Core.Path.{subst}
use samohost.Records.App.{AppRecord}
use samohost.Records.Vm.{VmRecord}
use samohost.LinuxUser.{UserError, optional_linux_app_user_error}
use samohost.State.Apps
use samohost.State.Apps.Laws.{with_id, get-upserted_self, get-identity}
use samohost.Deploy.Run.{AppDeployInput, AppDeployDeps, find_vm, passed, check_known_bad}

-- How the command ends; the store is written in one case only.
pub data ClearFailed : Type 0 where
  no_vm no_app nothing_recorded : ClearFailed
  cleared : String → List AppRecord → ClearFailed
  threw_unsafe : UserError → ClearFailed

abbrev pub without_failed : AppRecord → AppRecord
without_failed app = record app { failed_sha = none }

abbrev saved : String → List AppRecord → Apps.Upserted × Option (List AppRecord) → ClearFailed
saved sha apps (Apps.stored a, none) = cleared sha apps
saved sha apps (Apps.stored a, some next) = cleared sha next
saved sha apps (Apps.rejected e, w) = threw_unsafe e

abbrev on_failed : AppRecord → Option String → List AppRecord → ClearFailed
on_failed app none apps = nothing_recorded
on_failed app (some sha) apps = saved sha apps (Apps.upsert (without_failed app) apps)

abbrev on_app : Option AppRecord → List AppRecord → ClearFailed
on_app none apps = no_app
on_app (some app) apps = on_failed app app.failed_sha apps

abbrev on_vm : Option VmRecord → String → List AppRecord → ClearFailed
on_vm none name apps = no_vm
on_vm (some vm) name apps = on_app (Apps.get vm.id name apps) apps

unfoldable pub run_app_clear_failed : List VmRecord → String → String → List AppRecord → ClearFailed
run_app_clear_failed vms target name apps = on_vm (find_vm vms target) name apps

saved-inv :
    (app : AppRecord) (recorded sha : String) (checked : Option UserError)
    (apps next : List AppRecord)
    → saved recorded apps (Apps.upsert_checked (without_failed app) checked apps) ≡ cleared sha next
    → (recorded ≡ sha) × ((Apps.upserted (without_failed app) apps).1 ≡ next)
saved-inv app recorded sha none apps next h = (ground (arith, h), ground (arith, h))
saved-inv app recorded sha (some e) apps next h = absurd (ground (arith, h))

on_failed-inv :
    (app : AppRecord) (failed : Option String) (sha : String) (apps next : List AppRecord)
    → on_failed app failed apps ≡ cleared sha next
    → (failed ≡ some sha) × ((Apps.upserted (without_failed app) apps).1 ≡ next)
unfolding Apps.upsert
on_failed-inv app none sha apps next h = absurd (ground (arith, h))
on_failed-inv app (some recorded) sha apps next h =
    let (same, list) =
      saved-inv app recorded sha (optional_linux_app_user_error app.app_user) apps next h in
    (ap some same, list)

get-cleared :
    (vm_id name : String) (app : AppRecord) (apps : List AppRecord)
    → Apps.get vm_id name apps ≡ some app
    → Apps.get vm_id name (Apps.upserted (without_failed app) apps).1 ≡ some (without_failed app)
get-cleared vm_id name app apps h =
    let r = without_failed app in
    let (v, n) = get-identity vm_id name apps {a = app} h in
    subst (λ (x : String). Apps.get x name (Apps.upserted r apps).1 ≡ some r) v
      (subst (λ (y : String). Apps.get app.vm_id y (Apps.upserted r apps).1 ≡ some r) n
        (get-upserted_self r apps
          ∙ ap (λ (o : Option AppRecord). some (stored_for (with_id r) r o))
              (subst (λ (x : String). Apps.get x app.name apps ≡ some app) (sym v)
                (subst (λ (y : String). Apps.get vm_id y apps ≡ some app) (sym n) h))))

-- Where the known-bad commit of an app is cleared, the store then has that app as it was but without a
-- known-bad commit, and the known-bad guard of a deploy of that record lets every commit pass.
pub clear_failed_unblocks :
    (deps : AppDeployDeps) (input : AppDeployInput) (vms : List VmRecord) (target name : String)
    (apps next : List AppRecord) (vm : VmRecord) (app : AppRecord) (bad sha : String)
    → find_vm vms target ≡ some vm
    → Apps.get vm.id name apps ≡ some app
    → run_app_clear_failed vms target name apps ≡ cleared bad next
    → (app.failed_sha ≡ some bad)
      × (Apps.get vm.id name next ≡ some (without_failed app))
      × (check_known_bad deps input (without_failed app) sha ≡ passed tt)
unfolding run_app_clear_failed check_known_bad
clear_failed_unblocks deps input vms target name apps next vm app bad sha v a h =
    let on_found =
      subst (λ (o : Option AppRecord). on_app o apps ≡ cleared bad next) a
        (subst (λ (o : Option VmRecord). on_vm o name apps ≡ cleared bad next) v h) in
    let (failed, list) = on_failed-inv app app.failed_sha bad apps next on_found in
    (
      failed,
      subst (λ (apps' : List AppRecord). Apps.get vm.id name apps' ≡ some (without_failed app)) list
          (get-cleared vm.id name app apps a),
      refl,
    )
