-- ===== src/Deploy/Heal/Keeps.antt =====
-- What a heal leaves alone.
use mathlib.Core.Option
use samohost.Prelude.{
  ◌≡◌, refl, sym, ◌∙◌, ap, String, Bool, true, false, ◌==◌, Option, none, some, List, [], ◌∷◌, all,
  filter, All-filter, if◌then◌else◌,
}
use mathlib.Core.Path.{subst}
use samohost.Records.App.{AppRecord}
use samohost.Records.Vm.{VmRecord}
use samohost.LinuxUser.{UserError, optional_linux_app_user_error}
use samohost.State.Apps
use samohost.State.Apps.{has_identity}
use samohost.State.Apps.Laws.{get-identity}
use samohost.Deploy.Run.{SpawnResult, find_vm}
use samohost.Deploy.Heal.{
  AppHealInput, AppHealDeps, HealOutcome, HealRun, Looped, on, threw_unsafe, no_main_host,
  would_heal, has_converged, bookkeeping, stamped_app, outcome_of, has_main_host, begun, written,
  on_output, on_script, heal_each, finished, run_on, run_all, run_one, named, on_vm, run_app_heal,
}
use samohost.Deploy.Heal.Seen.{unstamped, seen, Found, seen-upserted, apps_of, apps_after}

module _ (input : AppHealInput) (deps : AppHealDeps) where
  -- The bookkeeping changes nothing but the stamps.
  seen-bookkeeping :
      (app : AppRecord) (outcome : HealOutcome) (apps : List AppRecord)
      → seen app.vm_id app.name apps ≡ some (unstamped app)
      → seen
          (bookkeeping input deps app outcome).vm_id
          (bookkeeping input deps app outcome).name
          apps
        ≡ some (unstamped (bookkeeping input deps app outcome))
  seen-bookkeeping app outcome apps h = by_test (has_converged outcome)
    where
      by_test :
          (b : Bool)
          → seen
              (if b then stamped_app input deps app else app).vm_id
              (if b then stamped_app input deps app else app).name
              apps
            ≡ some (unstamped (if b then stamped_app input deps app else app))
      by_test true = h
      by_test false = h

  written-seen :
      (app r : AppRecord) (outcome : HealOutcome) (checked : Option UserError) (s : HealRun)
      (vm_id name : String)
      → seen r.vm_id r.name s.apps ≡ some (unstamped r)
      → seen vm_id name
          (apps_of (written input deps app outcome (Apps.upsert_checked r checked s.apps) s))
        ≡ seen vm_id name s.apps
  written-seen app r outcome none s vm_id name h = seen-upserted r s.apps vm_id name h
  written-seen app r outcome (some e) s vm_id name h = refl

  on_output-seen :
      (app : AppRecord) (raw : Option SpawnResult) (s : HealRun) (vm_id name : String)
      → seen app.vm_id app.name s.apps ≡ some (unstamped app)
      → seen vm_id name (apps_of (on_output input deps app raw s)) ≡ seen vm_id name s.apps
  unfolding Apps.upsert
  on_output-seen app none s vm_id name h = refl
  on_output-seen app (some raw) s vm_id name h =
      let outcome = outcome_of input deps raw in
      let r = bookkeeping input deps app outcome in
      written-seen app r outcome (optional_linux_app_user_error r.app_user) s vm_id name
        (seen-bookkeeping app outcome s.apps h)

  on_script-seen :
      (vm : VmRecord) (app : AppRecord) (script : Option String) (s : HealRun) (vm_id name : String)
      → seen app.vm_id app.name s.apps ≡ some (unstamped app)
      → seen vm_id name (apps_of (on_script input deps vm app script s)) ≡ seen vm_id name s.apps
  on_script-seen vm app none s vm_id name h = refl
  on_script-seen vm app (some script) s vm_id name h = on_output-seen app _ s vm_id name h

  still-Found :
      (rest before after : List AppRecord)
      → ((vm_id name : String) → seen vm_id name after ≡ seen vm_id name before)
      → Found before rest
      → Found after rest
  still-Found [] before after same h = tt
  still-Found (a ∷ rest) before after same (h, hs) =
      (same a.vm_id a.name ∙ h, still-Found rest before after same hs)

  heal_each-seen :
      (vm : VmRecord) (selected : List AppRecord) (s : HealRun) (vm_id name : String)
      → Found s.apps selected
      → seen vm_id name (apps_of (heal_each input deps vm selected s)) ≡ seen vm_id name s.apps
  unfolding heal_each
  heal_each-seen vm [] s vm_id name h = refl
  heal_each-seen vm (app ∷ rest) s vm_id name (h, hs) =
      by_step (on_script input deps vm app (deps.build_script app) s)
        (λ v n. on_script-seen vm app (deps.build_script app) s v n h)
        (λ next same.
          heal_each-seen vm rest next vm_id name (still-Found rest s.apps next.apps same hs))
    where
      by_step :
          (step : Looped)
          → ((v n : String) → seen v n (apps_of step) ≡ seen v n s.apps)
          → ((next : HealRun)
              → ((v n : String) → seen v n next.apps ≡ seen v n s.apps)
              → seen vm_id name (apps_of (heal_each input deps vm rest next))
                ≡ seen vm_id name next.apps)
          → seen vm_id name (
              apps_of (elim step [
                | on next ↦ heal_each input deps vm rest next
                | threw_unsafe e next ↦ threw_unsafe e next
              ]))
            ≡ seen vm_id name s.apps
      by_step (on next) same later = later next same ∙ same vm_id name
      by_step (threw_unsafe e next) same later = same vm_id name

  finished-seen :
      (looped : Looped) (apps : List AppRecord)
      → apps_after (finished input deps looped) apps ≡ apps_of looped
  finished-seen (on s) apps = refl
  finished-seen (threw_unsafe e s) apps = refl

  run_on-seen :
      (vm : VmRecord) (selected apps : List AppRecord) (vm_id name : String)
      → Found apps selected
      → seen vm_id name (apps_after (run_on input deps vm selected apps) apps)
        ≡ seen vm_id name apps
  run_on-seen vm selected apps vm_id name h =
      by_tests (all (has_main_host input deps) selected) input.apply
    where
      by_tests :
          (hosted applies : Bool)
          → seen vm_id name (
              apps_after
                (if hosted
                  then (if applies
                      then finished input deps
                          (heal_each input deps vm selected (begun input deps apps))
                      else would_heal selected)
                  else no_main_host)
                apps)
            ≡ seen vm_id name apps
      by_tests false applies = refl
      by_tests true false = refl
      by_tests true true =
          ap (λ (l : List AppRecord). seen vm_id name l)
            (finished-seen (heal_each input deps vm selected (begun input deps apps)) apps)
          ∙ heal_each-seen vm selected (begun input deps apps) vm_id name h

  run_all-seen :
      (vm : VmRecord) (selected apps : List AppRecord) (vm_id name : String)
      → Found apps selected
      → seen vm_id name (apps_after (run_all input deps vm selected apps) apps)
        ≡ seen vm_id name apps
  run_all-seen vm [] apps vm_id name h = refl
  run_all-seen vm (app ∷ selected) apps vm_id name h =
      run_on-seen vm (app ∷ selected) apps vm_id name h

  get-Found :
      (of_vm of_name : String) (app : AppRecord) (apps : List AppRecord)
      → Apps.get of_vm of_name apps ≡ some app
      → Found apps (app ∷ [])
  get-Found of_vm of_name app apps h =
      let (v, n) = get-identity of_vm of_name apps {a = app} h in
      (
        subst (λ (x : String). seen x app.name apps ≡ some (unstamped app)) (sym v)
            (subst (λ (y : String). seen of_vm y apps ≡ some (unstamped app)) (sym n)
              (ap (λ (o : Option AppRecord). Option.map unstamped o) h)),
        tt,
      )

  run_one-seen :
      (vm : VmRecord) (of_name : String) (found : Option AppRecord) (apps : List AppRecord)
      (vm_id name : String)
      → Apps.get vm.id of_name apps ≡ found
      → seen vm_id name (apps_after (run_one input deps vm found apps) apps) ≡ seen vm_id name apps
  run_one-seen vm of_name none apps vm_id name h = refl
  run_one-seen vm of_name (some app) apps vm_id name h =
      run_on-seen vm (app ∷ []) apps vm_id name (get-Found vm.id of_name app apps h)

  named-seen :
      (vm : VmRecord) (app : Option String) (apps : List AppRecord) (vm_id name : String)
      → seen vm_id name (apps_after (named input deps vm app apps) apps) ≡ seen vm_id name apps
  named-seen vm none apps vm_id name = refl
  named-seen vm (some of_name) apps vm_id name =
      run_one-seen vm of_name (Apps.get vm.id of_name apps) apps vm_id name refl

  on_vm-seen :
      (vm : Option VmRecord) (apps : List AppRecord) (vm_id name : String)
      → Found apps apps
      → seen vm_id name (apps_after (on_vm input deps vm apps) apps) ≡ seen vm_id name apps
  on_vm-seen none apps vm_id name h = refl
  on_vm-seen (some vm) apps vm_id name h = by_selection input.all
    where
      by_selection :
          (every : Bool)
          → seen vm_id name (
              apps_after
                (if every
                  then run_all input deps vm (filter (λ a. a.vm_id == vm.id) apps) apps
                  else named input deps vm input.app apps)
                apps)
            ≡ seen vm_id name apps
      by_selection true = run_all-seen vm (filter (λ a. a.vm_id == vm.id) apps) apps vm_id name (
          All-filter (λ a. seen a.vm_id a.name apps ≡ some (unstamped a)) (λ a. a.vm_id == vm.id)
            apps h)
      by_selection false = named-seen vm input.app apps vm_id name

-- A heal of apps, also one that the store interrupts, changes nothing of any app but the time of the
-- heal and the generator commit, where each app of the store is found under its machine and name.
pub run_app_heal-seen :
    (input : AppHealInput) (deps : AppHealDeps) (vms : List VmRecord) (apps : List AppRecord)
    (vm_id name : String)
    → Found apps apps
    → seen vm_id name (apps_after (run_app_heal input deps vms apps) apps) ≡ seen vm_id name apps
unfolding run_app_heal
run_app_heal-seen input deps vms apps vm_id name h =
    on_vm-seen input deps (find_vm vms input.vm) apps vm_id name h
