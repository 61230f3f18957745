-- ===== src/Deploy/Register/Checks.antt =====
-- What a registration that stored an app has gone through.
use samohost.Prelude.{
  String, true, ◌≡◌, refl, sym, ap, ◌∙◌, stored_for, upsert_by-stored, Option, none, some, List,
  arith, Result, passed, refused, ◌>>=◌, passed-inj,
}
use samohost.Records.Vm.{VmRecord}
use samohost.Records.App.{AppRecord}
use samohost.LinuxUser.{UserError, optional_linux_app_user_error}
use samohost.State.Apps
use samohost.State.Apps.Laws.{with_id, get-upserted_self}
use samohost.Deploy.Run.{find_vm}
use samohost.Deploy.Register.{
  AppRegisterInput, RegisterError, is_static_root, of_user_error, check_release_policy,
  check_static_no_db, check_topology, checked, app_record, spec_of, saved, run_app_register,
}

module _ (input : AppRegisterInput) (vms : List VmRecord) where
  pub record Checked (vm : VmRecord) : Type 0 where
    pub app_user : of_user_error (optional_linux_app_user_error input.app_user) ≡ passed tt
    pub vm_found : find_vm vms input.vm ≡ some vm
    pub policy : check_release_policy input ≡ passed tt
    pub static_root : is_static_root input.kind input.static_root ≡ true
    pub static_no_db : check_static_no_db input ≡ passed tt
    pub topology : check_topology input ≡ passed tt

  pub checked-Checked : (vm : VmRecord) → checked input vms ≡ passed vm → Checked vm
  unfolding checked
  checked-Checked vm h = record {
    app_user = ground arith;
    vm_found = ground arith;
    policy = ground arith;
    static_root = ground arith;
    static_no_db = ground arith;
    topology = ground arith;
  }

  user_error-none : (o : Option UserError) → of_user_error o ≡ passed tt → o ≡ none
  user_error-none none h = refl
  user_error-none (some e) h = cc

  pub record Registered (uuid : String) (apps : List AppRecord) (stored : AppRecord)
      (next : List AppRecord) : Type 0 where
    pub vm : VmRecord
    pub is_checked : Checked vm
    pub upserted :
        (stored, next)
        ≡ Apps.upserted (app_record input uuid vm (Apps.get vm.id input.name apps)) apps

  pub run_app_register-Registered :
      (uuid : String) (apps : List AppRecord) {stored : AppRecord} {next : List AppRecord}
      → run_app_register input uuid vms apps ≡ passed (stored, next)
      → Registered uuid apps stored next
  unfolding run_app_register Apps.upsert app_record spec_of
  run_app_register-Registered uuid apps {stored} {next} h = split (checked input vms) refl h
    where
      upserted :
          (vm : VmRecord) (e : Option UserError)
          → Checked vm
          → e ≡ none
          → saved input
              (Apps.upsert_checked
                (app_record input uuid vm (Apps.get vm.id input.name apps))
                e
                apps)
              apps
            ≡ passed (stored, next)
          → Registered uuid apps stored next
      upserted vm none c e h = record { vm = vm; is_checked = c; upserted = sym (passed-inj h) }
      upserted vm (some x) c e h = absurd (ground (arith, e))

      split :
          (r : Result RegisterError VmRecord)
          → checked input vms ≡ r
          → (r >>= λ vm.
              saved input
                (Apps.upsert (app_record input uuid vm (Apps.get vm.id input.name apps)) apps)
                apps)
            ≡ passed (stored, next)
          → Registered uuid apps stored next
      split (refused x) e h = cc
      split (passed vm) e h =
          let c = checked-Checked vm e in
          upserted vm (optional_linux_app_user_error input.app_user) c
            (user_error-none (optional_linux_app_user_error input.app_user) c.app_user) h

  -- The stored app is the record that was built, whose identifier is that of the app before.
  same_id :
      (uuid : String) (vm : VmRecord) (o : Option AppRecord)
      → stored_for (with_id (app_record input uuid vm o)) (app_record input uuid vm o) o
        ≡ app_record input uuid vm o
  unfolding app_record
  same_id uuid vm none = refl
  same_id uuid vm (some old) = refl

  pub stored-app_record :
      (uuid : String) (apps : List AppRecord) {stored : AppRecord} {next : List AppRecord}
      (r : Registered uuid apps stored next)
      → (stored ≡ app_record input uuid r.vm (Apps.get r.vm.id input.name apps))
        × (Apps.get r.vm.id input.name next ≡ some stored)
  unfolding Apps.get app_record spec_of
  stored-app_record uuid apps {stored} {next} r =
      let built = app_record input uuid r.vm (Apps.get r.vm.id input.name apps) in
      let first : stored ≡ (Apps.upserted built apps).0 =
        ap (λ (x : AppRecord × List AppRecord). x.0) r.upserted in
      let is_built =
        first
        ∙ upsert_by-stored (Apps.same_app built) (with_id built) built apps
        ∙ same_id uuid r.vm (Apps.get r.vm.id input.name apps) in
      (
        is_built,
        ap (λ (x : AppRecord × List AppRecord). Apps.get r.vm.id input.name x.1) r.upserted
            ∙ get-upserted_self built apps
            ∙ ap some (same_id uuid r.vm (Apps.get r.vm.id input.name apps) ∙ sym is_built),
      )
