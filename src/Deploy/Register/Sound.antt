-- ===== src/Deploy/Register/Sound.antt =====
-- A registered app can be served and deployed.
use mathlib.Core.Path.{subst}
use samohost.Prelude.{
  String, true, ◌≡◌, ◌⊎◌, refl, sym, ap, inl, inr, Option, none, some, List, [], ◌∷◌, arith,
  Option-cases, passed, eq_iff,
}
use samohost.Records.Vm.{VmRecord}
use samohost.Records.App.{AppKind, node, static, AppSpec, AppRecord, ServiceSpec}
use samohost.Services.{Url, ServicesView, viewed, services_of}
use samohost.State.Apps
use samohost.Deploy.Run.{find_vm}
use samohost.Deploy.CiGate.{is_canonical_release_ci_workflow, canonical_release_ci_workflow}
use samohost.Manifest.Topology.{TopologyError, validate_services_topology}
use samohost.Manifest.Topology.WellFormed.{services_of-validated}
use samohost.Manifest.StaticNoDb.{DbField, offending, validate_static_no_db}
use samohost.Deploy.Register.{
  is_date, fields_of, AppRegisterInput, no_errors, no_fields, check_release_policy,
  check_static_no_db, check_topology, app_record, spec_of, run_app_register,
}
use samohost.Deploy.Register.Checks.{run_app_register-Registered, stored-app_record}

-- The given services are what `servicesOf` shows of the app.
abbrev pub AreShown : (String → Option Url) → AppSpec → Option (List ServiceSpec) → Type 0
AreShown parse_url app none = Unit
AreShown parse_url app (some services) =
    (view : ServicesView) × (services_of parse_url app ≡ viewed view) × (view.services ≡ services)

abbrev pub IsServable : (String → Option Url) → AppSpec → Type 0
IsServable parse_url app = AreShown parse_url app app.services

-- An app with a pattern of release tags has the format and the workflow that a deploy asks for.
abbrev pub HasReleasePolicy : AppSpec → Type 0
HasReleasePolicy app = elim app.release_tag_pattern [
  | none ↦ Unit
  | some pattern ↦
      (app.release_tag_format ≡ some "date")
      × (app.release_ci_workflow ≡ some canonical_release_ci_workflow)
]

-- A static app has no migration and no variable for a database.
abbrev pub HasNoDbIfStatic : AppSpec → Type 0
HasNoDbIfStatic app = elim app.kind [
  | none ↦ Unit
  | some node ↦ Unit
  | some static ↦
      (app.migrate_cmd ≡ none) × (app.database_url_env ≡ none) × (app.env_db_vars ≡ none)
]

abbrev pub IsSound : (String → Option Url) → AppSpec → Type 0
IsSound parse_url app = IsServable parse_url app × HasReleasePolicy app × HasNoDbIfStatic app

no_errors-nil : (es : List TopologyError) → no_errors es ≡ passed tt → es ≡ []
no_errors-nil [] h = refl
no_errors-nil (e ∷ es) h = cc

no_fields-nil : (fs : List DbField) → no_fields fs ≡ passed tt → fs ≡ []
no_fields-nil [] h = refl
no_fields-nil (f ∷ fs) h = cc

module _ (input : AppRegisterInput) where
  spec_of-IsServable :
      (parse_url : String → Option Url)
      → check_topology input ≡ passed tt
      → IsServable parse_url (spec_of input)
  unfolding check_topology spec_of
  spec_of-IsServable parse_url h = split (Option-cases input.services)
    where
      split :
          (input.services ≡ none) ⊎ ((ss : List ServiceSpec) × (input.services ≡ some ss))
          → IsServable parse_url (spec_of input)
      split (inl e) = subst (AreShown parse_url (spec_of input)) (sym e) tt
      split (inr (ss, e)) =
          let valid =
            no_errors-nil
              (validate_services_topology input.services input.routes input.default_listener)
              (ground (arith, e, h)) in
          let (view, seen, same, _, _) =
            services_of-validated parse_url (spec_of input) ss e valid in
          subst (AreShown parse_url (spec_of input)) (sym e) (view, seen, same)

  spec_of-HasReleasePolicy :
      check_release_policy input ≡ passed tt → HasReleasePolicy (spec_of input)
  unfolding check_release_policy spec_of is_canonical_release_ci_workflow
  spec_of-HasReleasePolicy h = split (Option-cases input.release_tag_pattern)
    where
      is_date_format : (o : Option String) → is_date o ≡ true → o ≡ some "date"
      is_date_format none e = cc
      is_date_format (some format) e = ap some ((eq_iff format "date").0 e)

      is_canonical :
          (o : Option String)
          → is_canonical_release_ci_workflow o ≡ true
          → o ≡ some canonical_release_ci_workflow
      is_canonical none e = cc
      is_canonical (some workflow) e = ap some ((eq_iff workflow canonical_release_ci_workflow).0 e)

      split :
          (input.release_tag_pattern ≡ none) ⊎ ((p : String) × (input.release_tag_pattern ≡ some p))
          → HasReleasePolicy (spec_of input)
      split (inl e) = rw e tt
      split (inr (p, e)) = rw e (
        is_date_format input.release_tag_format (ground (arith, e, h)),
        is_canonical input.release_ci_workflow (ground (arith, e, h)),
      )

  spec_of-HasNoDbIfStatic : check_static_no_db input ≡ passed tt → HasNoDbIfStatic (spec_of input)
  unfolding check_static_no_db spec_of validate_static_no_db
  spec_of-HasNoDbIfStatic h = split (Option-cases input.kind)
    where
      static_case :
          input.kind ≡ some static
          → (input.migrate_cmd ≡ none)
            × (input.database_url_env ≡ none)
            × ((spec_of input).env_db_vars ≡ none)
      static_case e =
          let nothing : offending (fields_of input) ≡ [] =
            no_fields-nil (offending (fields_of input)) (ground (arith, e, h)) in
          (ground (arith, nothing), ground (arith, nothing), ground (arith, nothing))

      split :
          (input.kind ≡ none) ⊎ ((k : AppKind) × (input.kind ≡ some k))
          → HasNoDbIfStatic (spec_of input)
      split (inl e) = rw e tt
      split (inr (node, e)) = rw e tt
      split (inr (static, e)) = rw e (static_case e)

module _ (input : AppRegisterInput) (vms : List VmRecord) where
  -- An app that was registered is found under its machine and name, and it can be used: if it declares
  -- services, `servicesOf` gives them without an error; if it has a pattern of release tags, it has the
  -- date format and the trusted workflow that a deploy asks for; and if it is static, it has neither a
  -- migration nor a variable that names a database.
  pub run_app_register-IsSound :
      (parse_url : String → Option Url) (uuid : String) (apps : List AppRecord) {stored : AppRecord}
      {next : List AppRecord}
      → run_app_register input uuid vms apps ≡ passed (stored, next)
      → (vm : VmRecord) × (find_vm vms input.vm ≡ some vm)
        × (Apps.get vm.id input.name next ≡ some stored)
        × IsSound parse_url stored.spec
  unfolding app_record
  run_app_register-IsSound parse_url uuid apps h =
      let r = run_app_register-Registered input vms uuid apps h in
      let c = r.is_checked in
      let (is_built, found) = stored-app_record input vms uuid apps r in
      (
        r.vm,
        c.vm_found,
        found,
        subst (λ (a : AppRecord). IsSound parse_url a.spec) (sym is_built)
            (
              spec_of-IsServable input parse_url c.topology,
              spec_of-HasReleasePolicy input c.policy,
              spec_of-HasNoDbIfStatic input c.static_no_db,
            ),
      )
