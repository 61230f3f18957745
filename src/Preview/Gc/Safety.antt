-- ===== src/Preview/Gc/Safety.antt =====
-- What garbage collection may remove, and on what grounds.
use mathlib.Core.List.{Memᴰ}
use samohost.Prelude.{
  ◌≡◌, ◌⊎◌, inl, inr, refl, ap, ◌∙◌, String, Bool, true, false, Option, none, some, List, [], ◌∷◌,
  ◌++◌, not, if◌then◌else◌, Bool-cases, Option-cases,
}
use samohost.Records.Vm.{VmRecord}
use samohost.Records.App.{AppRecord}
use samohost.Records.Env.{EnvRecord}
use samohost.State.Apps
use samohost.State.Envs
use samohost.State.Envs.{has_identity}
use samohost.State.Envs.Laws.{get-remove}
use samohost.Deploy.Run.{SpawnResult}
use samohost.Preview.Phases.{EnvOutcome, failed, incomplete}
use samohost.Preview.Gc.{
  EnvGcInput, EnvGcDeps, Gc, GcReason, VmClassification, live, dead, transitional, classify_vm,
  without, prune, branch_is_gone, ttl_has_expired, outcome_of, as_app_user, destroy_env,
  finish_destroy, collect_live, by_class, on_live, gc_env, gc_all, scanned, started, run_env_gc,
}

module _ (input : EnvGcInput) (vms : List VmRecord) (apps : List AppRecord) (deps : EnvGcDeps) where
  -- The grounds on which a record is removed. The last is the only one with a destroy script, which
  -- was sent to a live machine and ended well.
  pub data Justified (env : EnvRecord) : Type 0 where
    vm_dead : (vm : Option VmRecord) → classify_vm vms env.vm_id ≡ dead vm → Justified env
    app_missing : Apps.get env.vm_id env.app_name apps ≡ none → Justified env
    destroyed_ok :
        (vm : VmRecord) (app : AppRecord) (raw : SpawnResult)
        → classify_vm vms env.vm_id ≡ live vm
        → Apps.get env.vm_id env.app_name apps ≡ some app
        → (branch_is_gone input vms apps deps app env ≡ some true)
          ⊎ (ttl_has_expired input vms apps deps env ≡ true)
        → deps.remote (as_app_user input vms apps deps app vm) app env ≡ some raw
        → outcome_of input vms apps deps raw ≡ EnvOutcome.ok
        → Justified env

  -- What one round does to the store: nothing, or a removal that was asked for and is justified.
  abbrev Change : EnvRecord → List EnvRecord → List EnvRecord → Type 0
  Change env before after =
      (after ≡ before) ⊎ ((input.reap ≡ true) × (after ≡ without env before) × Justified env)

  prune-Change :
      (env : EnvRecord) (reason : GcReason) (text : String) (s : Gc)
      → Justified env
      → Change env s.envs (prune input vms apps deps env reason text s).envs
  unfolding prune
  prune-Change env reason text s j = elim (Bool-cases input.reap) [
    | inl reap ↦ inr (reap, rw reap, j)
    | inr dry ↦ inl (rw dry)
  ]

  finish-Change :
      (env : EnvRecord) (reason : GcReason) (s : Gc) (o : EnvOutcome)
      → input.reap ≡ true
      → (o ≡ EnvOutcome.ok → Justified env)
      → Change env s.envs (finish_destroy input vms apps deps env reason s o).envs
  finish-Change env reason s EnvOutcome.ok reap j = inr (reap, refl, j refl)
  finish-Change env reason s failed reap j = inl refl
  finish-Change env reason s incomplete reap j = inl refl

  module _ (env : EnvRecord) (vm : VmRecord) (app : AppRecord)
      (alive : classify_vm vms env.vm_id ≡ live vm)
      (found : Apps.get env.vm_id env.app_name apps ≡ some app) where
    destroy_env-Change :
        (reason : GcReason) (s : Gc)
        → input.reap ≡ true
        → (branch_is_gone input vms apps deps app env ≡ some true)
          ⊎ (ttl_has_expired input vms apps deps env ≡ true)
        → Change env s.envs (destroy_env input vms apps deps env app vm reason s).envs
    unfolding destroy_env
    destroy_env-Change reason s reap why =
        elim (Option-cases (deps.remote (as_app_user input vms apps deps app vm) app env)) [
          | inl lost ↦ inl (rw (lost, destroy_env))
          | inr (raw, ran) ↦
              rw (ran, destroy_env)
                (finish-Change env reason (record s { sent = s.sent ++ env ∷ [] })
                  (outcome_of input vms apps deps raw) reap
                  (λ ok. destroyed_ok vm app raw alive found why ran ok))
        ]

    reap_or_note-Change :
        (b : Bool) (reason : GcReason) (s : Gc)
        → input.reap ≡ b
        → (branch_is_gone input vms apps deps app env ≡ some true)
          ⊎ (ttl_has_expired input vms apps deps env ≡ true)
        → Change env s.envs
            (if not b then s else destroy_env input vms apps deps env app vm reason s).envs
    reap_or_note-Change true reason s asked why = destroy_env-Change reason s asked why
    reap_or_note-Change false reason s asked why = inl refl

    collect_live-Change :
        (o : Option Bool) (s : Gc)
        → branch_is_gone input vms apps deps app env ≡ o
        → Change env s.envs (collect_live input vms apps deps env app vm o s).envs
    unfolding collect_live
    collect_live-Change none s b = inl refl
    collect_live-Change (some true) s b = reap_or_note-Change input.reap _ _ refl (inl b)
    collect_live-Change (some false) s b =
        elim (Bool-cases (ttl_has_expired input vms apps deps env)) [
          | inl old ↦ rw (old, collect_live) (reap_or_note-Change input.reap _ _ refl (inr old))
          | inr young ↦ inl (rw (young, collect_live))
        ]

  on_live-Change :
      (env : EnvRecord) (vm : VmRecord) (s : Gc)
      → classify_vm vms env.vm_id ≡ live vm
      → Change env s.envs (on_live input vms apps deps env vm s).envs
  on_live-Change env vm s alive = elim (Option-cases (Apps.get env.vm_id env.app_name apps)) [
    | inl gone ↦ rw (gone, on_live) (prune-Change env _ _ s (app_missing gone))
    | inr (app, found) ↦ rw (found, on_live) (collect_live-Change env vm app alive found _ s refl)
  ]

  by_class-Change :
      (env : EnvRecord) (c : VmClassification) (s : Gc)
      → classify_vm vms env.vm_id ≡ c
      → Change env s.envs (by_class input vms apps deps env c s).envs
  by_class-Change env (transitional vm) s e = inl refl
  by_class-Change env (dead vm) s e = prune-Change env _ _ s (vm_dead vm e)
  by_class-Change env (live vm) s e = on_live-Change env vm s e

  gc_env-Change :
      (env : EnvRecord) (s : Gc) → Change env s.envs (gc_env input vms apps deps env s).envs
  unfolding gc_env
  gc_env-Change env s = by_class-Change env (classify_vm vms env.vm_id) s refl

  -- Why a record is gone: one of the scanned environments has its identity, and its removal was asked
  -- for and justified.
  pub record Reaped (vm_id app_name branch : String) (envs : List EnvRecord) : Type 0 where
    pub env : EnvRecord
    pub listed : Memᴰ env envs
    pub same : has_identity vm_id app_name branch env ≡ true
    pub asked : input.reap ≡ true
    pub justified : Justified env

  module _ (vm_id app_name branch : String) where
    Reaped-later :
        {env : EnvRecord} {rest : List EnvRecord}
        → Reaped vm_id app_name branch rest
        → Reaped vm_id app_name branch (env ∷ rest)
    Reaped-later r = record {
      env = r.env;
      listed = Memᴰ.tail r.listed;
      same = r.same;
      asked = r.asked;
      justified = r.justified;
    }

    gc_all-Reaped :
        (envs : List EnvRecord) (s : Gc) {e : EnvRecord}
        → Envs.get vm_id app_name branch s.envs ≡ some e
        → Envs.get vm_id app_name branch (gc_all input vms apps deps envs s).envs ≡ none
        → Reaped vm_id app_name branch envs
    unfolding gc_all
    gc_all-Reaped [] s had none_left = cc
    gc_all-Reaped (env ∷ rest) s had none_left = elim (gc_env-Change env s) [
      | inl kept ↦ Reaped-later (
          gc_all-Reaped rest (gc_env input vms apps deps env s)
            (ap (Envs.get vm_id app_name branch) kept ∙ had) none_left)
      | inr (asked, removed, justified) ↦
          elim (Bool-cases (has_identity vm_id app_name branch env)) [
            | inl same ↦ record {
              env = env;
              listed = Memᴰ.head refl;
              same = same;
              asked = asked;
              justified = justified;
            }
            | inr other ↦ Reaped-later (
                gc_all-Reaped rest (gc_env input vms apps deps env s)
                  (ap (Envs.get vm_id app_name branch) removed
                    ∙ (get-remove env vm_id app_name branch s.envs other).1
                    ∙ had)
                  none_left)
          ]
    ]

-- An environment record disappears in a garbage collection only if that was asked for, and an
-- environment of the scanned ones with its identity stood on a dead machine, or had no app record, or
-- was destroyed: on a live machine, with its branch gone or its time to live over, by a script that
-- came back with `ok`.
pub run_env_gc-Reaped :
    (input : EnvGcInput) (vms : List VmRecord) (apps : List AppRecord) (deps : EnvGcDeps)
    (es : List EnvRecord) (vm_id app_name branch : String) (e : EnvRecord)
    → Envs.get vm_id app_name branch es ≡ some e
    → Envs.get vm_id app_name branch (run_env_gc input vms apps deps es).envs ≡ none
    → Reaped input vms apps deps vm_id app_name branch (scanned input vms apps deps es)
unfolding run_env_gc
run_env_gc-Reaped input vms apps deps es vm_id app_name branch e had none_left =
    gc_all-Reaped input vms apps deps vm_id app_name branch (scanned input vms apps deps es)
      (started input vms apps deps es) had none_left
