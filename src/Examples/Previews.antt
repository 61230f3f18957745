-- ===== src/Examples/Previews.antt =====
-- The passes over preview environments at concrete inputs.
use mathlib.Core.Path.{◌≡◌}
use samohost.Prelude.{
  ◌+◌, remove_by, refl, Bool, true, false, none, some, List, [], ◌∷◌, All, length, filter,
}
use samohost.Records.Env.{EnvRecord}
use samohost.State.Envs
use samohost.Markers.{start, ok}
use samohost.Preview.Phases.{health, port_check, env_outcome}
use samohost.Preview.Phases.Outcome.{described, env_outcome-eq}
use samohost.Preview.Gc.{
  EnvGcInput, EnvGcDeps, run_env_gc, gone, scanned, first_by_id, gc_all, gc_env, classify_vm, prune,
}
use samohost.Preview.Gc.Safety.{Reaped, run_env_gc-Reaped}
use samohost.Preview.Heal.{HealDeps, run_heal_pass, dblab_envs, probed, dead, budget, verdict_of}
use samohost.Preview.Heal.Budget.{until_budget, is_dead, run_heal_pass-attempted}
use samohost.Preview.Pr.{PrPreviewDeps, OpenPr, pass, capped, ensured, pr_rounds, started}
use samohost.Preview.Pr.Safety.{Closed, pass-Closed}
use samohost.Preview.Idle.{EnvIdleGcInput, IdleDeps, exited, run_env_idle_gc}
use samohost.Preview.Idle.Threshold.{MayGo, run_env_idle_gc-MayGo}
use samohost.Examples.Data.{machine, dead_machine, plain_app, env, other_env}

env_outcome-eq_example :
    env_outcome ((port_check, start) ∷ (health, start) ∷ (health, ok) ∷ [])
    ≡ described ((port_check, start) ∷ (health, start) ∷ (health, ok) ∷ [])
env_outcome-eq_example = env_outcome-eq ((port_check, start) ∷ (health, start) ∷ (health, ok) ∷ [])

abbrev envs : List EnvRecord
envs = env ∷ other_env ∷ []

abbrev collect : Bool → EnvGcInput
collect reap = record { vm = "vm-1"; app = none; reap = reap; ttl = none }

abbrev gc_deps : EnvGcDeps
gc_deps = record {
  now = 1000;
  date_ms = λ text. some 0;
  branch_state = some (λ repo branch. some gone);
  remote =
      λ vm app env. some (record { stdout = "<<<SAMOHOST_PHASE:unit-stop:ok>>>"; stderr = "" });
}

run_env_gc-Reaped_example :
    Reaped
      (collect true)
      (dead_machine ∷ [])
      (plain_app ∷ [])
      gc_deps
      "vm-1"
      "crm"
      "feature"
      (scanned (collect true) (dead_machine ∷ []) (plain_app ∷ []) gc_deps envs)
unfolding run_env_gc scanned first_by_id Envs.list_for Envs.get gc_all gc_env classify_vm prune
    remove_by
run_env_gc-Reaped_example =
    run_env_gc-Reaped (collect true) (dead_machine ∷ []) (plain_app ∷ []) gc_deps envs "vm-1" "crm"
      "feature" env refl refl

-- Both clones are dead, and the budget is exhausted at once.
abbrev heal_deps : HealDeps
heal_deps = record {
  probe_clones = λ vm app es. probed (("feature", dead) ∷ ("bugfix", dead) ∷ []);
  recreate = λ vm app env. budget;
}

run_heal_pass-attempted_example :
    (run_heal_pass plain_app machine heal_deps envs).1
    ≡ until_budget plain_app machine heal_deps false (
        filter
          (λ e. is_dead (verdict_of (("feature", dead) ∷ ("bugfix", dead) ∷ []) e))
          (dblab_envs plain_app machine heal_deps envs))
run_heal_pass-attempted_example =
    run_heal_pass-attempted plain_app machine heal_deps envs
      (("feature", dead) ∷ ("bugfix", dead) ∷ []) refl

abbrev feature_pr : OpenPr
feature_pr = record { number = 7; head_ref = "feature"; head_sha = "aaaa" }

abbrev pr_deps : PrPreviewDeps
pr_deps = record {
  list_open_prs = λ repo. some (feature_pr ∷ []);
  ensure_preview = λ args es.
      (ensured (record { vhost = "v"; is_ok = true; last_deployed_sha = args.head_sha }), es);
  upsert_pr_comment = λ repo number marker body. none;
  reap_preview = λ vm app branch es. (none, (Envs.removed "vm-1" app branch es).1);
}

pass-Closed_example :
    All
      (Closed plain_app machine pr_deps (capped plain_app machine pr_deps (feature_pr ∷ [])) (
        Envs.list_for "vm-1"
          (some "crm")
          (pr_rounds plain_app machine pr_deps
            (capped plain_app machine pr_deps (feature_pr ∷ []))
            (started plain_app machine pr_deps envs)).envs))
      (pass plain_app machine pr_deps (feature_pr ∷ []) envs).reaps
pass-Closed_example = pass-Closed plain_app machine pr_deps (feature_pr ∷ []) envs

abbrev idle_input : EnvIdleGcInput
idle_input = record { vm = "vm-1"; idle_threshold_ms = 100; idle_reap = true; now = 500 }

abbrev idle_deps : IdleDeps
idle_deps = record {
  date_ms = λ text. some 0;
  destroy_env = λ vm app branch es. (exited 0, (Envs.removed vm app branch es).1);
}

run_env_idle_gc-MayGo_example :
    All
      (MayGo idle_input idle_deps)
      (run_env_idle_gc idle_input idle_deps (machine ∷ []) envs).gc.sent
    × (length (run_env_idle_gc idle_input idle_deps (machine ∷ []) envs).gc.reaped
          + length (run_env_idle_gc idle_input idle_deps (machine ∷ []) envs).gc.failed
        ≡ length (run_env_idle_gc idle_input idle_deps (machine ∷ []) envs).gc.sent)
run_env_idle_gc-MayGo_example = run_env_idle_gc-MayGo idle_input idle_deps (machine ∷ []) envs
