-- ===== src/Preview/Gc/Counts.antt =====
-- The counts of a garbage collection, and that a dry run changes nothing.
use samohost.Prelude.{
  ℕ, ◌+◌, ◌≡◌, refl, ◌∙◌, true, false, List, [], ◌∷◌, arith, length, length-append,
}
use samohost.Records.Vm.{VmRecord}
use samohost.Records.App.{AppRecord}
use samohost.Records.Env.{EnvRecord}
use samohost.Preview.Gc.{
  EnvGcInput, EnvGcDeps, Gc, prune, destroy_env, collect_live, gc_env, gc_all, scanned, started,
  run_env_gc, exit_code,
}

module _ (input : EnvGcInput) (vms : List VmRecord) (apps : List AppRecord) (deps : EnvGcDeps) where
  -- What the first pass over an environment decides is counted once, and a candidate is either only
  -- noted, in a dry run, or ends in one of three lists.
  abbrev decided : Gc → ℕ
  decided s = length s.candidates + s.kept

  abbrev done : Gc → ℕ
  done s = length s.reaped + length s.pruned + length s.failures

  gc_env-decided :
      (env : EnvRecord) (s : Gc) → decided (gc_env input vms apps deps env s) ≡ decided s + 1
  unfolding gc_env prune collect_live destroy_env
  gc_env-decided env s = grind (arith, length-append)

  gc_env-done :
      (env : EnvRecord) (s : Gc)
      → input.reap ≡ true
      → done (gc_env input vms apps deps env s) + length s.candidates
        ≡ done s + length (gc_env input vms apps deps env s).candidates
  unfolding gc_env prune collect_live destroy_env
  gc_env-done env s reap = grind (arith, length-append)

  gc_env-dry :
      (env : EnvRecord) (s : Gc)
      → input.reap ≡ false
      → ((gc_env input vms apps deps env s).envs ≡ s.envs)
        × ((gc_env input vms apps deps env s).sent ≡ s.sent)
        × (done (gc_env input vms apps deps env s) ≡ done s)
  unfolding gc_env prune collect_live destroy_env
  gc_env-dry env s dry = (ground arith, ground arith, ground arith)

  gc_all-decided :
      (envs : List EnvRecord) (s : Gc)
      → decided (gc_all input vms apps deps envs s) ≡ decided s + length envs
  unfolding gc_all
  gc_all-decided [] s = omega arith
  gc_all-decided (env ∷ envs) s =
      omega (arith, gc_all-decided envs (gc_env input vms apps deps env s), gc_env-decided env s)

  gc_all-done :
      (envs : List EnvRecord) (s : Gc)
      → input.reap ≡ true
      → done (gc_all input vms apps deps envs s) + length s.candidates
        ≡ done s + length (gc_all input vms apps deps envs s).candidates
  unfolding gc_all
  gc_all-done [] s reap = omega arith
  gc_all-done (env ∷ envs) s reap =
      omega
        (arith, gc_all-done envs (gc_env input vms apps deps env s) reap, gc_env-done env s reap)

  gc_all-dry :
      (envs : List EnvRecord) (s : Gc)
      → input.reap ≡ false
      → ((gc_all input vms apps deps envs s).envs ≡ s.envs)
        × ((gc_all input vms apps deps envs s).sent ≡ s.sent)
        × (done (gc_all input vms apps deps envs s) ≡ done s)
  unfolding gc_all
  gc_all-dry [] s dry = (refl, refl, refl)
  gc_all-dry (env ∷ envs) s dry =
      let (es, sent, n) = gc_env-dry env s dry in
      let (es', sent', n') = gc_all-dry envs (gc_env input vms apps deps env s) dry in
      (es' ∙ es, sent' ∙ sent, n' ∙ n)

-- With `--reap`, the kept environments and the candidates together are as many as the scanned ones,
-- and the reaped, pruned and failed ones together are as many as the candidates.
pub run_env_gc-counts :
    (input : EnvGcInput) (vms : List VmRecord) (apps : List AppRecord) (deps : EnvGcDeps)
    (es : List EnvRecord)
    → input.reap ≡ true
    → (length (run_env_gc input vms apps deps es).candidates
          + (run_env_gc input vms apps deps es).kept
        ≡ length (scanned input vms apps deps es))
      × (length (run_env_gc input vms apps deps es).reaped
            + length (run_env_gc input vms apps deps es).pruned
            + length (run_env_gc input vms apps deps es).failures
          ≡ length (run_env_gc input vms apps deps es).candidates)
unfolding run_env_gc
run_env_gc-counts input vms apps deps es reap =
    let list = scanned input vms apps deps es in
    let s = started input vms apps deps es in
    (
      omega (arith, gc_all-decided input vms apps deps list s),
      omega (arith, gc_all-done input vms apps deps list s reap),
    )

-- Without `--reap` the store is as before, no destroy script is sent, nothing is reported as done,
-- and the exit code is 0.
pub run_env_gc-dry :
    (input : EnvGcInput) (vms : List VmRecord) (apps : List AppRecord) (deps : EnvGcDeps)
    (es : List EnvRecord)
    → input.reap ≡ false
    → ((run_env_gc input vms apps deps es).envs ≡ es)
      × ((run_env_gc input vms apps deps es).sent ≡ [])
      × (length (run_env_gc input vms apps deps es).reaped
            + length (run_env_gc input vms apps deps es).pruned
            + length (run_env_gc input vms apps deps es).failures
          ≡ 0)
      × (exit_code input vms apps deps (run_env_gc input vms apps deps es) ≡ 0)
unfolding run_env_gc exit_code
run_env_gc-dry input vms apps deps es dry =
    let list = scanned input vms apps deps es in
    let (same, unsent, none_done) =
      gc_all-dry input vms apps deps list (started input vms apps deps es) dry in
    (same, unsent, none_done, rw dry)
