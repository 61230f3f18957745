-- ===== src/Preview/Heal/Budget.antt =====
-- Which clones a healing pass re-creates, and its counts.
use samohost.Prelude.{
  ℕ, suc, ◌+◌, ◌≤◌, ◌≡◌, refl, sym, ◌∙◌, String, Bool, true, false, List, [], ◌∷◌, ◌++◌, filter,
  length, length-append, length-filter-append, length-map, arith,
}
use mathlib.Core.List.{append_assoc, append-nil}
use samohost.Records.Vm.{VmRecord}
use samohost.Records.App.{AppRecord}
use samohost.Records.Env.{EnvRecord}
use samohost.Preview.Heal.{
  CloneHealth, alive, dead, unknown, HealDeps, Heal, RecreateOutcome, budget, recreate_ok,
  recreate_failed, recreate_threw, verdict_of, heal_env, heal_all, dblab_envs, started,
  run_heal_pass, examine, probed, Probe, probe_threw, after_probe, is_healed, is_failed,
}

abbrev pub is_dead : CloneHealth → Bool
is_dead dead = true
is_dead alive = false
is_dead unknown = false

module _ (app : AppRecord) (vm : VmRecord) (deps : HealDeps) where
  abbrev pub is_budget : RecreateOutcome → Bool
  is_budget budget = true
  is_budget recreate_ok = false
  is_budget recreate_failed = false
  is_budget (recreate_threw m) = false

  -- The environments up to the first one whose re-creation reports the budget, this one included.
  unfoldable pub until_budget : Bool → List EnvRecord → List EnvRecord
  until_budget exhausted [] = []
  until_budget true (env ∷ envs) = []
  until_budget false (env ∷ envs) = env ∷ until_budget (is_budget (deps.recreate vm app env)) envs

  heal_env-attempted :
      (env : EnvRecord) (v : CloneHealth) (s : Heal) (rest : List EnvRecord)
      → (heal_env app vm deps env v s).attempted
          ++ until_budget (heal_env app vm deps env v s).budget_exhausted rest
        ≡ s.attempted
          ++ until_budget s.budget_exhausted (elim (is_dead v) [ true ↦ env ∷ rest | false ↦ rest ])
  unfolding heal_env until_budget
  heal_env-attempted env v s rest = grind (arith, append_assoc)

  heal_all-attempted :
      (entries : List (String × CloneHealth)) (envs : List EnvRecord) (s : Heal)
      → (heal_all app vm deps entries envs s).attempted
        ≡ s.attempted
          ++ until_budget s.budget_exhausted (filter (λ env. is_dead (verdict_of entries env)) envs)
  unfolding heal_all until_budget
  heal_all-attempted entries [] s = sym (append-nil s.attempted)
  heal_all-attempted entries (env ∷ envs) s =
      heal_all-attempted entries envs (heal_env app vm deps env (verdict_of entries env) s)
      ∙ heal_env-attempted env (verdict_of entries env) s
          (filter (λ e. is_dead (verdict_of entries e)) envs)

  abbrev one_if : Bool → ℕ
  one_if true = 1
  one_if false = 0

  -- The attempts of a pass that ended in a result of their own, and the one that met the budget.
  abbrev tried : Heal → ℕ
  tried s =
      length (filter (is_healed app vm deps) s.results)
      + length (filter (is_failed app vm deps) s.results)
      + one_if s.budget_exhausted

  one_if_le : (b : Bool) → one_if b ≤ 1
  one_if_le true = omega arith
  one_if_le false = omega arith

  heal_env-counts :
      (env : EnvRecord) (v : CloneHealth) (s : Heal)
      → (length (heal_env app vm deps env v s).results ≡ suc (length s.results))
        × (tried (heal_env app vm deps env v s) + length s.attempted
            ≡ tried s + length (heal_env app vm deps env v s).attempted)
  unfolding heal_env
  heal_env-counts env v s =
      (grind (arith, length-append), grind (arith, length-append, length-filter-append))

  heal_all-counts :
      (entries : List (String × CloneHealth)) (envs : List EnvRecord) (s : Heal)
      → (length (heal_all app vm deps entries envs s).results ≡ length envs + length s.results)
        × (tried (heal_all app vm deps entries envs s) + length s.attempted
            ≡ tried s + length (heal_all app vm deps entries envs s).attempted)
  unfolding heal_all
  heal_all-counts entries [] s = (omega arith, omega arith)
  heal_all-counts entries (env ∷ envs) s =
      let next = heal_env app vm deps env (verdict_of entries env) s in
      let (kept, same) = heal_env-counts env (verdict_of entries env) s in
      let (kept', same') = heal_all-counts entries envs next in
      (omega (arith, kept, kept'), omega (arith, same, same'))

-- After a probe that answers, a healing pass asks for the re-creation of the dead `dblab` clones of
-- this machine and app, in the order of the store, up to and including the first one that reports an
-- exhausted connection budget, and of no other environment.
pub run_heal_pass-attempted :
    (app : AppRecord) (vm : VmRecord) (deps : HealDeps) (es : List EnvRecord)
    (entries : List (String × CloneHealth))
    → deps.probe_clones vm app (dblab_envs app vm deps es) ≡ probed entries
    → (run_heal_pass app vm deps es).1
      ≡ until_budget app vm deps false
          (filter (λ env. is_dead (verdict_of entries env)) (dblab_envs app vm deps es))
unfolding run_heal_pass until_budget
run_heal_pass-attempted app vm deps es entries answered =
    attempted-examine (dblab_envs app vm deps es) answered
  where
    attempted-examine :
        (envs : List EnvRecord)
        → deps.probe_clones vm app envs ≡ probed entries
        → (examine app vm deps envs).1
          ≡ until_budget app vm deps false (filter (λ env. is_dead (verdict_of entries env)) envs)
    attempted-examine [] h = refl
    attempted-examine (env ∷ envs) h =
        rw h (heal_all-attempted app vm deps entries (env ∷ envs) (started app vm deps))

-- There are as many results as `dblab` environments of the machine and app, and the re-creations
-- asked for are as many as the healed and the failed ones together, or one more.
pub run_heal_pass-counts :
    (app : AppRecord) (vm : VmRecord) (deps : HealDeps) (es : List EnvRecord)
    → (length (run_heal_pass app vm deps es).0.results ≡ length (dblab_envs app vm deps es))
      × ((run_heal_pass app vm deps es).0.examined ≡ length (dblab_envs app vm deps es))
      × ((run_heal_pass app vm deps es).0.healed_count + (run_heal_pass app vm deps es).0.failed
          ≤ length (run_heal_pass app vm deps es).1)
      × (length (run_heal_pass app vm deps es).1
          ≤ (run_heal_pass app vm deps es).0.healed_count
            + (run_heal_pass app vm deps es).0.failed
            + 1)
unfolding run_heal_pass
run_heal_pass-counts app vm deps es = counts-examine (dblab_envs app vm deps es)
  where
    counts-probe :
        (envs : List EnvRecord) (p : Probe)
        → (length (after_probe app vm deps envs p).0.results ≡ length envs)
          × ((after_probe app vm deps envs p).0.examined ≡ length envs)
          × ((after_probe app vm deps envs p).0.healed_count
                + (after_probe app vm deps envs p).0.failed
              ≤ length (after_probe app vm deps envs p).1)
          × (length (after_probe app vm deps envs p).1
              ≤ (after_probe app vm deps envs p).0.healed_count
                + (after_probe app vm deps envs p).0.failed
                + 1)
    counts-probe envs (probe_threw message) = (length-map _ envs, refl, omega arith, omega arith)
    counts-probe envs (probed entries) =
        let s = heal_all app vm deps entries envs (started app vm deps) in
        let (all_reported, all_tried) =
          heal_all-counts app vm deps entries envs (started app vm deps) in
        let at_most_one = one_if_le app vm deps s.budget_exhausted in
        (
          omega (arith, all_reported),
          refl,
          omega (arith, all_tried),
          omega (arith, all_tried, at_most_one),
        )

    counts-examine :
        (envs : List EnvRecord)
        → (length (examine app vm deps envs).0.results ≡ length envs)
          × ((examine app vm deps envs).0.examined ≡ length envs)
          × ((examine app vm deps envs).0.healed_count + (examine app vm deps envs).0.failed
              ≤ length (examine app vm deps envs).1)
          × (length (examine app vm deps envs).1
              ≤ (examine app vm deps envs).0.healed_count + (examine app vm deps envs).0.failed + 1)
    counts-examine [] = (refl, refl, omega arith, omega arith)
    counts-examine (env ∷ envs) = counts-probe (env ∷ envs) (deps.probe_clones vm app (env ∷ envs))
