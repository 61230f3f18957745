-- ===== src/Preview/Idle/Threshold.antt =====
-- What the idle collection may destroy, and its counts.
use samohost.Prelude.{
  ℕ, ◌+◌, ◌≤◌, ◌≡◌, inl, inr, Bool, true, false, Option, none, some, List, [], ◌∷◌, ◌++◌, length,
  find, length-append, All, All-append, arith, Bool-cases, ltb, not, suc, refl, ◌==◌, ◌||◌,
  if◌then◌else◌,
}
use samohost.Records.Vm.{VmRecord}
use samohost.Records.Env.{EnvRecord}
use samohost.State.Envs.{list_for}
use samohost.Preview.Idle.{
  candidate, EnvIdleGcInput, IdleDeps, IdleGc, idle_since_ms, reap, idle_round, idle_rounds,
  started, on_machine, run_env_idle_gc, DestroyReply, exited, destroy_threw, after_destroy,
}

module _ (input : EnvIdleGcInput) (deps : IdleDeps) where
  -- An environment may be sent to the destroy command where reaping was asked for and it was idle
  -- for the threshold at least.
  abbrev pub MayGo : EnvRecord → Type 0
  MayGo env = (input.idle_reap ≡ true) × (input.idle_threshold_ms ≤ idle_since_ms input deps env)

  after_destroy-sent :
      (env : EnvRecord) (after : DestroyReply × List EnvRecord) (s : IdleGc)
      → (after_destroy input deps env after s).sent ≡ s.sent
  after_destroy-sent env (exited code, envs) s = ground arith
  after_destroy-sent env (destroy_threw message, envs) s = ground arith

  reap-MayGo :
      (env : EnvRecord) (s : IdleGc)
      → MayGo env
      → All MayGo s.sent
      → All MayGo (reap input deps env s).sent
  unfolding reap
  reap-MayGo env s may before =
      rw
        (after_destroy-sent env (deps.destroy_env env.vm_id env.app_name env.branch s.envs)
          (record s { sent = s.sent ++ env ∷ [] }))
        (All-append MayGo s.sent (env ∷ []) before (may, tt))

  reap_or_not-MayGo :
      (asked : Bool) (env : EnvRecord) (s : IdleGc)
      → input.idle_reap ≡ asked
      → input.idle_threshold_ms ≤ idle_since_ms input deps env
      → All MayGo s.sent
      → All MayGo (if not asked then s else reap input deps env s).sent
  reap_or_not-MayGo true env s asked old before = reap-MayGo env s (asked, old) before
  reap_or_not-MayGo false env s asked old before = before

  idle_round-MayGo :
      (env : EnvRecord) (s : IdleGc)
      → All MayGo s.sent
      → All MayGo (idle_round input deps env s).sent
  unfolding idle_round
  idle_round-MayGo env s before =
      elim (Bool-cases (ltb (idle_since_ms input deps env) input.idle_threshold_ms)) [
        | inl fresh ↦ rw fresh before
        | inr old ↦ rw old (
            reap_or_not-MayGo input.idle_reap env
              (record s { candidates = s.candidates ++ candidate input deps env ∷ [] }) refl
              (ground (arith, old)) before)
      ]

  idle_rounds-MayGo :
      (envs : List EnvRecord) (s : IdleGc)
      → All MayGo s.sent
      → All MayGo (idle_rounds input deps envs s).sent
  unfolding idle_rounds
  idle_rounds-MayGo [] s before = before
  idle_rounds-MayGo (env ∷ envs) s before =
      idle_rounds-MayGo envs (idle_round input deps env s) (idle_round-MayGo env s before)

  -- With reaping, each candidate is sent once and ends in one of two lists.
  abbrev done : IdleGc → ℕ
  done s = length s.reaped + length s.failed

  idle_round-counts :
      (env : EnvRecord) (s : IdleGc)
      → (length (idle_round input deps env s).candidates + (idle_round input deps env s).kept
          ≡ suc (length s.candidates + s.kept))
        × (done (idle_round input deps env s) + length s.sent
            ≡ done s + length (idle_round input deps env s).sent)
  unfolding idle_round reap
  idle_round-counts env s = (grind (arith, length-append), grind (arith, length-append))

  idle_rounds-counts :
      (envs : List EnvRecord) (s : IdleGc)
      → (length (idle_rounds input deps envs s).candidates + (idle_rounds input deps envs s).kept
          ≡ length envs + (length s.candidates + s.kept))
        × (done (idle_rounds input deps envs s) + length s.sent
            ≡ done s + length (idle_rounds input deps envs s).sent)
  unfolding idle_rounds
  idle_rounds-counts [] s = (omega arith, omega arith)
  idle_rounds-counts (env ∷ envs) s =
      let (each, all_done) = idle_round-counts env s in
      let (each', all_done') = idle_rounds-counts envs (idle_round input deps env s) in
      (omega (arith, each, each'), omega (arith, all_done, all_done'))

-- An environment is sent to the destroy command only where reaping was asked for and it was idle for
-- the threshold at least, and the reaped and the failed ones together are as many as were sent.
pub run_env_idle_gc-MayGo :
    (input : EnvIdleGcInput) (deps : IdleDeps) (vms : List VmRecord) (es : List EnvRecord)
    → All (MayGo input deps) (run_env_idle_gc input deps vms es).gc.sent
      × (length (run_env_idle_gc input deps vms es).gc.reaped
            + length (run_env_idle_gc input deps vms es).gc.failed
          ≡ length (run_env_idle_gc input deps vms es).gc.sent)
unfolding run_env_idle_gc
run_env_idle_gc-MayGo input deps vms es =
    report (find (λ v. v.id == input.vm || v.name == input.vm) vms)
  where
    report :
        (vm : Option VmRecord)
        → All (MayGo input deps) (on_machine input deps vm es).gc.sent
          × (length (on_machine input deps vm es).gc.reaped
                + length (on_machine input deps vm es).gc.failed
              ≡ length (on_machine input deps vm es).gc.sent)
    report none =
        let envs = list_for input.vm none es in
        let s = started input deps es in
        (
          idle_rounds-MayGo input deps envs s tt,
          omega (arith, (idle_rounds-counts input deps envs s).1),
        )
    report (some vm) =
        let envs = list_for vm.id none es in
        let s = started input deps es in
        (
          idle_rounds-MayGo input deps envs s tt,
          omega (arith, (idle_rounds-counts input deps envs s).1),
        )
