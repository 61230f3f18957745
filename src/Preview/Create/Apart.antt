-- ===== src/Preview/Create/Apart.antt =====
-- No two environments of one machine have a port in common, after any creations and removals.
use mathlib.Core.Path.{subst}
use samohost.Prelude.{
  Result, passed, refused, ◌>>=◌, passed-inj, ℕ, ◌≡◌, ◌⊎◌, refl, ◌∙◌, ap, sym, inl, inr, Bool, true,
  false, ◌&&◌, ◌||◌, ◌==◌, none, some, List, [], ◌∷◌, ◌++◌, All, any, arith, Bool-cases,
  Option-cases, Distinct, Distinct-remove_by, All-mono, All-unfiltered, All-transposed, find-holds,
  replace_or_push-absent, Distinct-snoc, Distinct-replaced, replace_or_push, map, upsert_by-list,
  eq_iff, eq_comm,
}
use samohost.Records.Env.{EnvRecord}
use samohost.Records.Vm.{VmRecord}
use samohost.Records.App.{AppRecord}
use samohost.State.Envs
use samohost.State.Envs.{has_identity, same_env}
use samohost.State.Envs.Laws.{with_id}
use samohost.Deploy.Run.{SpawnResult}
use samohost.Preview.Phases.{EnvOutcome}
use samohost.Preview.Create.{
  Refusal, EnvCreateInput, EnvExecDeps, EnvCreateReport, CreatePlan, of_derived, fresh_target,
  live_bound, target_for, env_record, finish, confirmed, outcome_of, run_env_create,
}
use samohost.Preview.Create.Removal.{EnvDestroyInput, run_env_destroy}
use samohost.Preview.Create.Stages.{Planned, run_env_create-Ran, run_env_destroy-Removed}
use samohost.Preview.Create.Kept.{target-existing}
use samohost.Preview.Target.Fresh.{IsFresh, target_ports, derive_target-IsFresh}
use samohost.Preview.Ports.{taken, default_pool}
use samohost.Preview.Target.{
  listener_ports, all_listener_ports, all_used, Derived, derived, underivable, rejected,
  target_from_record,
}

abbrev pub ports_of : EnvRecord → List ℕ
ports_of e = e.port ∷ listener_ports e

abbrev pub overlap : List ℕ → List ℕ → Bool
overlap ps qs = any (taken qs) ps

-- Two environments of one machine with a port in common.
abbrev pub collide : EnvRecord → EnvRecord → Bool
collide x y = x.vm_id == y.vm_id && overlap (ports_of x) (ports_of y)

-- No two records of the store collide.
abbrev pub HasApartPorts : List EnvRecord → Type 0
HasApartPorts = Distinct collide

overlap-nil : (ps : List ℕ) → overlap ps [] ≡ false
overlap-nil [] = refl
overlap-nil (p ∷ ps) = overlap-nil ps

overlap-cons :
    (ps : List ℕ) (q : ℕ) (qs : List ℕ) → overlap ps (q ∷ qs) ≡ (taken ps q || overlap ps qs)
overlap-cons [] q qs = refl
overlap-cons (p ∷ ps) q qs = ground (arith, overlap-cons ps q qs)

overlap_comm : (ps qs : List ℕ) → overlap ps qs ≡ overlap qs ps
overlap_comm [] qs = sym (overlap-nil qs)
overlap_comm (p ∷ ps) qs =
    ap (λ b. taken qs p || b) (overlap_comm ps qs) ∙ sym (overlap-cons qs p ps)

collide_comm : (x y : EnvRecord) → collide x y ≡ collide y x
collide_comm x y = rw (eq_comm x.vm_id y.vm_id, overlap_comm (ports_of x) (ports_of y)) refl

taken-append : (xs ys : List ℕ) (p : ℕ) → taken (xs ++ ys) p ≡ (taken xs p || taken ys p)
taken-append [] ys p = refl
taken-append (x ∷ xs) ys p = ground (arith, taken-append xs ys p)

-- A port that is not among the used ones is no port of any of the environments.
unused-apart :
    (es : List EnvRecord) (extra : List ℕ) (p : ℕ)
    → taken (all_used es extra) p ≡ false
    → All (λ e. taken (ports_of e) p ≡ false) es
unfolding all_listener_ports
unused-apart [] extra p h = tt
unused-apart (e ∷ es) extra p h =
    let (now, rest) =
      regroup (map (λ (x : EnvRecord). x.port) es) (listener_ports e) (all_listener_ports es) h in
    (now, unused-apart es extra p rest)
  where
    regroup :
        (ports own others : List ℕ)
        → taken (e.port ∷ (ports ++ ((own ++ others) ++ extra))) p ≡ false
        → (taken (e.port ∷ own) p ≡ false) × (taken (ports ++ (others ++ extra)) p ≡ false)
    regroup ports own others h =
        let one = taken-append ports ((own ++ others) ++ extra) p in
        let two = taken-append (own ++ others) extra p in
        let three = taken-append own others p in
        let four = taken-append ports (others ++ extra) p in
        let five = taken-append others extra p in
        (ground (arith, h, one, two, three), ground (arith, h, one, two, three, four, five))

overlap-none : (ps qs : List ℕ) → All (λ p. taken qs p ≡ false) ps → overlap ps qs ≡ false
overlap-none [] qs h = refl
overlap-none (p ∷ ps) qs (h, hs) = ground (arith, h, overlap-none ps qs hs)

-- A record of which no port is a port of the machine's environments collides with none.
no_collision :
    (r : EnvRecord) (es : List EnvRecord)
    → All
        (λ p. All (λ y. taken (ports_of y) p ≡ false) (Envs.list_for r.vm_id none es))
        (ports_of r)
    → All (λ y. collide y r ≡ false) es
unfolding Envs.list_for
no_collision r es h =
    All-mono _ (λ y. collide y r ≡ false) apart es
      (All-unfiltered (λ y. All (λ p. taken (ports_of y) p ≡ false) (ports_of r))
        (λ y. y.vm_id == r.vm_id && true) es
        (All-transposed (λ p y. taken (ports_of y) p ≡ false) (ports_of r)
          (Envs.list_for r.vm_id none es) h))
  where
    apart :
        (y : EnvRecord)
        → ((y.vm_id == r.vm_id && true) ≡ true
            → All (λ p. taken (ports_of y) p ≡ false) (ports_of r))
        → collide y r ≡ false
    apart y free = elim (Bool-cases (y.vm_id == r.vm_id)) [
      | inl same ↦
          collide_comm y r
          ∙ ap (λ b. r.vm_id == y.vm_id && b)
              (overlap-none (ports_of r) (ports_of y) (free (ground (arith, same))))
          ∙ ground arith
      | inr other ↦ rw other refl
    ]

module _ (deps : EnvExecDeps) (input : EnvCreateInput) (vms : List VmRecord) (apps : List AppRecord)
    (envs : List EnvRecord) where
  -- The replaced record's ports and machine are the new record's.
  collide-replaced :
      (p : CreatePlan) (o : EnvOutcome) (old : EnvRecord)
      → Planned deps input vms apps envs p
      → p.existing ≡ some old
      → (y : EnvRecord) → collide (with_id (env_record deps input p o) old) y ≡ collide old y
  unfolding env_record target_from_record Envs.get
  collide-replaced p o old planned e y =
      let t = target-existing deps input vms apps envs p old planned e in
      let found =
        find-holds (has_identity p.vm.id p.app.name input.branch) envs (sym planned.existing ∙ e) in
      let same : p.vm.id ≡ old.vm_id = sym ((eq_iff old.vm_id p.vm.id).0 (ground (arith, found))) in
      ap (λ v. v == y.vm_id && overlap (target_ports p.target) (ports_of y)) same
      ∙ ap (λ x. old.vm_id == y.vm_id && overlap (target_ports x) (ports_of y)) t

  -- The ports of a new target are no ports of the machine's environments.
  fresh-apart :
      (p : CreatePlan)
      → target_for deps input p.vm p.app envs none ≡ passed p.target
      → All
          (λ q. All (λ y. taken (ports_of y) q ≡ false) (Envs.list_for p.vm.id none envs))
          (target_ports p.target)
  unfolding target_for
  fresh-apart p h = bound (live_bound deps input p.vm) h
    where
      on_machine : List EnvRecord
      on_machine = Envs.list_for p.vm.id none envs

      with_derived :
          (extra : List ℕ) (d : Derived)
          → fresh_target deps input p.vm p.app envs extra ≡ d
          → of_derived d ≡ passed p.target
          → All (λ q. All (λ y. taken (ports_of y) q ≡ false) on_machine) (target_ports p.target)
      with_derived extra (underivable x) e h = cc
      with_derived extra (rejected x) e h = cc
      with_derived extra (derived t) e h =
          subst
            (λ t. All (λ q. All (λ y. taken (ports_of y) q ≡ false) on_machine) (target_ports t))
            (passed-inj h)
            (All-mono (IsFresh default_pool (all_used on_machine extra)) _
              (λ q fresh. unused-apart on_machine extra q fresh.2) (target_ports t)
              (derive_target-IsFresh deps.parse_url p.app input.branch input.db input.preview_domain
                on_machine default_pool input.template_db extra e))

      bound :
          (r : Result Refusal (List ℕ))
          → (r >>= λ extra. of_derived (fresh_target deps input p.vm p.app envs extra))
            ≡ passed p.target
          → All (λ q. All (λ y. taken (ports_of y) q ≡ false) on_machine) (target_ports p.target)
      bound (refused x) h = cc
      bound (passed extra) h =
          with_derived extra (fresh_target deps input p.vm p.app envs extra) refl h

  finish-HasApartPorts :
      (p : CreatePlan) (raw : SpawnResult)
      → Planned deps input vms apps envs p
      → HasApartPorts envs
      → HasApartPorts (finish deps input p envs raw).1
  unfolding finish env_record Envs.get
  finish-HasApartPorts p raw planned apart =
      let o = confirmed deps input p.target (outcome_of raw) in
      let r = env_record deps input p o in
      let mine = same_env r in
      subst HasApartPorts (sym (upsert_by-list mine (with_id r) r envs))
        (replaced (Option-cases p.existing))
    where
      replaced :
          (p.existing ≡ none) ⊎ ((old : EnvRecord) × (p.existing ≡ some old))
          → HasApartPorts (
              replace_or_push
                (same_env
                  (env_record deps input p (confirmed deps input p.target (outcome_of raw))))
                (with_id (env_record deps input p (confirmed deps input p.target (outcome_of raw))))
                (env_record deps input p (confirmed deps input p.target (outcome_of raw)))
                envs)
      replaced (inr (old, e)) =
          let o = confirmed deps input p.target (outcome_of raw) in
          let r = env_record deps input p o in
          Distinct-replaced collide (same_env r) (with_id r) r collide_comm envs
            (sym planned.existing ∙ e) (collide-replaced p o old planned e) apart
      replaced (inl e) =
          let o = confirmed deps input p.target (outcome_of raw) in
          let r = env_record deps input p o in
          let fresh = fresh-apart p (
            subst (λ x. target_for deps input p.vm p.app envs x ≡ passed p.target) e
              planned.target) in
          subst HasApartPorts
            (sym (
              replace_or_push-absent collide (same_env r) (with_id r) r envs
                (sym planned.existing ∙ e)))
            (Distinct-snoc collide envs r apart (no_collision r envs fresh))

  -- After a creation that reported, no two environments of one machine have a port in common, if that
  -- held before.
  pub run_env_create-HasApartPorts :
      {report : EnvCreateReport} {next : List EnvRecord}
      → HasApartPorts envs
      → (run_env_create deps input vms apps envs).1 ≡ passed (report, next)
      → HasApartPorts next
  run_env_create-HasApartPorts apart h =
      let ran = run_env_create-Ran deps input vms apps envs h in
      subst (λ (r : EnvCreateReport × List EnvRecord). HasApartPorts r.1) ran.finished
        (finish-HasApartPorts ran.planned ran.raw ran.planned_by apart)

-- The store of environments after creations and removals, each with its own machines and replies.
pub data Stored : List EnvRecord → Type 0 where
  empty_store : Stored []
  created_env :
      {envs next : List EnvRecord} {report : EnvCreateReport} (deps : EnvExecDeps)
      (input : EnvCreateInput) (vms : List VmRecord) (apps : List AppRecord)
      → Stored envs
      → (run_env_create deps input vms apps envs).1 ≡ passed (report, next)
      → Stored next
  destroyed_env :
      {envs next : List EnvRecord} (deps : EnvExecDeps) (input : EnvDestroyInput)
      (vms : List VmRecord) (apps : List AppRecord)
      → Stored envs
      → (run_env_destroy deps input vms apps envs).1 ≡ passed next
      → Stored next

-- Whatever creations and removals of environments have run, in any order, from an empty store on, no
-- two environments of one machine have a port in common, the ports of single listeners included.
pub Stored-HasApartPorts : {envs : List EnvRecord} → Stored envs → HasApartPorts envs
Stored-HasApartPorts empty_store = tt
Stored-HasApartPorts (created_env {envs} deps input vms apps before h) =
    run_env_create-HasApartPorts deps input vms apps envs (Stored-HasApartPorts before) h
Stored-HasApartPorts (destroyed_env {envs} deps input vms apps before h) =
    let r = run_env_destroy-Removed deps input vms apps envs h in
    subst HasApartPorts (sym r.left) (
      Distinct-remove_by collide (has_identity r.vm.id r.app.name input.branch) envs
        (Stored-HasApartPorts before))
