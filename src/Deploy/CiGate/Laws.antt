-- ===== src/Deploy/CiGate/Laws.antt =====
-- The CI gate is green only on evidence: runs that all succeeded.
use samohost.Prelude.{
  ℕ, ◌≡◌, ◌≢◌, ◌↔◌, refl, Bool, true, false, not, ◌&&◌, ◌||◌, String, Option, none, some, List, [],
  ◌∷◌, arith, all, any, if◌then◌else◌,
}
use samohost.Deploy.CiGate.{
  success, pending, failure, no_run, WorkflowRun, RunsRequest, RunsReply, threw, not_ok, runs,
  lower_field, is_empty, is_success, decide_from, decide, runs_request, relevant, status_of_reply,
  check_ci_green,
}

abbrev pub is_unfinished : WorkflowRun → Bool
is_unfinished r = is_empty (lower_field r.conclusion)

abbrev pub has_succeeded : WorkflowRun → Bool
has_succeeded r = is_success (lower_field r.conclusion)

abbrev pub has_failed : WorkflowRun → Bool
has_failed r = not (is_unfinished r) && not (has_succeeded r)

success_not_empty : (c : List ℕ) → is_success c ≡ true → is_empty c ≡ false
unfolding is_success is_empty
success_not_empty [] h = cc
success_not_empty (c ∷ cs) h = refl

decide_from-eq :
    (s p : Bool) (rs : List WorkflowRun)
    → decide_from s p rs ≡ (
        if any has_failed rs
        then failure
        else if p || any is_unfinished rs
        then pending
        else if s || any has_succeeded rs
        then success
        else no_run)
unfolding decide_from
decide_from-eq s p [] = ground arith
decide_from-eq s p (r ∷ rs) = ground (
  arith,
  decide_from-eq (s || has_succeeded r) p rs,
  decide_from-eq (s || has_succeeded r) true rs,
  success_not_empty (lower_field r.conclusion),
)

all_succeeded :
    (rs : List WorkflowRun)
    → (all has_succeeded rs ≡ true) ↔ ((any has_failed rs ≡ false) × (any is_unfinished rs ≡ false))
all_succeeded [] = ground arith
all_succeeded (r ∷ rs) =
    ground (arith, all_succeeded rs, success_not_empty (lower_field r.conclusion))

-- What the table at the head of the file says: a failed or cancelled run decides, then an unfinished
-- one, and `success` needs at least one run and success in every run.
pub decide-eq :
    (rs : List WorkflowRun)
    → decide rs ≡ (
        if any has_failed rs
        then failure
        else if any is_unfinished rs
        then pending
        else elim rs [ [] ↦ no_run | _ ∷ _ ↦ success ])
unfolding decide
decide-eq [] = refl
decide-eq (r ∷ rs) = ground (arith, decide_from-eq false false (r ∷ rs))

decide-success :
    (rs : List WorkflowRun) → (decide rs ≡ success) ↔ ((rs ≢ []) × (all has_succeeded rs ≡ true))
decide-success [] = unfold decide in ((λ e. cc), λ h. absurd (h.0 refl))
decide-success (r ∷ rs) = (
  (λ e. ((λ q. cc), ground (arith, decide-eq (r ∷ rs), all_succeeded (r ∷ rs)))),
  λ h. ground (arith, decide-eq (r ∷ rs), all_succeeded (r ∷ rs)),
)

abbrev Evidence : (RunsReply) → Option String → Type 0
Evidence reply workflow =
    (rs : List WorkflowRun) × (reply ≡ runs (some rs))
    × (relevant workflow rs ≢ [])
    × (all has_succeeded (relevant workflow rs) ≡ true)

evidence :
    (reply : RunsReply) (workflow : Option String)
    → status_of_reply workflow reply ≡ success
    → Evidence reply workflow
evidence threw workflow e = cc
evidence not_ok workflow e = cc
evidence (runs none) none e = unfold decide in cc
evidence (runs none) (some w) e = unfold decide in cc
evidence (runs (some rs)) workflow e =
    let (some_run, succeeded) = (decide-success (relevant workflow rs)).0 e in
    (rs, refl, some_run, succeeded)

-- The gate is green exactly if GitHub answered the request for this commit (and workflow) with a
-- list of runs, the runs that count are not none, and every one of them succeeded.
pub check_ci_green-success :
    (fetch : RunsRequest → RunsReply) (repo sha : String) (workflow : Option String)
    → (check_ci_green fetch repo sha workflow ≡ success) ↔ (
        (rs : List WorkflowRun) × (fetch (runs_request repo sha workflow) ≡ runs (some rs))
        × (relevant workflow rs ≢ [])
        × (all has_succeeded (relevant workflow rs) ≡ true))
unfolding check_ci_green
check_ci_green-success fetch repo sha workflow = (
  evidence (fetch (runs_request repo sha workflow)) workflow,
  λ (rs, answered, some_run, succeeded).
      rw answered ((decide-success (relevant workflow rs)).1 (some_run, succeeded)),
)
