-- ===== src/Provision/Outcome.antt =====
-- How a provisioning ends, and what it has persisted then.
use samohost.Prelude.{
  ℕ, suc, ◌+◌, ◌*◌, ◌<◌, ◌≤◌, ◌≡◌, refl, sym, inl, inr, String, Bool, true, false, Option, none,
  some, List, [], ◌∷◌, ◌++◌, ◌==◌, arith, Bool-cases,
}
use mathlib.Core.Path.{subst}
use samohost.Records.Vm.{VmRecord, LifecycleState, planned, creating, booting, ready, degraded}
use samohost.Lifecycle.{can_transition, assert_transition, legal, label}
use samohost.Trigger.Decide.{Reply, threw, replied}
use samohost.Provision.Data.{
  ProvisionSpec, ProvisionDeps, ServerInfo, Work, kept, Provisioned, refused, ended, server_running,
}
use samohost.Provision.{
  stored, persist, after_loop, enough, create_failed, on_create, request, planned_vm, provision,
  begun, booted, ready_gate, with_key, control_plane, trusting, is_valid, run_provision,
}
use samohost.Provision.Loop.{IsAt, Pinned, Probed, Left, fingerprint-stored, stored-IsAt, poll-Left}

abbrev created : List (LifecycleState × LifecycleState)
created = (planned, creating) ∷ []

abbrev booted_changes : List (LifecycleState × LifecycleState)
booted_changes = (planned, creating) ∷ (creating, booting) ∷ []

module _ (spec : ProvisionSpec) (deps : ProvisionDeps) where
  -- The ways in which a provisioning ends, with the exit code and the stored record.
  pub data Ended : Provisioned → Type 0 where
    nothing_persisted : Ended refused
    no_resource :
        (w : Work)
        → IsAt spec deps LifecycleState.failed ""
            ((planned, creating) ∷ (creating, LifecycleState.failed) ∷ [])
            w
        → Ended (ended 1 w)
    stalled :
        (w : Work) (info : ServerInfo) (asked : Work)
        → deps.create (request spec deps asked) ≡ replied info
        → IsAt spec deps degraded info.provider_id
            ((planned, creating) ∷ (creating, booting) ∷ (booting, degraded) ∷ [])
            w
        → Ended (ended 1 w)
    came_up :
        (w : Work) (info : ServerInfo) (asked before : Work)
        → deps.create (request spec deps asked) ≡ replied info
        → IsAt spec deps ready info.provider_id
            ((planned, creating) ∷ (creating, booting) ∷ (booting, ready) ∷ [])
            w
        → Pinned spec deps before
        → Probed spec deps before
        → w.vm.host_key_fingerprint ≡ before.vm.host_key_fingerprint
        → Ended (ended 0 w)

  assert_transition-legal :
      (from to : LifecycleState) → can_transition from to ≡ true → assert_transition from to ≡ legal
  unfolding assert_transition
  assert_transition-legal from to h = rw h refl

  -- A legal move to another state does not throw, and stores the record in the new state.
  persist-IsAt :
      (from to : LifecycleState) (change : VmRecord → VmRecord) (id : String)
      (changes : List (LifecycleState × LifecycleState)) (w : Work)
      → (label to == label from) ≡ false
      → can_transition from to ≡ true
      → w.vm.lifecycle_state ≡ from
      → w.changes ≡ changes
      → (change w.vm).provider_id ≡ id
      → (next : Work) × (persist spec deps to change w ≡ kept next)
        × IsAt spec deps to id (changes ++ (from, to) ∷ []) next
        × (next.vm.host_key_fingerprint ≡ (change w.vm).host_key_fingerprint)
  unfolding persist
  persist-IsAt from to change id changes w differs may e c p =
      let vm = record (change w.vm) { lifecycle_state = to } in
      let noted = record w { changes = w.changes ++ (w.vm.lifecycle_state, to) ∷ [] } in
      let moves = subst (λ s. (label to == label s) ≡ false) (sym e) differs in
      let passes =
        subst (λ s. assert_transition s to ≡ legal) (sym e) (assert_transition-legal from to may) in
      (
        stored spec deps vm noted,
        rw (moves, passes) refl,
        stored-IsAt spec deps to id (changes ++ (from, to) ∷ []) vm noted refl p (
            subst (λ s. w.changes ++ (s, to) ∷ [] ≡ changes ++ (from, to) ∷ []) (sym e)
              (subst (λ cs. cs ++ (from, to) ∷ [] ≡ changes ++ (from, to) ∷ []) (sym c) refl)),
        fingerprint-stored spec deps vm noted,
      )

  -- A provisioning ends, in one of the ways.
  abbrev Ends : Option Provisioned → Type 0
  Ends run = (r : Provisioned) × (run ≡ some r) × Ended r

  create_failed-Ends :
      (w : Work) → IsAt spec deps creating "" created w → Ends (create_failed spec deps w)
  unfolding can_transition
  create_failed-Ends w h =
      let (next, e, at, key) =
        persist-IsAt creating LifecycleState.failed (λ vm. vm) "" created w refl refl h.in_state
          h.changed h.owned in
      rw e (ended 1 next, refl, no_resource next at)

  module _ (info : ServerInfo) (asked : Work)
      (made : deps.create (request spec deps asked) ≡ replied info) where
    after_loop-Ends :
        (left : Bool × Work)
        → Left spec deps booting info.provider_id booted_changes left
        → Ends (after_loop spec deps (some left))
    unfolding can_transition
    after_loop-Ends (true, w) (h, pinned, probed) =
        let (next, e, at, key) =
          persist-IsAt booting ready (λ vm. vm) info.provider_id booted_changes w refl refl
            h.in_state h.changed h.owned in
        rw e (ended 0 next, refl, came_up next info asked w made at pinned probed key)
    after_loop-Ends (false, w) h =
        let (next, e, at, key) =
          persist-IsAt booting degraded (λ vm. vm) info.provider_id booted_changes w refl refl
            h.in_state h.changed h.owned in
        rw e (ended 1 next, refl, stalled next info asked made at)

    ready_gate-Ends :
        (w : Work)
        → deps.now 0 ≤ deps.now 1
        → ((i : ℕ) → deps.now (suc i) < deps.now (suc (suc i)))
        → IsAt spec deps booting info.provider_id booted_changes w
        → Ends (ready_gate spec deps w)
    ready_gate-Ends w begins moves h =
        let (left, e, stays) =
          poll-Left spec deps booting info.provider_id booted_changes (enough spec deps)
            (deps.now 0 + spec.timeout_sec * 1000) 0 server_running w moves (omega arith)
            (omega (arith, begins)) h tt in
        rw e (after_loop-Ends left stays)

  on_create-Ends :
      (reply : Reply ServerInfo) (w : Work)
      → deps.now 0 ≤ deps.now 1
      → ((i : ℕ) → deps.now (suc i) < deps.now (suc (suc i)))
      → deps.create (request spec deps w) ≡ reply
      → IsAt spec deps creating "" created w
      → Ends (on_create spec deps reply w)
  unfolding can_transition
  on_create-Ends (threw message) w begins moves made h = create_failed-Ends w h
  on_create-Ends (replied info) w begins moves made h =
      let (next, e, at, key) =
        persist-IsAt creating booting (booted spec deps info) info.provider_id created w refl refl
          h.in_state h.changed refl in
      rw e (ready_gate-Ends info w made next begins moves at)

  provision-Ends :
      (key : String) (ip : Option String) (vms : List VmRecord)
      → deps.now 0 ≤ deps.now 1
      → ((i : ℕ) → deps.now (suc i) < deps.now (suc (suc i)))
      → Ends (provision spec deps (planned_vm spec deps key ip) vms)
  unfolding provision can_transition
  provision-Ends key ip vms begins moves =
      let vm = planned_vm spec deps key ip in
      let start = begun spec deps vm vms in
      let first = stored-IsAt spec deps planned "" [] vm start refl refl refl in
      let (next, e, at, same_key) =
        persist-IsAt planned creating (λ r. r) "" [] (stored spec deps vm start) refl refl
          first.in_state first.changed first.owned in
      rw e (on_create-Ends (deps.create (request spec deps next)) next begins moves refl at)

-- Where the clock does not go back from the reading for the deadline to the first test of the loop, and
-- moves on from each test to the next, a provisioning ends: with nothing persisted; or with exit code
-- 1 and a failed record that has no provider id; or with exit code 1 and a degraded record that has
-- the created server's id; or with exit code 0 and a ready record of that server. Its host key was
-- then picked from what a scan of the record printed, with the exit code 0 and not blank, and was
-- planted for the record, and a probe of the record so pinned found the server complete. The final
-- record is the stored one, the lifecycle changes before it are those of the diagram for that end,
-- and none of them throws.
pub run_provision-Ended :
    (spec : ProvisionSpec) (deps : ProvisionDeps) (vms : List VmRecord)
    → deps.now 0 ≤ deps.now 1
    → ((i : ℕ) → deps.now (suc i) < deps.now (suc (suc i)))
    → (r : Provisioned) × (run_provision spec deps vms ≡ some r)
      × Ended (trusting (control_plane deps deps.detect_egress_ip) spec) deps r
unfolding run_provision
run_provision-Ended spec deps vms begins moves = by_key deps.private_key_path
  where
    by_key :
        (key : Option String)
        → (r : Provisioned) × (with_key key spec deps vms ≡ some r)
          × Ended (trusting (control_plane deps deps.detect_egress_ip) spec) deps r
    by_key none = (refused, refl, nothing_persisted)
    by_key (some key) = elim (Bool-cases (is_valid spec deps)) [
      | inr invalid ↦ rw invalid (refused, refl, nothing_persisted)
      | inl valid ↦
          let ip = control_plane deps deps.detect_egress_ip in
          rw valid (provision-Ends (trusting ip spec) deps key ip vms begins moves)
    ]
