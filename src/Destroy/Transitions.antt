-- ===== src/Destroy/Transitions.antt =====
-- What a destruction persists, and when the record becomes `destroyed`.
use samohost.Prelude.{
  ◌≡◌, inl, inr, refl, Bool, true, false, ◌==◌, ◌&&◌, Option, none, some, List, [], ◌∷◌, All,
  All-append, arith, not, ◌||◌, ap, ◌∙◌, find, stored_for, upsert_by-stored, Bool-cases,
}
use samohost.Records.Vm.{VmRecord, LifecycleState, destroying, destroyed}
use samohost.Lifecycle.{can_transition}
use samohost.State.Vms.{stamp}
use samohost.Destroy.{
  DestroyInput, DestroyDeps, DeleteReply, deleted, not_found, delete_failed, is_destroying,
  is_destroyed, persist, after_reply, delete, start, destroy_vm, target_vm, on_target, run_destroy,
  may_destroy, is_confirmed,
}

abbrev pub IsLegal : LifecycleState × LifecycleState → Type 0
IsLegal (from, to) = can_transition from to ≡ true

eq_destroying : (s : LifecycleState) → is_destroying s ≡ true → s ≡ destroying
eq_destroying destroying h = refl
eq_destroying _ h = ground (arith, h)

may_start :
    (s : LifecycleState)
    → is_destroying s ≡ false
    → not (is_destroyed s) && (is_destroying s || can_transition s destroying) ≡ true
    → can_transition s destroying ≡ true
may_start s retrying may = ground (arith, retrying, may)

module _ (input : DestroyInput) (deps : DestroyDeps) where
  after_reply-IsLegal :
      (changes : List (LifecycleState × LifecycleState)) (vm : VmRecord) (vms : List VmRecord)
      (reply : DeleteReply)
      → vm.lifecycle_state ≡ destroying
      → All IsLegal changes
      → All IsLegal (after_reply input deps changes vm vms reply).changes
  unfolding can_transition
  after_reply-IsLegal changes vm vms deleted h legal =
      All-append IsLegal changes ((vm.lifecycle_state, destroyed) ∷ []) legal (rw h refl, tt)
  after_reply-IsLegal changes vm vms not_found h legal =
      All-append IsLegal changes ((vm.lifecycle_state, destroyed) ∷ []) legal (rw h refl, tt)
  after_reply-IsLegal changes vm vms (delete_failed message) h legal = legal

  delete-IsLegal :
      (changes : List (LifecycleState × LifecycleState)) (vm : VmRecord) (vms : List VmRecord)
      → vm.lifecycle_state ≡ destroying
      → All IsLegal changes
      → All IsLegal (delete input deps changes vm vms).changes
  unfolding can_transition
  delete-IsLegal changes vm vms h legal = elim (Bool-cases (vm.provider_id == "")) [
    | inl unowned ↦
        rw unowned
          (All-append IsLegal changes ((vm.lifecycle_state, destroyed) ∷ []) legal (rw h refl, tt))
    | inr owned ↦
        rw owned (after_reply-IsLegal changes vm vms (deps.destroy_resource vm.provider_id) h legal)
  ]

  stored-state :
      (state : LifecycleState) (vm : VmRecord) (found : Option VmRecord)
      → (stored_for
          (λ _. stamp deps.now (record vm { lifecycle_state = state }))
          (stamp deps.now (record vm { lifecycle_state = state }))
          found).lifecycle_state
        ≡ state
  stored-state state vm none = refl
  stored-state state vm (some old) = refl

  persist-state :
      (state : LifecycleState) (vm : VmRecord) (vms : List VmRecord)
      → (persist input deps state vm vms).0.lifecycle_state ≡ state
  persist-state state vm vms =
      let r = stamp deps.now (record vm { lifecycle_state = state }) in
      ap (λ (v : VmRecord). v.lifecycle_state)
        (upsert_by-stored (λ x. x.id == vm.id) (λ _. r) r vms)
      ∙ stored-state state vm (find (λ x. x.id == vm.id) vms)

  start-IsLegal :
      (retrying : Bool) (vm : VmRecord) (vms : List VmRecord)
      → is_destroying vm.lifecycle_state ≡ retrying
      → may_destroy input deps vm ≡ true
      → All IsLegal (start input deps retrying vm vms).changes
  start-IsLegal true vm vms retrying may =
      delete-IsLegal [] vm vms (eq_destroying vm.lifecycle_state retrying) tt
  start-IsLegal false vm vms retrying may =
      let (stored, next) = persist input deps destroying vm vms in
      delete-IsLegal ((vm.lifecycle_state, destroying) ∷ []) stored next
        (persist-state destroying vm vms) (may_start vm.lifecycle_state retrying may, tt)

  destroy_vm-IsLegal :
      (vm : VmRecord) (vms : List VmRecord) → All IsLegal (destroy_vm input deps vm vms).changes
  unfolding destroy_vm
  destroy_vm-IsLegal vm vms = elim (Bool-cases (may_destroy input deps vm)) [
    | inr never ↦ rw never tt
    | inl may ↦ elim (Bool-cases (is_confirmed input deps vm)) [
      | inr aborted ↦ rw (may, aborted) tt
      | inl agreed ↦
          rw (may, agreed) (start-IsLegal (is_destroying vm.lifecycle_state) vm vms refl may)
    ]
  ]

  on_target-IsLegal :
      (target : Option VmRecord) (vms : List VmRecord)
      → All IsLegal (on_target input deps target vms).changes
  on_target-IsLegal none vms = tt
  on_target-IsLegal (some vm) vms = destroy_vm-IsLegal vm vms

-- Every lifecycle change that a destruction persists is a legal transition, whatever the state of the
-- machine, the operator's answer and the provider's reply, also when an earlier one is retried.
pub run_destroy-IsLegal :
    (input : DestroyInput) (deps : DestroyDeps) (vms : List VmRecord)
    → All IsLegal (run_destroy input deps vms).changes
unfolding run_destroy
run_destroy-IsLegal input deps vms = on_target-IsLegal input deps (target_vm input deps vms) vms
