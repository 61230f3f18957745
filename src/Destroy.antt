-- ===== src/Destroy.antt =====
-- src/commands/destroy.ts, `runDestroy`. The operator's answer and the provider are dependencies; the
-- listing of attached volumes only prints, and is left out with the other log lines.
pub mod Transitions
use samohost.Prelude.{
  ℕ, String, Bool, true, false, not, ◌==◌, ◌&&◌, ◌||◌, Option, none, some, List, [], ◌∷◌, ◌++◌,
  find, trim, if◌then◌else◌,
}
use samohost.Records.Vm.{
  VmRecord, LifecycleState, planned, creating, booting, ready, adopted, degraded, failed,
  destroying, destroyed,
}
use samohost.Lifecycle.{can_transition}
use samohost.State.Vms

pub record DestroyInput : Type 0 where
  pub target : String
  pub yes : Bool

pub data DeleteReply : Type 0 where
  deleted not_found : DeleteReply
  delete_failed : String → DeleteReply

pub record DestroyDeps : Type 0 where
  pub confirm : VmRecord → String
  pub destroy_resource : String → DeleteReply
  pub now : String

pub record Destroyed : Type 0 where
  pub exit_code : ℕ
  pub vms : List VmRecord
  -- The lifecycle changes that were persisted, in order.
  pub changes : List (LifecycleState × LifecycleState)
  -- The provider's reply, if it was asked.
  pub reply : Option DeleteReply

abbrev pub is_destroyed : LifecycleState → Bool
is_destroyed destroyed = true
is_destroyed _ = false

abbrev pub is_destroying : LifecycleState → Bool
is_destroying destroying = true
is_destroying _ = false

module _ (input : DestroyInput) (deps : DestroyDeps) where
  abbrev pub stopped : ℕ → List VmRecord → Destroyed
  stopped code vms = record { exit_code = code; vms = vms; changes = []; reply = none }

  abbrev pub persist : LifecycleState → VmRecord → List VmRecord → VmRecord × List VmRecord
  persist state vm vms = Vms.upserted deps.now (record vm { lifecycle_state = state }) vms

  -- The last step: the record becomes `destroyed`.
  abbrev pub finish :
      List (LifecycleState × LifecycleState)
      → Option DeleteReply
      → VmRecord
      → List VmRecord
      → Destroyed
  finish changes reply vm vms = record {
    exit_code = 0;
    vms = (persist destroyed vm vms).1;
    changes = changes ++ (vm.lifecycle_state, destroyed) ∷ [];
    reply = reply;
  }

  abbrev pub after_reply :
      List (LifecycleState × LifecycleState) → VmRecord → List VmRecord → DeleteReply → Destroyed
  after_reply changes vm vms deleted = finish changes (some deleted) vm vms
  after_reply changes vm vms not_found = finish changes (some not_found) vm vms
  after_reply changes vm vms (delete_failed message) = record {
    exit_code = 1;
    vms = vms;
    changes = changes;
    reply = some (delete_failed message);
  }

  abbrev pub delete : List (LifecycleState × LifecycleState) → VmRecord → List VmRecord → Destroyed
  delete changes vm vms =
      if vm.provider_id == ""
      then finish changes none vm vms
      else after_reply changes vm vms (deps.destroy_resource vm.provider_id)

  abbrev pub start : Bool → VmRecord → List VmRecord → Destroyed
  start true vm vms = delete [] vm vms
  start false vm vms =
      let (stored, next) = persist destroying vm vms in
      delete ((vm.lifecycle_state, destroying) ∷ []) stored next

  abbrev pub is_confirmed : VmRecord → Bool
  is_confirmed vm = input.yes || trim (deps.confirm vm) == vm.name

  abbrev pub may_destroy : VmRecord → Bool
  may_destroy vm =
      not (is_destroyed vm.lifecycle_state)
      && (is_destroying vm.lifecycle_state || can_transition vm.lifecycle_state destroying)

  unfoldable pub destroy_vm : VmRecord → List VmRecord → Destroyed
  destroy_vm vm vms =
      if may_destroy vm && is_confirmed vm
      then start (is_destroying vm.lifecycle_state) vm vms
      else stopped 1 vms

  abbrev pub target_vm : List VmRecord → Option VmRecord
  target_vm = find (λ r. r.id == input.target || r.name == input.target)

  abbrev pub on_target : Option VmRecord → List VmRecord → Destroyed
  on_target none vms = stopped 1 vms
  on_target (some vm) vms = destroy_vm vm vms

  unfoldable pub run_destroy : List VmRecord → Destroyed
  run_destroy vms = on_target (target_vm vms) vms
