-- ===== src/State/Vms/Laws.antt =====
-- The machine store: what an upsert returns, and that it is found.
use samohost.Prelude.{
  ◌==◌, ◌≡◌, refl, ◌∙◌, ap, String, Option, none, some, List, stored_for, find, upsert_by-list,
  upsert_by-stored, find-replace_or_push_self, eq_refl,
}
use samohost.Records.Vm.{VmRecord}
use samohost.State.Vms.{get, stamp, upserted}

constant {ℓ} : {A : Type ℓ} (v : A) (found : Option A) → stored_for (λ _. v) v found ≡ v
constant v none = refl
constant v (some old) = refl

pub upserted-stamp :
    (now : String) (r : VmRecord) (vms : List VmRecord) → (upserted now r vms).0 ≡ stamp now r
upserted-stamp now r vms =
    upsert_by-stored (λ x. x.id == r.id) (λ _. stamp now r) (stamp now r) vms
    ∙ constant (stamp now r) (find (λ x. x.id == r.id) vms)

pub get-upserted-stamp :
    (now : String) (r : VmRecord) (vms : List VmRecord)
    → get r.id (upserted now r vms).1 ≡ some (stamp now r)
unfolding get
get-upserted-stamp now r vms =
    rw (upsert_by-list (λ x. x.id == r.id) (λ _. stamp now r) (stamp now r) vms) (
      find-replace_or_push_self (λ x. x.id == r.id) (λ _. stamp now r) (stamp now r)
        (λ x _. simp eq_refl) (simp eq_refl) vms
      ∙ ap some (constant (stamp now r) (find (λ x. x.id == r.id) vms)))
