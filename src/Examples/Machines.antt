-- ===== src/Examples/Machines.antt =====
-- The destruction of a machine and the connection budget at concrete inputs.
use samohost.Prelude.{upsert_by, ◌≤◌, ◌≡◌, refl, true, List, [], ◌∷◌, All, length, filter, arith}
use samohost.Records.Vm.{ready, destroying, destroyed}
use samohost.Destroy.{DestroyInput, DestroyDeps, deleted, run_destroy, destroy_vm}
use samohost.Destroy.Transitions.{IsLegal, run_destroy-IsLegal}
use samohost.Lifecycle.{can_transition}
use samohost.Ssh.Budget.{default_opts, is_recent}
use samohost.Ssh.Budget.Window.{Call, allowed, no_attempts, length-allowed}
use samohost.Examples.Data.{machine}

abbrev input : DestroyInput
input = record { target = "field-record-1"; yes = true }

abbrev deps : DestroyDeps
deps = record {
  confirm = λ vm. "";
  destroy_resource = λ provider_id. deleted;
  now = "2026-02-01T00:00:00.000Z";
}

destroys :
    (run_destroy input deps (machine ∷ [])).changes
    ≡ (ready, destroying) ∷ (destroying, destroyed) ∷ []
unfolding run_destroy destroy_vm can_transition upsert_by
destroys = refl

run_destroy-IsLegal_example : All IsLegal (run_destroy input deps (machine ∷ [])).changes
run_destroy-IsLegal_example = run_destroy-IsLegal input deps (machine ∷ [])

-- Three calls for one machine within a second.
abbrev calls : List Call
calls = ("vm-1", 1000) ∷ ("vm-1", 1200) ∷ ("vm-1", 1900) ∷ []

length-allowed_example :
    length (filter (is_recent default_opts 2000) (allowed default_opts "vm-1" calls no_attempts []))
    ≤ 2
length-allowed_example =
    length-allowed default_opts "vm-1" calls 2000 (omega arith, (omega arith, (omega arith, tt)))
      (omega arith)
