-- ===== src/Examples/Provisions.antt =====
-- A provisioning whose server answers at once, and labels.
use samohost.Prelude.{
  ℕ, ◌*◌, ◌≡◌, refl, trim, String, true, Option, none, some, List, [], ◌∷◌, upsert_by, arith,
}
use samohost.Records.Vm.{hetzner}
use samohost.Lifecycle.{can_transition, assert_transition}
use samohost.Trigger.Decide.{replied}
use samohost.Provision.Data.{ProvisionSpec, ProvisionDeps, Provisioned, ended}
use samohost.Provision.{stored, persist, poll, provision, trusting, control_plane, run_provision}
use samohost.Provision.Outcome.{Ended, run_provision-Ended}
use samohost.Provision.Labels.{validate_custom_labels, label_key_re}

abbrev team_labels : List (String × String)
team_labels = ("team", "web") ∷ ("managed-by", "me") ∷ []

abbrev spec : ProvisionSpec
spec = record {
  provider = hetzner;
  region = "nbg1";
  kind = "cx22";
  name = "field-record-1";
  ssh_port = 2223;
  admin_user = "samo";
  modules = [];
  trusted_ips = [];
  timeout_sec = 600;
  labels = some team_labels;
}

abbrev deps : ProvisionDeps
deps = record {
  private_key_path = some "/keys/id";
  module_errors = λ spec. [];
  detect_egress_ip = some (some "198.51.100.1");
  is_ip = λ text. true;
  build_cloud_init = λ spec. "#cloud-config";
  id = "vm-1";
  create = λ request. replied (record { provider_id = "42"; ipv4 = none; is_running = true });
  get = λ k id. replied (record { provider_id = id; ipv4 = some "203.0.113.7"; is_running = true });
  keyscan = λ k vm. record { code = 0; stdout = "203.0.113.7 ssh-ed25519 AAAA" };
  pick_pin = λ stdout. replied (record { fingerprint = "SHA256:abc"; line = stdout });
  record_host_key = λ vm pin. true;
  probe = λ k vm. record { code = 0; stdout = "SAMOHOST_PROVISION_COMPLETE" };
  has_sentinel = λ stdout. true;
  now_iso = "2026-01-01T00:00:00.000Z";
  now = λ k. k * 5000;
}

abbrev exit_code_of : Option Provisioned → Option ℕ
exit_code_of (some (ended code w)) = some code
exit_code_of _ = none

comes_up : exit_code_of (run_provision spec deps []) ≡ some 0
unfolding run_provision validate_custom_labels label_key_re provision stored persist poll upsert_by
    assert_transition can_transition trim
comes_up = refl

run_provision-Ended_example :
    (r : Provisioned) × (run_provision spec deps [] ≡ some r)
    × Ended (trusting (control_plane deps deps.detect_egress_ip) spec) deps r
run_provision-Ended_example = run_provision-Ended spec deps [] (omega arith) (λ i. omega arith)
