-- ===== src/Provision.antt =====
-- src/commands/provision.ts, `runProvision`: a machine from its plan to `ready`. The provider, the
-- spawned commands, the clock and the text of cloud-init are dependencies. The call that enables
-- backups, whose failure is only logged, is left out. The loop over the gates runs on fuel, and its
-- k-th round sees the k-th answer of each of them; the deadline is set by the reading 0 of the clock.
pub mod Labels
pub mod Data
pub mod Loop
pub mod Outcome
use samohost.Prelude.{
  ℕ, zero, suc, ◌+◌, ◌*◌, String, Bool, true, false, not, ◌==◌, ◌&&◌, ◌||◌, Option, none, some,
  List, [], ◌∷◌, ◌++◌, any, trim, ltb, eqb, if◌then◌else◌,
}
use samohost.Records.Vm.{
  VmRecord, Provider, LifecycleState, planned, creating, booting, ready, degraded,
}
use samohost.Lifecycle.{Checked, legal, illegal_transition, assert_transition, label}
use samohost.State.Vms
use samohost.Trigger.Decide.{Reply, threw, replied}
use samohost.Provision.Labels.{validate_custom_labels, merged_labels}
use samohost.Provision.Data.{
  ProvisionSpec, ServerInfo, SpawnReply, Pin, CreateServerSpec, ProvisionDeps, Work, Persisted,
  Gate, Round, Provisioned, kept, threw_illegal, server_running, ssh_up, cloud_init_complete, again,
  is_up, refused, illegal, ended, provision_image,
}

module _ (spec : ProvisionSpec) (deps : ProvisionDeps) where
  -- `store.upsert`, and the record that it returns.
  unfoldable pub stored : VmRecord → Work → Work
  stored vm w =
      let (stamped, vms) = Vms.upserted deps.now_iso vm w.vms in
      record w { vm = stamped; vms = vms }

  abbrev pub checked : Checked → LifecycleState → VmRecord → Work → Persisted
  checked legal to vm w =
      kept (stored vm (record w { changes = w.changes ++ (w.vm.lifecycle_state, to) ∷ [] }))
  checked (illegal_transition from to') to vm w = threw_illegal from to'

  -- `persist` of a lifecycle state, with the other changes.
  unfoldable pub persist : LifecycleState → (VmRecord → VmRecord) → Work → Persisted
  persist to change w =
      let vm = record (change w.vm) { lifecycle_state = to } in
      if label to == label w.vm.lifecycle_state
      then kept (stored vm w)
      else checked (assert_transition w.vm.lifecycle_state to) to vm w

  abbrev pub then_on : Persisted → (Work → Option Provisioned) → Option Provisioned
  then_on (kept w) k = k w
  then_on (threw_illegal from to) k = some (illegal from to)

  abbrev pub with_address : Option String → Work → Work
  with_address none w = w
  with_address (some ip) w = if ip == w.vm.ip then w else stored (record w.vm { ip = ip }) w

  abbrev pub is_given : Option String → Bool
  is_given none = false
  is_given (some ip) = true

  abbrev pub has_target : Option String → Work → Bool
  has_target ipv4 w = not (w.vm.ip == "") || is_given ipv4

  -- A failing `get` is transient.
  abbrev pub on_server : Reply ServerInfo → Work → Round
  on_server (threw message) w = again server_running w
  on_server (replied info) w =
      let next = with_address info.ipv4 w in
      again (if info.is_running && has_target info.ipv4 next then ssh_up else server_running) next

  -- The first key that is seen is pinned; the gate moves on where its line is planted.
  abbrev pub on_pin : Reply Pin → Work → Round
  on_pin (threw message) w = again ssh_up w
  on_pin (replied pin) w =
      let next = stored (record w.vm { host_key_fingerprint = pin.fingerprint }) w in
      again (if deps.record_host_key next.vm pin then cloud_init_complete else ssh_up) next

  abbrev pub on_scan : SpawnReply → Work → Round
  on_scan reply w =
      if eqb reply.code 0 && not (trim reply.stdout == "")
      then on_pin (deps.pick_pin reply.stdout) w
      else again ssh_up w

  abbrev pub on_probe : SpawnReply → Work → Round
  on_probe reply w =
      if eqb reply.code 0 && deps.has_sentinel reply.stdout
      then is_up w
      else again cloud_init_complete w

  abbrev pub round : ℕ → Gate → Work → Round
  round k server_running w = on_server (deps.get k w.vm.provider_id) w
  round k ssh_up w = on_scan (deps.keyscan k w.vm) w
  round k cloud_init_complete w = on_probe (deps.probe k w.vm) w

  -- The loop, up to the deadline: a machine that is up, or a record that stalled.
  unfoldable pub poll : ℕ → ℕ → ℕ → Gate → Work → Option (Bool × Work)
  poll zero deadline k gate w = none
  poll (suc fuel) deadline k gate w = elim (ltb (deps.now k) deadline) [
    | false ↦ some (false, w)
    | true ↦ elim (round k gate w) [
      | is_up next ↦ some (true, next)
      | again gate' next ↦ poll fuel deadline (suc k) gate' next
    ]
  ]

  abbrev pub after_loop : Option (Bool × Work) → Option Provisioned
  after_loop none = none
  after_loop (some (true, w)) = then_on (persist ready (λ vm. vm) w) (λ next. some (ended 0 next))
  after_loop (some (false, w)) =
      then_on (persist degraded (λ vm. vm) w) (λ next. some (ended 1 next))

  -- Rounds that reach the deadline where the clock moves on.
  abbrev pub enough : ℕ
  enough = suc (spec.timeout_sec * 1000)

  abbrev pub ready_gate : Work → Option Provisioned
  ready_gate w = after_loop (poll enough (deps.now 0 + spec.timeout_sec * 1000) 1 server_running w)

  -- The `catch` of the creation.
  abbrev pub create_failed : Work → Option Provisioned
  create_failed w =
      then_on (persist LifecycleState.failed (λ vm. vm) w) (λ next. some (ended 1 next))

  abbrev pub or_empty : Option String → String
  or_empty none = ""
  or_empty (some ip) = ip

  abbrev pub booted : ServerInfo → VmRecord → VmRecord
  booted info vm = record vm { provider_id = info.provider_id; ip = or_empty info.ipv4 }

  -- A `persist` that throws after the creation is caught with the creation's own errors.
  abbrev pub caught : Persisted → Work → Option Provisioned
  caught (kept next) w = ready_gate next
  caught (threw_illegal from to) w = create_failed w

  abbrev pub on_create : Reply ServerInfo → Work → Option Provisioned
  on_create (threw message) w = create_failed w
  on_create (replied info) w = caught (persist booting (booted info) w) w

  abbrev pub request : Work → CreateServerSpec
  request w = record {
    name = spec.name;
    server_type = spec.kind;
    image = provision_image;
    location = spec.region;
    user_data = deps.build_cloud_init spec;
    labels = merged_labels spec.labels w.vm.id;
  }

  abbrev pub planned_vm : String → Option String → VmRecord
  planned_vm key control_plane_ip = record {
    id = deps.id;
    provider = spec.provider;
    provider_id = "";
    name = spec.name;
    ip = "";
    ssh_key_path = key;
    ssh_port = spec.ssh_port;
    ssh_user = spec.admin_user;
    control_plane_ip = control_plane_ip;
    host_key_fingerprint = "";
    region = spec.region;
    kind = spec.kind;
    modules = spec.modules;
    lifecycle_state = planned;
    created_at = deps.now_iso;
    updated_at = deps.now_iso;
  }

  abbrev pub begun : VmRecord → List VmRecord → Work
  begun vm vms = record { vm = vm; vms = vms; changes = [] }

  -- From the planned record on.
  unfoldable pub provision : VmRecord → List VmRecord → Option Provisioned
  provision vm vms =
      then_on (persist creating (λ r. r) (stored vm (begun vm vms)))
        (λ w. on_create (deps.create (request w)) w)

abbrev pub with_trusted : String → ProvisionSpec → ProvisionSpec
with_trusted ip spec =
    if any (λ t. t == ip) spec.trusted_ips
    then spec
    else record spec { trusted_ips = ip ∷ spec.trusted_ips }

-- The address of this machine, where it is found and is one.
abbrev pub control_plane : ProvisionDeps → Option (Option String) → Option String
control_plane deps none = none
control_plane deps (some none) = none
control_plane deps (some (some ip)) = if deps.is_ip ip then some ip else none

abbrev pub trusting : Option String → ProvisionSpec → ProvisionSpec
trusting none spec = spec
trusting (some ip) spec = with_trusted ip spec

abbrev pub is_valid : ProvisionSpec → ProvisionDeps → Bool
is_valid spec deps = elim (deps.module_errors spec) [
  | _ ∷ _ ↦ false
  | [] ↦ elim (validate_custom_labels spec.labels) [ [] ↦ true | _ ∷ _ ↦ false ]
]

abbrev pub with_key :
    Option String → ProvisionSpec → ProvisionDeps → List VmRecord → Option Provisioned
with_key none spec deps vms = some refused
with_key (some key) spec deps vms =
    let ip = control_plane deps deps.detect_egress_ip in
    let trusted = trusting ip spec in
    if is_valid spec deps
    then provision trusted deps (planned_vm trusted deps key ip) vms
    else some refused

-- Nothing is persisted where the key pair, a module or a label is refused.
unfoldable pub run_provision : ProvisionSpec → ProvisionDeps → List VmRecord → Option Provisioned
run_provision spec deps vms = with_key deps.private_key_path spec deps vms
