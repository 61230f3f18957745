-- ===== src/Provision/Data.antt =====
-- src/commands/provision.ts, src/providers/types.ts, src/types.ts: the specification of a machine, the
-- dependencies of `runProvision`, and the states that it goes through.
use samohost.Prelude.{ℕ, String, Bool, Option, List}
use samohost.Records.Vm.{VmRecord, Provider, LifecycleState}
use samohost.Trigger.Decide.{Reply}

abbrev pub provision_image : String
provision_image = "ubuntu-24.04"

pub record ProvisionSpec : Type 0 where
  pub provider : Provider
  pub region : String
  pub kind : String
  pub name : String
  pub ssh_port : ℕ
  pub admin_user : String
  pub modules : List String
  pub trusted_ips : List String
  pub timeout_sec : ℕ
  pub labels : Option (List (String × String))

pub record ServerInfo : Type 0 where
  pub provider_id : String
  pub ipv4 : Option String
  pub is_running : Bool

pub record SpawnReply : Type 0 where
  pub code : ℕ
  pub stdout : String

pub record Pin : Type 0 where
  pub fingerprint : String
  pub line : String

pub record CreateServerSpec : Type 0 where
  pub name : String
  pub server_type : String
  pub image : String
  pub location : String
  pub user_data : String
  pub labels : List (String × String)

pub record ProvisionDeps : Type 0 where
  -- `resolveKeyPair`: the path of the private key, if both halves are there.
  pub private_key_path : Option String
  -- The errors of the modules' own validation.
  pub module_errors : ProvisionSpec → List String
  pub detect_egress_ip : Option (Option String)
  pub is_ip : String → Bool
  pub build_cloud_init : ProvisionSpec → String
  pub id : String
  pub create : CreateServerSpec → Reply ServerInfo
  pub get : ℕ → String → Reply ServerInfo
  pub keyscan : ℕ → VmRecord → SpawnReply
  -- `pickPinKey(parseScannedKeys(stdout))`
  pub pick_pin : String → Reply Pin
  -- Whether `recordHostKey` works.
  pub record_host_key : VmRecord → Pin → Bool
  pub probe : ℕ → VmRecord → SpawnReply
  -- `stdout.includes("SAMOHOST_PROVISION_COMPLETE")`
  pub has_sentinel : String → Bool
  -- The time of an upsert, and the clock of the loop in milliseconds, by the number of its reading.
  pub now_iso : String
  pub now : ℕ → ℕ

-- The record while it is provisioned, the document of the store, and the lifecycle changes.
pub record Work : Type 0 where
  pub vm : VmRecord
  pub vms : List VmRecord
  pub changes : List (LifecycleState × LifecycleState)

-- What `persist` does: it keeps a change, or throws the `IllegalTransitionError`.
pub data Persisted : Type 0 where
  kept : Work → Persisted
  threw_illegal : LifecycleState → LifecycleState → Persisted

pub data Gate : Type 0 where
  server_running ssh_up cloud_init_complete : Gate

-- What a round of the loop leaves: another round, or a machine that is up.
pub data Round : Type 0 where
  again : Gate → Work → Round
  is_up : Work → Round

pub data Provisioned : Type 0 where
  refused : Provisioned
  illegal : LifecycleState → LifecycleState → Provisioned
  ended : ℕ → Work → Provisioned
