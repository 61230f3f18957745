-- ===== src/Records/Vm.antt =====
-- src/types.ts: the provider, the lifecycle state and the record of a virtual machine.
use samohost.Prelude.{ℕ, String, Option, List}

pub data Provider : Type 0 where
  hetzner aws : Provider

pub data LifecycleState : Type 0 where
  planned creating booting ready adopted degraded failed destroying destroyed : LifecycleState

pub record VmRecord : Type 0 where
  pub id : String
  pub provider : Provider
  pub provider_id : String
  pub name : String
  pub ip : String
  pub ssh_key_path : String
  pub ssh_port : ℕ
  pub ssh_user : String
  pub control_plane_ip : Option String
  pub host_key_fingerprint : String
  pub region : String
  pub kind : String
  pub modules : List String
  pub lifecycle_state : LifecycleState
  pub created_at : String
  pub updated_at : String
