-- ===== src/State.antt =====
-- src/state: the documents on the operator's disk, and the stores over them.
pub mod Atomic
pub mod Disk
pub mod Vms
pub mod Apps
pub mod Envs
pub mod Domains
