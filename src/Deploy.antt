-- ===== src/Deploy.antt =====
-- src/app: deploying an app, from the CI gate to the bookkeeping.
pub mod Phases
pub mod CiGate
pub mod ReleaseTag
pub mod Tags
pub mod Run
pub mod Heal
pub mod ClearFailed
pub mod Register
