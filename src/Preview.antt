-- ===== src/Preview.antt =====
-- src/env and src/preview: the preview environments of branches and pull requests.
pub mod Phases
pub mod Gc
pub mod Heal
pub mod Pr
pub mod Idle
pub mod Ports
pub mod Names
pub mod Target
pub mod Create
