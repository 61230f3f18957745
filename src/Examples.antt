-- ===== src/Examples.antt =====
-- The theorems at concrete inputs, and tests of the definitions: a machine, an app with a release
-- channel, preview environments, and sign-ins.
pub mod Data
pub mod Stores
pub mod Scripts
pub mod Deploys
pub mod Previews
pub mod Machines
pub mod Cycles
pub mod Provisions
pub mod Names
pub mod Repairs
pub mod Environments
pub mod Signins
pub mod Registrations
pub mod Dns
