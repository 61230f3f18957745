-- ===== src/Manifest.antt =====
-- src/manifest/toml.ts: the rules on services, routes and listeners that both ways of registering an
-- app apply, and the rule on static apps.
pub mod Topology
pub mod StaticNoDb
