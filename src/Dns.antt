-- ===== src/Dns.antt =====
-- src/dns: the state of the records that previews need.
pub mod Preflight
