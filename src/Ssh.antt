-- ===== src/Ssh.antt =====
-- src/ssh: connections to the machines.
pub mod Budget
