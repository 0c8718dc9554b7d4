-- ===== src/Campd.antt =====
-- The supervisor `campd` (cmd/campd/src).
pub mod Spec
pub mod Passwd
pub mod Launch
pub mod Probe
pub mod Supervisor
pub mod Identity
pub mod Ready
pub mod Prober
