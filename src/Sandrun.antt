-- ===== src/Sandrun.antt =====
-- The rootfs launcher `sandrun` (cmd/sandrun/src).
pub mod Config
pub mod Args
pub mod Resolve
pub mod Passwd
pub mod Sandbox
