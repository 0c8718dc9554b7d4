-- ===== src/Tests.antt =====
-- Concrete declarations, a concrete system, and the theorems at them.
mod Declarations
mod Machine
mod Supervision
mod Mounts
mod Host
mod Sandbox
mod Encoding
mod Identity
mod Probing
