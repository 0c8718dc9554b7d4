-- ===== src/Handoff.antt =====
-- The command line by which campd (cmd/campd/src/runtime.rs, `build_command`) hands a sidecar to
-- sandrun (cmd/sandrun/src/lib.rs, `parse_args`).
pub mod Checks
pub mod Scan
pub mod Arguments
pub mod Finish
pub mod Accepts
