-- ===== src/Campd/Identity.antt =====
-- cmd/campd/src/runtime.rs: the identity that a main process takes on before its command, and the
-- read of the host's /etc/passwd. The system is that of the sandbox.
pub mod Same
use sandcamp.Base.{
  ℕ, ◌+◌, Bool, true, false, not, ◌&&◌, ◌==◌, Option, none, some, List, [], ◌∷◌, leb, take, length,
  if◌then◌else◌, Bytes, ascii, Result, ok, err, map_err, guard,
}
use sandcamp.Base.Steps.{Step, lift, pure, ◌>>=◌, ◌>>◌}
use sandcamp.Rust.Utf8.{is_utf8}
use sandcamp.Sandrun.Passwd.{UserIdentity}
use sandcamp.Sandrun.Sandbox.{
  ErrorKind, missing, exists, another, IoError, Metadata, RuntimeError, invalid_rootfs,
  invalid_mount_target, incompatible_bind, invalid_numeric_user, invalid_passwd, unreadable_passwd,
  unresolved, unusable_targets, panicked, operation, MountFlag, ms_rdonly, ms_nosuid, ms_nodev,
  ms_noexec, ms_remount, ms_bind, ms_rec, ms_private, MountCall, Effect, make_directory,
  make_directories, create_file, set_mode, write_file, set_owner, remove_file, open_lock, lock_file,
  inherit_lock, unshare, pivot_root, detach_old_root, mount, change_to, clear_ambient, clear_groups,
  clear_capabilities, set_no_new_privileges, set_gids, set_uids, execute, Ids, Kernel, perform,
  Trace, c_string, c_string_if, place, Act, logged, attempt, look, inspect, mount_raw,
}
use sandcamp.Sandrun.Sandbox.Identity.{has_ids, eperm}

-- An act whose error is that of the system.
abbrev pub IoAct : Kernel → Type 0 → Type 0
IoAct kernel A = Step (Trace kernel.World) IoError A

module _ (kernel : Kernel) where
  abbrev pub called :
      Effect
      → List Effect
      → Result IoError (Unit {0}) × kernel.World
      → Result IoError (Unit {0}) × Trace kernel.World
  called effect effects (r, w) = (r, record { world = w; effects = effect ∷ effects })

  -- `if call != 0 { return Err(io::Error::last_os_error()) }`
  unfoldable pub call : Effect → IoAct kernel (Unit {0})
  call effect = λ s. called effect s.effects (kernel.perform effect s.world)

  abbrev pub see : {A : Type 0} → (kernel.World → A) → IoAct kernel A
  see f = λ s. (ok (f s.world), s)

  unfoldable pub call_if : Bool → Effect → IoAct kernel (Unit {0})
  call_if false effect = pure tt
  call_if true effect = call effect

  -- What comes behind the test for root.
  unfoldable pub take_on : UserIdentity → IoAct kernel (Unit {0})
  take_on user = do
    let non_root = not (user.uid == 0)
    call_if non_root clear_ambient
    call clear_groups
    call (set_gids user.gid)
    call (set_uids user.uid)
    call_if non_root clear_capabilities
    call_if non_root set_no_new_privileges
    ids ← see kernel.ids
    lift (guard (has_ids user ids) eperm)

  unfoldable pub apply_main_identity : UserIdentity → IoAct kernel (Unit {0})
  apply_main_identity user = do
    ids ← see kernel.ids
    lift (guard (ids.euid == 0) eperm)
    take_on user
