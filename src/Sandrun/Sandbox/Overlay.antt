-- ===== src/Sandrun/Sandbox/Overlay.antt =====
-- cmd/sandrun/src/linux.rs: the overlay on which the sandbox writes. The digest of `sha2` is a
-- parameter.
pub mod Fresh
use sandcamp.Base.{
  ℕ, zero, suc, ◌%◌, Bool, true, false, not, ◌&&◌, ◌||◌, Option, none, some, List, [], ◌∷◌,
  if◌then◌else◌, Bytes, ascii, bytes_eq, Result, ok, err, guard,
}
use sandcamp.Base.Steps.{lift, pure, fail, ◌>>=◌, ◌>>◌, each}
use sandcamp.Rust.Path.{starts_with, join}
use sandcamp.Sandrun.Sandbox.{
  ErrorKind, missing, exists, IoError, RuntimeError, invalid_rootfs, invalid_mount_target,
  operation, make_directory, make_directories, create_file, set_mode, write_file, set_owner,
  open_lock, lock_file, inherit_lock, Kernel, perform, c_string, Act, attempt, look, inspect,
  mount_raw,
}
use sandcamp.Sandrun.Sandbox.Encoding.{overlay_identity, hex_lower, overlay_options}

abbrev pub overlay_base : Bytes
overlay_base = ascii "/var/lib/sandcamp/overlay"

abbrev pub overlay_device_mount : Bytes
overlay_device_mount = ascii "/var/lib/sandcamp/overlay-device"

abbrev pub overlay_device_namespace : Bytes
overlay_device_namespace = ascii "sandcamp/overlay/v1"

abbrev pub io_error : ErrorKind → Bytes → IoError
io_error kind message = record { kind = kind; message = message }

abbrev pub exists_already : IoError → Bool
exists_already e = elim e.kind [ exists ↦ true | _ ↦ false ]

abbrev pub is_missing : IoError → Bool
is_missing e = elim e.kind [ missing ↦ true | _ ↦ false ]

-- The directories of an overlay.
pub record OverlayPaths : Type 0 where
  pub upper : Bytes
  pub work : Bytes
  pub merged : Bytes

module _ (kernel : Kernel) where
  unfoldable pub ensure_private_directory : Bytes → Bytes → Act kernel (Unit {0})
  ensure_private_directory path name = do
    perform kernel name (some path) (make_directories path 448)
    metadata ← inspect kernel name (some path) (kernel.symlink_metadata path)
    lift (
        guard (metadata.is_dir && not metadata.is_symlink)
          (invalid_mount_target path (ascii "overlay directory is not a real directory")))

  -- Attempts that are left, and the number of the next; a name that is taken is passed over.
  unfoldable pub workspace_made :
      (ℕ → Act kernel Bytes) → ℕ → Bytes → Result IoError (Unit {0}) → Act kernel Bytes
  workspace_made again attempt_number workspace (ok u) = pure workspace
  workspace_made again attempt_number workspace (err e) =
      if exists_already e
      then again (suc attempt_number)
      else fail (operation (ascii "overlay_workspace_create_failed") (some workspace) e)

  unfoldable pub workspace_from : ℕ → Bytes → ℕ → Act kernel Bytes
  workspace_from zero base attempt_number = fail (
      operation (ascii "overlay_workspace_create_failed") (some base)
        (io_error exists (ascii "could not allocate a unique overlay workspace")))
  workspace_from (suc left) base attempt_number = do
    name ← look kernel (kernel.workspace_name attempt_number)
    let workspace = join base name
    result ← attempt kernel (make_directory workspace 448)
    workspace_made (workspace_from left base) attempt_number workspace result

  -- The attempts 0 to 127.
  unfoldable pub create_overlay_workspace : Bytes → Act kernel Bytes
  create_overlay_workspace base = workspace_from 128 base 0

  unfoldable pub acquire_overlay_lock : Bytes → Act kernel (Unit {0})
  acquire_overlay_lock path = do
    perform kernel (ascii "overlay_lock_open_failed") (some path) (open_lock path)
    perform kernel (ascii "overlay_workspace_busy") (some path) (lock_file path)
    perform kernel (ascii "overlay_lock_inherit_failed") (some path) (inherit_lock path)

  unfoldable pub identity_opened : Bytes → Bytes → Result IoError (Unit {0}) → Act kernel (Unit {0})
  identity_opened path expected (ok u) =
      perform kernel (ascii "overlay_identity_write_failed") (some path) (write_file path expected)
  identity_opened path expected (err e) =
      if exists_already e
      then (do
        actual ←
            inspect kernel (ascii "overlay_identity_read_failed") (some path)
              (kernel.read_file path)
        lift (
            guard (bytes_eq actual expected) (
              operation (ascii "overlay_identity_mismatch") (some path)
                (io_error exists (ascii "overlay hash maps to a different identity")))))
      else fail (operation (ascii "overlay_identity_create_failed") (some path) e)

  unfoldable pub ensure_identity : Bytes → Bytes → Act kernel (Unit {0})
  ensure_identity path expected = do
    result ← attempt kernel (create_file path 384)
    identity_opened path expected result

  -- Whether the directory is a new one.
  unfoldable pub created : Bytes → Result IoError (Unit {0}) → Result RuntimeError Bool
  created path (ok u) = ok true
  created path (err e) =
      if exists_already e
      then ok false
      else err (operation (ascii "overlay_upper_create_failed") (some path) e)

  -- A new upper directory takes on the owner and the mode of the image's root.
  unfoldable pub adopt : Bytes → Bytes → Bool → Act kernel (Unit {0})
  adopt path lower false = pure tt
  adopt path lower true = do
    metadata ← inspect kernel (ascii "rootfs_stat_failed") (some lower) (kernel.metadata lower)
    lift (c_string path (ascii "overlay_upper_chown_failed") (some path))
    perform kernel (ascii "overlay_upper_chown_failed") (some path) (set_owner path metadata.owner)
    perform kernel (ascii "overlay_upper_chmod_failed") (some path)
        (set_mode path (metadata.mode % 4096))

  unfoldable pub ensure_overlay_upper_directory : Bytes → Bytes → Act kernel (Unit {0})
  ensure_overlay_upper_directory path lower = do
    result ← attempt kernel (make_directory path 448)
    is_new ← lift (created path result)
    metadata ←
        inspect kernel (ascii "overlay_upper_stat_failed") (some path)
          (kernel.symlink_metadata path)
    lift (
        guard (metadata.is_dir && not metadata.is_symlink)
          (invalid_mount_target path (ascii "overlay upper is not a real directory")))
    adopt path lower is_new

  unfoldable pub ensure_overlay_directories : List Bytes → Act kernel (Unit {0})
  ensure_overlay_directories paths =
      each paths (λ path. ensure_private_directory path (ascii "overlay_directory_create_failed"))

  -- A workspace of its own, which no other run uses.
  unfoldable pub fresh_overlay_paths : Bytes → Act kernel OverlayPaths
  fresh_overlay_paths base = do
    workspace ← create_overlay_workspace base
    let work = join workspace (ascii "work")
    let merged = join workspace (ascii "merged")
    ensure_overlay_directories (work ∷ merged ∷ [])
    pure (record { upper = join workspace (ascii "upper"); work = work; merged = merged })

  module _ (sha256 : Bytes → Bytes) where
    unfoldable pub stable_overlay_paths : Bytes → Bytes → Bytes → Act kernel OverlayPaths
    stable_overlay_paths base lower overlay_id = do
      let identity = overlay_identity overlay_id lower
      let workspace = join base (hex_lower (sha256 identity))
      ensure_private_directory workspace (ascii "overlay_workspace_create_failed")
      acquire_overlay_lock (join workspace (ascii "lock"))
      ensure_identity (join workspace (ascii "identity")) identity
      let work = join workspace (ascii "work")
      let merged_base = join workspace (ascii "merged")
      ensure_overlay_directories (work ∷ merged_base ∷ [])
      merged ← create_overlay_workspace merged_base
      pure (record { upper = join workspace (ascii "upper"); work = work; merged = merged })

    unfoldable pub overlay_paths : Bytes → Bytes → Option Bytes → Act kernel OverlayPaths
    overlay_paths base lower none = fresh_overlay_paths base
    overlay_paths base lower (some overlay_id) = stable_overlay_paths base lower overlay_id

    unfoldable pub mount_overlay_rootfs : Bytes → Bytes → Option Bytes → Act kernel Bytes
    mount_overlay_rootfs lower base overlay_id = do
      lift (guard (not (starts_with base lower || starts_with lower base)) (invalid_rootfs lower))
      ensure_private_directory base (ascii "overlay_base_create_failed")
      paths ← overlay_paths base lower overlay_id
      ensure_overlay_upper_directory paths.upper lower
      mount_raw kernel (ascii "overlay_mount_failed") (record {
        source = some (ascii "overlay");
        target = paths.merged;
        filesystem = some (ascii "overlay");
        flags = [];
        data' = some (overlay_options lower paths.upper paths.work);
      })
      pure paths.merged

  unfoldable pub prepare_overlay_base : Option Bytes → Act kernel Bytes
  prepare_overlay_base none = pure overlay_base
  prepare_overlay_base (some path) = do
    device ←
        inspect kernel (ascii "overlay_device_resolve_failed") (some path)
          (kernel.canonicalize path)
    metadata ←
        inspect kernel (ascii "overlay_device_stat_failed") (some device) (kernel.metadata device)
    lift (
        guard metadata.is_block_device
          (invalid_mount_target device (ascii "overlay device is not a block device")))
    ensure_private_directory overlay_device_mount (ascii "overlay_device_mountpoint_create_failed")
    mount_raw kernel (ascii "overlay_device_mount_failed") (record {
      source = some device;
      target = overlay_device_mount;
      filesystem = some (ascii "ext4");
      flags = [];
      data' = none;
    })
    let base = join overlay_device_mount overlay_device_namespace
    ensure_private_directory base (ascii "overlay_base_create_failed")
    pure base
