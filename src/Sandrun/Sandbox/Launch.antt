-- ===== src/Sandrun/Sandbox/Launch.antt =====
-- cmd/sandrun/src/linux.rs: `run`, from the configuration to the command.
use sandcamp.Base.{
  Bool, true, false, Option, none, some, List, [], ◌∷◌, ◌++◌, map, Bytes, ascii, map_err, ok_or,
  Result, ok, err,
}
use sandcamp.Base.Steps.{lift, pure, ◌>>=◌, ◌>>◌, each}
use sandcamp.Sandrun.Config.{Config}
use sandcamp.Sandrun.Passwd.{UserIdentity}
use sandcamp.Sandrun.Resolve.Targets.{validate_resolved_mount_targets}
use sandcamp.Sandrun.Sandbox.{
  RuntimeError, unusable_targets, panicked, ms_rec, ms_private, MountCall, unshare, pivot_root,
  detach_old_root, change_to, execute, Kernel, perform, c_string, Act, look, mount_raw,
}
use sandcamp.Sandrun.Sandbox.Places.{entry_at, prepare_rootfs, prepare_workdir, prepare_executable}
use sandcamp.Sandrun.Sandbox.Identity.{select_identity, apply_identity}
use sandcamp.Sandrun.Sandbox.Overlay.{mount_overlay_rootfs, prepare_overlay_base}
use sandcamp.Sandrun.Sandbox.Binds.{
  PreparedBind, ensure_bind_target, prepare_bind_targets, prepare_disk_binds,
}
use sandcamp.Sandrun.Sandbox.Binds.Sources.{prepare_bind_sources}
use sandcamp.Sandrun.Sandbox.Mounts.{bind, host_cgroup_bind, prepare_mounts, apply_mount}

-- The mount of `make_mounts_private`.
abbrev pub private_root : MountCall
private_root = record {
  source = none;
  target = ascii "/";
  filesystem = none;
  flags = ms_rec ∷ ms_private ∷ [];
  data' = none;
}

-- `command[0]` panics if there is no word, which `parse_args` has seen to.
abbrev pub program : List Bytes → Result RuntimeError Bytes
program [] = err panicked
program (word ∷ _) = ok word

module _ (kernel : Kernel) where
  unfoldable pub unshare_mount_namespace : Act kernel (Unit {0})
  unshare_mount_namespace = perform kernel (ascii "mount_namespace_unshare_failed") none unshare

  unfoldable pub make_mounts_private : Act kernel (Unit {0})
  make_mounts_private = mount_raw kernel (ascii "mount_propagation_private_failed") private_root

  unfoldable pub change_directory : Bytes → Bytes → Act kernel (Unit {0})
  change_directory path name = do
    lift (c_string path name (some path))
    perform kernel name (some path) (change_to path)

  unfoldable pub enter_rootfs : Bytes → Act kernel (Unit {0})
  enter_rootfs rootfs = do
    change_directory rootfs (ascii "rootfs_chdir_failed")
    perform kernel (ascii "pivot_root_failed") (some rootfs) pivot_root
    perform kernel (ascii "old_root_unmount_failed") none detach_old_root
    change_directory (ascii "/") (ascii "new_root_chdir_failed")

  unfoldable pub validate_targets : Bytes → Config → Act kernel (Unit {0})
  validate_targets rootfs config = do
    checked ←
        look kernel (λ world. validate_resolved_mount_targets (entry_at kernel rootfs world) config)
    lift (map_err unusable_targets checked)

  unfoldable pub prepare_cgroup_target : Bytes → Bool → Act kernel (Unit {0})
  prepare_cgroup_target rootfs false = pure tt
  prepare_cgroup_target rootfs true = ensure_bind_target kernel rootfs host_cgroup_bind

  unfoldable pub identify : Option UserIdentity → Act kernel (Unit {0})
  identify none = pure tt
  identify (some identity) = apply_identity kernel identity

  -- `exec` comes back only with an error.
  unfoldable pub exec_command : List Bytes → Act kernel (Unit {0})
  exec_command command = do
    word ← lift (program command)
    perform kernel (ascii "exec_failed") (some word) (execute command)

  -- Everything behind the mount of the overlay at `rootfs` and before the root is entered.
  module _ (sha256 : Bytes → Bytes) where
    unfoldable pub disk_binds : Bytes → Bytes → Bytes → Config → Act kernel (List PreparedBind)
    disk_binds rootfs lower base config = elim config.disk_mounts [
      | [] ↦ pure []
      | target ∷ targets ↦ (do
        overlay_id ← lift (ok_or config.overlay_id panicked)
        prepare_disk_binds kernel sha256 rootfs lower base overlay_id (target ∷ targets))
    ]

    unfoldable pub furnish : Bytes → Bytes → Bytes → Config → Act kernel (Unit {0})
    furnish rootfs lower base config = do
      prepare_bind_targets kernel rootfs config.binds
      prepare_cgroup_target rootfs config.standard_mounts
      disks ← disk_binds rootfs lower base config
      prepare_workdir kernel rootfs config.workdir
      word ← lift (program config.command)
      prepare_executable kernel rootfs word
      validate_targets rootfs config
      operations ← prepare_mounts kernel rootfs config
      each (operations ++ map bind disks) (apply_mount kernel)

    unfoldable pub run : Config → Act kernel (Unit {0})
    run config = do
      lower ← prepare_rootfs kernel config.rootfs
      identity ← select_identity kernel lower config.user
      prepare_bind_sources kernel config.binds
      unshare_mount_namespace
      make_mounts_private
      base ← prepare_overlay_base kernel config.overlay_device
      rootfs ← mount_overlay_rootfs kernel sha256 lower base config.overlay_id
      furnish rootfs lower base config
      enter_rootfs rootfs
      change_directory config.workdir (ascii "workdir_chdir_failed")
      identify identity
      exec_command config.command
