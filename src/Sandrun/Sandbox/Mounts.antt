-- ===== src/Sandrun/Sandbox/Mounts.antt =====
-- cmd/sandrun/src/linux.rs: the mounts below the root of the sandbox.
pub mod Readonly
use sandcamp.Base.{
  Bool, true, false, not, ◌&&◌, Option, none, some, List, [], ◌∷◌, ◌++◌, if◌then◌else◌, Bytes,
  ascii, Result, ok, err,
}
use sandcamp.Base.Steps.{pure, fail, ◌>>=◌, ◌>>◌, collect_each}
use sandcamp.Rust.Path.{join}
use sandcamp.Sandrun.Config.{Bind, Config}
use sandcamp.Sandrun.Sandbox.{
  IoError, Metadata, invalid_mount_target, operation, MountFlag, ms_rdonly, ms_nosuid, ms_nodev,
  ms_noexec, ms_remount, ms_bind, ms_rec, MountCall, create_file, remove_file, Kernel, perform, Act,
  look, mount_raw,
}
use sandcamp.Sandrun.Sandbox.Places.{resolve_directory, prepare_regular_source}
use sandcamp.Sandrun.Sandbox.Overlay.{is_missing}
use sandcamp.Sandrun.Sandbox.Binds.{PreparedBind, prepare_bind_with_recursion}

pub data MountOperation : Type 0 where
  proc : (target : Bytes) → MountOperation
  bind : PreparedBind → MountOperation
  tmpfs : (target mode : Bytes) → MountOperation
  dns_files : (target resolv_conf hosts : Bytes) → MountOperation

-- `OsStringBuffer::mode`, with the octal digits of the two modes that are used.
abbrev pub mode_1777 : Bytes
mode_1777 = ascii "mode=1777"

abbrev pub mode_755 : Bytes
mode_755 = ascii "mode=755"

abbrev pub self_bind : Bytes → Bool → Bind
self_bind path readonly = record { source = path; target = path; readonly = readonly }

unfoldable pub host_cgroup_bind : Bind
host_cgroup_bind = self_bind (ascii "/sys/fs/cgroup") false

abbrev pub plain_mount : Bytes → Bytes → List MountFlag → Option Bytes → MountCall
plain_mount kind target flags data' = record {
  source = some kind;
  target = target;
  filesystem = some kind;
  flags = flags;
  data' = data';
}

abbrev pub bind_mount : Bytes → Bytes → List MountFlag → MountCall
bind_mount source target flags = record {
  source = some source;
  target = target;
  filesystem = none;
  flags = flags;
  data' = none;
}

-- The mount that makes a bind read-only.
abbrev pub readonly_mount : Bytes → MountCall
readonly_mount target = record {
  source = none;
  target = target;
  filesystem = none;
  flags = ms_bind ∷ ms_remount ∷ ms_rdonly ∷ [];
  data' = none;
}

module _ (kernel : Kernel) where
  unfoldable pub standard_operations : Bytes → Bool → Act kernel (List MountOperation)
  standard_operations rootfs false = pure []
  standard_operations rootfs true = do
    proc_target ← resolve_directory kernel rootfs (ascii "/proc")
    dev ← prepare_bind_with_recursion kernel rootfs (self_bind (ascii "/dev") false) true
    sys ← prepare_bind_with_recursion kernel rootfs (self_bind (ascii "/sys") true) false
    cgroup ← prepare_bind_with_recursion kernel rootfs host_cgroup_bind true
    tmp ← resolve_directory kernel rootfs (ascii "/tmp")
    run ← resolve_directory kernel rootfs (ascii "/run")
    etc ← resolve_directory kernel rootfs (ascii "/etc")
    resolv_conf ← prepare_regular_source kernel (ascii "/etc/resolv.conf")
    hosts ← prepare_regular_source kernel (ascii "/etc/hosts")
    pure (
        proc proc_target
        ∷ bind dev
        ∷ bind sys
        ∷ bind cgroup
        ∷ tmpfs tmp mode_1777
        ∷ tmpfs run mode_755
        ∷ dns_files etc resolv_conf hosts
        ∷ [])

  unfoldable pub bind_operation : Bytes → Bind → Act kernel MountOperation
  bind_operation rootfs b = do
    prepared ← prepare_bind_with_recursion kernel rootfs b false
    pure (bind prepared)

  unfoldable pub tmpfs_operation : Bytes → Bytes → Act kernel MountOperation
  tmpfs_operation rootfs target = do
    directory ← resolve_directory kernel rootfs target
    pure (tmpfs directory mode_755)

  unfoldable pub prepare_mounts : Bytes → Config → Act kernel (List MountOperation)
  prepare_mounts rootfs config = do
    standard ← standard_operations rootfs config.standard_mounts
    binds ← collect_each config.binds (bind_operation rootfs)
    tmpfs_mounts ← collect_each config.tmpfs (tmpfs_operation rootfs)
    pure (standard ++ (binds ++ tmpfs_mounts))

  unfoldable pub mount_target_created : Bytes → Act kernel (Unit {0})
  mount_target_created target =
      perform kernel (ascii "dns_target_create_failed") (some target) (create_file target 420)

  unfoldable pub mount_target_present : Bytes → Metadata → Act kernel (Unit {0})
  mount_target_present target metadata =
      if metadata.is_file && not metadata.is_symlink
      then pure tt
      else if metadata.is_symlink
      then (do
        perform kernel (ascii "dns_target_replace_failed") (some target) (remove_file target)
        mount_target_created target)
      else fail (invalid_mount_target target (ascii "DNS mount target is not a regular file"))

  unfoldable pub mount_target_found : Bytes → Result IoError Metadata → Act kernel (Unit {0})
  mount_target_found target (ok metadata) = mount_target_present target metadata
  mount_target_found target (err e) =
      if is_missing e
      then mount_target_created target
      else fail (operation (ascii "dns_target_stat_failed") (some target) e)

  unfoldable pub ensure_regular_mount_target : Bytes → Act kernel (Unit {0})
  ensure_regular_mount_target target = do
    found ← look kernel (kernel.symlink_metadata target)
    mount_target_found target found

  unfoldable pub remount_if : Bool → Bytes → Act kernel (Unit {0})
  remount_if false target = pure tt
  remount_if true target =
      mount_raw kernel (ascii "bind_remount_readonly_failed") (readonly_mount target)

  unfoldable pub bind_file_readonly : Bytes → Bytes → Act kernel (Unit {0})
  bind_file_readonly source target = do
    mount_raw kernel (ascii "bind_mount_failed") (bind_mount source target (ms_bind ∷ []))
    remount_if true target

  unfoldable pub apply_mount : MountOperation → Act kernel (Unit {0})
  apply_mount (proc target) =
      mount_raw kernel (ascii "proc_mount_failed")
        (plain_mount (ascii "proc") target (ms_nosuid ∷ ms_nodev ∷ ms_noexec ∷ []) none)
  apply_mount (bind b) = do
    mount_raw kernel (ascii "bind_mount_failed")
        (bind_mount b.source b.target (ms_bind ∷ (if b.recursive then ms_rec ∷ [] else [])))
    remount_if b.readonly b.target
  apply_mount (tmpfs target mode) =
      mount_raw kernel (ascii "tmpfs_mount_failed")
        (plain_mount (ascii "tmpfs") target (ms_nosuid ∷ ms_nodev ∷ []) (some mode))
  apply_mount (dns_files target resolv_conf hosts) = do
    let resolv_target = join target (ascii "resolv.conf")
    let hosts_target = join target (ascii "hosts")
    ensure_regular_mount_target resolv_target
    ensure_regular_mount_target hosts_target
    bind_file_readonly resolv_conf resolv_target
    bind_file_readonly hosts hosts_target
