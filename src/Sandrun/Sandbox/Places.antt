-- ===== src/Sandrun/Sandbox/Places.antt =====
-- cmd/sandrun/src/linux.rs: where the root, the targets, the working directory and the command are.
pub mod Found
use sandcamp.Base.{
  ℕ, ◌/◌, ◌%◌, ◌+◌, ◌==◌, Bool, not, ◌&&◌, some, if◌then◌else◌, Bytes, ascii, Result, ok, err,
  map_err, guard,
}
use sandcamp.Base.Steps.{lift, pure, ◌>>=◌, ◌>>◌}
use sandcamp.Rust.Path.{path_eq}
use sandcamp.Sandrun.Resolve.{Names, Entry, unreadable, plain, link, resolve_target}
use sandcamp.Sandrun.Sandbox.{
  IoError, Metadata, invalid_rootfs, invalid_mount_target, unresolved, Kernel, place, Act, look,
  inspect,
}

abbrev pub message_of : IoError → Bytes
message_of e = e.message

unfoldable pub entry_of : Result IoError Metadata → Result IoError Bytes → Entry
entry_of (err e) target = unreadable e.message
entry_of (ok m) target = if m.is_symlink then link (map_err message_of target) else plain

-- `mode & 0o111 != 0`
unfoldable pub has_execute : ℕ → Bool
has_execute mode = not (mode / 64 % 2 + mode / 8 % 2 + mode % 2 == 0)

module _ (kernel : Kernel) where
  -- The image in a world, as `resolve_target` meets it.
  unfoldable pub entry_at : Bytes → kernel.World → Names → Entry
  entry_at root world names =
      let path = place root names in
      entry_of (kernel.symlink_metadata path world) (kernel.read_link path world)

  -- `resolve_target`, with the path on the host as its result.
  unfoldable pub resolve_below : Bytes → Bytes → Act kernel Bytes
  resolve_below root target = do
    found ← look kernel (λ world. resolve_target (entry_at root world) target)
    names ← lift (map_err unresolved found)
    pure (place root names)

  unfoldable pub prepare_rootfs : Bytes → Act kernel Bytes
  prepare_rootfs path = do
    rootfs ← inspect kernel (ascii "rootfs_resolve_failed") (some path) (kernel.canonicalize path)
    metadata ← inspect kernel (ascii "rootfs_stat_failed") (some rootfs) (kernel.metadata rootfs)
    lift (guard (not (path_eq rootfs (ascii "/")) && metadata.is_dir) (invalid_rootfs rootfs))
    pure rootfs

  unfoldable pub resolve_directory : Bytes → Bytes → Act kernel Bytes
  resolve_directory root target = do
    resolved ← resolve_below root target
    metadata ←
        inspect kernel (ascii "mount_target_stat_failed") (some resolved) (kernel.metadata resolved)
    lift (
        guard metadata.is_dir
          (invalid_mount_target target (ascii "mount target is not a directory")))
    pure resolved

  unfoldable pub prepare_workdir : Bytes → Bytes → Act kernel (Unit {0})
  prepare_workdir root workdir = do
    resolved ← resolve_below root workdir
    metadata ←
        inspect kernel (ascii "workdir_stat_failed") (some resolved) (kernel.metadata resolved)
    lift (guard metadata.is_dir (invalid_mount_target workdir (ascii "workdir is not a directory")))

  unfoldable pub prepare_executable : Bytes → Bytes → Act kernel (Unit {0})
  prepare_executable root executable = do
    resolved ← resolve_below root executable
    metadata ←
        inspect kernel (ascii "executable_stat_failed") (some resolved) (kernel.metadata resolved)
    lift (
        guard metadata.is_file
          (invalid_mount_target executable (ascii "command is not a regular file")))
    lift (
        guard (has_execute metadata.mode)
          (invalid_mount_target executable (ascii "command is not executable")))

  unfoldable pub prepare_regular_source : Bytes → Act kernel Bytes
  prepare_regular_source path = do
    source ←
        inspect kernel (ascii "bind_source_resolve_failed") (some path) (kernel.canonicalize path)
    metadata ←
        inspect kernel (ascii "bind_source_stat_failed") (some source) (kernel.metadata source)
    lift (
        guard metadata.is_file
          (invalid_mount_target path (ascii "bind source is not a regular file")))
    pure source
