-- ===== src/Sandrun/Sandbox/Binds.antt =====
-- cmd/sandrun/src/linux.rs: the sources and targets of binds and disk mounts.
pub mod Sources
use sandcamp.Base.{
  ℕ, Bool, true, false, not, ◌&&◌, some, List, [], ◌∷◌, if◌then◌else◌, Bytes, ascii, Result, ok,
  err, guard, ok_or,
}
use sandcamp.Base.Steps.{lift, pure, fail, ◌>>=◌, ◌>>◌, each, collect_each}
use sandcamp.Rust.Path.{
  Component, root_dir, cur_dir, parent_dir, normal, components, join, path_from, parent, file_name,
}
use sandcamp.Sandrun.Config.{Bind}
use sandcamp.Sandrun.Sandbox.{
  another, IoError, Metadata, RuntimeError, invalid_mount_target, incompatible_bind, operation,
  make_directory, create_file, set_mode, Kernel, perform, Act, attempt, look, inspect,
}
use sandcamp.Sandrun.Sandbox.Places.{resolve_below}
use sandcamp.Sandrun.Sandbox.Encoding.{disk_identity, hex_lower}
use sandcamp.Sandrun.Sandbox.Overlay.{
  io_error, exists_already, is_missing, ensure_private_directory,
}

abbrev pub created_directory_mode : ℕ
created_directory_mode = 511

abbrev pub created_file_mode : ℕ
created_file_mode = 438

abbrev pub disk_mount_namespace : Bytes
disk_mount_namespace = ascii "disk-mounts"

pub record PreparedBind : Type 0 where
  pub source : Bytes
  pub target : Bytes
  pub readonly : Bool
  pub recursive : Bool

abbrev pub not_a_directory : Bytes → RuntimeError
not_a_directory path =
    operation (ascii "bind_source_create_failed") (some path)
      (io_error another (ascii "bind source path component is not a directory"))

abbrev pub same : Bool → Bool → Bool
same a b = if a then b else not b

module _ (kernel : Kernel) where
  unfoldable pub directory_made :
      Bytes → Bytes → Bytes → Result IoError (Unit {0}) → Act kernel (Unit {0})
  directory_made path create_operation chmod_operation (ok u) =
      perform kernel chmod_operation (some path) (set_mode path created_directory_mode)
  directory_made path create_operation chmod_operation (err e) =
      if exists_already e then pure tt else fail (operation create_operation (some path) e)

  unfoldable pub create_directory : Bytes → Bytes → Bytes → Act kernel (Unit {0})
  create_directory path create_operation chmod_operation = do
    result ← attempt kernel (make_directory path created_directory_mode)
    directory_made path create_operation chmod_operation result

  -- The parents of a target below the root: the path as it is declared, and where it really is.
  unfoldable pub parent_linked : Bytes → Bytes → Act kernel Bytes
  parent_linked rootfs logical = do
    resolved ← resolve_below kernel rootfs logical
    metadata ←
        inspect kernel (ascii "bind_target_parent_stat_failed") (some resolved)
          (kernel.metadata resolved)
    lift (
        guard metadata.is_dir
          (invalid_mount_target logical (ascii "bind target parent is not a directory")))
    pure resolved

  unfoldable pub parent_created : Bytes → Bytes → Act kernel Bytes
  parent_created logical candidate = do
    create_directory candidate (ascii "bind_target_parent_create_failed")
        (ascii "bind_target_parent_chmod_failed")
    metadata ←
        inspect kernel (ascii "bind_target_parent_stat_failed") (some candidate)
          (kernel.symlink_metadata candidate)
    lift (
        guard (metadata.is_dir && not metadata.is_symlink)
          (invalid_mount_target logical (ascii "bind target parent is not a real directory")))
    pure candidate

  unfoldable pub parent_present : Bytes → Bytes → Bool → Act kernel Bytes
  parent_present logical candidate true = pure candidate
  parent_present logical candidate false =
      fail (invalid_mount_target logical (ascii "bind target parent is not a directory"))

  unfoldable pub parent_found : Bytes → Bytes → Bytes → Result IoError Metadata → Act kernel Bytes
  parent_found rootfs logical candidate (ok metadata) =
      if metadata.is_symlink
      then parent_linked rootfs logical
      else parent_present logical candidate metadata.is_dir
  parent_found rootfs logical candidate (err e) =
      if is_missing e
      then parent_created logical candidate
      else fail (operation (ascii "bind_target_parent_stat_failed") (some candidate) e)

  abbrev escapes : List Component → RuntimeError
  escapes target =
      invalid_mount_target (path_from [] target) (ascii "bind target parent escapes rootfs")

  unfoldable pub walk_target :
      Bytes → List Component → Bytes → Bytes → List Component → Act kernel Bytes
  walk_target rootfs target logical resolved [] = pure resolved
  walk_target rootfs target logical resolved (root_dir ∷ rest) =
      walk_target rootfs target logical resolved rest
  walk_target rootfs target logical resolved (normal name ∷ rest) = do
    let next = join logical name
    let candidate = join resolved name
    found ← look kernel (kernel.symlink_metadata candidate)
    below ← parent_found rootfs next candidate found
    walk_target rootfs target next below rest
  walk_target rootfs target logical resolved (cur_dir ∷ rest) = fail (escapes target)
  walk_target rootfs target logical resolved (parent_dir ∷ rest) = fail (escapes target)

  unfoldable pub ensure_bind_target_directory : Bytes → List Component → Act kernel Bytes
  ensure_bind_target_directory rootfs target = walk_target rootfs target (ascii "/") rootfs target

  unfoldable pub target_created : Bytes → ℕ → Result IoError (Unit {0}) → Act kernel (Unit {0})
  target_created target mode (ok u) =
      perform kernel (ascii "bind_target_chmod_failed") (some target) (set_mode target mode)
  target_created target mode (err e) =
      if exists_already e
      then pure tt
      else fail (operation (ascii "bind_target_create_failed") (some target) e)

  -- A target that is missing is made like its source.
  unfoldable pub create_target : Bind → Metadata → Bytes → Act kernel (Unit {0})
  create_target bind source target =
      if source.is_dir
      then (do
        result ← attempt kernel (make_directory target created_directory_mode)
        target_created target created_directory_mode result)
      else if source.is_file
      then (do
        result ← attempt kernel (create_file target created_file_mode)
        target_created target created_file_mode result)
      else fail (
          invalid_mount_target bind.target
            (ascii "missing bind target cannot be created for this source type"))

  unfoldable pub target_found :
      Bind → Metadata → Bytes → Result IoError Metadata → Act kernel (Unit {0})
  target_found bind source target (ok metadata) = pure tt
  target_found bind source target (err e) =
      if is_missing e
      then create_target bind source target
      else fail (operation (ascii "bind_target_stat_failed") (some target) e)

  unfoldable pub ensure_bind_target : Bytes → Bind → Act kernel (Unit {0})
  ensure_bind_target rootfs bind = do
    source ←
        inspect kernel (ascii "bind_source_resolve_failed") (some bind.source)
          (kernel.canonicalize bind.source)
    metadata ←
        inspect kernel (ascii "bind_source_stat_failed") (some source) (kernel.metadata source)
    above ← lift (
        ok_or (parent bind.target)
          (invalid_mount_target bind.target (ascii "bind target has no parent")))
    directory ← ensure_bind_target_directory rootfs above
    name ← lift (
        ok_or (file_name bind.target)
          (invalid_mount_target bind.target (ascii "bind target has no file name")))
    let target = join directory name
    found ← look kernel (kernel.symlink_metadata target)
    target_found bind metadata target found

  unfoldable pub prepare_bind_targets : Bytes → List Bind → Act kernel (Unit {0})
  prepare_bind_targets rootfs binds = each binds (ensure_bind_target rootfs)

  -- `prepare_bind` and `prepare_recursive_bind`, by the last argument.
  unfoldable pub prepare_bind_with_recursion : Bytes → Bind → Bool → Act kernel PreparedBind
  prepare_bind_with_recursion rootfs bind recursive = do
    source ←
        inspect kernel (ascii "bind_source_resolve_failed") (some bind.source)
          (kernel.canonicalize bind.source)
    target ← resolve_below kernel rootfs bind.target
    s ← inspect kernel (ascii "bind_source_stat_failed") (some source) (kernel.metadata source)
    t ← inspect kernel (ascii "bind_target_stat_failed") (some target) (kernel.metadata target)
    lift (
        guard (same s.is_dir t.is_dir && same s.is_file t.is_file)
          (incompatible_bind source target))
    pure (record {
      source = source;
      target = target;
      readonly = bind.readonly;
      recursive = recursive && s.is_dir;
    })

  module _ (sha256 : Bytes → Bytes) where
    unfoldable pub prepare_disk_bind :
        Bytes → Bytes → Bytes → Bytes → Bytes → Act kernel PreparedBind
    prepare_disk_bind rootfs lower base overlay_id target = do
      let source = join base (hex_lower (sha256 (disk_identity overlay_id lower target)))
      ensure_private_directory kernel source (ascii "disk_mount_source_create_failed")
      let bind : Bind = record { source = source; target = target; readonly = false }
      ensure_bind_target rootfs bind
      prepare_bind_with_recursion rootfs bind false

    unfoldable pub prepare_disk_binds :
        Bytes → Bytes → Bytes → Bytes → List Bytes → Act kernel (List PreparedBind)
    prepare_disk_binds rootfs lower overlay overlay_id [] = pure []
    prepare_disk_binds rootfs lower overlay overlay_id (target ∷ targets) = do
      let base = join overlay disk_mount_namespace
      ensure_private_directory kernel base (ascii "disk_mount_base_create_failed")
      collect_each (target ∷ targets) (prepare_disk_bind rootfs lower base overlay_id)
