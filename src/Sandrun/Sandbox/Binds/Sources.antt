-- ===== src/Sandrun/Sandbox/Binds/Sources.antt =====
-- cmd/sandrun/src/linux.rs: the sources of binds, whose directories are made on the host.
use sandcamp.Base.{
  not, ◌&&◌, some, List, [], ◌∷◌, if◌then◌else◌, Bytes, ascii, Result, ok, err, guard,
}
use sandcamp.Base.Steps.{lift, pure, fail, ◌>>=◌, ◌>>◌, each}
use sandcamp.Rust.Path.{Component, root_dir, cur_dir, parent_dir, normal, components, join}
use sandcamp.Sandrun.Config.{Bind}
use sandcamp.Sandrun.Sandbox.{
  another, IoError, Metadata, RuntimeError, operation, Kernel, Act, look, inspect,
}
use sandcamp.Sandrun.Sandbox.Overlay.{io_error, is_missing}
use sandcamp.Sandrun.Sandbox.Binds.{not_a_directory, create_directory}

module _ (kernel : Kernel) where
  -- A directory that is not there is made, and must then be a real one.
  unfoldable pub source_created : Bytes → Act kernel (Unit {0})
  source_created current = do
    create_directory kernel current (ascii "bind_source_create_failed")
        (ascii "bind_source_chmod_failed")
    metadata ←
        inspect kernel (ascii "bind_source_stat_failed") (some current)
          (kernel.symlink_metadata current)
    lift (guard (metadata.is_dir && not metadata.is_symlink) (not_a_directory current))

  unfoldable pub source_linked : Bytes → Act kernel (Unit {0})
  source_linked current = do
    metadata ←
        inspect kernel (ascii "bind_source_stat_failed") (some current) (kernel.metadata current)
    lift (guard metadata.is_dir (not_a_directory current))

  -- One component of a source, by what is there.
  unfoldable pub source_found : Bytes → Result IoError Metadata → Act kernel (Unit {0})
  source_found current (ok metadata) =
      if metadata.is_symlink
      then source_linked current
      else lift (guard metadata.is_dir (not_a_directory current))
  source_found current (err e) =
      if is_missing e
      then source_created current
      else fail (operation (ascii "bind_source_stat_failed") (some current) e)

  abbrev unclean_source : Bytes → RuntimeError
  unclean_source source =
      operation (ascii "bind_source_create_failed") (some source)
        (io_error another (ascii "bind source must be a clean absolute path"))

  unfoldable pub walk_source : Bytes → Bytes → List Component → Act kernel (Unit {0})
  walk_source source current [] = pure tt
  walk_source source current (root_dir ∷ rest) = walk_source source current rest
  walk_source source current (normal name ∷ rest) = do
    let next = join current name
    found ← look kernel (kernel.symlink_metadata next)
    source_found next found
    walk_source source next rest
  walk_source source current (cur_dir ∷ rest) = fail (unclean_source source)
  walk_source source current (parent_dir ∷ rest) = fail (unclean_source source)

  unfoldable pub ensure_bind_source_directory : Bytes → Act kernel (Unit {0})
  ensure_bind_source_directory source = do
    walk_source source (ascii "/") (components source)
    path ←
        inspect kernel (ascii "bind_source_resolve_failed") (some source)
          (kernel.canonicalize source)
    pure tt

  unfoldable pub source_resolved : Bytes → Result IoError Bytes → Act kernel (Unit {0})
  source_resolved source (ok path) = pure tt
  source_resolved source (err e) =
      if is_missing e
      then ensure_bind_source_directory source
      else fail (operation (ascii "bind_source_resolve_failed") (some source) e)

  unfoldable pub prepare_bind_sources : List Bind → Act kernel (Unit {0})
  prepare_bind_sources binds = each binds (λ bind. do
    found ← look kernel (kernel.canonicalize bind.source)
    source_resolved bind.source found)
