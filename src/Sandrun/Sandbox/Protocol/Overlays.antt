-- ===== src/Sandrun/Sandbox/Protocol/Overlays.antt =====
-- What `run` does to the host before the overlay is mounted, and the mount of the overlay.
use sandcamp.Base.{
  ℕ, zero, suc, ◌≡◌, refl, Bool, true, false, Option, none, some, List, [], ◌∷◌, Bytes, ascii,
  Result, ok, err,
}
use sandcamp.Rust.Path.{Component, root_dir, cur_dir, parent_dir, normal, components, join}
use sandcamp.Sandrun.Config.{Bind, Config}
use sandcamp.Sandrun.Sandbox.{IoError, Metadata, Kernel}
use sandcamp.Sandrun.Sandbox.Overlay.{
  exists_already, is_missing, ensure_private_directory, workspace_made, workspace_from,
  create_overlay_workspace, acquire_overlay_lock, identity_opened, ensure_identity, adopt,
  ensure_overlay_upper_directory, ensure_overlay_directories, fresh_overlay_paths,
  stable_overlay_paths, overlay_paths, mount_overlay_rootfs, prepare_overlay_base,
}
use sandcamp.Sandrun.Sandbox.Binds.Sources.{
  source_created, source_linked, source_found, walk_source, ensure_bind_source_directory,
  source_resolved, prepare_bind_sources,
}
use sandcamp.Sandrun.Sandbox.Protocol.{
  base_of, outside, hidden, mounted, host_directory, host_mode, device, prepare, mount_overlay,
}
use sandcamp.Sandrun.Sandbox.Protocol.Moves.{
  Moves, Keeps, bind-Moves, pure-Moves, fail-Moves, attempt-Moves, perform-Moves, >>-Moves,
  lift-Keeps, look-Keeps, inspect-Keeps, each-Keeps, if-Moves,
}
use sandcamp.Sandrun.Sandbox.Protocol.Looks.{mount_raw-Moves}
use sandcamp.Sandrun.Sandbox.Protocol.Fill.{create_directory-Keeps, ensure_private_directory-Keeps}

module _ {kernel : Kernel} {config : Config} where
  source_found-Keeps :
      (current : Bytes) (found : Result IoError Metadata)
      → Keeps kernel config outside (source_found kernel current found)
  unfolding source_found source_linked source_created
  source_found-Keeps current (ok m) =
      if-Moves m.is_symlink (bind-Moves (inspect-Keeps _ _ _) (λ t _. lift-Keeps _)) (lift-Keeps _)
  source_found-Keeps current (err e) =
      if-Moves (is_missing e)
        (>>-Moves (create_directory-Keeps current _ _ (host_directory _ _) (host_mode _ _))
          (bind-Moves (inspect-Keeps _ _ _) (λ t _. lift-Keeps _)))
        (fail-Moves _)

  walk_source-Keeps :
      (source current : Bytes) (cs : List Component)
      → Keeps kernel config outside (walk_source kernel source current cs)
  unfolding walk_source
  walk_source-Keeps source current [] = pure-Moves tt tt
  walk_source-Keeps source current (root_dir ∷ rest) = walk_source-Keeps source current rest
  walk_source-Keeps source current (normal name ∷ rest) = bind-Moves (look-Keeps _) (λ found _.
      >>-Moves (source_found-Keeps (join current name) found)
        (walk_source-Keeps source (join current name) rest))
  walk_source-Keeps source current (cur_dir ∷ rest) = fail-Moves _
  walk_source-Keeps source current (parent_dir ∷ rest) = fail-Moves _

  pub prepare_bind_sources-Keeps :
      (binds : List Bind) → Keeps kernel config outside (prepare_bind_sources kernel binds)
  unfolding prepare_bind_sources
  prepare_bind_sources-Keeps binds =
      each-Keeps binds (λ b i. bind-Moves (look-Keeps _) (λ found _. go b found))
    where
      go :
          (b : Bind) (found : Result IoError Bytes)
          → Keeps kernel config outside (source_resolved kernel b.source found)
      go b (ok path) = unfold source_resolved in pure-Moves tt tt
      go b (err e) =
          unfold source_resolved ensure_bind_source_directory in
          if-Moves (is_missing e)
            (>>-Moves (walk_source-Keeps b.source (ascii "/") (components b.source))
              (bind-Moves (inspect-Keeps _ _ _) (λ path _. pure-Moves tt tt)))
            (fail-Moves _)

  workspace_from-Keeps :
      (left : ℕ) (base : Bytes) (number : ℕ)
      → Keeps kernel config hidden (workspace_from kernel left base number)
  unfolding workspace_from
  workspace_from-Keeps zero base number = fail-Moves _
  workspace_from-Keeps (suc left) base number = bind-Moves (look-Keeps _) (λ name _.
      bind-Moves (attempt-Moves (prepare _ tt))
        (λ r _. go (workspace_from-Keeps left base (suc number)) (join base name) r))
    where
      go :
          Keeps kernel config hidden (workspace_from kernel left base (suc number))
          → (workspace : Bytes) (r : Result IoError (Unit {0}))
          → Keeps kernel config hidden
              (workspace_made kernel (workspace_from kernel left base) number workspace r)
      go again workspace (ok u) = unfold workspace_made in pure-Moves workspace tt
      go again workspace (err e) =
          unfold workspace_made in if-Moves (exists_already e) again (fail-Moves _)

  create_overlay_workspace-Keeps :
      (base : Bytes) → Keeps kernel config hidden (create_overlay_workspace kernel base)
  unfolding create_overlay_workspace
  create_overlay_workspace-Keeps base = workspace_from-Keeps 128 base 0

  private-Keeps :
      (path name : Bytes) → Keeps kernel config hidden (ensure_private_directory kernel path name)
  private-Keeps path name = ensure_private_directory-Keeps path name (prepare _ tt)

  acquire_overlay_lock-Keeps :
      (path : Bytes) → Keeps kernel config hidden (acquire_overlay_lock kernel path)
  unfolding acquire_overlay_lock
  acquire_overlay_lock-Keeps path =
      >>-Moves (perform-Moves _ _ (prepare _ tt))
        (>>-Moves (perform-Moves _ _ (prepare _ tt)) (perform-Moves _ _ (prepare _ tt)))

  ensure_identity-Keeps :
      (path expected : Bytes) → Keeps kernel config hidden (ensure_identity kernel path expected)
  unfolding ensure_identity
  ensure_identity-Keeps path expected = bind-Moves (attempt-Moves (prepare _ tt)) (λ r _. go r)
    where
      go :
          (r : Result IoError (Unit {0}))
          → Keeps kernel config hidden (identity_opened kernel path expected r)
      go (ok u) = unfold identity_opened in perform-Moves _ _ (prepare _ tt)
      go (err e) =
          unfold identity_opened in
          if-Moves (exists_already e) (bind-Moves (inspect-Keeps _ _ _) (λ a _. lift-Keeps _))
            (fail-Moves _)

  ensure_overlay_upper_directory-Keeps :
      (path lower : Bytes)
      → Keeps kernel config hidden (ensure_overlay_upper_directory kernel path lower)
  unfolding ensure_overlay_upper_directory
  ensure_overlay_upper_directory-Keeps path lower =
      bind-Moves (attempt-Moves (prepare _ tt)) (λ r _.
        bind-Moves (lift-Keeps _) (λ is_new _.
          bind-Moves (inspect-Keeps _ _ _) (λ m _. >>-Moves (lift-Keeps _) (go is_new))))
    where
      go : (is_new : Bool) → Keeps kernel config hidden (adopt kernel path lower is_new)
      go false = unfold adopt in pure-Moves tt tt
      go true =
          unfold adopt in
          bind-Moves (inspect-Keeps _ _ _) (λ m _.
            >>-Moves (lift-Keeps _)
              (>>-Moves (perform-Moves _ _ (prepare _ tt)) (perform-Moves _ _ (prepare _ tt))))

  ensure_overlay_directories-Keeps :
      (paths : List Bytes) → Keeps kernel config hidden (ensure_overlay_directories kernel paths)
  unfolding ensure_overlay_directories
  ensure_overlay_directories-Keeps paths = each-Keeps paths (λ path i. private-Keeps path _)

  overlay_paths-Keeps :
      (sha256 : Bytes → Bytes) (base lower : Bytes) (overlay_id : Option Bytes)
      → Keeps kernel config hidden (overlay_paths kernel sha256 base lower overlay_id)
  unfolding overlay_paths fresh_overlay_paths stable_overlay_paths
  overlay_paths-Keeps sha256 base lower none =
      bind-Moves (create_overlay_workspace-Keeps base)
        (λ w _. >>-Moves (ensure_overlay_directories-Keeps _) (pure-Moves _ tt))
  overlay_paths-Keeps sha256 base lower (some overlay_id) = >>-Moves (private-Keeps _ _) (
      >>-Moves (acquire_overlay_lock-Keeps _) (
        >>-Moves (ensure_identity-Keeps _ _) (
          >>-Moves (ensure_overlay_directories-Keeps _)
            (bind-Moves (create_overlay_workspace-Keeps _) (λ merged _. pure-Moves _ tt)))))

  -- The phase behind the mount of the overlay is that of the root it yields.
  pub mount_overlay_rootfs-Moves :
      (sha256 : Bytes → Bytes) (lower base : Bytes) (overlay_id : Option Bytes)
      → Moves kernel config hidden mounted
          (λ _. Unit {0})
          (mount_overlay_rootfs kernel sha256 lower base overlay_id)
  unfolding mount_overlay_rootfs
  mount_overlay_rootfs-Moves sha256 lower base overlay_id = >>-Moves (lift-Keeps _) (
      >>-Moves (private-Keeps _ _) (
        bind-Moves (overlay_paths-Keeps sha256 base lower overlay_id) (λ paths _.
          >>-Moves (ensure_overlay_upper_directory-Keeps paths.upper lower)
            (>>-Moves (mount_raw-Moves _ _ (mount_overlay _ refl)) (pure-Moves paths.merged tt)))))

  pub prepare_overlay_base-Moves :
      (path : Option Bytes)
      → Moves kernel config hidden
          (λ _. hidden)
          (λ base. base ≡ base_of path)
          (prepare_overlay_base kernel path)
  unfolding prepare_overlay_base
  prepare_overlay_base-Moves none = pure-Moves _ refl
  prepare_overlay_base-Moves (some path) = bind-Moves (inspect-Keeps _ _ _) (λ d _.
      bind-Moves (inspect-Keeps _ _ _) (λ m _. >>-Moves (lift-Keeps _) (
        >>-Moves (private-Keeps _ _) (
          >>-Moves (mount_raw-Moves _ _ (device _ refl))
            (>>-Moves (private-Keeps _ _) (pure-Moves _ refl))))))
