-- ===== src/Sandrun/Sandbox/Protocol/Fill.antt =====
-- What `run` makes and mounts once the overlay is mounted is below its root.
use sandcamp.Base.{
  ℕ, ◌≡◌, ap, inl, inr, Bool, true, false, Option, none, some, List, [], ◌∷◌, Bytes, ascii, Result,
  ok, err, ok_or, All,
}
use sandcamp.Rust.Path.{Component, root_dir, cur_dir, parent_dir, normal, join, parent, file_name}
use sandcamp.Rust.Path.Proper.{IsName, IsProper, file_name-IsName, parent-IsProper}
use sandcamp.Sandrun.Config.{Bind, Config}
use sandcamp.Sandrun.Sandbox.{
  IoError, Metadata, RuntimeError, make_directory, make_directories, set_mode, Kernel,
}
use sandcamp.Sandrun.Sandbox.Encoding.{hex_lower, disk_identity}
use sandcamp.Sandrun.Sandbox.Overlay.{exists_already, is_missing, ensure_private_directory}
use sandcamp.Sandrun.Sandbox.Binds.{
  disk_mount_namespace, created_directory_mode, created_file_mode, PreparedBind, directory_made,
  create_directory, parent_linked, parent_created, parent_present, parent_found, walk_target,
  ensure_bind_target_directory, target_created, create_target, target_found, ensure_bind_target,
  prepare_bind_with_recursion, prepare_disk_bind, prepare_disk_binds,
}
use sandcamp.Sandrun.Sandbox.Mounts.{MountOperation, proc, bind, tmpfs, dns_files}
use sandcamp.Sandrun.Sandbox.Protocol.{base_of, Below, Phase, mounted, Follows, fill}
use sandcamp.Sandrun.Sandbox.Protocol.Moves.{
  Moves, Keeps, bind-Moves, pure-Moves, fail-Moves, lift-Moves, attempt-Moves, perform-Moves,
  >>-Moves, lift-Keeps, look-Keeps, inspect-Keeps, collect-Moves, if-Moves,
}
use sandcamp.Sandrun.Sandbox.Protocol.Looks.{root-Below, join-Below, resolve_below-Moves}

ok_or-some : {A : Type 0} (o : Option A) (e : RuntimeError) (a : A) → ok_or o e ≡ ok a → o ≡ some a
ok_or-some none e a h = cc
ok_or-some (some b) e a h = cc

abbrev pub BindsInside : Bytes → PreparedBind → Type 0
BindsInside root b = Below root b.target

-- The target of an operation is below the root.
abbrev pub IsInside : Bytes → MountOperation → Type 0
IsInside root (proc target) = Below root target
IsInside root (bind b) = Below root b.target
IsInside root (tmpfs target mode) = Below root target
IsInside root (dns_files target resolv_conf hosts) = Below root target

module _ {kernel : Kernel} {config : Config} where
  pub create_directory-Keeps :
      {p : Phase} (path create_operation chmod_operation : Bytes)
      → Follows kernel config p (make_directory path created_directory_mode) p
      → Follows kernel config p (set_mode path created_directory_mode) p
      → Keeps kernel config p (create_directory kernel path create_operation chmod_operation)
  unfolding create_directory
  create_directory-Keeps {p = p} path create_operation chmod_operation f g =
      bind-Moves (attempt-Moves f) (λ r _. go r)
    where
      go :
          (r : Result IoError (Unit {0}))
          → Keeps kernel config p (directory_made kernel path create_operation chmod_operation r)
      go (ok u) = unfold directory_made in perform-Moves chmod_operation (some path) g
      go (err e) =
          unfold directory_made in if-Moves (exists_already e) (pure-Moves tt tt) (fail-Moves _)

  pub ensure_private_directory-Keeps :
      {p : Phase} (path name : Bytes)
      → Follows kernel config p (make_directories path 448) p
      → Keeps kernel config p (ensure_private_directory kernel path name)
  unfolding ensure_private_directory
  ensure_private_directory-Keeps path name f =
      >>-Moves (perform-Moves name (some path) f)
        (bind-Moves (inspect-Keeps _ _ _) (λ m _. lift-Keeps _))

  parent_linked-Moves :
      {p : Phase} (root logical : Bytes)
      → Moves kernel config p (λ _. p) (Below root) (parent_linked kernel root logical)
  unfolding parent_linked
  parent_linked-Moves root logical = bind-Moves (resolve_below-Moves root logical) (λ path b.
      bind-Moves (inspect-Keeps _ _ _) (λ m _. >>-Moves (lift-Keeps _) (pure-Moves path b)))

  parent_created-Moves :
      (root logical candidate : Bytes)
      → Below root candidate
      → Moves kernel config
          (mounted root)
          (λ _. mounted root)
          (Below root)
          (parent_created kernel logical candidate)
  unfolding parent_created
  parent_created-Moves root logical candidate b =
      >>-Moves (create_directory-Keeps candidate _ _ (fill _ root b) (fill _ root b))
        (bind-Moves (inspect-Keeps _ _ _) (λ m _. >>-Moves (lift-Keeps _) (pure-Moves candidate b)))

  parent_found-Moves :
      (root logical candidate : Bytes) (found : Result IoError Metadata)
      → Below root candidate
      → Moves kernel config
          (mounted root)
          (λ _. mounted root)
          (Below root)
          (parent_found kernel root logical candidate found)
  unfolding parent_found
  parent_found-Moves root logical candidate (ok m) b =
      if-Moves m.is_symlink (parent_linked-Moves root logical) (go m.is_dir)
    where
      go :
          (here : Bool)
          → Moves kernel config
              (mounted root)
              (λ _. mounted root)
              (Below root)
              (parent_present kernel logical candidate here)
      go true = unfold parent_present in pure-Moves candidate b
      go false = unfold parent_present in fail-Moves _
  parent_found-Moves root logical candidate (err e) b =
      if-Moves (is_missing e) (parent_created-Moves root logical candidate b) (fail-Moves _)

  walk_target-Moves :
      (root : Bytes) (target : List Component) (logical resolved : Bytes) (cs : List Component)
      → Below root resolved
      → All IsProper cs
      → Moves kernel config
          (mounted root)
          (λ _. mounted root)
          (Below root)
          (walk_target kernel root target logical resolved cs)
  unfolding walk_target
  walk_target-Moves root target logical resolved [] b h = pure-Moves resolved b
  walk_target-Moves root target logical resolved (root_dir ∷ rest) b h =
      walk_target-Moves root target logical resolved rest b h.1
  walk_target-Moves root target logical resolved (normal name ∷ rest) b h =
      bind-Moves (look-Keeps _) (λ found _.
        bind-Moves
          (parent_found-Moves root (join logical name) (join resolved name) found
            (join-Below root resolved name b h.0))
          (λ below c. walk_target-Moves root target (join logical name) below rest c h.1))
  walk_target-Moves root target logical resolved (cur_dir ∷ rest) b h = fail-Moves _
  walk_target-Moves root target logical resolved (parent_dir ∷ rest) b h = fail-Moves _

  create_target-Keeps :
      (root : Bytes) (b : Bind) (source : Metadata) (target : Bytes)
      → Below root target
      → Keeps kernel config (mounted root) (create_target kernel b source target)
  unfolding create_target
  create_target-Keeps root b source target h =
      if-Moves source.is_dir
        (bind-Moves (attempt-Moves (fill _ root h)) (λ r _. go created_directory_mode r))
        (if-Moves source.is_file
          (bind-Moves (attempt-Moves (fill _ root h)) (λ r _. go created_file_mode r))
          (fail-Moves _))
    where
      go :
          (mode : ℕ) (r : Result IoError (Unit {0}))
          → Keeps kernel config (mounted root) (target_created kernel target mode r)
      go mode (ok u) = unfold target_created in perform-Moves _ _ (fill _ root h)
      go mode (err e) =
          unfold target_created in if-Moves (exists_already e) (pure-Moves tt tt) (fail-Moves _)

  -- Whatever the links of the image say, the parents of a bind target and the target itself are made
  -- below the root.
  pub ensure_bind_target-Keeps :
      (root : Bytes) (b : Bind)
      → Keeps kernel config (mounted root) (ensure_bind_target kernel root b)
  unfolding ensure_bind_target ensure_bind_target_directory
  ensure_bind_target-Keeps root b = bind-Moves (inspect-Keeps _ _ _) (λ source _.
      bind-Moves (inspect-Keeps _ _ _) (λ m _.
        bind-Moves
          (lift-Moves {G = All IsProper} (ok_or (parent b.target) _)
            (λ cs e. parent-IsProper b.target cs (ok_or-some (parent b.target) _ cs e)))
          (λ cs h.
            bind-Moves (walk_target-Moves root cs (ascii "/") root cs (root-Below root) h)
              (λ directory below.
                bind-Moves
                  (lift-Moves {G = IsName} (ok_or (file_name b.target) _) (λ name e.
                    file_name-IsName b.target name (ok_or-some (file_name b.target) _ name e)))
                  (λ name k. bind-Moves (look-Keeps _) (λ found _.
                    go m (join directory name) found (join-Below root directory name below k)))))))
    where
      go :
          (m : Metadata) (target : Bytes) (found : Result IoError Metadata)
          → Below root target
          → Keeps kernel config (mounted root) (target_found kernel b m target found)
      go m target (ok there') h = unfold target_found in pure-Moves tt tt
      go m target (err e) h =
          unfold target_found in
          if-Moves (is_missing e) (create_target-Keeps root b m target h) (fail-Moves _)

  pub prepare_bind-Moves :
      {p : Phase} (root : Bytes) (b : Bind) (recursive : Bool)
      → Moves kernel config p
          (λ _. p)
          (BindsInside root)
          (prepare_bind_with_recursion kernel root b recursive)
  unfolding prepare_bind_with_recursion
  prepare_bind-Moves root b recursive = bind-Moves (inspect-Keeps _ _ _) (λ source _.
      bind-Moves (resolve_below-Moves root b.target) (λ target h.
        bind-Moves (inspect-Keeps _ _ _) (λ s _.
          bind-Moves (inspect-Keeps _ _ _) (λ t _. >>-Moves (lift-Keeps _) (pure-Moves _ h)))))

  pub prepare_disk_binds-Moves :
      (sha256 : Bytes → Bytes) (root lower overlay overlay_id : Bytes) (targets : List Bytes)
      → overlay ≡ base_of config.overlay_device
      → Moves kernel config
          (mounted root)
          (λ _. mounted root)
          (All (BindsInside root))
          (prepare_disk_binds kernel sha256 root lower overlay overlay_id targets)
  unfolding prepare_disk_binds prepare_disk_bind
  prepare_disk_binds-Moves sha256 root lower overlay overlay_id [] same = pure-Moves [] tt
  prepare_disk_binds-Moves sha256 root lower overlay overlay_id (target ∷ targets) same =
      >>-Moves
        (ensure_private_directory-Keeps _ _
          (fill _ root (inl (ap (λ base. join base disk_mount_namespace) same))))
        (collect-Moves (target ∷ targets) (λ t.
          >>-Moves
            (ensure_private_directory-Keeps _ _ (
              fill _ root (
                inr (
                  sha256 (disk_identity overlay_id lower t),
                  ap
                      (λ base.
                        join (join base disk_mount_namespace)
                          (hex_lower (sha256 (disk_identity overlay_id lower t))))
                      same,
                ))))
            (>>-Moves (ensure_bind_target-Keeps root _) (prepare_bind-Moves root _ false))))
