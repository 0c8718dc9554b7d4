-- ===== src/Sandrun/Sandbox/Protocol/Mounting.antt =====
-- What `run` mounts once the overlay is mounted is below its root.
use sandcamp.Base.{
  refl, Bool, true, false, not, ◌&&◌, [], ◌++◌, Bytes, bytes_eq, any, ascii, Result, ok, err, All,
  All-append,
}
use sandcamp.Rust.Bytes.{contains}
use sandcamp.Rust.Path.{join}
use sandcamp.Sandrun.Config.{Config}
use sandcamp.Sandrun.Sandbox.{IoError, Metadata, Kernel}
use sandcamp.Sandrun.Sandbox.Overlay.{is_missing}
use sandcamp.Sandrun.Sandbox.Mounts.{
  MountOperation, proc, bind, tmpfs, dns_files, mode_755, standard_operations, bind_operation,
  tmpfs_operation, prepare_mounts, mount_target_created, mount_target_present, mount_target_found,
  ensure_regular_mount_target, remount_if, bind_file_readonly, apply_mount,
}
use sandcamp.Sandrun.Sandbox.Protocol.{Below, Phase, mounted, fill, mount_below}
use sandcamp.Sandrun.Sandbox.Protocol.Moves.{
  Moves, Keeps, bind-Moves, pure-Moves, fail-Moves, perform-Moves, >>-Moves, look-Keeps,
  collect-Moves, if-Moves,
}
use sandcamp.Sandrun.Sandbox.Protocol.Looks.{
  join-Below, mount_raw-Moves, resolve_directory-Moves, prepare_regular_source-Keeps,
}
use sandcamp.Sandrun.Sandbox.Protocol.Fill.{IsInside, prepare_bind-Moves}

module _ {kernel : Kernel} {config : Config} where
  standard_operations-Moves :
      {p : Phase} (root : Bytes) (standard : Bool)
      → Moves kernel config p
          (λ _. p)
          (All (IsInside root))
          (standard_operations kernel root standard)
  unfolding standard_operations
  standard_operations-Moves root false = pure-Moves [] tt
  standard_operations-Moves root true = bind-Moves (resolve_directory-Moves root _) (λ p₀ h₀.
      bind-Moves (prepare_bind-Moves root _ true) (λ p₁ h₁.
        bind-Moves (prepare_bind-Moves root _ false) (λ p₂ h₂.
          bind-Moves (prepare_bind-Moves root _ true) (λ p₃ h₃.
            bind-Moves (resolve_directory-Moves root _) (λ p₄ h₄.
              bind-Moves (resolve_directory-Moves root _) (λ p₅ h₅.
                bind-Moves (resolve_directory-Moves root _) (λ p₆ h₆.
                  bind-Moves (prepare_regular_source-Keeps _) (λ a _.
                    bind-Moves (prepare_regular_source-Keeps _)
                      (λ b _. pure-Moves _ (h₀, (h₁, (h₂, (h₃, (h₄, (h₅, (h₆, tt))))))))))))))))

  pub prepare_mounts-Moves :
      {p : Phase} (root : Bytes) (c : Config)
      → Moves kernel config p (λ _. p) (All (IsInside root)) (prepare_mounts kernel root c)
  unfolding prepare_mounts bind_operation tmpfs_operation
  prepare_mounts-Moves root c =
      bind-Moves (standard_operations-Moves root c.standard_mounts) (λ standard h.
        bind-Moves
          (collect-Moves {G = IsInside root} c.binds (λ b.
            bind-Moves (prepare_bind-Moves root b false)
              (λ prepared k. pure-Moves (bind prepared) k)))
          (λ binds k.
            bind-Moves
              (collect-Moves {G = IsInside root} c.tmpfs (λ t.
                bind-Moves (resolve_directory-Moves root t)
                  (λ directory l. pure-Moves (tmpfs directory mode_755) l)))
              (λ ts l. pure-Moves _ (
                All-append (IsInside root) standard (binds ++ ts) h
                  (All-append (IsInside root) binds ts k l)))))

  ensure_regular_mount_target-Keeps :
      (root target : Bytes)
      → Below root target
      → Keeps kernel config (mounted root) (ensure_regular_mount_target kernel target)
  unfolding ensure_regular_mount_target
  ensure_regular_mount_target-Keeps root target h = bind-Moves (look-Keeps _) (λ found _. go found)
    where
      make : Keeps kernel config (mounted root) (mount_target_created kernel target)
      make = unfold mount_target_created in perform-Moves _ _ (fill _ root h)

      go :
          (found : Result IoError Metadata)
          → Keeps kernel config (mounted root) (mount_target_found kernel target found)
      go (ok m) =
          unfold mount_target_found mount_target_present in
          if-Moves (m.is_file && not m.is_symlink) (pure-Moves tt tt) (
            if-Moves m.is_symlink (>>-Moves (perform-Moves _ _ (fill _ root h)) make)
              (fail-Moves _))
      go (err e) = unfold mount_target_found in if-Moves (is_missing e) make (fail-Moves _)

  remount_if-Keeps :
      (root target : Bytes) (readonly : Bool)
      → Below root target
      → Keeps kernel config (mounted root) (remount_if kernel readonly target)
  unfolding remount_if
  remount_if-Keeps root target false h = pure-Moves tt tt
  remount_if-Keeps root target true h = mount_raw-Moves _ _ (mount_below _ root h)

  pub apply_mount-Keeps :
      (root : Bytes) (op : MountOperation)
      → IsInside root op
      → Keeps kernel config (mounted root) (apply_mount kernel op)
  unfolding apply_mount bind_file_readonly
  apply_mount-Keeps root (proc target) h = mount_raw-Moves _ _ (mount_below _ root h)
  apply_mount-Keeps root (bind b) h =
      >>-Moves (mount_raw-Moves _ _ (mount_below _ root h))
        (remount_if-Keeps root b.target b.readonly h)
  apply_mount-Keeps root (tmpfs target mode) h = mount_raw-Moves _ _ (mount_below _ root h)
  apply_mount-Keeps root (dns_files target resolv_conf hosts) h =
      >>-Moves (ensure_regular_mount_target-Keeps root _ r) (
        >>-Moves (ensure_regular_mount_target-Keeps root _ k) (
          >>-Moves
            (>>-Moves (mount_raw-Moves _ _ (mount_below _ root r)) (remount_if-Keeps root _ true r))
            (>>-Moves (mount_raw-Moves _ _ (mount_below _ root k))
              (remount_if-Keeps root _ true k))))
    where
      r : Below root (join target (ascii "resolv.conf"))
      r =
          join-Below root target (ascii "resolv.conf") h
            (unfold contains any bytes_eq in (refl, refl, refl, refl))

      k : Below root (join target (ascii "hosts"))
      k =
          join-Below root target (ascii "hosts") h
            (unfold contains any bytes_eq in (refl, refl, refl, refl))
