-- ===== src/Sandrun/Sandbox/Protocol/Whole.antt =====
-- `run` keeps to the order of its effects from the beginning to the command.
use sandcamp.Base.{
  ◌≡◌, Bool, true, false, List, [], ◌∷◌, map, Bytes, ok_or, All, All-append, All-In,
}
use sandcamp.Base.Steps.{lift, pure, ◌>>=◌}
use sandcamp.Sandrun.Config.{Config}
use sandcamp.Sandrun.Sandbox.{panicked, change_to, Kernel}
use sandcamp.Sandrun.Sandbox.Binds.{PreparedBind, prepare_bind_targets, prepare_disk_binds}
use sandcamp.Sandrun.Sandbox.Mounts.{bind}
use sandcamp.Sandrun.Sandbox.Launch.{
  unshare_mount_namespace, make_mounts_private, change_directory, enter_rootfs, validate_targets,
  prepare_cgroup_target, exec_command, disk_binds, furnish, run,
}
use sandcamp.Sandrun.Sandbox.Protocol.{
  base_of, Phase, outside, rooted, executed, mounted, Follows, separate, hide, enter, pivot, detach,
  new_root, enter_workdir, start, begin,
}
use sandcamp.Sandrun.Sandbox.Protocol.Moves.{
  Arrives, Moves, Keeps, bind-Moves, pure-Moves, perform-Moves, >>-Moves, lift-Keeps, look-Keeps,
  each-Keeps,
}
use sandcamp.Sandrun.Sandbox.Protocol.Looks.{
  mount_raw-Moves, prepare_rootfs-Moves, prepare_workdir-Keeps, prepare_executable-Keeps,
}
use sandcamp.Sandrun.Sandbox.Protocol.Fill.{
  BindsInside, IsInside, ensure_bind_target-Keeps, prepare_disk_binds-Moves,
}
use sandcamp.Sandrun.Sandbox.Protocol.Mounting.{prepare_mounts-Moves, apply_mount-Keeps}
use sandcamp.Sandrun.Sandbox.Protocol.Overlays.{
  prepare_bind_sources-Keeps, mount_overlay_rootfs-Moves, prepare_overlay_base-Moves,
}
use sandcamp.Sandrun.Sandbox.Protocol.Users.{select_identity-Moves, identify-Moves}

All-bind :
    (root : Bytes) (bs : List PreparedBind)
    → All (BindsInside root) bs
    → All (IsInside root) (map bind bs)
All-bind root [] h = tt
All-bind root (b ∷ bs) h = (h.0, All-bind root bs h.1)

module _ {kernel : Kernel} {config : Config} where
  change_directory-Moves :
      {p q : Phase} (path name : Bytes)
      → Follows kernel config p (change_to path) q
      → Moves kernel config p (λ _. q) (λ _. Unit {0}) (change_directory kernel path name)
  unfolding change_directory
  change_directory-Moves path name f = >>-Moves (lift-Keeps _) (perform-Moves _ _ f)

  enter_rootfs-Moves :
      (root : Bytes)
      → Moves kernel config (mounted root) (λ _. rooted) (λ _. Unit {0}) (enter_rootfs kernel root)
  unfolding enter_rootfs
  enter_rootfs-Moves root = >>-Moves (change_directory-Moves root _ (enter root)) (
      >>-Moves (perform-Moves _ _ pivot)
        (>>-Moves (perform-Moves _ _ detach) (change_directory-Moves _ _ new_root)))

  disk_binds-Moves :
      (sha256 : Bytes → Bytes) (root lower base : Bytes)
      → base ≡ base_of config.overlay_device
      → Moves kernel config
          (mounted root)
          (λ _. mounted root)
          (All (BindsInside root))
          (disk_binds kernel sha256 root lower base config)
  unfolding disk_binds
  disk_binds-Moves sha256 root lower base same = go config.disk_mounts
    where
      go :
          (targets : List Bytes)
          → Moves kernel config
              (mounted root)
              (λ _. mounted root)
              (All (BindsInside root))
              (elim targets [
                | [] ↦ pure []
                | target ∷ others ↦
                    (lift (ok_or config.overlay_id panicked) >>= λ overlay_id.
                    prepare_disk_binds kernel sha256 root lower base overlay_id (target ∷ others))
              ])
      go [] = pure-Moves [] tt
      go (target ∷ others) = bind-Moves (lift-Keeps _) (λ overlay_id _.
          prepare_disk_binds-Moves sha256 root lower base overlay_id (target ∷ others) same)

  prepare_cgroup_target-Keeps :
      (root : Bytes) (standard : Bool)
      → Keeps kernel config (mounted root) (prepare_cgroup_target kernel root standard)
  unfolding prepare_cgroup_target
  prepare_cgroup_target-Keeps root false = pure-Moves tt tt
  prepare_cgroup_target-Keeps root true = ensure_bind_target-Keeps root _

  validate_targets-Keeps :
      {p : Phase} (root : Bytes) (c : Config)
      → Keeps kernel config p (validate_targets kernel root c)
  unfolding validate_targets
  validate_targets-Keeps root c = bind-Moves (look-Keeps _) (λ checked _. lift-Keeps _)

  furnish-Keeps :
      (sha256 : Bytes → Bytes) (root lower base : Bytes)
      → base ≡ base_of config.overlay_device
      → Keeps kernel config (mounted root) (furnish kernel sha256 root lower base config)
  unfolding furnish prepare_bind_targets
  furnish-Keeps sha256 root lower base same =
      >>-Moves (each-Keeps config.binds (λ b i. ensure_bind_target-Keeps root b)) (
        >>-Moves (prepare_cgroup_target-Keeps root config.standard_mounts) (
          bind-Moves (disk_binds-Moves sha256 root lower base same) (λ disks h.
            >>-Moves (prepare_workdir-Keeps root _) (
              bind-Moves (lift-Keeps _) (λ word _. >>-Moves (prepare_executable-Keeps root _) (
                >>-Moves (validate_targets-Keeps root config) (
                  bind-Moves (prepare_mounts-Moves root config) (λ ops k. each-Keeps _ (λ op i.
                    apply_mount-Keeps root op (
                      All-In (IsInside root) i (
                        All-append (IsInside root) ops (map bind disks) k
                          (All-bind root disks h))))))))))))

  run-Moves :
      (sha256 : Bytes → Bytes)
      → Moves kernel config outside (λ _. executed) (λ _. Unit {0}) (run kernel sha256 config)
  unfolding run unshare_mount_namespace make_mounts_private exec_command
  run-Moves sha256 = bind-Moves (prepare_rootfs-Moves config.rootfs) (λ lower real.
      bind-Moves (select_identity-Moves config.rootfs lower config.user real) (λ i asked.
        >>-Moves (prepare_bind_sources-Keeps config.binds) (
          >>-Moves (perform-Moves _ _ separate) (
            >>-Moves (mount_raw-Moves _ _ hide) (
              bind-Moves (prepare_overlay_base-Moves config.overlay_device) (λ base same.
                bind-Moves (mount_overlay_rootfs-Moves sha256 lower base config.overlay_id)
                  (λ root _. >>-Moves (furnish-Keeps sha256 root lower base same) (
                    >>-Moves (enter_rootfs-Moves root) (
                      >>-Moves (change_directory-Moves config.workdir _ (enter_workdir i asked)) (
                        >>-Moves (identify-Moves i)
                          (bind-Moves (lift-Keeps _) (λ word _. perform-Moves _ _ start))))))))))))

-- For every system and every configuration, the effects of a run are in the order of the protocol, as
-- far as the run gets; a run that starts the command has gone through all of it. By the protocol the
-- mount namespace is left and made private before any other mount; all files that are made and all
-- mounts behind that of the overlay are below its root, but for the directories that hold disk
-- mounts, which are the one for them beside the writable layers and those in it named by a digest;
-- the old root is detached and the credentials are given up before the command starts.
pub run-Arrives :
    (kernel : Kernel) (config : Config) (sha256 : Bytes → Bytes) (world : kernel.World)
    → Arrives kernel config
        (λ _. executed)
        (λ _. Unit {0})
        (run kernel sha256 config (record { world = world; effects = [] }))
run-Arrives kernel config sha256 world =
    (run-Moves sha256).moves (record { world = world; effects = [] }) begin
