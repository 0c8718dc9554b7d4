-- ===== src/Handoff/Accepts.antt =====
-- The whole command line of a sidecar, read by sandrun.
use sandcamp.Base.{◌≡◌, ◌≢◌, refl, none, List, [], ◌++◌, map, Bytes, All, In, All-In, ok, err}
use sandcamp.Campd.Spec as Spec
use sandcamp.Campd.Spec.{named, numeric, SidecarProcess}
use sandcamp.Campd.Spec.Validate.{validate}
use sandcamp.Campd.Spec.Validate.Targets.{IsValidSidecar, WhenSome}
use sandcamp.Campd.Spec.Validate.Lifecycle.{IsValidProcess, Declared, of_sidecar, of_main}
use sandcamp.Campd.Spec.Validate.Accepts.{validate_iff}
use sandcamp.Campd.Launch.{from_sidecar, Command, start_command, build_command}
use sandcamp.Sandrun.Config.{disk_mount_requires_overlay_device}
use sandcamp.Sandrun.Args.{parse_args}
use sandcamp.Handoff.Arguments.{FitsU32, config_of}
use sandcamp.Handoff.Finish.{DiskHasDevice, parse_args_of_valid, parse_args_of_disk_without_device}

process_of_sidecar :
    {p : SidecarProcess} {ss : List SidecarProcess} (ds : List Declared)
    → In p ss
    → All IsValidProcess (map of_sidecar ss ++ ds)
    → IsValidProcess (of_sidecar p)
process_of_sidecar ds In.here h = h.0
process_of_sidecar ds (In.there i) h = process_of_sidecar ds i h.1

sidecar_of_accepted :
    (spec : Spec.Spec) (p : SidecarProcess)
    → validate spec ≡ ok tt
    → In p spec.sidecars
    → IsValidProcess (of_sidecar p) × IsValidSidecar p
sidecar_of_accepted spec p h i =
    let v = (validate_iff spec).0 h in
    (process_of_sidecar (map of_main spec.main) i v.processes, All-In IsValidSidecar i v.sidecars)

module _ (spec : Spec.Spec) (p : SidecarProcess) (sandrun : Bytes)
    (accepted : validate spec ≡ ok tt) (declared_there : In p spec.sidecars)
    (fits : WhenSome FitsU32 p.user) where
  -- For every sidecar of a declaration that campd accepts (its user ids in `u32`, and a device if
  -- it has disk mounts), the command that campd builds runs sandrun with arguments that
  -- `parse_args` reads back as the configuration that was declared.
  pub handoff :
      DiskHasDevice p
      → (c : Command) × (build_command sandrun (from_sidecar p) ≡ ok c)
        × (c.program ≡ sandrun)
        × (parse_args c.args ≡ ok (config_of p))
  unfolding build_command start_command from_sidecar
  handoff h =
      let (d, v) = sidecar_of_accepted spec p accepted declared_there in
      (_, refl, refl, parse_args_of_valid p d v fits h)

  -- A sidecar with disk mounts and no overlay device passes campd's validation, and sandrun always
  -- refuses the command line that campd builds for it.
  pub handoff_refused :
      p.disk_mounts ≢ []
      → p.overlay_device ≡ none
      → (c : Command) × (build_command sandrun (from_sidecar p) ≡ ok c)
        × (parse_args c.args ≡ err disk_mount_requires_overlay_device)
  unfolding build_command start_command from_sidecar
  handoff_refused disks device =
      let (d, v) = sidecar_of_accepted spec p accepted declared_there in
      (_, refl, parse_args_of_disk_without_device p d v fits disks device)
