-- ===== src/Tests/Identity.antt =====
-- Identities, binds and workspaces on the small host.
use sandcamp.Base.{◌≡◌, refl, true, false, [], ◌∷◌, ◌==◌, if◌then◌else◌, ascii, ok, err}
use sandcamp.Sandrun.Config.{Bind}
use sandcamp.Sandrun.Passwd.{UserIdentity}
use sandcamp.Sandrun.Sandbox.Identity.{eperm, apply_identity}
use sandcamp.Sandrun.Sandbox.Identity.Verified.{HasIds, apply_identity-HasIds}
use sandcamp.Sandrun.Sandbox.Overlay.{create_overlay_workspace}
use sandcamp.Sandrun.Sandbox.Overlay.Fresh.{Tried, create_overlay_workspace-Tried}
use sandcamp.Sandrun.Sandbox.Mounts.{MountOperation, bind, bind_operation, apply_mount}
use sandcamp.Sandrun.Sandbox.Mounts.Readonly.{Mounts, apply_mount-declared}
use sandcamp.Sandrun.Sandbox.Protocol.Traces.{begun}
use sandcamp.Campd.Identity.{apply_main_identity}
use sandcamp.Campd.Identity.Same.{forget, apply_main_identity-forget}
use sandcamp.Tests.Host.{host, Host, new_host}
use sandcamp.Tests.Sandbox.{run_sandbox}

abbrev app : UserIdentity
app = record { uid = 1000; gid = 100 }

applied : (apply_identity host app (begun new_host)).0 ≡ ok tt
unfolding run_sandbox
applied = refl

apply_identity-HasIds_example :
    HasIds app (host.ids (apply_identity host app (begun new_host)).1.world)
apply_identity-HasIds_example = apply_identity-HasIds host app (begun new_host) tt applied

apply_main_identity-forget_example : apply_main_identity host app (begun new_host) ≡ (
    if (host.ids new_host).euid == 0
    then forget (apply_identity host app (begun new_host))
    else (err eperm, begun new_host))
apply_main_identity-forget_example = apply_main_identity-forget host app (begun new_host)

create_overlay_workspace-Tried_example :
    Tried host 128 [] (create_overlay_workspace host (ascii "/overlay") (begun new_host))
create_overlay_workspace-Tried_example =
    create_overlay_workspace-Tried host (ascii "/overlay") (begun new_host)

abbrev data_bind : Bind
data_bind = record { source = ascii "/srv/data"; target = ascii "/data"; readonly = true }

-- The host itself is the image here.
abbrev furnished : Host
furnished = record new_host { paths = ascii "/images/app/data" ∷ new_host.paths }

abbrev prepared : MountOperation
prepared = bind (record {
  source = ascii "/srv/data";
  target = ascii "/images/app/data";
  readonly = true;
  recursive = false;
})

data-prepared :
    (bind_operation host (ascii "/images/app") data_bind (begun furnished)).0 ≡ ok prepared
unfolding run_sandbox
data-prepared = refl

data-mounted : (apply_mount host prepared (begun furnished)).0 ≡ ok tt
unfolding run_sandbox
data-mounted = refl

apply_mount-declared_example :
    Mounts host (ascii "/images/app") data_bind [] (apply_mount host prepared (begun furnished))
apply_mount-declared_example =
    apply_mount-declared host (ascii "/images/app") data_bind (begun furnished) (begun furnished)
      prepared tt data-prepared data-mounted
