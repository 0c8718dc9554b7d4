-- ===== src/Sandrun/Sandbox/Places/Found.antt =====
-- What the looks at the host have found.
use sandcamp.Base.{◌≡◌, Bytes, ok}
use sandcamp.Sandrun.Resolve.{Names, resolve_target}
use sandcamp.Sandrun.Sandbox.{Kernel, place}
use sandcamp.Sandrun.Sandbox.Places.{entry_at}

-- A target leads to a path below a root, as the links of the image were when it was looked at.
pub record Leads (kernel : Kernel) (root target path : Bytes) : Type 0 where
  pub names : Names
  pub world : kernel.World
  pub resolved : resolve_target (entry_at kernel root world) target ≡ ok names
  pub same : path ≡ place root names

-- A path without the links of another, as it was when it was looked at.
abbrev pub IsReal : Kernel → (path real : Bytes) → Type 0
IsReal kernel path real = (world : kernel.World) × (kernel.canonicalize path world ≡ ok real)
