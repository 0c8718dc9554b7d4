-- ===== src/Sandrun/Sandbox/Protocol/Started.antt =====
-- The effects of a run that starts the command.
use sandcamp.Base.{◌≡◌, Option, List, [], ◌∷◌, ◌++◌, Bytes, ascii}
use sandcamp.Sandrun.Config.{Config}
use sandcamp.Sandrun.Passwd.{UserIdentity}
use sandcamp.Sandrun.Sandbox.{Effect, pivot_root, detach_old_root, change_to, execute, Kernel}
use sandcamp.Sandrun.Sandbox.Protocol.{all_drops, Asked, mounted, Reaches}

-- The effects behind the root is entered, the last one first.
abbrev pub push_all : List Effect → List Effect → List Effect
push_all [] es = es
push_all (d ∷ ds) es = push_all ds (d ∷ es)

abbrev pub entering : Config → Bytes → List Effect → List Effect
entering config root es =
    change_to config.workdir
    ∷ change_to (ascii "/")
    ∷ detach_old_root
    ∷ pivot_root
    ∷ change_to root
    ∷ es

abbrev pub Mounted : Kernel → Config → List Effect → Type 0
Mounted kernel config es =
    (root : Bytes) × (before : List Effect) × Reaches kernel config before (mounted root)
    × (es ≡ entering config root before)

-- A trace that is on the way of the drops, with those that are left.
abbrev Dropping : Kernel → Config → List Effect → List Effect → Type 0
Dropping kernel config left es =
    (i : Option UserIdentity) × (done : List Effect) × (inside : List Effect) × Asked kernel config
      i
    × (all_drops i ≡ done ++ left)
    × Mounted kernel config inside
    × (es ≡ push_all done inside)

-- The effects of a run that starts the command.
abbrev pub Started : Kernel → Config → List Effect → Type 0
Started kernel config es =
    (i : Option UserIdentity) × (inside : List Effect) × Asked kernel config i
    × Mounted kernel config inside
    × (es ≡ execute config.command ∷ push_all (all_drops i) inside)
