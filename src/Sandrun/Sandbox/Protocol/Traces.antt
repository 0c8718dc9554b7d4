-- ===== src/Sandrun/Sandbox/Protocol/Traces.antt =====
-- What the order of the effects says of the effects of a run.
use sandcamp.Base.{
  ◌≡◌, refl, subst, ◌⊎◌, inl, inr, List, [], ◌∷◌, ◌++◌, Bytes, Result, ok, err, In, here, there,
}
use sandcamp.Sandrun.Config.{Config}
use sandcamp.Sandrun.Sandbox.{RuntimeError, MountCall, Effect, unshare, mount, Kernel, Trace}
use sandcamp.Sandrun.Sandbox.Launch.{private_root, run}
use sandcamp.Sandrun.Sandbox.Protocol.{
  Phase, outside, separated, executed, Follows, host_directory, host_mode, separate, hide, device,
  prepare, mount_overlay, fill, mount_below, enter, pivot, detach, new_root, enter_workdir, drop,
  start, Reaches, begin, and_then,
}
use sandcamp.Sandrun.Sandbox.Protocol.Moves.{Arrives}
use sandcamp.Sandrun.Sandbox.Protocol.Whole.{run-Arrives}

-- What has been done when a phase is reached.
abbrev HasPassed : Phase → List Effect → Type 0
HasPassed outside es = Unit
HasPassed separated es = In unshare es
HasPassed _ es = In unshare es × In (mount private_root) es

-- The step by which an effect came.
abbrev Came : Kernel → Config → Effect → List Effect → Type 0
Came kernel config e earlier =
    (p : Phase) × (q : Phase) × Reaches kernel config earlier p × Follows kernel config p e q

-- The mount namespace was left before a mount, and made private but for the mount that does so.
abbrev pub Confined : MountCall → List Effect → Type 0
Confined call earlier =
    In unshare earlier × ((call ≡ private_root) ⊎ In (mount private_root) earlier)

module _ {kernel : Kernel} {config : Config} where
  passed :
      {p q : Phase} (e : Effect) (es : List Effect)
      → Follows kernel config p e q
      → HasPassed p es
      → HasPassed q (e ∷ es)
  passed e es (host_directory _ _) h = tt
  passed e es (host_mode _ _) h = tt
  passed e es separate h = here
  passed e es hide h = (there h, here)
  passed e es (device _ _) h = (there h.0, there h.1)
  passed e es (prepare _ _) h = (there h.0, there h.1)
  passed e es (mount_overlay _ _) h = (there h.0, there h.1)
  passed e es (fill _ _ _) h = (there h.0, there h.1)
  passed e es (mount_below _ _ _) h = (there h.0, there h.1)
  passed e es (enter _) h = (there h.0, there h.1)
  passed e es pivot h = (there h.0, there h.1)
  passed e es detach h = (there h.0, there h.1)
  passed e es new_root h = (there h.0, there h.1)
  passed e es (enter_workdir _ _) h = (there h.0, there h.1)
  passed e es (drop _ _) h = (there h.0, there h.1)
  passed e es start h = (there h.0, there h.1)

  Reaches-HasPassed : (es : List Effect) (p : Phase) → Reaches kernel config es p → HasPassed p es
  Reaches-HasPassed _ _ begin = tt
  Reaches-HasPassed _ q (and_then {es = es} {p = p} e r f) =
      passed e es f (Reaches-HasPassed es p r)

  Reaches-Came :
      (later : List Effect) (e : Effect) (earlier : List Effect) (q : Phase)
      → Reaches kernel config (later ++ e ∷ earlier) q
      → Came kernel config e earlier
  Reaches-Came [] e earlier q (and_then {p = p} _ r f) = (p, q, r, f)
  Reaches-Came (l ∷ later) e earlier q (and_then {p = p} _ r f) = Reaches-Came later e earlier p r

  mount-Confined :
      (call : MountCall) (earlier : List Effect) (p q : Phase)
      → Follows kernel config p (mount call) q
      → HasPassed p earlier
      → Confined call earlier
  mount-Confined call earlier _ _ hide h = (h, inl refl)
  mount-Confined call earlier _ _ (device _ _) h = (h.0, inr h.1)
  mount-Confined call earlier _ _ (mount_overlay _ _) h = (h.0, inr h.1)
  mount-Confined call earlier _ _ (mount_below _ _ _) h = (h.0, inr h.1)
  mount-Confined call earlier _ _ (drop _ _) h = (h.0, inr h.1)
  mount-Confined call earlier _ _ (prepare _ never) h = absurd never
  mount-Confined call earlier _ _ (fill _ _ never) h = absurd never

  Reaches-Confined :
      (later : List Effect) (call : MountCall) (earlier : List Effect) (q : Phase)
      → Reaches kernel config (later ++ mount call ∷ earlier) q
      → Confined call earlier
  Reaches-Confined later call earlier q r =
      let (p, p', before, f) = Reaches-Came later (mount call) earlier q r in
      mount-Confined call earlier p p' f (Reaches-HasPassed earlier p before)

abbrev pub effects_of : {World A : Type 0} → Result RuntimeError A × Trace World → List Effect
effects_of (r, s) = s.effects

abbrev Arrived :
    (kernel : Kernel) (config : Config)
    → Result RuntimeError (Unit {0}) × Trace kernel.World
    → Type 0
Arrived kernel config out = (p : Phase) × Reaches kernel config (effects_of out) p

Arrives-Arrived :
    (kernel : Kernel) (config : Config) (out : Result RuntimeError (Unit {0}) × Trace kernel.World)
    → Arrives kernel config (λ _. executed) (λ _. Unit {0}) out
    → Arrived kernel config out
Arrives-Arrived kernel config (ok a, s) h = (executed, h.0)
Arrives-Arrived kernel config (err e, s) h = h

abbrev pub begun : {World : Type 0} → World → Trace World
begun world = record { world = world; effects = [] }

-- Whatever the system answers and however a run ends, the call that leaves the mount namespace comes
-- before each of its mounts, and the one that makes all mounts private comes before each other mount.
pub run-Confined :
    (kernel : Kernel) (config : Config) (sha256 : Bytes → Bytes) (world : kernel.World)
    (later earlier : List Effect) (call : MountCall)
    → effects_of (run kernel sha256 config (begun world)) ≡ later ++ mount call ∷ earlier
    → Confined call earlier
run-Confined kernel config sha256 world later earlier call e =
    let out = run kernel sha256 config (begun world) in
    let (p, r) = Arrives-Arrived kernel config out (run-Arrives kernel config sha256 world) in
    Reaches-Confined later call earlier p (subst (λ es. Reaches kernel config es p) e r)
