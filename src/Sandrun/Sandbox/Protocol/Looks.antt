-- ===== src/Sandrun/Sandbox/Protocol/Looks.antt =====
-- The looks of `run` have no effect, and what they find is below the root.
use sandcamp.Base.{
  map_err-ok, ◌≡◌, refl, some, [], ◌∷◌, ◌++◌, Bytes, Result, ok, map_err, All-append,
}
use sandcamp.Rust.Path.{join}
use sandcamp.Rust.Path.Proper.{IsName}
use sandcamp.Sandrun.Config.{Config}
use sandcamp.Sandrun.Resolve.{Names, ResolveError, resolve_target}
use sandcamp.Sandrun.Sandbox.Places.Found.{Leads, IsReal}
use sandcamp.Sandrun.Resolve.Proper.{resolve_target-IsName}
use sandcamp.Sandrun.Sandbox.{unresolved, MountCall, mount, Kernel, place, mount_raw}
use sandcamp.Sandrun.Sandbox.Places.{
  entry_at, resolve_below, prepare_rootfs, resolve_directory, prepare_workdir, prepare_executable,
  prepare_regular_source,
}
use sandcamp.Sandrun.Sandbox.Protocol.{Below, Phase, Follows}
use sandcamp.Sandrun.Sandbox.Protocol.Moves.{
  Moves, Keeps, bind-Moves, pure-Moves, lift-Moves, perform-Moves, >>-Moves, lift-Keeps, look-Moves,
  inspect-Keeps, inspect-Moves, weaken-Moves,
}

place-append :
    (root : Bytes) (names : Names) (name : Bytes)
    → place root (names ++ name ∷ []) ≡ join (place root names) name
unfolding place
place-append root [] name = refl
place-append root (n ∷ names) name = place-append (join root n) names name

pub root-Below : (root : Bytes) → Below root root
unfolding place
root-Below root = ([], tt, refl)

pub join-Below :
    (root path name : Bytes) → Below root path → IsName name → Below root (join path name)
join-Below root path name (names, h, e) k = (
  names ++ name ∷ [],
  All-append IsName names (name ∷ []) h (k, tt),
  rw (place-append root names name, e) refl,
)

module _ {kernel : Kernel} {config : Config} where
  pub mount_raw-Moves :
      {p q : Phase} (name : Bytes) (call : MountCall)
      → Follows kernel config p (mount call) q
      → Moves kernel config p (λ _. q) (λ _. Unit {0}) (mount_raw kernel name call)
  unfolding mount_raw
  mount_raw-Moves name call f = >>-Moves (lift-Keeps _) (
      >>-Moves (lift-Keeps _) (
        >>-Moves (lift-Keeps _)
          (>>-Moves (lift-Keeps _) (perform-Moves name (some call.target) f))))

  pub resolve_below-Leads :
      {p : Phase} (root target : Bytes)
      → Moves kernel config p (λ _. p) (Leads kernel root target) (resolve_below kernel root target)
  unfolding resolve_below
  resolve_below-Leads root target =
      bind-Moves
        (look-Moves {G = Led} (λ w. resolve_target (entry_at kernel root w) target)
          (λ w names e. record { names = names; world = w; resolved = e; same = refl }))
        (λ found g.
          bind-Moves
            (lift-Moves {G = λ names. Leads kernel root target (place root names)}
              (map_err unresolved found) (λ names e. g names (map_err-ok unresolved found names e)))
            (λ names h. pure-Moves (place root names) h))
    where
      Led : Result ResolveError Names → Type 0
      Led found = (names : Names) → found ≡ ok names → Leads kernel root target (place root names)

  pub resolve_below-Moves :
      {p : Phase} (root target : Bytes)
      → Moves kernel config p (λ _. p) (Below root) (resolve_below kernel root target)
  resolve_below-Moves root target =
      weaken-Moves
        (λ path l. (
          l.names,
          resolve_target-IsName (entry_at kernel root l.world) target l.names l.resolved,
          l.same,
        ))
        (resolve_below-Leads root target)

  pub prepare_rootfs-Moves :
      {p : Phase} (path : Bytes)
      → Moves kernel config p (λ _. p) (IsReal kernel path) (prepare_rootfs kernel path)
  unfolding prepare_rootfs
  prepare_rootfs-Moves path =
      bind-Moves
        (inspect-Moves {G = IsReal kernel path} _ _ (kernel.canonicalize path) (λ w a e. (w, e)))
        (λ rootfs real.
          bind-Moves (inspect-Keeps _ _ _)
            (λ m _. >>-Moves (lift-Keeps _) (pure-Moves rootfs real)))

  pub resolve_directory-Moves :
      {p : Phase} (root target : Bytes)
      → Moves kernel config p (λ _. p) (Below root) (resolve_directory kernel root target)
  unfolding resolve_directory
  resolve_directory-Moves root target = bind-Moves (resolve_below-Moves root target) (λ path b.
      bind-Moves (inspect-Keeps _ _ _) (λ m _. >>-Moves (lift-Keeps _) (pure-Moves path b)))

  pub prepare_workdir-Keeps :
      {p : Phase} (root workdir : Bytes)
      → Keeps kernel config p (prepare_workdir kernel root workdir)
  unfolding prepare_workdir
  prepare_workdir-Keeps root workdir =
      bind-Moves (resolve_below-Moves root workdir)
        (λ path b. bind-Moves (inspect-Keeps _ _ _) (λ m _. lift-Keeps _))

  pub prepare_executable-Keeps :
      {p : Phase} (root executable : Bytes)
      → Keeps kernel config p (prepare_executable kernel root executable)
  unfolding prepare_executable
  prepare_executable-Keeps root executable =
      bind-Moves (resolve_below-Moves root executable)
        (λ path b. bind-Moves (inspect-Keeps _ _ _) (λ m _. >>-Moves (lift-Keeps _) (lift-Keeps _)))

  pub prepare_regular_source-Keeps :
      {p : Phase} (path : Bytes) → Keeps kernel config p (prepare_regular_source kernel path)
  unfolding prepare_regular_source
  prepare_regular_source-Keeps path = bind-Moves (inspect-Keeps _ _ _) (λ source _.
      bind-Moves (inspect-Keeps _ _ _) (λ m _. >>-Moves (lift-Keeps _) (pure-Moves source tt)))
