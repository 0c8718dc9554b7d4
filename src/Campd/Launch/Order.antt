-- ===== src/Campd/Launch/Order.antt =====
-- The processes that campd launches, against the declaration.
use sandcamp.Base.{◌≡◌, refl, sym, ◌∙◌, ap, List, [], ◌∷◌, ◌++◌, map, Bytes, Result, ok, >>=-eq-ok}
use sandcamp.Campd.Spec.{ProcessKind, Spec, SidecarProcess, MainProcess}
use sandcamp.Campd.Passwd.{RuntimeError, Resolved, resolve_main_users}
use sandcamp.Campd.Launch.{LaunchProcess, from_sidecar, from_main, from_mains, main_user, flatten}

abbrev pub launch_key : LaunchProcess → Bytes × ProcessKind
launch_key p = (p.name, p.kind)

abbrev pub sidecar_key : SidecarProcess → Bytes × ProcessKind
sidecar_key p = (p.name, p.kind)

abbrev pub main_key : MainProcess → Bytes × ProcessKind
main_key p = (p.name, p.kind)

map-from_sidecar :
    (ss : List SidecarProcess) (ps : List LaunchProcess)
    → map launch_key (map from_sidecar ss ++ ps) ≡ map sidecar_key ss ++ map launch_key ps
unfolding from_sidecar
map-from_sidecar [] ps = refl
map-from_sidecar (s ∷ ss) ps = ap (λ ks. sidecar_key s ∷ ks) (map-from_sidecar ss ps)

from_main-key :
    (resolved : Resolved) (p : MainProcess) (q : LaunchProcess)
    → from_main resolved p ≡ ok q
    → launch_key q ≡ main_key p
unfolding from_main
from_main-key resolved p q e =
    let (user, found, f) = >>=-eq-ok (main_user resolved p.user) _ e in cc

from_mains-keys :
    (resolved : Resolved) (ps : List MainProcess) (qs : List LaunchProcess)
    → from_mains resolved ps ≡ ok qs
    → map launch_key qs ≡ map main_key ps
unfolding from_mains
from_mains-keys resolved [] qs e = let same : [] ≡ qs = cc in sym (ap (map launch_key) same)
from_mains-keys resolved (p ∷ ps) qs e =
    let (q, first, f) = >>=-eq-ok (from_main resolved p) _ e in
    let (rest, later, g) = >>=-eq-ok (from_mains resolved ps) _ f in
    let same : q ∷ rest ≡ qs = cc in
    sym (ap (map launch_key) same)
    ∙ ap (λ k. k ∷ map launch_key rest) (from_main-key resolved p q first)
    ∙ ap (λ ks. main_key p ∷ ks) (from_mains-keys resolved ps rest later)

-- The launched processes are the sidecars and then the main processes, in the declared order.
pub flatten-order :
    (read : Result RuntimeError Bytes) (spec : Spec) (ps : List LaunchProcess)
    → flatten read spec ≡ ok ps
    → map launch_key ps ≡ map sidecar_key spec.sidecars ++ map main_key spec.main
unfolding flatten
flatten-order read spec ps e =
    let (resolved, found, f) = >>=-eq-ok (resolve_main_users read spec.main) _ e in
    let (mains, there, g) = >>=-eq-ok (from_mains resolved spec.main) _ f in
    let same : map from_sidecar spec.sidecars ++ mains ≡ ps = cc in
    sym (ap (map launch_key) same)
    ∙ map-from_sidecar spec.sidecars mains
    ∙ ap (λ ks. map sidecar_key spec.sidecars ++ ks)
        (from_mains-keys resolved spec.main mains there)
