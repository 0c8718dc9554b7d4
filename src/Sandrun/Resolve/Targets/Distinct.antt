-- ===== src/Sandrun/Resolve/Targets/Distinct.antt =====
-- The resolved mount targets of a configuration that sandrun mounts.
use sandcamp.Base.{
  Bool, true, false, ascii, map_err-ok, ◌≡◌, sym, ◌∙◌, ap, subst, List, [], ◌∷◌, ◌++◌, map, Bytes,
  All, Pairs, ok, map_err, >>=-eq-ok,
}
use sandcamp.Rust.Path.Apart.{Apart}
use sandcamp.Rust.Path.Proper.{IsName}
use sandcamp.Sandrun.Config.{Config, bind_target, validate_target_paths}
use sandcamp.Sandrun.Config.Laws.{Separate-of_validated}
use sandcamp.Sandrun.Args.Accepts.{Separate-Pairs}
use sandcamp.Sandrun.Resolve.{Names, Entry, resolve_target}
use sandcamp.Sandrun.Resolve.Plain.{IsPlain, resolve_target-IsPlain}
use sandcamp.Sandrun.Resolve.Targets.{
  unresolved, targets_invalid, inner_text, inner_path, directories, etc_files, resolve_inner_target,
  resolve_all, standard_places, resolved_targets, validate_resolved_mount_targets,
}

-- What a target resolves to: a place below the root, without a symbolic link on the way to it.
pub record IsPlace (entry : Names → Entry) (target path : Bytes) : Type 0 where
  pub names : Names
  pub resolved : resolve_target entry target ≡ ok names
  pub plain : IsPlain entry [] names
  pub proper : All IsName names
  pub text : path ≡ inner_text names

-- Each target with its place.
abbrev pub ArePlaces : (Names → Entry) → (targets paths : List Bytes) → Type 0
ArePlaces entry [] [] = Unit
ArePlaces entry (target ∷ targets) (path ∷ paths) =
    IsPlace entry target path × ArePlaces entry targets paths
ArePlaces entry _ _ = ⊥

ArePlaces-append :
    (entry : Names → Entry) (xs ps ys qs : List Bytes)
    → ArePlaces entry xs ps
    → ArePlaces entry ys qs
    → ArePlaces entry (xs ++ ys) (ps ++ qs)
ArePlaces-append entry [] [] ys qs h k = k
ArePlaces-append entry [] (p ∷ ps) ys qs h k = absurd h
ArePlaces-append entry (x ∷ xs) [] ys qs h k = absurd h
ArePlaces-append entry (x ∷ xs) (p ∷ ps) ys qs h k = (h.0, ArePlaces-append entry xs ps ys qs h.1 k)

-- The targets that are declared.
abbrev pub declared_targets : Config → List Bytes
declared_targets config = config.disk_mounts ++ (map bind_target config.binds ++ config.tmpfs)

-- The places of the standard mounts: five directories, and two files where /etc is.
abbrev pub AreStandard : (Names → Entry) → Bool → List Bytes → Type 0
AreStandard entry false paths = paths ≡ []
AreStandard entry true paths =
    (places : List Bytes) × (etc : Names) × ArePlaces entry directories places
    × (resolve_target entry (ascii "/etc") ≡ ok etc)
    × (paths
        ≡ places
          ++ inner_text (etc ++ ascii "resolv.conf" ∷ [])
            ∷ inner_text (etc ++ ascii "hosts" ∷ [])
            ∷ [])

inner_path-text :
    (names : Names) (target path : Bytes)
    → inner_path names target ≡ ok path
    → path ≡ inner_text names
unfolding inner_path
inner_path-text [] target path e = cc
inner_path-text (n ∷ ns) target path e = cc

module _ (entry : Names → Entry) where
  resolve_inner_target-IsPlace :
      (target path : Bytes)
      → resolve_inner_target entry target ≡ ok path
      → IsPlace entry target path
  unfolding resolve_inner_target
  resolve_inner_target-IsPlace target path e =
      let (names, first, later) =
        >>=-eq-ok (map_err unresolved (resolve_target entry target)) _ e in
      let found = map_err-ok unresolved (resolve_target entry target) names first in
      let (plain, proper) = resolve_target-IsPlain entry target names found in
      record {
        names = names;
        resolved = found;
        plain = plain;
        proper = proper;
        text = inner_path-text names target path later;
      }

  resolve_all-ArePlaces :
      (targets paths : List Bytes)
      → resolve_all entry targets ≡ ok paths
      → ArePlaces entry targets paths
  unfolding resolve_all
  resolve_all-ArePlaces [] paths e =
      let same : [] ≡ paths = cc in subst (ArePlaces entry []) same tt
  resolve_all-ArePlaces (target ∷ rest) paths e =
      let (first, found, e₁) = >>=-eq-ok (resolve_inner_target entry target) _ e in
      let (others, later, e₂) = >>=-eq-ok (resolve_all entry rest) _ e₁ in
      let same : first ∷ others ≡ paths = cc in
      subst (ArePlaces entry (target ∷ rest)) same
        (resolve_inner_target-IsPlace target first found, resolve_all-ArePlaces rest others later)

  standard_places-AreStandard :
      (standard : Bool) (paths : List Bytes)
      → standard_places entry standard ≡ ok paths
      → AreStandard entry standard paths
  unfolding standard_places etc_files
  standard_places-AreStandard false paths e = cc
  standard_places-AreStandard true paths e =
      let (places, f₁, e₁) = >>=-eq-ok (resolve_all entry directories) _ e in
      let (files, f₂, e₂) = >>=-eq-ok (etc_files entry) _ e₁ in
      let (etc, g₁, h₁) =
        >>=-eq-ok (map_err unresolved (resolve_target entry (ascii "/etc"))) _ f₂ in
      let (directory, g₂, h₂) = >>=-eq-ok (inner_path etc (ascii "/etc")) _ h₁ in
      let (resolv_conf, g₃, h₃) =
        >>=-eq-ok (inner_path (etc ++ ascii "resolv.conf" ∷ []) (ascii "/etc/resolv.conf")) _ h₂ in
      let (hosts, g₄, h₄) =
        >>=-eq-ok (inner_path (etc ++ ascii "hosts" ∷ []) (ascii "/etc/hosts")) _ h₃ in
      let first = inner_path-text (etc ++ ascii "resolv.conf" ∷ []) _ resolv_conf g₃ in
      let second = inner_path-text (etc ++ ascii "hosts" ∷ []) _ hosts g₄ in
      let same : resolv_conf ∷ hosts ∷ [] ≡ files = cc in
      let whole : places ++ files ≡ paths = cc in
      (
        places,
        etc,
        resolve_all-ArePlaces directories places f₁,
        map_err-ok unresolved (resolve_target entry (ascii "/etc")) etc g₁,
        sym whole
            ∙ ap (λ t. places ++ t)
                (sym same
                  ∙ (ap (λ t. t ∷ hosts ∷ []) first
                      ∙ ap (λ t. inner_text (etc ++ ascii "resolv.conf" ∷ []) ∷ t ∷ []) second)),
      )

  -- What a configuration whose targets are validated mounts on.
  pub record Mountable (config : Config) : Type 0 where
    pub standard : List Bytes
    pub declared : List Bytes
    pub resolved : resolved_targets entry config ≡ ok (standard ++ declared)
    pub standards : AreStandard entry config.standard_mounts standard
    pub places : ArePlaces entry (declared_targets config) declared
    pub apart : Pairs Apart (standard ++ declared)

  validated-Apart :
      (targets : List Bytes) → validate_target_paths targets ≡ ok tt → Pairs Apart targets
  unfolding validate_target_paths
  validated-Apart targets e = Separate-Pairs targets (Separate-of_validated [] targets e)

  -- A configuration that passes has targets that are all resolved: each of the declared ones, in
  -- order, to a place below the root without a symbolic link on the way, those of the standard
  -- mounts to their places, the two files of /etc to names where /etc is; and no two of all these
  -- places are equal or nested.
  pub validate_resolved_mount_targets-Mountable :
      (config : Config) → validate_resolved_mount_targets entry config ≡ ok tt → Mountable config
  unfolding validate_resolved_mount_targets resolved_targets
  validate_resolved_mount_targets-Mountable config e =
      let (targets, found, valid) = >>=-eq-ok (resolved_targets entry config) _ e in
      let (standard, f₁, e₁) = >>=-eq-ok (standard_places entry config.standard_mounts) _ found in
      let (disks, f₂, e₂) = >>=-eq-ok (resolve_all entry config.disk_mounts) _ e₁ in
      let (binds, f₃, e₃) = >>=-eq-ok (resolve_all entry (map bind_target config.binds)) _ e₂ in
      let (tmpfs, f₄, e₄) = >>=-eq-ok (resolve_all entry config.tmpfs) _ e₃ in
      let same : standard ++ (disks ++ (binds ++ tmpfs)) ≡ targets = cc in
      record {
        standard = standard;
        declared = disks ++ (binds ++ tmpfs);
        resolved = found ∙ ap ok (sym same);
        standards = standard_places-AreStandard config.standard_mounts standard f₁;
        places =
            ArePlaces-append entry config.disk_mounts disks
              (map bind_target config.binds ++ config.tmpfs) (binds ++ tmpfs)
              (resolve_all-ArePlaces config.disk_mounts disks f₂)
              (ArePlaces-append entry (map bind_target config.binds) binds config.tmpfs tmpfs
                (resolve_all-ArePlaces (map bind_target config.binds) binds f₃)
                (resolve_all-ArePlaces config.tmpfs tmpfs f₄));
        apart = subst (Pairs Apart) (sym same) (
            validated-Apart targets
              (map_err-ok targets_invalid (validate_target_paths targets) tt valid));
      }
