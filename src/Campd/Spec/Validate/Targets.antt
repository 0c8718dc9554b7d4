-- ===== src/Campd/Spec/Validate/Targets.antt =====
-- The mount targets of a sidecar, and the loops that check them.
use sandcamp.Base.{
  ◌≡◌, ◌≢◌, refl, ap, ◌∙◌, ◌↔◌, Bool, true, false, not, ◌||◌, Option, none, some, List, [], ◌∷◌,
  ◌++◌, map, arith, if◌then◌else◌, Bytes, All, All-map_iff, append-nil, append_assoc, Result, ok,
  for_each, for_each_iff, guarded_iff, >>=-eq-ok, fold_each,
}
use sandcamp.Rust.Int.{u32_max}
use sandcamp.Rust.Path.Apart.{Apart, clashes_iff, Separate}
use sandcamp.Campd.Spec.{ProcessUser, named, numeric, Bind, SidecarProcess, SpecError}
use sandcamp.Campd.Spec.Text.{valid_path, valid_user_name}
use sandcamp.Campd.Spec.Validate.{
  standard_mount_targets, validate_user, check_target, validate_disk_mount, validate_bind,
  when_some,
}

abbrev pub IsMountPath : Bytes → Type 0
IsMountPath p = valid_path p false ≡ true

abbrev pub IsValidUser : ProcessUser → Type 0
IsValidUser (named name) = valid_user_name name ≡ true
IsValidUser (numeric user) = (user.uid ≢ u32_max) × (user.gid ≢ u32_max)

abbrev pub WhenSome {ℓ κ} : {A : Type ℓ} → (A → Type κ) → Option A → Type κ
WhenSome P none = Unit
WhenSome P (some a) = P a

abbrev pub IsValidBind : Bind → Type 0
IsValidBind b = IsMountPath b.source × IsMountPath b.target

abbrev pub target_of : Bind → Bytes
target_of b = b.target

abbrev pub standard_part : Bool → List Bytes
standard_part standard = if standard then standard_mount_targets else []

-- The targets of a sidecar in the order in which they are checked.
abbrev pub mount_targets : SidecarProcess → List Bytes
mount_targets p = standard_part p.standard_mounts ++ (p.disk_mounts ++ map target_of p.binds)

pub record IsValidSidecar (p : SidecarProcess) : Type 0 where
  pub rootfs : IsMountPath p.rootfs
  pub overlay_device : WhenSome IsMountPath p.overlay_device
  pub user : WhenSome IsValidUser p.user
  pub disk_mounts : All IsMountPath p.disk_mounts
  pub binds : All IsValidBind p.binds
  pub separate : Separate (standard_part p.standard_mounts) (p.disk_mounts ++ map target_of p.binds)

check_target_iff :
    (d : SpecError) (o : Bytes → SpecError) (t previous : Bytes)
    → (check_target d o t previous ≡ ok tt) ↔ Apart t previous
unfolding check_target
check_target_iff d o t previous =
    let c = clashes_iff t previous in (λ h. c.0 (ground arith), λ h. ground (arith, c.1 h))

check_targets_iff :
    (d : SpecError) (o : Bytes → SpecError) (t : Bytes) (before : List Bytes)
    → (for_each before (check_target d o t) ≡ ok tt) ↔ All (Apart t) before
check_targets_iff d o t before =
    let loop = for_each_iff before (check_target d o t) in
    let each = All-map_iff before (check_target_iff d o t) in
    (λ h. each.0 (loop.0 h), λ h. loop.1 (each.1 h))

pub validate_user_iff :
    (name : Bytes) (user : ProcessUser) → (validate_user name user ≡ ok tt) ↔ IsValidUser user
unfolding validate_user
validate_user_iff name (named user) = ground arith
validate_user_iff name (numeric user) = ground arith

pub when_some_iff {ℓ κ μ} :
    {A : Type ℓ} {E : Type κ} {P : A → Type μ} (o : Option A) (f : A → Result E (Unit {0}))
    → ((a : A) → (f a ≡ ok tt) ↔ P a)
    → (when_some o f ≡ ok tt) ↔ WhenSome P o
when_some_iff none f h = (λ _. tt, λ _. refl)
when_some_iff (some a) f h = h a

-- Both loops check a target and append it.
abbrev Adds : (valid : Type 0) (before : List Bytes) (t : Bytes) (after : List Bytes) → Type 0
Adds valid before t after = valid × All (Apart t) before × (after ≡ before ++ t ∷ [])

pub validate_disk_mount_iff :
    (name : Bytes) (before : List Bytes) (t : Bytes) (after : List Bytes)
    → (validate_disk_mount name before t ≡ ok after) ↔ Adds (IsMountPath t) before t after
unfolding validate_disk_mount
validate_disk_mount_iff name before t after =
    let whole =
      guarded_iff (valid_path t false) (SpecError.disk_target_unclean name)
        (for_each before (
          check_target (SpecError.disk_target_duplicated name t)
            (SpecError.disk_target_overlaps name t) t))
        (before ++ t ∷ []) after in
    let loop =
      check_targets_iff (SpecError.disk_target_duplicated name t)
        (SpecError.disk_target_overlaps name t) t before in
    (λ h. ((whole.0 h).0, loop.0 (whole.0 h).1, (whole.0 h).2), λ h. whole.1 (h.0, loop.1 h.1, h.2))

pub validate_bind_iff :
    (name : Bytes) (before : List Bytes) (b : Bind) (after : List Bytes)
    → (validate_bind name before b ≡ ok after) ↔ Adds (IsValidBind b) before b.target after
unfolding validate_bind
validate_bind_iff name before b after =
    let whole =
      guarded_iff (not (not (valid_path b.source false) || not (valid_path b.target false)))
        (SpecError.bind_paths_unclean name)
        (for_each before (
          check_target (SpecError.bind_target_duplicated name b.target)
            (SpecError.bind_target_overlaps name b.target) b.target))
        (before ++ b.target ∷ []) after in
    let loop =
      check_targets_iff (SpecError.bind_target_duplicated name b.target)
        (SpecError.bind_target_overlaps name b.target) b.target before in
    (
      λ h. (
        (ground (arith, (whole.0 h).0), ground (arith, (whole.0 h).0)),
        loop.0 (whole.0 h).1,
        (whole.0 h).2,
      ),
      λ h. whole.1 (ground arith, loop.1 h.1, h.2),
    )

-- A loop whose rounds each check and append one target.
module _ {A : Type 0} (Valid : A → Type 0) (target : A → Bytes)
    (round : List Bytes → A → Result SpecError (List Bytes))
    (round_iff : (before : List Bytes) (a : A) (after : List Bytes)
      → (round before a ≡ ok after) ↔ Adds (Valid a) before (target a) after) where
  pub collect_sound :
      (before : List Bytes) (xs : List A) (after : List Bytes)
      → fold_each xs before round ≡ ok after
      → All Valid xs × Separate before (map target xs) × (after ≡ before ++ map target xs)
  unfolding fold_each
  collect_sound before [] after h = (tt, tt, rw append-nil cc)
  collect_sound before (x ∷ xs) after h =
      let (next, first, rest) = >>=-eq-ok (round before x) (λ t. fold_each xs t round) h in
      let (valid, apart, same) = (round_iff before x next).0 first in
      let (valids, separate, end) = collect_sound next xs after rest in
      (
        (valid, valids),
        (apart, rw same at separate),
        end ∙ rw same (append_assoc before (target x ∷ []) (map target xs)),
      )

  pub collect_complete :
      (before : List Bytes) (xs : List A)
      → All Valid xs
      → Separate before (map target xs)
      → fold_each xs before round ≡ ok (before ++ map target xs)
  unfolding fold_each
  collect_complete before [] v s = rw append-nil
  collect_complete before (x ∷ xs) v s =
      let first = (round_iff before x (before ++ target x ∷ [])).1 (v.0, s.0, refl) in
      rw first (
        collect_complete (before ++ target x ∷ []) xs v.1 s.1
        ∙ ap ok (append_assoc before (target x ∷ []) (map target xs)))

abbrev pub itself : Bytes → Bytes
itself t = t

pub map-itself : (xs : List Bytes) → map itself xs ≡ xs
map-itself [] = refl
map-itself (x ∷ xs) = ap (λ (ys : List Bytes). x ∷ ys) (map-itself xs)
